-- ===== src/Input/Ownership/Tests.antt =====
-- Runs of the controllers' owner (services/hearthdeck-input/src/ownership.rs).
use hearthdeck.Prelude.{
  ◌+◌, ◌*◌, ◌≤◌, ◌≡◌, refl, ◌⊎◌, true, false, some, List, [], ◌∷◌, arith, contains, lookup, insert,
  delete, insert_item, length,
}
use hearthdeck.Input.{guide, south, dpad_down, start, control_eq, move_down, toggle_overlay}
use hearthdeck.Input.Ownership
use hearthdeck.Input.Ownership.{
  Owner, frontend, overlay, Ownership, Pad, Signal, act, summon_keyboard, default, default_pad,
  button, button_pad, set_owner, armed, tick,
}
use hearthdeck.Input.Ownership.States
use hearthdeck.Input.Ownership.States.{
  Operation, sets_owner, presses, ticks, Directions, tick-Directions, set_owner-button,
}
use hearthdeck.Input.Ownership.Arming.{
  PadEvent, pad_step, edge, poll, pad_run, neutral_poll, pad_run_disarmed,
}
use hearthdeck.Input.Ownership.Guide.{Edge, edges, guide_exclusive}
use hearthdeck.Input.Ownership.Repeat.{polls, Every, polls_rate}

abbrev history : List Operation
history =
    sets_owner frontend
    ∷ presses 1 south true 0 false
    ∷ presses 1 south false 5 false
    ∷ ticks 8
    ∷ presses 1 dpad_down true 10 false
    ∷ []

history_ticks : (tick (States.run default history) 500).1 ≡ act move_down ∷ []
unfolding States.run States.apply tick Ownership.tick_pads Ownership.tick_pad set_owner
    Ownership.suspend button button_pad Ownership.respond Ownership.on_frontend
    Ownership.navigate_by lookup insert contains delete insert_item Ownership.keyboard_chord
    Ownership.lone_select
history_ticks = refl

set_owner-button_example :
    ((button (set_owner default overlay) 1 south true 7 false).1 ≡ [])
    × (armed (set_owner default overlay) 1 ≡ false)
set_owner-button_example = set_owner-button default overlay 1 south true 7 false refl

abbrev held_south : Pad
held_south = record default_pad { held = south ∷ [] }

abbrev south_history : List PadEvent
south_history = poll 3 ∷ edge dpad_down true 4 false ∷ edge south false 5 false ∷ poll 9 ∷ []

south_is_held : neutral_poll frontend held_south south_history ≡ false
unfolding neutral_poll pad_step button_pad Ownership.respond Ownership.tick_pad contains delete
    insert_item
south_is_held = refl

pad_run_disarmed_example :
    ((pad_run frontend held_south south_history).1 ≡ [])
    × ((pad_run frontend held_south south_history).0.armed ≡ false)
pad_run_disarmed_example = pad_run_disarmed frontend held_south south_history refl south_is_held

abbrev armed_pad : Pad
armed_pad = record default_pad { armed = true }

abbrev start_edge : List Edge
start_edge = (start, true, 2, true) ∷ []

guide_exclusive_example :
    let pressed = button_pad frontend armed_pad guide true 1 true in
    let during = edges frontend pressed.0 start_edge in
    let released = button_pad frontend during.0 guide false 3 true in
    (pressed.1 ≡ [])
    × (((during.1 ≡ []) × (released.1 ≡ act toggle_overlay ∷ []))
        ⊎ ((during.1 ≡ summon_keyboard ∷ []) × (released.1 ≡ [])))
unfolding contains
guide_exclusive_example =
    guide_exclusive frontend armed_pad 1 3 true true start_edge refl refl (refl, tt)

abbrev repeating : Pad
repeating = record default_pad {
  held = dpad_down ∷ [];
  armed = true;
  repeat = some (move_down, 400);
}

polls_rate_example :
    Every move_down (polls repeating (390 ∷ 410 ∷ 600 ∷ [])).1
    × ((length (polls repeating (390 ∷ 410 ∷ 600 ∷ [])).1 ≡ 0)
        ⊎ (400 + 180 * length (polls repeating (390 ∷ 410 ∷ 600 ∷ [])).1 ≤ 600 + 180))
polls_rate_example =
    polls_rate repeating move_down 400 600 (390 ∷ 410 ∷ 600 ∷ []) refl refl
      (omega arith, (omega arith, (omega arith, tt)))
