-- ===== src/Input/Broker/Poll.antt =====
-- What a poll of the controllers collects (services/hearthdeck-input/src/broker.rs, `poll`): the
-- events of every pad, the pads that are gone, and the pointer's movement. What the kernel has for a
-- pad is a parameter. The wait for the keyboard's process and the delivery of the signals, which may
-- start one, are left out.
use hearthdeck.Prelude.{
  ℕ, Bool, true, false, not, ◌&&◌, if◌then◌else◌, ◌==◌, Option, none, some, List, [], ◌∷◌, ◌++◌,
  ◌>>=◌,
}
use hearthdeck.Prelude.Int.{ℤ, pos, negsuc}
use hearthdeck.Input.{Control}
use hearthdeck.Input.Ownership
use hearthdeck.Input.Ownership.{Ownership, Signal}
use hearthdeck.Input.Mapper
use hearthdeck.Input.Mapper.{Mapper, OutputEvent}
use hearthdeck.Input.Axis.{
  KeyCode, btn_mode, AxisCode, key_control, axis_controls, map_key, map_axis, nonzero,
}
use hearthdeck.Input.Broker.{Platform, Pad, Broker, emit_mapped, emit_events, session_has_focus}

pub data KernelEvent : Type 0 where
  key_event : KeyCode → ℤ → KernelEvent
  axis_event : AxisCode → ℤ → KernelEvent
  other_event : KernelEvent

-- What `fetch_events` returns: events, nothing yet, or another error.
pub data Fetched : Type 0 where
  events : List KernelEvent → Fetched
  would_block : Fetched
  gone : Fetched

abbrev pub is_value : ℕ → ℤ → Bool
is_value n (pos m) = m == n
is_value n (negsuc _) = false

abbrev pub is_mode : KeyCode → Bool
is_mode btn_mode = true
is_mode _ = false

-- The owner's buttons for the controls of an axis, in order.
unfoldable pub press_controls :
    Ownership → ℕ → List (Control × Bool) → ℕ → Bool → Ownership × List Signal
press_controls o id [] now enabled = (o, [])
press_controls o id ((control, pressed) ∷ rest) now enabled =
    let (o', signals) = Ownership.button o id control pressed now enabled in
    let (o'', more) = press_controls o' id rest now enabled in (o'', signals ++ more)

module _ (w : Platform) where
  -- The guide's press lets go of the keys that the pad holds.
  unfoldable pub let_go : Broker w → ℕ → Bool → Option (Broker w)
  let_go b id pressed =
      if pressed then emit_mapped w b (Mapper.remove_device b.mapper id) else some b

  -- The mapper's part of an event, for a pad that was armed before it.
  unfoldable pub emit_armed : Broker w → ℕ → Bool → Mapper × List OutputEvent → Option (Broker w)
  emit_armed b id armed mapped =
      if armed && not (Ownership.guide_held b.state id) then emit_mapped w b mapped else some b

  unfoldable pub on_key : Broker w → ℕ → Bool → KeyCode → ℤ → Option (Broker w × List Signal)
  on_key b id enabled code value = do
    let armed = Ownership.armed b.state id
    let (state, signals) =
        Ownership.button b.state id (key_control code) (nonzero value) b.now enabled
    b' ← let_go (record b { state = state }) id (is_mode code && is_value 1 value)
    b'' ← emit_armed b' id armed (map_key b'.mapper id code value)
    some (b'', signals)

  unfoldable pub on_axis : Broker w → Pad w → Bool → AxisCode → ℤ → Option (Broker w × List Signal)
  on_axis b p enabled code value = do
    let armed = Ownership.armed b.state p.id
    let (state, signals) =
        press_controls b.state p.id (axis_controls (p.ranges code) code value) b.now enabled
    b' ←
        emit_armed (record b { state = state }) p.id armed
          (map_axis b.mapper p.id code value (p.ranges code))
    some (b', signals)

  -- A key that repeats, of value 2, is passed over.
  unfoldable pub on_event : Broker w → Pad w → Bool → KernelEvent → Option (Broker w × List Signal)
  on_event b p enabled (key_event code value) =
      if is_value 2 value then some (b, []) else on_key b p.id enabled code value
  on_event b p enabled (axis_event code value) = on_axis b p enabled code value
  on_event b p enabled other_event = some (b, [])

  unfoldable pub on_events :
      Broker w → Pad w → Bool → List KernelEvent → Option (Broker w × List Signal)
  on_events b p enabled [] = some (b, [])
  on_events b p enabled (e ∷ es) = do
    (b', signals) ← on_event b p enabled e
    (b'', more) ← on_events b' p enabled es
    some (b'', signals ++ more)

  -- One pad: the broker, its signals, and the pad if it is gone.
  unfoldable pub on_fetched :
      Broker w → Pad w → Bool → Fetched → Option (Broker w × List Signal × List ℕ)
  on_fetched b p enabled (events es) = do
    (b', signals) ← on_events b p enabled es
    some (b', signals, [])
  on_fetched b p enabled would_block = some (b, [], [])
  on_fetched b p enabled gone = some (b, [], p.id ∷ [])

  unfoldable pub on_pads :
      Broker w → List (Pad w) → (ℕ → Fetched) → Bool → Option (Broker w × List Signal × List ℕ)
  on_pads b [] fetched enabled = some (b, [], [])
  on_pads b (p ∷ pads) fetched enabled = do
    (b', signals, left) ← on_fetched b p enabled (fetched p.id)
    (b'', more, others) ← on_pads b' pads fetched enabled
    some (b'', signals ++ more, left ++ others)

  unfoldable pub drop_pad : ℕ → List (Pad w) → List (Pad w)
  drop_pad id [] = []
  drop_pad id (p ∷ pads) = if not (p.id == id) then p ∷ drop_pad id pads else drop_pad id pads

  unfoldable pub forget : Broker w → List ℕ → Option (Broker w)
  forget b [] = some b
  forget b (id ∷ ids) = do
    let left = record b { pads = drop_pad id b.pads; state = Ownership.remove_pad b.state id }
    b' ← emit_mapped w left (Mapper.remove_device left.mapper id)
    forget b' ids

  -- The middle of `poll`: its signals, before they are delivered.
  unfoldable pub collect : Broker w → (ℕ → Fetched) → Option (Broker w × List Signal)
  collect b fetched = do
    (b', signals, left) ← on_pads b b.pads fetched (b.mode.retro_osk && session_has_focus w b)
    b'' ← forget b' left
    let (state, ticks) = Ownership.tick b''.state b.now
    some (record b'' { state = state }, signals ++ ticks)

  -- The end of `poll`: `due` is whether 16 ms have passed since the last movement.
  abbrev pub emit_move : Broker w → Option OutputEvent → Option (Broker w)
  emit_move b none = some b
  emit_move b (some event) = do
    output ← emit_events w b.output (event ∷ [])
    some (record b { output = output })

  unfoldable pub move_pointer : Broker w → Bool → Option (Broker w)
  move_pointer b due = if due then emit_move b (Mapper.mouse_tick b.mapper) else some b
