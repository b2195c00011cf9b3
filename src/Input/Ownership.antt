-- ===== src/Input/Ownership.antt =====
-- Who owns the controllers, and what a controller's button means to the owner
-- (services/hearthdeck-input/src/ownership.rs). A pad's own part of `button` and of `tick` is a
-- function of the pad; times are the milliseconds of the caller, below the range of `u64`.
pub mod Pads
pub mod Arming
pub mod Guide
pub mod Repeat
pub mod States
mod Tests
use hearthdeck.Prelude.{
  ℕ, ◌+◌, Bool, true, false, not, ◌&&◌, ◌||◌, if◌then◌else◌, is_some_and, leb, Option, none, some,
  List, [], ◌∷◌, ◌++◌, map, ◌=?◌, nat_eq, contains, delete, insert_item, lookup, insert, remove,
}
use hearthdeck.Input.{
  Control, other, guide, pointer_left, pointer_right, pointer_up, pointer_down, south, east, west,
  north, left_bumper, right_bumper, start, select, dpad_left, dpad_right, dpad_up, dpad_down,
  stick_left, stick_right, stick_up, stick_down, left_trigger, right_trigger, control_eq, Action,
  move_up, move_down, move_left, move_right, confirm, back, search_box, context_menu, prev_group,
  next_group, prev_tab, next_tab, filter_panel, open_keyboard, toggle_overlay, action_eq,
}

pub data Owner : Type 0 where
  observe frontend text_entry desktop overlay keyboard : Owner

abbrev pub same_owner : Owner → Owner → Bool
same_owner observe observe = true
same_owner frontend frontend = true
same_owner text_entry text_entry = true
same_owner desktop desktop = true
same_owner overlay overlay = true
same_owner keyboard keyboard = true
same_owner _ _ = false

pub data Signal : Type 0 where
  act : Action → Signal
  summon_keyboard : Signal

pub record Pad : Type 0 where
  pub held : List Control
  pub armed : Bool
  pub guide_used : Bool
  pub select_used : Bool
  pub start_used : Bool
  pub repeat : Option (Action × ℕ)

abbrev pub default_pad : Pad
default_pad = record {
  held = [];
  armed = false;
  guide_used = false;
  select_used = false;
  start_used = false;
  repeat = none;
}

pub record Ownership : Type 0 where
  pub owner : Owner
  pub pads : List (ℕ × Pad)

abbrev pub default : Ownership
default = record { owner = observe; pads = [] }

abbrev pub suspend_pad : Pad → Pad
suspend_pad p = record p {
  armed = false;
  repeat = none;
  guide_used = true;
  select_used = true;
  start_used = true;
}

abbrev on_second : (Pad → Pad) → ℕ × Pad → ℕ × Pad
on_second f (id, p) = (id, f p)

unfoldable pub suspend : Ownership → Ownership
suspend o = record o { pads = map (on_second suspend_pad) o.pads }

unfoldable pub set_owner : Ownership → Owner → Ownership
set_owner o owner = if same_owner o.owner owner then o else suspend (record o { owner = owner })

unfoldable pub remove_pad : Ownership → ℕ → Ownership
remove_pad o id = record o { pads = remove id o.pads }

abbrev pub pad_of : Option Pad → Pad
pad_of none = default_pad
pad_of (some p) = p

unfoldable pub armed : Ownership → ℕ → Bool
armed o id = is_some_and (lookup id o.pads) (λ p. p.armed)

unfoldable pub guide_held : Ownership → ℕ → Bool
guide_held o id = is_some_and (lookup id o.pads) (λ p. contains guide p.held)

-- `fn action`.
abbrev pub action : Control → Option Action
action south = some confirm
action east = some back
action west = some context_menu
action north = some search_box
action left_bumper = some prev_group
action right_bumper = some next_group
action left_trigger = some prev_tab
action right_trigger = some next_tab
action dpad_up = some move_up
action stick_up = some move_up
action dpad_down = some move_down
action stick_down = some move_down
action dpad_left = some move_left
action stick_left = some move_left
action dpad_right = some move_right
action stick_right = some move_right
action _ = none

abbrev pub is_move : Action → Bool
is_move move_up = true
is_move move_down = true
is_move move_left = true
is_move move_right = true
is_move _ = false

abbrev repeats : Option (Action × ℕ) → Action → Bool
repeats none a = false
repeats (some (active, at)) a = active =? a

-- The end of `button`: the control's action, and its repeat.
unfoldable pub navigate_by : Pad → Option Action → Bool → ℕ → Pad × List Signal
navigate_by p none pressed now = (p, [])
navigate_by p (some a) pressed now =
    if not pressed
    then (if repeats p.repeat a then record p { repeat = none } else p, [])
    else (if is_move a then record p { repeat = some (a, now + 400) } else p, act a ∷ [])

-- The guide button on its own: a press opens a chord, a release that no chord used toggles.
unfoldable pub on_guide : Pad → Bool → Pad × List Signal
on_guide p pressed =
    if pressed
    then (record p { guide_used = false; repeat = none }, [])
    else if not p.guide_used
    then (p, act toggle_overlay ∷ [])
    else (p, [])

unfoldable pub on_keyboard_chord : Owner → Pad → Bool → Pad × List Signal
on_keyboard_chord owner p keyboard_enabled =
    if not p.guide_used
      && keyboard_enabled
      && (same_owner owner observe || same_owner owner desktop)
    then (record p { guide_used = true }, summon_keyboard ∷ [])
    else (p, [])

-- The frontend's start and select chord; what it leaves goes on to `navigate_by`.
abbrev pub rearm : Pad → Control → Bool → Pad
rearm p control pressed = record p {
  start_used = if pressed && control =? start then false else p.start_used;
  select_used = if pressed && control =? select then false else p.select_used;
}

-- The tests of the two chords that the frontend knows.
unfoldable pub keyboard_chord : Pad → Control → Bool → Bool
keyboard_chord p control pressed =
    pressed
    && (control =? start || control =? select)
    && contains start p.held
    && contains select p.held
    && not p.start_used
    && not p.select_used

unfoldable pub lone_select : Pad → Control → Bool → Bool
lone_select p control pressed = control =? select && not pressed && not p.select_used

unfoldable pub on_frontend : Pad → Control → Bool → ℕ → Pad × List Signal
on_frontend pad control pressed now =
    let p = rearm pad control pressed in
    if keyboard_chord p control pressed
    then (record p { start_used = true; select_used = true }, act open_keyboard ∷ [])
    else if lone_select p control pressed
    then (p, act filter_panel ∷ [])
    else navigate_by p (action control) pressed now

abbrev pub hold : Pad → Control → Bool → Pad
hold p control pressed = record p {
  held = if pressed then insert_item control p.held else delete control p.held;
}

-- Whether `insert` or `remove` on the set reports a change.
abbrev pub changes : Pad → Control → Bool → Bool
changes p control pressed =
    if pressed then not (contains control p.held) else contains control p.held

-- The rest of `button`, for a pad whose held set changed while it was armed.
unfoldable pub respond : Owner → Pad → Control → Bool → ℕ → Bool → Pad × List Signal
respond owner p control pressed now keyboard_enabled =
    if control =? guide
    then on_guide p pressed
    else if pressed && control =? west && contains guide p.held
    then on_keyboard_chord owner p keyboard_enabled
    else if contains guide p.held
    then (p, [])
    else if same_owner owner text_entry
    then (p, if control =? east && pressed then act back ∷ [] else [])
    else if not (same_owner owner frontend || same_owner owner overlay)
    then (p, [])
    else if same_owner owner frontend
    then on_frontend p control pressed now
    else navigate_by p (action control) pressed now

unfoldable pub button_pad : Owner → Pad → Control → Bool → ℕ → Bool → Pad × List Signal
button_pad owner pad control pressed now keyboard_enabled =
    if not (changes pad control pressed) || not pad.armed
    then (hold pad control pressed, [])
    else respond owner (hold pad control pressed) control pressed now keyboard_enabled

unfoldable pub button : Ownership → ℕ → Control → Bool → ℕ → Bool → Ownership × List Signal
button o id control pressed now keyboard_enabled =
    let (p, signals) =
      button_pad o.owner (pad_of (lookup id o.pads)) control pressed now keyboard_enabled in
    (record o { pads = insert id p o.pads }, signals)

abbrev is_empty : List Control → Bool
is_empty [] = true
is_empty _ = false

abbrev fire : Pad → Option (Action × ℕ) → ℕ → Pad × List Signal
fire p none now = (p, [])
fire p (some (a, at)) now =
    if leb at now then (record p { repeat = some (a, now + 180) }, act a ∷ []) else (p, [])

unfoldable pub tick_pad : Pad → ℕ → Pad × List Signal
tick_pad pad now =
    let p = if not pad.armed && is_empty pad.held then record pad { armed = true } else pad in
    if p.armed then fire p p.repeat now else (p, [])

unfoldable pub tick_pads : List (ℕ × Pad) → ℕ → List (ℕ × Pad) × List Signal
tick_pads [] now = ([], [])
tick_pads ((id, pad) ∷ pads) now =
    let (p, signals) = tick_pad pad now in
    let (rest, more) = tick_pads pads now in ((id, p) ∷ rest, signals ++ more)

unfoldable pub tick : Ownership → ℕ → Ownership × List Signal
tick o now = let (pads, signals) = tick_pads o.pads now in (record o { pads = pads }, signals)
