-- ===== src/Input/Mapper.antt =====
-- The mapping of controllers to a virtual keyboard and mouse
-- (services/hearthdeck-input/src/mapping.rs). An `i32` is an integer; the products that the code
-- forms stay in range for the normalized values -1000 to 1000.
pub mod Counts
pub mod Keys
pub mod Release
pub mod Mirror
pub mod Removal
mod Tests
use hearthdeck.Prelude.{
  ℕ, ◌+◌, ◌-◌, Bool, true, false, not, ◌&&◌, ◌||◌, if◌then◌else◌, leb, ◌==◌, Option, none, some,
  List, [], ◌∷◌, ◌++◌, map, ◌=?◌, nat_eq, lookup, insert, remove,
}
use hearthdeck.Prelude.Int.{ℤ, pos, negsuc, ◌+ℤ◌, ◌*ℤ◌, ltb_ℤ, div_ℤ, abs_ℤ}
use hearthdeck.Input.{
  Control, other, guide, pointer_left, pointer_right, pointer_up, pointer_down, south, east, west,
  north, left_bumper, right_bumper, start, select, dpad_left, dpad_right, dpad_up, dpad_down,
  stick_left, stick_right, stick_up, stick_down, left_trigger, right_trigger, source_eq, OutputKey,
  enter, escape, space, tab, page_up, page_down, left, right, up, down, mouse_left, mouse_right,
  output_key_eq,
}

pub data OutputEvent : Type 0 where
  key : OutputKey → Bool → OutputEvent
  mouse_move : ℤ → ℤ → OutputEvent

pub record Mapper : Type 0 where
  pub active : Bool
  pub sources : List ((ℕ × Control) × OutputKey)
  pub output_counts : List (OutputKey × ℕ)
  pub right_sticks : List (ℕ × (ℤ × ℤ))

abbrev pub default : Mapper
default = record { active = false; sources = []; output_counts = []; right_sticks = [] }

abbrev pub deadzone : ℕ
deadzone = 350

unfoldable pub output_for : Control → Option OutputKey
output_for south = some enter
output_for start = some enter
output_for east = some escape
output_for west = some space
output_for north = some tab
output_for select = some tab
output_for left_bumper = some page_up
output_for right_bumper = some page_down
output_for dpad_left = some left
output_for stick_left = some left
output_for dpad_right = some right
output_for stick_right = some right
output_for dpad_up = some up
output_for stick_up = some up
output_for dpad_down = some down
output_for stick_down = some down
output_for left_trigger = some mouse_right
output_for right_trigger = some mouse_left
output_for _ = none

unfoldable pub mouse_delta : ℤ → ℤ
mouse_delta value = if leb (abs_ℤ value) deadzone then pos 0 else div_ℤ (value *ℤ pos 14) 1000

-- `drain` and the release of each key.
unfoldable pub releases : List (OutputKey × ℕ) → List OutputEvent
releases [] = []
releases ((k, _) ∷ counts) = key k false ∷ releases counts

unfoldable pub set_active : Mapper → Bool → Mapper × List OutputEvent
set_active m true = (record m { active = true }, [])
set_active m false =
    if m.active
    then (
      record { active = false; sources = []; output_counts = []; right_sticks = [] },
      releases m.output_counts,
    )
    else (m, [])

abbrev pub count_of : Option ℕ → ℕ
count_of none = 0
count_of (some n) = n

-- The last part of `release_source`: `*count -= 1`, which the invariant keeps from underflow.
unfoldable pub drop_count : Mapper → OutputKey → Option ℕ → Mapper × List OutputEvent
drop_count m k none = (m, [])
drop_count m k (some count) =
    if count - 1 == 0
    then (record m { output_counts = remove k m.output_counts }, key k false ∷ [])
    else (record m { output_counts = insert k (count - 1) m.output_counts }, [])

unfoldable pub release_found : Mapper → (ℕ × Control) → Option OutputKey → Mapper × List OutputEvent
release_found m source none = (m, [])
release_found m source (some k) =
    drop_count (record m { sources = remove source m.sources }) k (lookup k m.output_counts)

unfoldable pub release_source : Mapper → (ℕ × Control) → Mapper × List OutputEvent
release_source m source = release_found m source (lookup source m.sources)

-- `*entry(key).or_default() += 1`, for a source that was not in the map.
unfoldable pub add_count : Mapper → OutputKey → Mapper × List OutputEvent
add_count m k =
    let count = count_of (lookup k m.output_counts) + 1 in
    (
      record m { output_counts = insert k count m.output_counts },
      if count == 1 then key k true ∷ [] else [],
    )

unfoldable pub press_found :
    Mapper → (ℕ × Control) → OutputKey → Option OutputKey → Mapper × List OutputEvent
press_found m source k (some old) = (record m { sources = insert source k m.sources }, [])
press_found m source k none = add_count (record m { sources = insert source k m.sources }) k

unfoldable pub set_source : Mapper → (ℕ × Control) → OutputKey → Bool → Mapper × List OutputEvent
set_source m source k pressed =
    if pressed then press_found m source k (lookup source m.sources) else release_source m source

unfoldable pub button_for :
    Mapper → ℕ → Control → Option OutputKey → Bool → Mapper × List OutputEvent
button_for m device control none pressed = (m, [])
button_for m device control (some k) pressed = set_source m (device, control) k pressed

unfoldable pub button : Mapper → ℕ → Control → Bool → Mapper × List OutputEvent
button m device control pressed =
    if not m.active then (m, []) else button_for m device control (output_for control) pressed

unfoldable pub directional_axis : Mapper → ℕ → Control → Control → ℤ → Mapper × List OutputEvent
directional_axis m device negative positive value =
    if not m.active
    then (m, [])
    else let (m', events) = button m device negative (ltb_ℤ value (negsuc 349)) in
      let (m'', more) = button m' device positive (ltb_ℤ (pos deadzone) value) in
      (m'', events ++ more)

abbrev stick_of : Option (ℤ × ℤ) → ℤ × ℤ
stick_of none = (pos 0, pos 0)
stick_of (some position) = position

unfoldable pub right_stick_axis : Mapper → ℕ → Bool → ℤ → Mapper
right_stick_axis m device horizontal value =
    if not m.active
    then m
    else let (x, y) = stick_of (lookup device m.right_sticks) in
      record m {
        right_sticks = insert device (if horizontal then (value, y) else (x, value)) m.right_sticks;
      }

unfoldable pub stick_sum : List (ℕ × (ℤ × ℤ)) → ℤ → ℤ → ℤ × ℤ
stick_sum [] sum_x sum_y = (sum_x, sum_y)
stick_sum ((_, (x, y)) ∷ sticks) sum_x sum_y =
    stick_sum sticks (sum_x +ℤ mouse_delta x) (sum_y +ℤ mouse_delta y)

abbrev is_zero : ℤ → Bool
is_zero a = abs_ℤ a == 0

unfoldable pub mouse_tick : Mapper → Option OutputEvent
mouse_tick m =
    if not m.active
    then none
    else let (x, y) = stick_sum m.right_sticks (pos 0) (pos 0) in
      if not (is_zero x) || not (is_zero y) then some (mouse_move x y) else none

-- The keys of the sources of one device.
unfoldable pub sources_of : ℕ → List ((ℕ × Control) × OutputKey) → List (ℕ × Control)
sources_of device [] = []
sources_of device (((d, c), _) ∷ sources) =
    if d == device then (d, c) ∷ sources_of device sources else sources_of device sources

unfoldable pub release_all : Mapper → List (ℕ × Control) → Mapper × List OutputEvent
release_all m [] = (m, [])
release_all m (source ∷ sources) =
    let (m', events) = release_source m source in
    let (m'', more) = release_all m' sources in (m'', events ++ more)

unfoldable pub remove_device : Mapper → ℕ → Mapper × List OutputEvent
remove_device m device =
    release_all (record m { right_sticks = remove device m.right_sticks })
      (sources_of device m.sources)
