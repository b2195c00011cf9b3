-- ===== src/Input/Axis.antt =====
-- What the broker reads from a controller's keys and axes (`map_key`, `map_axis` and the normalized
-- axes of services/hearthdeck-input/src/linux.rs; `key_control` and `axis_controls` of
-- services/hearthdeck-input/src/broker.rs). The codes of the kernel are those that the code names,
-- and `key_code` and `axis_code` for the others. A value is an `i32`, and the products in `i64` stay
-- in range for every `i32`.
pub mod Bounds
pub mod Agree
mod Tests
use hearthdeck.Prelude.{
  ℕ, Bool, true, false, if◌then◌else◌, ltb, Option, none, some, List, [], ◌∷◌, ◌++◌, not, ◌&&◌,
}
use hearthdeck.Prelude.Int.{ℤ, pos, negsuc, ◌+ℤ◌, ◌-ℤ◌, ◌*ℤ◌, ltb_ℤ, div_ℤ, clamp_ℤ, pos_part}
use hearthdeck.Input.{
  Control, other, guide, pointer_left, pointer_right, pointer_up, pointer_down, south, east, west,
  north, left_bumper, right_bumper, start, select, dpad_left, dpad_right, dpad_up, dpad_down,
  stick_left, stick_right, stick_up, stick_down, left_trigger, right_trigger,
}
use hearthdeck.Input.Mapper.{OutputEvent, Mapper, button, directional_axis, right_stick_axis}

pub data KeyCode : Type 0 where
  btn_mode btn_south btn_east btn_west btn_north btn_tl btn_tr btn_start btn_select : KeyCode
  btn_tl2 btn_tr2 btn_dpad_up btn_dpad_down btn_dpad_left btn_dpad_right : KeyCode
  key_code : ℕ → KeyCode

pub data AxisCode : Type 0 where
  abs_x abs_y abs_rx abs_ry abs_hat0x abs_hat0y abs_z abs_rz : AxisCode
  axis_code : ℕ → AxisCode

pub record AxisRange : Type 0 where
  pub minimum : ℤ
  pub maximum : ℤ

-- A value scaled to a half of the range, which is positive; the result is clamped.
abbrev pub scaled : ℤ → ℤ → ℤ → ℤ → ℤ
scaled offset width low high =
    if ltb_ℤ (pos 0) width
    then clamp_ℤ (div_ℤ (offset *ℤ pos 1000) (pos_part width)) low high
    else pos 0

unfoldable pub normalize_centered : ℤ → Option AxisRange → ℤ
normalize_centered value none = clamp_ℤ value (negsuc 0) (pos 1) *ℤ pos 1000
normalize_centered value (some range) =
    scaled (value -ℤ div_ℤ (range.minimum +ℤ range.maximum) 2)
      (div_ℤ (range.maximum -ℤ range.minimum) 2) (negsuc 999) (pos 1000)

unfoldable pub normalize_trigger : ℤ → Option AxisRange → ℤ
normalize_trigger value none = if ltb_ℤ (pos 0) value then pos 1000 else pos 0
normalize_trigger value (some range) =
    scaled (value -ℤ range.minimum) (range.maximum -ℤ range.minimum) (pos 0) (pos 1000)

-- The key of the mapper's `match code`.
unfoldable pub mapped_key : KeyCode → Option Control
mapped_key btn_south = some south
mapped_key btn_east = some east
mapped_key btn_west = some west
mapped_key btn_north = some north
mapped_key btn_tl = some left_bumper
mapped_key btn_tr = some right_bumper
mapped_key btn_start = some start
mapped_key btn_select = some select
mapped_key btn_dpad_left = some dpad_left
mapped_key btn_dpad_right = some dpad_right
mapped_key btn_dpad_up = some dpad_up
mapped_key btn_dpad_down = some dpad_down
mapped_key btn_tl2 = some left_trigger
mapped_key btn_tr2 = some right_trigger
mapped_key btn_mode = none
mapped_key (key_code _) = none

abbrev pub press_mapped : Mapper → ℕ → Option Control → Bool → Mapper × List OutputEvent
press_mapped m device none pressed = (m, [])
press_mapped m device (some control) pressed = button m device control pressed

abbrev pub nonzero : ℤ → Bool
nonzero (pos n) = ltb 0 n
nonzero (negsuc _) = true

unfoldable pub map_key : Mapper → ℕ → KeyCode → ℤ → Mapper × List OutputEvent
map_key m device code value = press_mapped m device (mapped_key code) (nonzero value)

unfoldable pub map_axis : Mapper → ℕ → AxisCode → ℤ → Option AxisRange → Mapper × List OutputEvent
map_axis m device abs_hat0x value range =
    directional_axis m device dpad_left dpad_right (normalize_centered value range)
map_axis m device abs_hat0y value range =
    directional_axis m device dpad_up dpad_down (normalize_centered value range)
map_axis m device abs_x value range =
    directional_axis m device stick_left stick_right (normalize_centered value range)
map_axis m device abs_y value range =
    directional_axis m device stick_up stick_down (normalize_centered value range)
map_axis m device abs_rx value range =
    (right_stick_axis m device true (normalize_centered value range), [])
map_axis m device abs_ry value range =
    (right_stick_axis m device false (normalize_centered value range), [])
map_axis m device abs_z value range =
    button m device left_trigger (ltb_ℤ (pos 500) (normalize_trigger value range))
map_axis m device abs_rz value range =
    button m device right_trigger (ltb_ℤ (pos 500) (normalize_trigger value range))
map_axis m device (axis_code _) value range = (m, [])

-- The `Some` of the code's result stands for every code.
unfoldable pub key_control : KeyCode → Control
key_control btn_mode = guide
key_control btn_south = south
key_control btn_east = east
key_control btn_west = west
key_control btn_north = north
key_control btn_tl = left_bumper
key_control btn_tr = right_bumper
key_control btn_start = start
key_control btn_select = select
key_control btn_tl2 = left_trigger
key_control btn_tr2 = right_trigger
key_control btn_dpad_up = dpad_up
key_control btn_dpad_down = dpad_down
key_control btn_dpad_left = dpad_left
key_control btn_dpad_right = dpad_right
key_control (key_code n) = other n

-- The two controls of an axis, past its dead zone.
abbrev pub both_ends : Control → Control → ℤ → List (Control × Bool)
both_ends negative positive value =
    (negative, ltb_ℤ value (negsuc 349)) ∷ (positive, ltb_ℤ (pos 350) value) ∷ []

-- `range` is the pad's range for the code.
unfoldable pub axis_controls : Option AxisRange → AxisCode → ℤ → List (Control × Bool)
axis_controls range abs_x value = both_ends stick_left stick_right (normalize_centered value range)
axis_controls range abs_y value = both_ends stick_up stick_down (normalize_centered value range)
axis_controls range abs_hat0x value =
    both_ends dpad_left dpad_right (normalize_centered value range)
axis_controls range abs_hat0y value = both_ends dpad_up dpad_down (normalize_centered value range)
axis_controls range abs_rx value =
    both_ends pointer_left pointer_right (normalize_centered value range)
axis_controls range abs_ry value =
    both_ends pointer_up pointer_down (normalize_centered value range)
axis_controls range abs_z value =
    (left_trigger, ltb_ℤ (pos 0) (normalize_centered value range)) ∷ []
axis_controls range abs_rz value =
    (right_trigger, ltb_ℤ (pos 0) (normalize_centered value range)) ∷ []
axis_controls range (axis_code _) value = []
