-- ===== src/Input/Axis/Agree.antt =====
-- The owner and the mapper read the same controls from a key and from a directional axis
-- (services/hearthdeck-input/src/linux.rs, services/hearthdeck-input/src/broker.rs).
use hearthdeck.Prelude.{
  ℕ, ◌≡◌, refl, sym, ap, Bool, true, false, not, Option, none, List, [], ◌∷◌, ◌++◌, Bool-cases, inl,
  inr,
}
use mathlib.Core.List.{append-nil}
use hearthdeck.Prelude.Int.{ℤ}
use hearthdeck.Input.{Control, other, guide}
use hearthdeck.Input.Mapper.{OutputEvent, Mapper, button, button_for, output_for, directional_axis}
use hearthdeck.Input.Axis.{
  KeyCode, btn_mode, key_code, AxisCode, abs_x, abs_y, abs_hat0x, abs_hat0y, axis_code, AxisRange,
  mapped_key, nonzero, map_key, map_axis, key_control, both_ends, axis_controls,
}

-- A control without a key changes nothing.
button-none :
    (m : Mapper) (device : ℕ) (c : Control) (pressed : Bool)
    → output_for c ≡ none
    → button m device c pressed ≡ (m, [])
unfolding button button_for
button-none m device c pressed h = elim (Bool-cases (not m.active)) [
  | inl e ↦ rw e refl
  | inr e ↦ rw (e, h) refl
]

output_for-guide : output_for guide ≡ none
unfolding output_for
output_for-guide = refl

output_for-other : (n : ℕ) → output_for (other n) ≡ none
unfolding output_for
output_for-other n = refl

-- The mapper presses and releases, for every key of the kernel, the control that the owner is told
-- of: `map_key` is `button` at `key_control`'s control.
pub map_key-key_control :
    (m : Mapper) (device : ℕ) (code : KeyCode) (value : ℤ)
    → map_key m device code value ≡ button m device (key_control code) (nonzero value)
unfolding map_key key_control mapped_key
map_key-key_control m device btn_mode value =
    sym (button-none m device guide (nonzero value) output_for-guide)
map_key-key_control m device (key_code n) value =
    sym (button-none m device (other n) (nonzero value) (output_for-other n))
map_key-key_control m device code value = refl

-- The mapper's buttons for what the owner is told, in order.
unfoldable pub press_all : Mapper → ℕ → List (Control × Bool) → Mapper × List OutputEvent
press_all m device [] = (m, [])
press_all m device ((c, pressed) ∷ rest) =
    let (m', events) = button m device c pressed in
    let (m'', more) = press_all m' device rest in (m'', events ++ more)

button_idle :
    (m : Mapper) (device : ℕ) (c : Control) (pressed : Bool)
    → not m.active ≡ true
    → button m device c pressed ≡ (m, [])
unfolding button
button_idle m device c pressed h = rw (h) refl

press_all_idle :
    (m : Mapper) (device : ℕ) (presses : List (Control × Bool))
    → not m.active ≡ true
    → press_all m device presses ≡ (m, [])
unfolding press_all
press_all_idle m device [] h = refl
press_all_idle m device ((c, pressed) ∷ rest) h =
    rw (button_idle m device c pressed h, press_all_idle m device rest h) refl

press_all_two :
    (m : Mapper) (device : ℕ) (c d : Control) (p q : Bool)
    → press_all m device ((c, p) ∷ (d, q) ∷ []) ≡ (
      (button (button m device c p).0 device d q).0,
      (button m device c p).1 ++ (button (button m device c p).0 device d q).1,
    )
unfolding press_all
press_all_two m device c d p q =
    ap
      (λ events. ((button (button m device c p).0 device d q).0, (button m device c p).1 ++ events))
      (append-nil (button (button m device c p).0 device d q).1)

directional_axis-press_all :
    (m : Mapper) (device : ℕ) (negative positive : Control) (value : ℤ)
    → directional_axis m device negative positive value
      ≡ press_all m device (both_ends negative positive value)
unfolding directional_axis
directional_axis-press_all m device negative positive value = elim (Bool-cases (not m.active)) [
  | inl e ↦ rw (e, press_all_idle m device (both_ends negative positive value) e) refl
  | inr e ↦ rw (e, press_all_two m device negative positive _ _) refl
]

-- Whether an axis moves a pair of directions.
abbrev pub is_directional : AxisCode → Bool
is_directional abs_x = true
is_directional abs_y = true
is_directional abs_hat0x = true
is_directional abs_hat0y = true
is_directional (axis_code _) = true
is_directional _ = false

-- For a stick, a hat or an axis without a meaning, the mapper does what its buttons would do for
-- the controls that the owner is told of, one after the other.
pub map_axis-axis_controls :
    (m : Mapper) (device : ℕ) (code : AxisCode) (value : ℤ) (range : Option AxisRange)
    → is_directional code ≡ true
    → map_axis m device code value range ≡ press_all m device (axis_controls range code value)
unfolding map_axis axis_controls press_all
map_axis-axis_controls m device abs_x value range h = directional_axis-press_all m device _ _ _
map_axis-axis_controls m device abs_y value range h = directional_axis-press_all m device _ _ _
map_axis-axis_controls m device abs_hat0x value range h = directional_axis-press_all m device _ _ _
map_axis-axis_controls m device abs_hat0y value range h = directional_axis-press_all m device _ _ _
map_axis-axis_controls m device (axis_code n) value range h = refl
map_axis-axis_controls m device _ value range h = cc
