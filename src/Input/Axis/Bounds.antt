-- ===== src/Input/Axis/Bounds.antt =====
-- The normalized axes and the pointer's movement stay in range
-- (services/hearthdeck-input/src/linux.rs, services/hearthdeck-input/src/mapping.rs, `mouse_delta`).
use hearthdeck.Prelude.{◌<◌, ◌⊎◌, ◌≡◌, Option, none, some, arith, if_elim}
use hearthdeck.Prelude.Int.{ℤ, pos, negsuc, ◌*ℤ◌, ◌≤ℤ◌, ltb_ℤ, div_ℤ, clamp_ℤ, abs_ℤ}
use hearthdeck.Input.Mapper.{mouse_delta}
use hearthdeck.Input.Axis.{AxisRange, scaled, normalize_centered, normalize_trigger}

abbrev pub Between : ℤ → ℤ → ℤ → Type 0
Between low high a = (low ≤ℤ a) × (a ≤ℤ high)

clamp_ℤ-Between : (a low high : ℤ) → low ≤ℤ high → Between low high (clamp_ℤ a low high)
unfolding clamp_ℤ
clamp_ℤ-Between a low high h = ground arith

scaled-Between :
    (offset width low high : ℤ)
    → low ≤ℤ high
    → Between low high (pos 0)
    → Between low high (scaled offset width low high)
scaled-Between offset width low high h z =
    if_elim (Between low high) (ltb_ℤ (pos 0) width) (λ _. clamp_ℤ-Between _ low high h) (λ _. z)

unit_clamp : (a : ℤ) → Between (negsuc 999) (pos 1000) (clamp_ℤ a (negsuc 0) (pos 1) *ℤ pos 1000)
unfolding clamp_ℤ ◌*ℤ◌
unit_clamp a = ground arith

-- Every value of an axis, whatever the range that the device reports, is normalized to a value from
-- -1000 to 1000.
pub normalize_centered-Between :
    (value : ℤ) (range : Option AxisRange)
    → Between (negsuc 999) (pos 1000) (normalize_centered value range)
unfolding normalize_centered
normalize_centered-Between value none = unit_clamp value
normalize_centered-Between value (some range) =
    scaled-Between _ _ (negsuc 999) (pos 1000) (omega arith) (omega arith, omega arith)

-- Every value of a trigger is normalized to a value from 0 to 1000.
pub normalize_trigger-Between :
    (value : ℤ) (range : Option AxisRange)
    → Between (pos 0) (pos 1000) (normalize_trigger value range)
unfolding normalize_trigger
normalize_trigger-Between value none = ground arith
normalize_trigger-Between value (some range) =
    scaled-Between _ _ (pos 0) (pos 1000) (omega arith) (omega arith, omega arith)

-- A right stick moves the pointer by at most 14 in each direction at a tick, and by nothing unless
-- it is out of the dead zone of 350.
pub mouse_delta-Between :
    (value : ℤ)
    → Between (negsuc 999) (pos 1000) value
    → Between (negsuc 13) (pos 14) (mouse_delta value)
      × ((350 < abs_ℤ value) ⊎ (mouse_delta value ≡ pos 0))
unfolding mouse_delta ◌*ℤ◌ div_ℤ abs_ℤ
mouse_delta-Between value h = (ground arith, ground arith)
