-- ===== src/Frontend/Grid/Ring.antt =====
-- Walking the keyboard's ring from the content and back to it
-- (services/hearthdeck-frontend/src/screens/library/focus.rs, `ring_step`).
use hearthdeck.Prelude.{
  ℕ, zero, suc, ◌+◌, ◌-◌, ◌<◌, ◌≡◌, refl, Bool, true, false, Option, none, some, arith, ◌==◌, min,
  ◌∙◌, ap,
}
use hearthdeck.Frontend.Grid.{Layout, ring_len, ring_step}
use hearthdeck.Frontend.Grid.Clamp.{ring_len_positive}

-- Pressing the ring's key a number of times, from the content.
unfoldable pub walk : ℕ → Bool → Layout → Option ℕ
walk zero backwards l = none
walk (suc n) backwards l = ring_step (walk n backwards l) backwards l

module _ (l : Layout) where
  enter_forward : ring_step none false l ≡ some 0
  unfolding ring_step
  enter_forward = ground (arith, ring_len_positive l)

  enter_backward : ring_step none true l ≡ some (ring_len l - 1)
  unfolding ring_step
  enter_backward = ground (arith, ring_len_positive l)

  next_forward : (i : ℕ) → i + 1 < ring_len l → ring_step (some i) false l ≡ some (i + 1)
  unfolding ring_step
  next_forward i h = ground arith

  next_backward : (i : ℕ) → i + 1 < ring_len l → ring_step (some (i + 1)) true l ≡ some i
  unfolding ring_step
  next_backward i h =
      let least : min (i + 1) (ring_len l - 1) ≡ suc i = omega arith in
      let full : (ring_len l == 0) ≡ false = ground arith in rw (full, least) refl

  leave_forward : ring_step (some (ring_len l - 1)) false l ≡ none
  unfolding ring_step
  leave_forward = ground (arith, ring_len_positive l)

  leave_backward : ring_step (some 0) true l ≡ none
  unfolding ring_step
  leave_backward =
      let positive = ring_len_positive l in
      let least : min 0 (ring_len l - 1) ≡ zero = omega arith in
      let full : (ring_len l == 0) ≡ false = ground arith in rw (full, least) refl

-- From the content, the ring's keys visit every stop in order: forwards from the first stop,
-- backwards from the last.
pub walk-stops :
    (n : ℕ) (l : Layout)
    → n < ring_len l
    → (walk (suc n) false l ≡ some n) × (walk (suc n) true l ≡ some (ring_len l - 1 - n))
unfolding walk
walk-stops zero l h = (enter_forward l, enter_backward l ∙ ap some (omega arith))
walk-stops (suc n) l h =
    let before = walk-stops n l (omega arith) in
    let place : ring_len l - 1 - n ≡ ring_len l - 1 - suc n + 1 = omega arith in
    (
      ap (λ r. ring_step r false l) before.0
          ∙ next_forward l n (omega arith)
          ∙ ap some (omega arith),
      ap (λ r. ring_step r true l) (before.1 ∙ ap some place)
          ∙ next_backward l (ring_len l - 1 - suc n) (omega arith),
    )

-- One press more than the ring has stops hands the cursor back to the content, in both directions.
pub walk_around :
    (l : Layout) → (walk (ring_len l + 1) false l ≡ none) × (walk (ring_len l + 1) true l ≡ none)
unfolding walk
walk_around l =
    let positive = ring_len_positive l in
    let last = walk-stops (ring_len l - 1) l (omega arith) in
    let count : suc (ring_len l - 1) ≡ ring_len l = omega arith in
    let more : ring_len l + 1 ≡ suc (suc (ring_len l - 1)) = omega arith in
    let first : ring_len l - 1 - (ring_len l - 1) ≡ 0 = omega arith in
    (
      ap (λ n. walk n false l) more ∙ ap (λ r. ring_step r false l) last.0 ∙ leave_forward l,
      ap (λ n. walk n true l) more
          ∙ ap (λ r. ring_step r true l) (last.1 ∙ ap some first)
          ∙ leave_backward l,
    )
