-- ===== src/Frontend/Rails/Clamp.antt =====
-- The dashboard's cursor is on a card that exists
-- (services/hearthdeck-frontend/src/screens/dashboard/focus.rs).
use hearthdeck.Prelude.{
  ℕ, zero, suc, ◌+◌, ◌-◌, ◌<◌, ◌≡◌, refl, sym, subst, true, ltb, List, [], ◌∷◌, some, length, arith,
  if_elim, inl, inr, Bool-cases,
}
use hearthdeck.Frontend.Grid.{Direction, up, down, left, right}
use hearthdeck.Frontend.Rails.{
  Cursor, or_zero, cards_in, first_filled, rail_of, clamp, land, scan_up, scan_down, step_from,
  step,
}

-- A cursor on a card that exists.
abbrev pub IsOn : List ℕ → Cursor → Type 0
IsOn rails c = c.card < cards_in rails c.rail

pub ltb_lt : (a b : ℕ) → a < b → ltb a b ≡ true
ltb_lt a b h = ground arith

-- When some rail has cards, the first such rail is found.
pub first_filled-cards_in :
    (rails : List ℕ) (i : ℕ)
    → 0 < cards_in rails i
    → (k : ℕ) × (first_filled rails ≡ some k) × (0 < cards_in rails k)
unfolding first_filled cards_in
first_filled-cards_in [] i h = absurd (omega (arith, h))
first_filled-cards_in (n ∷ rails) zero h = (0, rw (ltb_lt 0 n h) refl, h)
first_filled-cards_in (n ∷ rails) (suc i) h = elim (Bool-cases (ltb 0 n)) [
  | inl e ↦ (0, rw (e) refl, ground arith)
  | inr e ↦
      let (k, found, filled) = first_filled-cards_in rails i h in
      (suc k, rw (e, found) refl, filled)
]

pub rail_of-cards_in :
    (c : Cursor) (rails : List ℕ) (i : ℕ)
    → 0 < cards_in rails i
    → 0 < cards_in rails (rail_of c rails)
unfolding rail_of
rail_of-cards_in c rails i h =
    if_elim (λ r. 0 < cards_in rails r) (ltb 0 (cards_in rails c.rail)) (λ e. ground arith)
      (λ e.
        let (k, found, filled) = first_filled-cards_in rails i h in
        subst (λ o. 0 < cards_in rails (or_zero o)) (sym found) filled)

pub clamp-IsOn :
    (c : Cursor) (rails : List ℕ) (i : ℕ) → 0 < cards_in rails i → IsOn rails (clamp c rails)
unfolding clamp
clamp-IsOn c rails i h = omega (arith, rail_of-cards_in c rails i h)

land-IsOn :
    (c : Cursor) (rails : List ℕ) (i : ℕ) → 0 < cards_in rails i → IsOn rails (land c rails i)
land-IsOn c rails i h = omega arith

scan_up-IsOn : (c : Cursor) (rails : List ℕ) (i : ℕ) → IsOn rails c → IsOn rails (scan_up c rails i)
unfolding scan_up
scan_up-IsOn c rails zero h = h
scan_up-IsOn c rails (suc i) h =
    if_elim (IsOn rails) (ltb 0 (cards_in rails i)) (λ e. land-IsOn c rails i (ground arith))
      (λ e. scan_up-IsOn c rails i h)

scan_down-IsOn :
    (c : Cursor) (rails : List ℕ) (fuel i : ℕ)
    → IsOn rails c
    → IsOn rails (scan_down c rails fuel i)
unfolding scan_down
scan_down-IsOn c rails zero i h = h
scan_down-IsOn c rails (suc fuel) i h =
    if_elim (IsOn rails) (ltb 0 (cards_in rails i)) (λ e. land-IsOn c rails i (ground arith))
      (λ e. scan_down-IsOn c rails fuel (i + 1) h)

step_from-IsOn :
    (c : Cursor) (d : Direction) (rails : List ℕ) → IsOn rails c → IsOn rails (step_from c d rails)
unfolding step_from
step_from-IsOn c left rails h = omega arith
step_from-IsOn c right rails h = omega arith
step_from-IsOn c up rails h = scan_up-IsOn c rails c.rail h
step_from-IsOn c down rails h = scan_down-IsOn c rails (length rails - (c.rail + 1)) (c.rail + 1) h

-- Where some rail has cards, a step from any cursor lands on a card that exists.
pub step-IsOn :
    (c : Cursor) (d : Direction) (rails : List ℕ) (i : ℕ)
    → 0 < cards_in rails i
    → IsOn rails (step c d rails)
unfolding step
step-IsOn c d rails i h = step_from-IsOn (clamp c rails) d rails (clamp-IsOn c rails i h)
