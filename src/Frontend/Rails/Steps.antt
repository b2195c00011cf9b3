-- ===== src/Frontend/Rails/Steps.antt =====
-- Steps between the dashboard's rails
-- (services/hearthdeck-frontend/src/screens/dashboard/focus.rs, `shift_rail`).
use hearthdeck.Prelude.{
  ℕ, zero, suc, ◌+◌, ◌-◌, min, ◌≤◌, ◌<◌, ◌≡◌, ◌≢◌, refl, sym, ap, ◌∙◌, subst, true, false, ltb,
  List, length, arith, inl, inr, ◌⊎◌, Bool-cases,
}
use hearthdeck.Frontend.Grid.{up, down}
use hearthdeck.Frontend.Rails.{
  Cursor, cards_in, rail_of, clamp, land, scan_up, scan_down, step_from, step,
}
use hearthdeck.Frontend.Rails.Clamp.{IsOn, ltb_lt}

-- The rails from one up to another, the second not counted, are empty.
abbrev pub AreEmpty : List ℕ → ℕ → ℕ → Type 0
AreEmpty rails from to = (m : ℕ) → from ≤ m → m < to → cards_in rails m ≡ 0

first_or_later : (i m : ℕ) → i ≤ m → (m ≡ i) ⊎ (i + 1 ≤ m)
first_or_later i m h = ground arith

skip :
    (rails : List ℕ) (i r : ℕ)
    → cards_in rails i ≡ 0
    → AreEmpty rails (i + 1) r
    → AreEmpty rails i r
skip rails i r h k m le lt = elim (first_or_later i m le) [
  | inl e ↦ ap (cards_in rails) e ∙ h
  | inr l ↦ k m l lt
]

-- A cursor that is on a card is not corrected.
pub clamp-on : (c : Cursor) (rails : List ℕ) → IsOn rails c → clamp c rails ≡ c
unfolding clamp rail_of
clamp-on c rails h =
    let some_cards : ltb 0 (cards_in rails c.rail) ≡ true =
      ltb_lt 0 (cards_in rails c.rail) (omega arith) in
    let least : min c.card (cards_in rails c.rail - 1) ≡ c.card = omega arith in
    rw (some_cards, least) refl

-- Where the loop of a step down ends.
abbrev pub FoundBelow : Cursor → List ℕ → ℕ → Cursor → Type 0
FoundBelow c rails i c' =
    (r : ℕ) × (c' ≡ land c rails r) × (i ≤ r) × (0 < cards_in rails r) × AreEmpty rails i r

scan_down-cases :
    (c : Cursor) (rails : List ℕ) (fuel i : ℕ)
    → (scan_down c rails fuel i ≡ c) ⊎ FoundBelow c rails i (scan_down c rails fuel i)
unfolding scan_down
scan_down-cases c rails zero i = inl refl
scan_down-cases c rails (suc fuel) i = elim (Bool-cases (ltb 0 (cards_in rails i))) [
  | inl e ↦ inr (i, rw (e) refl, omega arith, ground arith, λ m h k. omega arith)
  | inr e ↦
      let none_here : cards_in rails i ≡ 0 = ground arith in
      elim (scan_down-cases c rails fuel (i + 1)) [
        | inl s ↦ inl (rw (e) s)
        | inr (r, s, below, filled, empty) ↦
            inr (r, rw (e) s, omega arith, filled, skip rails i r none_here empty)
      ]
]

-- A step up through empty rails ends at the first that is not.
scan_up-lands :
    (c : Cursor) (rails : List ℕ) (j i : ℕ)
    → j < i
    → 0 < cards_in rails j
    → AreEmpty rails (j + 1) i
    → scan_up c rails i ≡ land c rails j
unfolding scan_up
scan_up-lands c rails j zero h filled empty = absurd (omega (arith, h))
scan_up-lands c rails j (suc i) h filled empty = elim (first_or_later j i (omega arith)) [
  | inl e ↦
      let test : ltb 0 (cards_in rails i) ≡ true =
        ltb_lt 0 (cards_in rails i) (subst (λ x. 0 < cards_in rails x) (sym e) filled) in
      rw (test, e) refl
  | inr l ↦
      let none_here = empty i (omega arith) (omega arith) in
      let test : ltb 0 (cards_in rails i) ≡ false = ground arith in
      rw (test) (scan_up-lands c rails j i (omega arith) filled (λ m a b. empty m a (omega arith)))
]

abbrev cursor_at : ℕ → ℕ → ℕ → Cursor
cursor_at rail card remembered = record { rail = rail; card = card; remembered = remembered }

up_again :
    (c : Cursor) (rails : List ℕ) (r : ℕ)
    → IsOn rails c
    → c.remembered ≡ c.card
    → c.rail + 1 ≤ r
    → 0 < cards_in rails r
    → AreEmpty rails (c.rail + 1) r
    → step (land c rails r) up rails ≡ c
unfolding step step_from
up_again c rails r h e below filled empty =
    let least : min c.remembered (cards_in rails c.rail - 1) ≡ c.card = omega arith in
    ap (λ x. step_from x up rails) (clamp-on (land c rails r) rails (omega arith))
    ∙ scan_up-lands (land c rails r) rails c.rail r (omega arith) (omega arith) empty
    ∙ back least e
    ∙ ap (λ m. cursor_at c.rail c.card m) (sym e)
  where
    back :
        {k m : ℕ} → k ≡ c.card → m ≡ c.card → cursor_at c.rail k m ≡ cursor_at c.rail c.card c.card
    back p q = rw (p, q) refl

-- From a card that the pad last moved sideways to, a step down that reaches another rail and a step
-- up come back to the card, whatever is on the rail between.
pub step_down-up :
    (c : Cursor) (rails : List ℕ)
    → IsOn rails c
    → c.remembered ≡ c.card
    → step c down rails ≢ c
    → step (step c down rails) up rails ≡ c
unfolding step step_from
step_down-up c rails h e moved =
    let down_from = ap (λ x. step_from x down rails) (clamp-on c rails h) in
    elim (scan_down-cases c rails (length rails - (c.rail + 1)) (c.rail + 1)) [
      | inl s ↦ absurd (moved (down_from ∙ s))
      | inr (r, s, below, filled, empty) ↦
          ap (λ x. step x up rails) (down_from ∙ s) ∙ up_again c rails r h e below filled empty
    ]
