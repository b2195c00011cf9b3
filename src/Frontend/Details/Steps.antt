-- ===== src/Frontend/Details/Steps.antt =====
-- A step of the details screen's cursor, against the table of its moves
-- (services/hearthdeck-frontend/src/screens/details/focus.rs).
use hearthdeck.Prelude.{
  ℕ, zero, suc, ◌+◌, ◌<◌, ◌≡◌, inl, inr, refl, sym, ap, ◌∙◌, Bool, true, false, ltb, ◌||◌,
  if◌then◌else◌, Bool-cases, [], ◌∷◌, none, some, get_elem?, arith,
}
use hearthdeck.Frontend.Grid.{Direction, up, down, left, right}
use hearthdeck.Frontend.Details.{
  Focus, play, favorite, disc, play_later, back, screenshot, disc_choice, actions, Layout,
  screenshots, choices, page_rows, rows, contains_focus, any_row, column_of, row_of, step_at,
  step_in, step,
}
use hearthdeck.Frontend.Details.Moves.{from_control, from_choice, move}
use hearthdeck.Frontend.Details.Page.{
  is_control, step_in-found, control-screenshots, contains-screenshots, alone-control, both,
  both-control, both-screenshot,
}

get_elem-choices :
    (first count k : ℕ)
    → get_elem? (choices first count) k
      ≡ (if ltb k count then some (disc_choice (first + k) ∷ []) else none)
unfolding choices
get_elem-choices first zero k = ground arith
get_elem-choices first (suc count) zero = ground arith
get_elem-choices first (suc count) (suc k) = ground (arith, get_elem-choices (first + 1) count k)

row_of-choices :
    (first count k : ℕ)
    → row_of (disc_choice (first + k)) (choices first count)
      ≡ (if ltb k count then some (k, disc_choice (first + k) ∷ []) else none)
unfolding choices row_of contains_focus
row_of-choices first zero k = ground arith
row_of-choices first (suc count) zero = ground arith
row_of-choices first (suc count) (suc k) = ground (arith, row_of-choices (first + 1) count k)

any_row-choices :
    (first count k : ℕ) → any_row (disc_choice (first + k)) (choices first count) ≡ ltb k count
unfolding choices any_row contains_focus
any_row-choices first zero k = ground arith
any_row-choices first (suc count) zero = ground arith
any_row-choices first (suc count) (suc k) = ground (arith, any_row-choices (first + 1) count k)

-- The control is a choice of a disc.
abbrev is_choice : Focus → Bool
is_choice (disc_choice _) = true
is_choice _ = false

other-choices :
    (f : Focus) (first count : ℕ) → is_choice f ≡ false → any_row f (choices first count) ≡ false
unfolding choices any_row contains_focus
other-choices f first zero h = refl
other-choices play first (suc count) h = other-choices play (first + 1) count h
other-choices favorite first (suc count) h = other-choices favorite (first + 1) count h
other-choices disc first (suc count) h = other-choices disc (first + 1) count h
other-choices play_later first (suc count) h = other-choices play_later (first + 1) count h
other-choices back first (suc count) h = other-choices back (first + 1) count h
other-choices (screenshot k) first (suc count) h = other-choices (screenshot k) (first + 1) count h
other-choices (disc_choice k) first (suc count) h = cc

choice_at : (discs k : ℕ) → k < discs → get_elem? (choices 0 discs) k ≡ some (disc_choice k ∷ [])
choice_at discs k lt =
    let there : get_elem? (choices 0 discs) k ≡ some (disc_choice (0 + k) ∷ []) =
      get_elem-choices 0 discs k ∙ ground arith in
    there ∙ ap (λ i. some (disc_choice i ∷ [])) (omega arith)

step_at-choice :
    (discs k : ℕ) (d : Direction)
    → k < discs
    → step_at (choices 0 discs) k (disc_choice k ∷ []) 0 d ≡ from_choice discs k d
unfolding step_at
step_at-choice discs zero up lt = refl
step_at-choice discs (suc k) up lt = rw (choice_at discs k (omega arith)) refl
step_at-choice discs k down lt = elim (Bool-cases (ltb (k + 1) discs)) [
  | inl q ↦ rw (q, choice_at discs (k + 1) (ground arith)) refl
  | inr q ↦ rw (get_elem-choices 0 discs (k + 1), q) refl
]
step_at-choice discs k left lt = refl
step_at-choice discs k right lt = refl

step_in-choice :
    (discs k : ℕ) (d : Direction)
    → any_row (disc_choice k) (choices 0 discs) ≡ true
    → step_in (choices 0 discs) (disc_choice k) d ≡ from_choice discs k d
unfolding column_of
step_in-choice discs k d h =
    let same : 0 + k ≡ k = omega arith in
    let lt : ltb k discs ≡ true =
      sym (any_row-choices 0 discs k)
      ∙ ap (λ i. any_row (disc_choice i) (choices 0 discs)) same
      ∙ h in
    let found : row_of (disc_choice k) (choices 0 discs) ≡ some (k, disc_choice k ∷ []) =
      ap (λ i. row_of (disc_choice i) (choices 0 discs)) (sym same)
      ∙ row_of-choices 0 discs k
      ∙ rw lt (ap (λ i. some (k, disc_choice i ∷ [])) same) in
    step_in-found (choices 0 discs) k 0 (disc_choice k ∷ []) (disc_choice k) d found (ground arith)
    ∙ step_at-choice discs k d (ground arith)

contains-control :
    (b : Bool) (f : Focus) → contains_focus f (actions b) ≡ true → is_control f ≡ true
unfolding actions contains_focus
contains-control b play h = refl
contains-control b favorite h = refl
contains-control b disc h = refl
contains-control b play_later h = refl
contains-control b back h = refl
contains-control true (screenshot k) h = cc
contains-control true (disc_choice k) h = cc
contains-control false (screenshot k) h = cc
contains-control false (disc_choice k) h = cc

choice-screenshots :
    (k first count : ℕ) → contains_focus (disc_choice k) (screenshots first count) ≡ false
unfolding screenshots contains_focus
choice-screenshots k first zero = refl
choice-screenshots k first (suc count) = choice-screenshots k (first + 1) count

move-control :
    (l : Layout) (f : Focus) (d : Direction)
    → is_control f ≡ true
    → move l f d ≡ from_control l.shots (ltb 1 l.discs) f d
move-control l play d h = refl
move-control l favorite d h = refl
move-control l disc d h = refl
move-control l play_later d h = refl
move-control l back d h = refl
move-control l (screenshot k) d h = cc
move-control l (disc_choice k) d h = cc

page_rows-actions : (l : Layout) → page_rows l ≡ actions (ltb 1 l.discs) ∷ []
unfolding page_rows
page_rows-actions l = refl

differs : {b : Bool} → b ≡ false → b ≡ true → ⊥
differs e h = cc

or_none : (a : Bool) → (a || false) ≡ a
or_none a = ground arith

abbrev layout : ℕ → ℕ → Bool → Layout
layout shots discs picker_open = record { shots = shots; discs = discs; picker_open = picker_open }

-- A control that stands in the row of screenshots is a screenshot.
step_in-shot :
    (shots discs : ℕ) (f : Focus) (d : Direction)
    → contains_focus f (screenshots 0 (suc shots)) ≡ true
    → step_in (both shots (ltb 1 discs)) f d ≡ move (layout (suc shots) discs false) f d
step_in-shot shots discs (screenshot k) d h =
    let lt : ltb k (suc shots) ≡ true =
      sym (contains-screenshots 0 (suc shots) k)
      ∙ ap (λ i. contains_focus (screenshot i) (screenshots 0 (suc shots))) (omega arith)
      ∙ h in
    both-screenshot shots k (ltb 1 discs) d (ground arith)
step_in-shot shots discs (disc_choice k) d h =
    absurd (differs (choice-screenshots k 0 (suc shots)) h)
step_in-shot shots discs play d h = absurd (differs (control-screenshots play 0 (suc shots) refl) h)
step_in-shot shots discs favorite d h =
    absurd (differs (control-screenshots favorite 0 (suc shots) refl) h)
step_in-shot shots discs disc d h = absurd (differs (control-screenshots disc 0 (suc shots) refl) h)
step_in-shot shots discs play_later d h =
    absurd (differs (control-screenshots play_later 0 (suc shots) refl) h)
step_in-shot shots discs back d h = absurd (differs (control-screenshots back 0 (suc shots) refl) h)

step_in-both :
    (shots discs : ℕ) (f : Focus) (d : Direction)
    → any_row f (both shots (ltb 1 discs)) ≡ true
    → step_in (both shots (ltb 1 discs)) f d ≡ move (layout (suc shots) discs false) f d
unfolding any_row
step_in-both shots discs f d h = elim (Bool-cases (contains_focus f (actions (ltb 1 discs)))) [
  | inl q ↦
      let control = contains-control (ltb 1 discs) f q in
      both-control shots (ltb 1 discs) f d control q
      ∙ sym (move-control (layout (suc shots) discs false) f d control)
  | inr q ↦ step_in-shot shots discs f d (ground arith)
]

step_in-alone :
    (discs : ℕ) (f : Focus) (d : Direction)
    → any_row f (actions (ltb 1 discs) ∷ []) ≡ true
    → step_in (actions (ltb 1 discs) ∷ []) f d ≡ move (layout 0 discs false) f d
unfolding any_row
step_in-alone discs f d h =
    let shown : contains_focus f (actions (ltb 1 discs)) ≡ true = sym (or_none _) ∙ h in
    alone-control (ltb 1 discs) f d shown
    ∙ sym (move-control (layout 0 discs false) f d (contains-control (ltb 1 discs) f shown))

step_in-picker :
    (shots discs : ℕ) (f : Focus) (d : Direction)
    → any_row f (choices 0 discs) ≡ true
    → step_in (choices 0 discs) f d ≡ move (layout shots discs true) f d
step_in-picker shots discs (disc_choice k) d h = step_in-choice discs k d h
step_in-picker shots discs (screenshot k) d h =
    absurd (differs (other-choices (screenshot k) 0 discs refl) h)
step_in-picker shots discs play d h = absurd (differs (other-choices play 0 discs refl) h)
step_in-picker shots discs favorite d h = absurd (differs (other-choices favorite 0 discs refl) h)
step_in-picker shots discs disc d h = absurd (differs (other-choices disc 0 discs refl) h)
step_in-picker shots discs play_later d h =
    absurd (differs (other-choices play_later 0 discs refl) h)
step_in-picker shots discs back d h = absurd (differs (other-choices back 0 discs refl) h)

step-layout :
    (shots discs : ℕ) (picker_open : Bool) (f : Focus) (d : Direction)
    → any_row f (rows (layout shots discs picker_open)) ≡ true
    → step (layout shots discs picker_open) f d ≡ move (layout shots discs picker_open) f d
unfolding step rows page_rows
step-layout shots discs true f d h = step_in-picker shots discs f d h
step-layout zero discs false f d h = step_in-alone discs f d h
step-layout (suc shots) discs false f d h =
    let some_shots : ltb 0 (suc shots) ≡ true = ground arith in
    rw some_shots (step_in-both shots discs f d (rw some_shots at h))

-- From every control that the screen shows, a step goes where the table of moves says. On the page:
-- along the row of screenshots and along the row of controls to the neighbour, and nowhere at their
-- ends; from a screenshot down to the control of its column, or to the last control where there is
-- none; from a control up to the screenshot of its column, or to the last one, if there are any. In
-- the disc picker: up and down to the neighbouring disc, and nowhere sideways.
pub step-move :
    (l : Layout) (f : Focus) (d : Direction) → any_row f (rows l) ≡ true → step l f d ≡ move l f d
step-move l f d h = step-layout l.shots l.discs l.picker_open f d h
