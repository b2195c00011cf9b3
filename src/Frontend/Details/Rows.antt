-- ===== src/Frontend/Details/Rows.antt =====
-- The details screen's cursor is on a control that the screen shows
-- (services/hearthdeck-frontend/src/screens/details/focus.rs).
use hearthdeck.Prelude.{
  ℕ, zero, suc, ◌≡◌, refl, Bool, true, false, ltb, ◌||◌, List, [], ◌∷◌, some, get_elem?, arith,
  some-injective, ap, ◌∙◌, if_elim, inl, inr, ◌⊎◌,
}
use hearthdeck.Frontend.Details.{
  Focus, play, favorite, disc, play_later, back, screenshot, disc_choice, same_focus, actions,
  Layout, screenshots, choices, page_rows, rows, contains_focus, any_row, clamp_in, clamp,
}

same_focus_refl : (f : Focus) → same_focus f f ≡ true
same_focus_refl play = refl
same_focus_refl favorite = refl
same_focus_refl disc = refl
same_focus_refl play_later = refl
same_focus_refl back = refl
same_focus_refl (screenshot i) = ground arith
same_focus_refl (disc_choice i) = ground arith

get_elem-contains :
    (row : List Focus) (i : ℕ) (f : Focus) → get_elem? row i ≡ some f → contains_focus f row ≡ true
unfolding contains_focus
get_elem-contains [] i f h = cc
get_elem-contains (x ∷ row) zero f h =
    rw (some-injective _ _ h) (ap (λ b. b || contains_focus f row) (same_focus_refl f))
get_elem-contains (x ∷ row) (suc i) f h = let rest = get_elem-contains row i f h in ground arith

any_row-get_elem :
    (rows : List (List Focus)) (i : ℕ) (row : List Focus) (f : Focus)
    → get_elem? rows i ≡ some row
    → contains_focus f row ≡ true
    → any_row f rows ≡ true
unfolding any_row
any_row-get_elem [] i row f h k = cc
any_row-get_elem (x ∷ rows) zero row f h k =
    ap (λ b. b || any_row f rows) (ap (contains_focus f) (some-injective _ _ h) ∙ k)
any_row-get_elem (x ∷ rows) (suc i) row f h k =
    let rest = any_row-get_elem rows i row f h k in ground arith

abbrev layout_of : ℕ → ℕ → Bool → Layout
layout_of shots discs picker_open = record {
  shots = shots;
  discs = discs;
  picker_open = picker_open;
}

abbrev Shows : Layout → Type 0
Shows l =
    ((f : Focus) × (row : List Focus) × (rest : List (List Focus)) × (rows l ≡ (f ∷ row) ∷ rest))
    ⊎ ((l.picker_open ≡ true) × (l.discs ≡ 0) × (rows l ≡ []))

page_rows-cons : (l : Layout) → (row : List Focus) × (page_rows l ≡ (back ∷ row) ∷ [])
unfolding page_rows actions
page_rows-cons l =
    if_elim (λ r. (row : List Focus) × (r ∷ [] ≡ (back ∷ row) ∷ [])) (ltb 1 l.discs)
      (λ e. (_, refl)) (λ e. (_, refl))

-- The screen shows a control, except for an open disc picker without discs.
shows : (shots discs : ℕ) (picker_open : Bool) → Shows (layout_of shots discs picker_open)
unfolding rows choices screenshots
shows shots zero true = inr (refl, refl, refl)
shows shots (suc discs) true = inl (disc_choice 0, [], choices 1 discs, refl)
shows zero discs false =
    let (row, e) = page_rows-cons (layout_of 0 discs false) in inl (back, row, [], e)
shows (suc shots) discs false =
    let some_shots : ltb 0 (suc shots) ≡ true = ground arith in
    inl (
      screenshot 0,
      screenshots 1 shots,
      page_rows (layout_of (suc shots) discs false),
      rw (some_shots) refl,
    )

clamp_in-any_row :
    (f x : Focus) (row : List Focus) (rest : List (List Focus))
    → any_row (clamp_in ((x ∷ row) ∷ rest) f) ((x ∷ row) ∷ rest) ≡ true
unfolding clamp_in
clamp_in-any_row f x row rest =
    let shown = (x ∷ row) ∷ rest in
    if_elim (λ g. any_row g shown ≡ true) (any_row f shown) (λ e. e)
      (λ e.
        if_elim (λ g. any_row g shown ≡ true) (any_row play shown) (λ e. e)
          (λ e. any_row-get_elem shown 0 (x ∷ row) x refl (get_elem-contains (x ∷ row) 0 x refl)))

clamp_in-none : (f : Focus) → clamp_in [] f ≡ play
unfolding clamp_in any_row
clamp_in-none f = refl

-- The corrected cursor is on a control that the screen shows, unless the screen shows none: an open
-- disc picker without discs, where it is Play.
pub clamp-any_row :
    (l : Layout) (f : Focus)
    → (any_row (clamp l f) (rows l) ≡ true)
      ⊎ ((l.picker_open ≡ true) × (l.discs ≡ 0) × (clamp l f ≡ play))
unfolding clamp
clamp-any_row l f = elim (shows l.shots l.discs l.picker_open) [
  | inl (x, row, rest, e) ↦ inl (rw (e) (clamp_in-any_row f x row rest))
  | inr (picker, none_left, e) ↦ inr (picker, none_left, ap (λ r. clamp_in r f) e ∙ clamp_in-none f)
]
