-- ===== src/Frontend/Details/Page.antt =====
-- The steps on the rows of the page (services/hearthdeck-frontend/src/screens/details/focus.rs).
use hearthdeck.Prelude.{
  ℕ, zero, suc, ◌+◌, ◌-◌, min, ◌<◌, ◌≡◌, inl, inr, refl, sym, ap, ◌∙◌, Bool, true, false, ltb,
  if◌then◌else◌, Bool-cases, List, [], ◌∷◌, none, some, length, get_elem?, arith,
}
use hearthdeck.Frontend.Grid.{Direction, up, down, left, right}
use hearthdeck.Frontend.Details.{
  Focus, play, favorite, disc, play_later, back, screenshot, disc_choice, actions, screenshots,
  contains_focus, column_of, row_of, step_at, step_in,
}
use hearthdeck.Frontend.Details.Moves.{
  left_of, right_of, place, below, from_screenshot, from_control,
}

get_elem-screenshots :
    (first count k : ℕ)
    → get_elem? (screenshots first count) k
      ≡ (if ltb k count then some (screenshot (first + k)) else none)
unfolding screenshots
get_elem-screenshots first zero k = ground arith
get_elem-screenshots first (suc count) zero = ground arith
get_elem-screenshots first (suc count) (suc k) =
    ground (arith, get_elem-screenshots (first + 1) count k)

length-screenshots : (first count : ℕ) → length (screenshots first count) ≡ count
unfolding screenshots
length-screenshots first zero = refl
length-screenshots first (suc count) = ground (arith, length-screenshots (first + 1) count)

column_of-screenshots :
    (first count k : ℕ)
    → column_of (screenshot (first + k)) (screenshots first count)
      ≡ (if ltb k count then some k else none)
unfolding screenshots column_of
column_of-screenshots first zero k = ground arith
column_of-screenshots first (suc count) zero = ground arith
column_of-screenshots first (suc count) (suc k) =
    ground (arith, column_of-screenshots (first + 1) count k)

pub contains-screenshots :
    (first count k : ℕ)
    → contains_focus (screenshot (first + k)) (screenshots first count) ≡ ltb k count
unfolding screenshots contains_focus
contains-screenshots first zero k = ground arith
contains-screenshots first (suc count) zero = ground arith
contains-screenshots first (suc count) (suc k) =
    ground (arith, contains-screenshots (first + 1) count k)

-- A control of the page.
abbrev pub is_control : Focus → Bool
is_control (screenshot _) = false
is_control (disc_choice _) = false
is_control _ = true

pub control-screenshots :
    (f : Focus) (first count : ℕ)
    → is_control f ≡ true
    → contains_focus f (screenshots first count) ≡ false
unfolding screenshots contains_focus
control-screenshots f first zero h = refl
control-screenshots play first (suc count) h = control-screenshots play (first + 1) count h
control-screenshots favorite first (suc count) h = control-screenshots favorite (first + 1) count h
control-screenshots disc first (suc count) h = control-screenshots disc (first + 1) count h
control-screenshots play_later first (suc count) h =
    control-screenshots play_later (first + 1) count h
control-screenshots back first (suc count) h = control-screenshots back (first + 1) count h
control-screenshots (screenshot k) first (suc count) h = cc
control-screenshots (disc_choice k) first (suc count) h = cc

column_of-actions :
    (b : Bool) (f : Focus)
    → contains_focus f (actions b) ≡ true
    → column_of f (actions b) ≡ some (place b f)
unfolding actions contains_focus column_of
column_of-actions true play h = refl
column_of-actions true favorite h = refl
column_of-actions true disc h = refl
column_of-actions true play_later h = refl
column_of-actions true back h = refl
column_of-actions false play h = refl
column_of-actions false favorite h = refl
column_of-actions false disc h = cc
column_of-actions false play_later h = refl
column_of-actions false back h = refl
column_of-actions true (screenshot k) h = cc
column_of-actions true (disc_choice k) h = cc
column_of-actions false (screenshot k) h = cc
column_of-actions false (disc_choice k) h = cc

get_elem-below :
    (b : Bool) (k : ℕ) → get_elem? (actions b) (min k (length (actions b) - 1)) ≡ some (below b k)
unfolding actions
get_elem-below true zero = refl
get_elem-below true (suc zero) = refl
get_elem-below true (suc (suc zero)) = refl
get_elem-below true (suc (suc (suc zero))) = refl
get_elem-below true (suc (suc (suc (suc k)))) =
    let last : min (suc (suc (suc (suc k)))) 4 ≡ 4 = omega arith in rw last refl
get_elem-below false zero = refl
get_elem-below false (suc zero) = refl
get_elem-below false (suc (suc zero)) = refl
get_elem-below false (suc (suc (suc k))) =
    let last : min (suc (suc (suc k))) 3 ≡ 3 = omega arith in rw last refl

-- The moves beside a control.
side :
    (shown : List (List Focus)) (i : ℕ) (b : Bool) (f : Focus)
    → contains_focus f (actions b) ≡ true
    → (step_at shown i (actions b) (place b f) left ≡ left_of b f)
      × (step_at shown i (actions b) (place b f) right ≡ right_of b f)
unfolding actions contains_focus step_at
side shown i true play h = (refl, refl)
side shown i true favorite h = (refl, refl)
side shown i true disc h = (refl, refl)
side shown i true play_later h = (refl, refl)
side shown i true back h = (refl, refl)
side shown i false play h = (refl, refl)
side shown i false favorite h = (refl, refl)
side shown i false disc h = cc
side shown i false play_later h = (refl, refl)
side shown i false back h = (refl, refl)
side shown i true (screenshot k) h = cc
side shown i true (disc_choice k) h = cc
side shown i false (screenshot k) h = cc
side shown i false (disc_choice k) h = cc

pub step_in-found :
    (shown : List (List Focus)) (i j : ℕ) (row : List Focus) (f : Focus) (d : Direction)
    → row_of f shown ≡ some (i, row)
    → column_of f row ≡ some j
    → step_in shown f d ≡ step_at shown i row j d
unfolding step_in
step_in-found shown i j row f d r c = rw (r, c) refl

alone_at :
    (b : Bool) (f : Focus) (d : Direction)
    → contains_focus f (actions b) ≡ true
    → step_at (actions b ∷ []) 0 (actions b) (place b f) d ≡ from_control 0 b f d
unfolding step_at
alone_at b f up h = refl
alone_at b f down h = refl
alone_at b f left h = (side (actions b ∷ []) 0 b f h).0
alone_at b f right h = (side (actions b ∷ []) 0 b f h).1

pub alone-control :
    (b : Bool) (f : Focus) (d : Direction)
    → contains_focus f (actions b) ≡ true
    → step_in (actions b ∷ []) f d ≡ from_control 0 b f d
unfolding row_of
alone-control b f d h =
    step_in-found (actions b ∷ []) 0 (place b f) (actions b) f d (rw h refl)
      (column_of-actions b f h)
    ∙ alone_at b f d h

-- The screenshots above the controls.
abbrev pub both : ℕ → Bool → List (List Focus)
both shots b = screenshots 0 (suc shots) ∷ actions b ∷ []

shot_at :
    (shots k : ℕ) → k < suc shots → get_elem? (screenshots 0 (suc shots)) k ≡ some (screenshot k)
shot_at shots k lt =
    let there : get_elem? (screenshots 0 (suc shots)) k ≡ some (screenshot (0 + k)) =
      get_elem-screenshots 0 (suc shots) k ∙ ground arith in
    there ∙ ap (λ i. some (screenshot i)) (omega arith)

last_shot :
    (shots j : ℕ)
    → get_elem? (screenshots 0 (suc shots)) (min j (length (screenshots 0 (suc shots)) - 1))
      ≡ some (screenshot (min j shots))
last_shot shots j =
    ap (λ n. get_elem? (screenshots 0 (suc shots)) (min j (n - 1)))
      (length-screenshots 0 (suc shots))
    ∙ ap (get_elem? (screenshots 0 (suc shots))) (omega arith)
    ∙ shot_at shots (min j shots) (omega arith)

both_at :
    (shots : ℕ) (b : Bool) (f : Focus) (d : Direction)
    → contains_focus f (actions b) ≡ true
    → step_at (both shots b) 1 (actions b) (place b f) d ≡ from_control (suc shots) b f d
unfolding step_at
both_at shots b f up h = last_shot shots (place b f)
both_at shots b f down h = refl
both_at shots b f left h = (side (both shots b) 1 b f h).0
both_at shots b f right h = (side (both shots b) 1 b f h).1

pub both-control :
    (shots : ℕ) (b : Bool) (f : Focus) (d : Direction)
    → is_control f ≡ true
    → contains_focus f (actions b) ≡ true
    → step_in (both shots b) f d ≡ from_control (suc shots) b f d
unfolding row_of
both-control shots b f d c h =
    step_in-found (both shots b) 1 (place b f) (actions b) f d
      (rw (control-screenshots f 0 (suc shots) c, h) refl) (column_of-actions b f h)
    ∙ both_at shots b f d h

step_at-shot :
    (shots k : ℕ) (b : Bool) (d : Direction)
    → k < suc shots
    → step_at (both shots b) 0 (screenshots 0 (suc shots)) k d ≡ from_screenshot (suc shots) b k d
unfolding step_at
step_at-shot shots k b up lt = refl
step_at-shot shots k b down lt = get_elem-below b k
step_at-shot shots zero b left lt = refl
step_at-shot shots (suc k) b left lt = shot_at shots k (omega arith)
step_at-shot shots k b right lt = elim (Bool-cases (ltb (k + 1) (suc shots))) [
  | inl q ↦ rw q (shot_at shots (k + 1) (ground arith))
  | inr q ↦ get_elem-screenshots 0 (suc shots) (k + 1) ∙ rw q refl
]

pub both-screenshot :
    (shots k : ℕ) (b : Bool) (d : Direction)
    → k < suc shots
    → step_in (both shots b) (screenshot k) d ≡ from_screenshot (suc shots) b k d
unfolding row_of
both-screenshot shots k b d lt =
    let same : 0 + k ≡ k = omega arith in
    let found : contains_focus (screenshot k) (screenshots 0 (suc shots)) ≡ true =
      ap (λ i. contains_focus (screenshot i) (screenshots 0 (suc shots))) (sym same)
      ∙ contains-screenshots 0 (suc shots) k
      ∙ ground arith in
    let column : column_of (screenshot k) (screenshots 0 (suc shots)) ≡ some k =
      ap (λ i. column_of (screenshot i) (screenshots 0 (suc shots))) (sym same)
      ∙ column_of-screenshots 0 (suc shots) k
      ∙ ground arith in
    step_in-found (both shots b) 0 k (screenshots 0 (suc shots)) (screenshot k) d (rw found refl)
      column
    ∙ step_at-shot shots k b d lt
