-- ===== src/Frontend/Grid/Steps.antt =====
-- Where a step inside the grid lands (services/hearthdeck-frontend/src/screens/library/focus.rs,
-- `step_tile`).
use hearthdeck.Prelude.{
  ℕ, zero, suc, ◌+◌, ◌-◌, ◌*◌, ◌/◌, ◌%◌, min, max, ◌≤◌, ◌<◌, ◌≡◌, refl, Bool, true, false,
  if◌then◌else◌, ltb, ◌==◌, none, some, arith, ◌∙◌, ap, sym, inl, inr, ◌⊎◌, if_elim, some-injective,
}
use native.Mathlib.Nat.{
  div-add-mod', mod-lt, div-eq_of_lt-le, mul-le-mul_right, add-mul, div-mul-le_self,
}
use hearthdeck.Frontend.Grid.{Direction, up, down, left, right, div_ceil, step_tile, step_tile_in}

-- Each full row before the one that a rounded-up division counts ends before the last tile.
div_ceil-below : (q n k : ℕ) → 0 < k → q < div_ceil n k → q * k < n
div_ceil-below q n k h r =
    let parts = div-add-mod' n k in
    let rest = mod-lt n h in
    elim (ltb-cases (n % k)) [
      | inl e ↦ let s : q ≤ n / k = ground arith in omega (arith, mul-le-mul_right k s)
      | inr e ↦
          let s : suc q ≤ n / k = ground arith in omega (arith, mul-le-mul_right k s, add-mul q 1 k)
    ]
  where
    ltb-cases : (m : ℕ) → (0 < m) ⊎ (m ≡ 0)
    ltb-cases zero = inr refl
    ltb-cases (suc m) = inl (omega arith)

-- Inside the grid nothing is corrected before the step.
step_tile-in :
    (t c : ℕ) (d : Direction) (n k : ℕ)
    → t < n
    → c < k
    → step_tile t c d n k ≡ step_tile_in t c d n k
unfolding step_tile
step_tile-in t c d n k h i =
    let some_tiles : (n == 0) ≡ false = ground arith in
    let same : min t (n - 1) ≡ t = omega arith in
    let wide : max k 1 ≡ k = omega arith in
    let kept : min c (k - 1) ≡ c = omega arith in rw (some_tiles, same, wide, kept) refl

step_tile_in-InGrid :
    (t c : ℕ) (d : Direction) (n k t' c' : ℕ)
    → t < n
    → c < k
    → step_tile_in t c d n k ≡ some (t', c')
    → (t' < n) × (c' < k)
unfolding step_tile_in
step_tile_in-InGrid t c left n k t' c' h i s = ground (arith, mod-lt t)
step_tile_in-InGrid t c right n k t' c' h i s = ground arith
step_tile_in-InGrid t c up n k t' c' h i s = let row = div-mul-le_self t k in ground arith
step_tile_in-InGrid t c down n k t' c' h i s = ground arith

-- A step from anywhere lands on a tile and in a column that exist.
pub step_tile-InGrid :
    (t c : ℕ) (d : Direction) (n k t' c' : ℕ)
    → step_tile t c d n k ≡ some (t', c')
    → (t' < n) × (c' < max k 1)
unfolding step_tile
step_tile-InGrid t c d n k t' c' =
    if_elim (λ r. r ≡ some (t', c') → (t' < n) × (c' < max k 1)) (n == 0) (λ e s. cc)
      (λ e s.
        step_tile_in-InGrid (min t (n - 1)) (min c (max k 1 - 1)) d n (max k 1) t' c' (ground arith)
          (omega arith) s)

-- What a guarded result says of its guard.
if-some :
    {A : Type 0} (b : Bool) {x y : A} → (if b then some x else none) ≡ some y → (b ≡ true) × (x ≡ y)
if-some true h = (refl, some-injective _ _ h)
if-some false h = cc

ltb-true : (a b : ℕ) → ltb a b ≡ true → a < b
ltb-true a b h = ground arith

ltb_lt : (a b : ℕ) → a < b → ltb a b ≡ true
ltb_lt a b h = ground arith

-- The row that a tile between two multiples of the columns is in.
row_of : (q k t : ℕ) → q * k ≤ t → t < q * k + k → t / k ≡ q
row_of q k t h i = div-eq_of_lt-le k h (omega (arith, add-mul q 1 k))

-- A step up from a tile of the row below comes back to the tile.
up_from :
    (t n k t' : ℕ)
    → t < n
    → 0 < k
    → t' / k ≡ t / k + 1
    → step_tile_in t' (t % k) up n k ≡ some (t, t % k)
unfolding step_tile_in
up_from t n k t' h i e =
    let parts = div-add-mod' t k in
    let rest = mod-lt t i in
    let below : ltb 0 (t / k + 1) ≡ true = ltb_lt 0 (t / k + 1) (omega arith) in
    let more = add-mul (t / k) 1 k in
    let row : t / k + 1 - 1 ≡ t / k = omega arith in
    let place : min (t / k * k + t % k) ((t / k + 1) * k - 1) ≡ t = omega arith in
    rw (e, below, row, place) refl

step_down :
    (t n k t' c' : ℕ)
    → step_tile_in t (t % k) down n k ≡ some (t', c')
    → (t / k + 1 < div_ceil n k) × (t' ≡ min ((t / k + 1) * k + t % k) (n - 1)) × (c' ≡ t % k)
unfolding step_tile_in
step_down t n k t' c' s =
    let parts = if-some (ltb (t / k + 1) (div_ceil n k)) s in
    (
      ltb-true (t / k + 1) (div_ceil n k) parts.0,
      sym (ap (λ p. p.0) parts.1),
      sym (ap (λ p. p.1) parts.1),
    )

-- From a tile of the grid and its own column, a step down that moves and a step up come back to the
-- tile and the column, also through a last row too short for the column.
pub down-up :
    (t n k t' c' : ℕ)
    → t < n
    → 0 < k
    → step_tile t (t % k) down n k ≡ some (t', c')
    → step_tile t' c' up n k ≡ some (t, t % k)
down-up t n k t' c' h i s =
    let rest = mod-lt t i in
    let inside = sym (step_tile-in t (t % k) down n k h rest) ∙ s in
    let (enough, place, column) = step_down t n k t' c' inside in
    let next = div_ceil-below (t / k + 1) n k i enough in
    let row = row_of (t / k + 1) k t' (omega arith) (omega arith) in
    rw (column) (step_tile-in t' (t % k) up n k (omega arith) rest ∙ up_from t n k t' h i row)

step_left :
    (t c n k t' c' : ℕ)
    → step_tile_in t c left n k ≡ some (t', c')
    → (0 < t % k) × (t' ≡ t - 1) × (c' ≡ t % k - 1)
unfolding step_tile_in
step_left t c n k t' c' s =
    let parts = if-some (ltb 0 (t % k)) s in
    (ltb-true 0 (t % k) parts.0, sym (ap (λ p. p.0) parts.1), sym (ap (λ p. p.1) parts.1))

step_right :
    (t c n k : ℕ) → t % k + 1 < k → t < n - 1 → step_tile_in t c right n k ≡ some (t + 1, t % k + 1)
unfolding step_tile_in
step_right t c n k h i = rw (ltb_lt (t % k + 1) k h, ltb_lt t (n - 1) i) refl

-- From a tile of the grid, a step left that moves and a step right come back to the tile, in its own
-- column.
pub left-right :
    (t c n k t' c' : ℕ)
    → t < n
    → c < k
    → step_tile t c left n k ≡ some (t', c')
    → step_tile t' c' right n k ≡ some (t, t % k)
left-right t c n k t' c' h i s =
    let positive : 0 < k = omega arith in
    let rest = mod-lt t positive in
    let parts = div-add-mod' t k in
    let (room, place, column) = step_left t c n k t' c' (sym (step_tile-in t c left n k h i) ∙ s) in
    let row = row_of (t / k) k t' (omega arith) (omega arith) in
    let before : t' % k ≡ t % k - 1 = omega (arith, div-add-mod' t' k, ap (λ q. q * k) row) in
    let tile : t' + 1 ≡ t = omega arith in
    let back : t' % k + 1 ≡ t % k = omega arith in
    step_tile-in t' c' right n k (omega arith) (omega arith)
    ∙ step_right t' c' n k (omega arith) (omega arith)
    ∙ ap (λ a. some (a, t' % k + 1)) tile
    ∙ ap (λ a. some (t, a)) back
