-- ===== src/Frontend/Filters/Cycle.antt =====
-- The arrows of a facet (services/hearthdeck-frontend/src/providers/filter.rs).
use hearthdeck.Prelude.{
  ℕ, zero, suc, ◌+◌, ◌-◌, ◌%◌, ◌<◌, ◌≡◌, inl, inr, refl, sym, ap, ◌∙◌, Bool, true, false, not, ◌&&◌,
  if◌then◌else◌, ◌==◌, Bool-cases, Option, Option-cases, none, some, some-injective, List, [], ◌∷◌,
  String, string_eq, ◌=?◌, length, get_elem?, is_some_and, arith, ==_iff,
}
use hearthdeck.Prelude.Int.{ℤ, pos, negsuc, ◌+ℤ◌}
use native.Mathlib.Nat.{mod-eq_of_lt, mod_self, mod-lt}
use hearthdeck.Frontend.Facets.{FacetOption, Facet}
use hearthdeck.Frontend.Filters.{position, rem_euclid, index_of, value_at, cycle, option_offered}

-- No value stands twice among the options.
unfoldable pub are_distinct : List FacetOption → Bool
are_distinct [] = true
are_distinct (o ∷ options) = not (option_offered o.value options) && are_distinct options

position-offered :
    (v : String) (options : List FacetOption)
    → option_offered v options ≡ is_some_and (position v options) (λ _. true)
unfolding option_offered position
position-offered v [] = refl
position-offered v (o ∷ options) = ground (arith, position-offered v options)

pub position-found :
    (v : String) (options : List FacetOption) (i : ℕ)
    → position v options ≡ some i
    → value_at options (suc i) ≡ some v
unfolding position
position-found v [] i h = cc
position-found v (o ∷ options) i h = elim (Bool-cases (o.value =? v)) [
  | inl q ↦
      let h' : some 0 ≡ some i = (rw q at h) in
      rw (sym (some-injective _ _ h')) (ap some ((string_eq.beq_iff o.value v).0 q))
  | inr q ↦ elim (Option-cases (position v options)) [
    | inl p ↦ let h' : none ≡ some i = (rw (q, p) at h) in cc
    | inr (j, p) ↦
        let h' : some (suc j) ≡ some i = (rw (q, p) at h) in
        rw (sym (some-injective _ _ h')) (position-found v options j p)
  ]
]

position-Bounded :
    (v : String) (options : List FacetOption) (i : ℕ)
    → position v options ≡ some i
    → i < length options
unfolding position
position-Bounded v [] i h = cc
position-Bounded v (o ∷ options) i h = ground (arith, position-Bounded v options (i - 1))

get_elem-offered :
    (options : List FacetOption) (i : ℕ) (o : FacetOption)
    → get_elem? options i ≡ some o
    → option_offered o.value options ≡ true
unfolding option_offered
get_elem-offered [] i o h = cc
get_elem-offered (x ∷ options) zero o h =
    rw (sym (some-injective _ _ h)) (ground (arith, string_eq.beq_iff x.value x.value))
get_elem-offered (x ∷ options) (suc i) o h = ground (arith, get_elem-offered options i o h)

position-get_elem :
    (options : List FacetOption) (i : ℕ) (o : FacetOption)
    → are_distinct options ≡ true
    → get_elem? options i ≡ some o
    → position o.value options ≡ some i
unfolding position are_distinct
position-get_elem [] i o d h = cc
position-get_elem (x ∷ options) zero o d h =
    rw (sym (some-injective _ _ h)) (ground (arith, string_eq.beq_iff x.value x.value))
position-get_elem (x ∷ options) (suc i) o d h = ground (
  arith,
  string_eq.beq_iff x.value o.value,
  get_elem-offered options i o h,
  position-get_elem options i o (ground arith) h,
)

get_elem-some :
    (options : List FacetOption) (i : ℕ)
    → i < length options
    → (o : FacetOption) × (get_elem? options i ≡ some o)
get_elem-some [] i h = absurd (omega arith)
get_elem-some (x ∷ options) zero h = (x, refl)
get_elem-some (x ∷ options) (suc i) h = get_elem-some options i (omega arith)

-- The current value is none, or one that the facet offers.
abbrev pub IsCurrent : List FacetOption → Option String → Type 0
IsCurrent options none = Unit
IsCurrent options (some v) = option_offered v options ≡ true

value_at-index_of :
    (options : List FacetOption) (c : Option String)
    → IsCurrent options c
    → value_at options (index_of options c) ≡ c
value_at-index_of options none h = refl
value_at-index_of options (some v) h = elim (Option-cases (position v options)) [
  | inl p ↦ let e : option_offered v options ≡ false = position-offered v options ∙ rw p refl in cc
  | inr (i, p) ↦ rw (index_of, p) (position-found v options i p)
]

pub index_of-Bounded :
    (options : List FacetOption) (c : Option String) → index_of options c < length options + 1
index_of-Bounded options none = omega arith
index_of-Bounded options (some v) = elim (Option-cases (position v options)) [
  | inl p ↦ rw (index_of, p) (omega arith)
  | inr (i, p) ↦ let b = position-Bounded v options i p in rw (index_of, p) (omega arith)
]

index_of-value_at :
    (options : List FacetOption) (i : ℕ)
    → are_distinct options ≡ true
    → i < length options + 1
    → index_of options (value_at options i) ≡ i
index_of-value_at options zero d lt = refl
index_of-value_at options (suc i) d lt =
    let (o, h) = get_elem-some options i (omega arith) in
    rw (value_at, h, index_of, position-get_elem options i o d h) refl

forth : (i k : ℕ) → i < k → (i + 1) % k ≡ (if suc i == k then 0 else suc i)
forth i k h = elim (Bool-cases (suc i == k)) [
  | inl q ↦ let e : i + 1 ≡ k = omega (arith, (==_iff (suc i) k).0 q) in rw (q, e) (mod_self k)
  | inr q ↦
      let lt : i + 1 < k = ground (arith, ==_iff (suc i) k) in rw q (mod-eq_of_lt lt ∙ omega arith)
]

sum_forth : (i : ℕ) → pos i +ℤ pos 1 ≡ pos (i + 1)
unfolding ◌+ℤ◌
sum_forth i = ground arith

sum_back : (i : ℕ) → pos (suc i) +ℤ negsuc 0 ≡ pos i
unfolding ◌+ℤ◌
sum_back i = ground arith

-- A step of the arrow forth, and one back.
pub rem_forth :
    (i k : ℕ) → i < k → rem_euclid (pos i +ℤ pos 1) k ≡ (if suc i == k then 0 else suc i)
unfolding rem_euclid
rem_forth i k h = rw (sum_forth i) (forth i k h)

pub rem_back :
    (i k : ℕ) → i < k → rem_euclid (pos i +ℤ negsuc 0) k ≡ (if i == 0 then k - 1 else i - 1)
unfolding rem_euclid ◌+ℤ◌
rem_back zero k h = rw (mod-eq_of_lt h) (omega arith)
rem_back (suc i) k h = rw (sum_back i) (mod-eq_of_lt (omega arith) ∙ ground arith)

rem_Bounded : (d : ℤ) (k : ℕ) → 0 < k → rem_euclid d k < k
unfolding rem_euclid
rem_Bounded (pos n) k h = mod-lt n h
rem_Bounded (negsuc n) k h = omega arith

back-forth : (i k : ℕ) → i < k → rem_euclid (pos (rem_euclid (pos i +ℤ pos 1) k) +ℤ negsuc 0) k ≡ i
back-forth i k h =
    let f = rem_forth i k h in
    let b =
      rem_back (rem_euclid (pos i +ℤ pos 1) k) k (rem_Bounded (pos i +ℤ pos 1) k (omega arith)) in
    ground (arith, ==_iff (suc i) k)

forth-back : (i k : ℕ) → i < k → rem_euclid (pos (rem_euclid (pos i +ℤ negsuc 0) k) +ℤ pos 1) k ≡ i
forth-back i k h =
    let b = rem_back i k h in
    let f =
      rem_forth (rem_euclid (pos i +ℤ negsuc 0) k) k
        (rem_Bounded (pos i +ℤ negsuc 0) k (omega arith)) in
    ground (arith, ==_iff (suc (i - 1)) k, ==_iff (suc (k - 1)) k)

step_twice :
    (f : Facet) (c : Option String) (d e : ℤ)
    → are_distinct f.options ≡ true
    → IsCurrent f.options c
    → ((i : ℕ)
        → i < length f.options + 1
        → rem_euclid
            (pos (rem_euclid (pos i +ℤ d) (length f.options + 1)) +ℤ e)
            (length f.options + 1)
          ≡ i)
    → cycle f (cycle f c d) e ≡ c
unfolding cycle
step_twice f c d e distinct current inverse =
    rw
      (
        index_of-value_at f.options
            (rem_euclid (pos (index_of f.options c) +ℤ d) (length f.options + 1)) distinct
            (rem_Bounded (pos (index_of f.options c) +ℤ d) (length f.options + 1) (omega arith)),
        inverse (index_of f.options c) (index_of-Bounded f.options c),
      )
      (value_at-index_of f.options c current)

-- The arrows of a facet undo each other: from "All" or from a value that the facet offers, one step in
-- a direction and one in the other come back, also where they wrap, if no value stands twice.
pub cycle_inverse :
    (f : Facet) (c : Option String)
    → are_distinct f.options ≡ true
    → IsCurrent f.options c
    → (cycle f (cycle f c (pos 1)) (negsuc 0) ≡ c) × (cycle f (cycle f c (negsuc 0)) (pos 1) ≡ c)
cycle_inverse f c distinct current = (
  step_twice f c (pos 1) (negsuc 0) distinct current (λ i h. back-forth i (length f.options + 1) h),
  step_twice f c (negsuc 0) (pos 1) distinct current (λ i h. forth-back i (length f.options + 1) h),
)
