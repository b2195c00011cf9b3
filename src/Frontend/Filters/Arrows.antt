-- ===== src/Frontend/Filters/Arrows.antt =====
-- Where the arrows of a facet's row go (services/hearthdeck-frontend/src/screens/library/filters.rs,
-- providers/filter.rs).
use hearthdeck.Prelude.{
  ℕ, zero, suc, ◌+◌, ◌-◌, ◌≡◌, inl, inr, refl, sym, ap, ◌∙◌, if◌then◌else◌, ◌==◌, ==_iff,
  Bool-cases, Option, Option-cases, none, some, some-injective, List, [], ◌∷◌, String, string_eq,
  ◌=?◌, length, get_elem?, lookup, lookup-insert, lookup-remove, arith,
}
use hearthdeck.Prelude.Int.{pos, negsuc, ◌+ℤ◌}
use hearthdeck.Frontend.Facets.{FacetOption, Facet}
use hearthdeck.Frontend.Filters.{
  State, cycle_row, update, selecting, cycle, position, index_of, value_at, rem_euclid,
}
use hearthdeck.Frontend.Filters.Cycle.{rem_forth, rem_back, index_of-Bounded}

abbrev pub first_value : List FacetOption → Option String
first_value [] = none
first_value (o ∷ _) = some o.value

unfoldable pub last_value : List FacetOption → Option String
last_value [] = none
last_value (o ∷ []) = some o.value
last_value (_ ∷ o ∷ options) = last_value (o ∷ options)

-- The value that stands after another, none after the last; after one that is not there, the first.
unfoldable pub value_after : List FacetOption → List FacetOption → String → Option String
value_after all [] v = first_value all
value_after all (o ∷ options) v =
    if o.value =? v then first_value options else value_after all options v

-- The value that stands before another, where `before` is the one before the list.
unfoldable pub value_before :
    List FacetOption → Option String → List FacetOption → String → Option String
value_before all before [] v = last_value all
value_before all before (o ∷ options) v =
    if o.value =? v then before else value_before all (some o.value) options v

-- "All" stands before the first value and after the last.
abbrev pub next_value : List FacetOption → Option String → Option String
next_value options none = first_value options
next_value options (some v) = value_after options options v

abbrev pub previous_value : List FacetOption → Option String → Option String
previous_value options none = last_value options
previous_value options (some v) = value_before options none options v

value_at_end : (options : List FacetOption) → value_at options (suc (length options)) ≡ none
value_at_end [] = refl
value_at_end (o ∷ options) = value_at_end options

value_at_last :
    (options : List FacetOption) → value_at options (length options) ≡ last_value options
unfolding last_value
value_at_last [] = refl
value_at_last (o ∷ []) = refl
value_at_last (o ∷ p ∷ options) = value_at_last (p ∷ options)

nothing : {i : ℕ} → some i ≡ none → ⊥
nothing h = cc

absent-after :
    (all options : List FacetOption) (v : String)
    → position v options ≡ none
    → value_after all options v ≡ first_value all
unfolding position value_after
absent-after all [] v h = refl
absent-after all (o ∷ options) v h = elim (Bool-cases (o.value =? v)) [
  | inl q ↦ absurd (nothing (rw q at h))
  | inr q ↦ elim (Option-cases (position v options)) [
    | inl p ↦ rw q (absent-after all options v p)
    | inr (i, p) ↦ absurd (nothing (rw (q, p) at h))
  ]
]

absent-before :
    (all : List FacetOption) (before : Option String) (options : List FacetOption) (v : String)
    → position v options ≡ none
    → value_before all before options v ≡ last_value all
unfolding position value_before
absent-before all before [] v h = refl
absent-before all before (o ∷ options) v h = elim (Bool-cases (o.value =? v)) [
  | inl q ↦ absurd (nothing (rw q at h))
  | inr q ↦ elim (Option-cases (position v options)) [
    | inl p ↦ rw q (absent-before all (some o.value) options v p)
    | inr (i, p) ↦ absurd (nothing (rw (q, p) at h))
  ]
]

value_at_first : (options : List FacetOption) → value_at options 1 ≡ first_value options
value_at_first [] = refl
value_at_first (o ∷ options) = refl

position-after :
    (all options : List FacetOption) (v : String) (i : ℕ)
    → position v options ≡ some i
    → value_at options (suc (suc i)) ≡ value_after all options v
unfolding position value_after
position-after all [] v i h = cc
position-after all (o ∷ options) v i h = elim (Bool-cases (o.value =? v)) [
  | inl q ↦
      let h' : some 0 ≡ some i = (rw q at h) in
      rw (q, sym (some-injective _ _ h')) (value_at_first options)
  | inr q ↦ elim (Option-cases (position v options)) [
    | inl p ↦ let impossible : none ≡ some i = (rw (q, p) at h) in cc
    | inr (j, p) ↦
        let h' : some (suc j) ≡ some i = (rw (q, p) at h) in
        rw (q, sym (some-injective _ _ h')) (position-after all options v j p)
  ]
]

-- The value at a place, or the one before the list.
abbrev at_or : Option String → List FacetOption → ℕ → Option String
at_or before options zero = before
at_or before options (suc i) = value_at options (suc i)

at_or-cons :
    (before : Option String) (o : FacetOption) (options : List FacetOption) (i : ℕ)
    → at_or (some o.value) options i ≡ at_or before (o ∷ options) (suc i)
at_or-cons before o options zero = refl
at_or-cons before o options (suc i) = refl

position-before :
    (all : List FacetOption) (before : Option String) (options : List FacetOption) (v : String)
    (i : ℕ)
    → position v options ≡ some i
    → at_or before options i ≡ value_before all before options v
unfolding position value_before
position-before all before [] v i h = cc
position-before all before (o ∷ options) v i h = elim (Bool-cases (o.value =? v)) [
  | inl q ↦ let h' : some 0 ≡ some i = (rw q at h) in rw (q, sym (some-injective _ _ h')) refl
  | inr q ↦ elim (Option-cases (position v options)) [
    | inl p ↦ let impossible : none ≡ some i = (rw (q, p) at h) in cc
    | inr (j, p) ↦
        let h' : some (suc j) ≡ some i = (rw (q, p) at h) in
        rw (q, sym (some-injective _ _ h'))
          (sym (at_or-cons before o options j) ∙ position-before all (some o.value) options v j p)
  ]
]

at_or-none : (options : List FacetOption) (i : ℕ) → at_or none options i ≡ value_at options i
at_or-none options zero = refl
at_or-none options (suc i) = refl

index-next :
    (options : List FacetOption) (c : Option String)
    → value_at options (suc (index_of options c)) ≡ next_value options c
index-next options none = value_at_first options
index-next options (some v) = elim (Option-cases (position v options)) [
  | inl p ↦ rw (index_of, p) (value_at_first options ∙ sym (absent-after options options v p))
  | inr (i, p) ↦ rw (index_of, p) (position-after options options v i p)
]

index-previous :
    (options : List FacetOption) (c : Option String)
    → value_at options (if index_of options c == 0 then length options else index_of options c - 1)
      ≡ previous_value options c
index-previous options none = value_at_last options
index-previous options (some v) = elim (Option-cases (position v options)) [
  | inl p ↦ rw (index_of, p) (value_at_last options ∙ sym (absent-before options none options v p))
  | inr (i, p) ↦
      let there : (if suc i == 0 then length options else suc i - 1) ≡ i = ground arith in
      rw (index_of, p)
        (ap (value_at options) there
          ∙ sym (at_or-none options i)
          ∙ position-before options none options v i p)
]

cycle-next : (f : Facet) (c : Option String) → cycle f c (pos 1) ≡ next_value f.options c
unfolding cycle
cycle-next f c =
    let i = index_of f.options c in
    let n = length f.options in
    rw (rem_forth i (n + 1) (index_of-Bounded f.options c)) (elim (Bool-cases (suc i == n + 1)) [
      | inl q ↦
          let last : i ≡ n = omega (arith, (==_iff (suc i) (n + 1)).0 q) in
          rw q (
            sym (value_at_end f.options)
            ∙ ap (λ k. value_at f.options (suc k)) (sym last)
            ∙ index-next f.options c)
      | inr q ↦ rw q (index-next f.options c)
    ])

cycle-previous : (f : Facet) (c : Option String) → cycle f c (negsuc 0) ≡ previous_value f.options c
unfolding cycle
cycle-previous f c =
    let i = index_of f.options c in
    let n = length f.options in
    let back : rem_euclid (pos i +ℤ negsuc 0) (n + 1) ≡ (if i == 0 then n else i - 1) =
      rem_back i (n + 1) (index_of-Bounded f.options c) ∙ ground arith in
    rw back (index-previous f.options c)

selecting-lookup :
    (s : State) (facet id : String) (o : Option String)
    → lookup id (selecting facet o s).selected ≡ (if facet =? id then o else lookup id s.selected)
selecting-lookup s facet id none = lookup-remove facet id s.selected
selecting-lookup s facet id (some v) = lookup-insert facet id v s.selected

-- The arrows of a row walk the row's facet and no other: the right arrow selects the option that
-- stands after the selected one, and the left arrow the one before it, where "All", which is no
-- selection, stands after the last and before the first; from a value that the facet does not offer
-- they go where they go from "All".
pub update-next_previous :
    (s : State) (row : ℕ) (f : Facet) (id : String)
    → get_elem? s.facets row ≡ some f
    → (lookup id (update s (cycle_row row (pos 1))).0.selected ≡ (
        if f.id =? id then next_value f.options (lookup f.id s.selected) else lookup id s.selected))
      × (lookup id (update s (cycle_row row (negsuc 0))).0.selected ≡ (
          if f.id =? id
          then previous_value f.options (lookup f.id s.selected)
          else lookup id s.selected))
unfolding update
update-next_previous s row f id h =
    rw
      (
        h,
        sym (cycle-next f (lookup f.id s.selected)),
        sym (cycle-previous f (lookup f.id s.selected)),
      )
      (selecting-lookup s f.id id _, selecting-lookup s f.id id _)
