-- ===== src/Input/Mapper/Counts.antt =====
-- A map from sources to keys: how many sources have a key, and what the operations on the map do
-- to that number. The facts hold for any sources and keys with an equality.
use hearthdeck.Prelude.{
  ℕ, suc, ◌≡◌, refl, ◌∙◌, false, inl, inr, none, some, List, [], ◌∷◌, arith, if◌then◌else◌, ◌=?◌,
  Eq, lookup, insert, remove, lookup-insert, lookup-remove, Bool-cases,
}

module _ {ℓ κ} {S : Type ℓ} {J : Type κ} ⦃f : Eq J⦄ where
  abbrev pub uses : J → List (S × J) → ℕ
  uses k [] = 0
  uses k ((source, j) ∷ sources) = if j =? k then suc (uses k sources) else uses k sources

module _ {ℓ κ} {S : Type ℓ} {J : Type κ} ⦃e : Eq S⦄ where
  -- No source stands twice.
  abbrev pub IsDistinct : List (S × J) → Type κ
  IsDistinct [] = Unit
  IsDistinct ((source, j) ∷ sources) = (lookup source sources ≡ none) × IsDistinct sources

  pub IsDistinct-insert :
      (j : J) (source : S) (sources : List (S × J))
      → IsDistinct sources
      → IsDistinct (insert source j sources)
  unfolding insert lookup
  IsDistinct-insert j source [] d = (refl, tt)
  IsDistinct-insert j source ((s, i) ∷ sources) d = elim (Bool-cases (s =? source)) [
    | inl same ↦ rw same (rw (← (e.beq_iff s source).0 same) d.0, d.1)
    | inr other ↦ rw other (
      lookup-insert source s j sources ∙ rw (not_same other) d.0,
      IsDistinct-insert j source sources d.1,
    )
  ]
    where
      not_same : (s =? source) ≡ false → (source =? s) ≡ false
      not_same h = ground (arith, e.beq_iff s source, e.beq_iff source s)

  pub remove_absent :
      (source : S) (sources : List (S × J))
      → lookup source sources ≡ none
      → remove source sources ≡ sources
  unfolding lookup remove
  remove_absent source [] h = refl
  remove_absent source ((s, i) ∷ sources) h = ground (arith, remove_absent source sources)

  -- Writing what is there already changes nothing.
  pub insert_same :
      (source : S) (j : J) (sources : List (S × J))
      → lookup source sources ≡ some j
      → insert source j sources ≡ sources
  unfolding lookup insert
  insert_same source j [] h = cc
  insert_same source j ((s, i) ∷ sources) h =
      ground (arith, insert_same source j sources, e.beq_iff s source)

  pub IsDistinct-remove :
      (source : S) (sources : List (S × J))
      → IsDistinct sources
      → IsDistinct (remove source sources)
  unfolding lookup remove
  IsDistinct-remove source [] d = tt
  IsDistinct-remove source ((s, i) ∷ sources) d = elim (Bool-cases (s =? source)) [
    | inl same ↦ rw same (IsDistinct-remove source sources d.1)
    | inr other ↦
        rw other (
          ground (arith, d.0, lookup-remove source s sources),
          IsDistinct-remove source sources d.1,
        )
  ]

module _ {ℓ κ} {S : Type ℓ} {J : Type κ} ⦃e : Eq S⦄ ⦃f : Eq J⦄ where
  pub uses-insert :
      (k j : J) (source : S) (sources : List (S × J))
      → lookup source sources ≡ none
      → uses k (insert source j sources) ≡ (if j =? k then suc (uses k sources) else uses k sources)
  unfolding lookup insert
  uses-insert k j source [] h = refl
  uses-insert k j source ((s, i) ∷ sources) h = ground (arith, uses-insert k j source sources)

  pub uses-remove :
      (k j : J) (source : S) (sources : List (S × J))
      → IsDistinct sources
      → lookup source sources ≡ some j
      → uses k sources
        ≡ (if j =? k then suc (uses k (remove source sources)) else uses k (remove source sources))
  unfolding lookup remove
  uses-remove k j source [] d h = cc
  uses-remove k j source ((s, i) ∷ sources) d h = elim (Bool-cases (s =? source)) [
    | inl same ↦
        let gone : remove source sources ≡ sources =
          remove_absent source sources (rw (← (e.beq_iff s source).0 same) d.0) in
        ground (arith, gone)
    | inr other ↦ ground (arith, uses-remove k j source sources d.1)
  ]
