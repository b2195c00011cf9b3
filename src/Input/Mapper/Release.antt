-- ===== src/Input/Mapper/Release.antt =====
-- A released source: its counter falls, and its key goes up with the last source
-- (services/hearthdeck-input/src/mapping.rs, `release_source`).
use hearthdeck.Prelude.{
  ℕ, ◌-◌, ◌≡◌, refl, inl, inr, false, none, some, List, [], ◌∷◌, arith, if◌then◌else◌, ◌=?◌, ◌==◌,
  lookup, insert, remove, lookup-insert, lookup-remove, Bool-cases, Option-cases,
}
use hearthdeck.Input.{Control, source_eq, OutputKey, output_key_eq, output_key_iff}
use hearthdeck.Input.Mapper.{key, Mapper, drop_count, release_found, release_source, output_for}
use hearthdeck.Input.Mapper.Counts.{uses, IsDistinct-remove, uses-remove}
use hearthdeck.Input.Mapper.Keys.{
  keys_after, held, tally, IsBalanced, Mirrors, Mirrors-nothing, uses_same,
}

-- The state after the release of a source with key `k`.
abbrev released_counts : Mapper → OutputKey → List (OutputKey × ℕ)
released_counts m k =
    if uses k m.sources - 1 == 0
    then remove k m.output_counts
    else insert k (uses k m.sources - 1) m.output_counts

abbrev released_state : Mapper → ℕ × Control → OutputKey → Mapper
released_state m source k = record m {
  sources = remove source m.sources;
  output_counts = released_counts m k;
}

release-counted :
    (m : Mapper) (source : ℕ × Control) (k j : OutputKey)
    → lookup source m.sources ≡ some k
    → IsBalanced m
    → lookup j (released_counts m k) ≡ tally (uses j (remove source m.sources))
release-counted m source k j found b = elim (Bool-cases (k =? j)) [
  | inl same ↦ ground (
    arith,
    lookup-insert k j (uses k m.sources - 1) m.output_counts,
    lookup-remove k j m.output_counts,
    uses-remove j k source m.sources b.distinct found,
    uses_same k j m same,
  )
  | inr other ↦ ground (
    arith,
    lookup-insert k j (uses k m.sources - 1) m.output_counts,
    lookup-remove k j m.output_counts,
    uses-remove j k source m.sources b.distinct found,
    b.counted j,
  )
]

release-keys :
    (m : Mapper) (source : ℕ × Control) (k j : OutputKey)
    → lookup source m.sources ≡ some k
    → IsBalanced m
    → keys_after (if uses k m.sources - 1 == 0 then key k false ∷ [] else []) j (held m j)
      ≡ held (released_state m source k) j
release-keys m source k j found b = ground (
  arith,
  uses-remove j k source m.sources b.distinct found,
  uses-remove k k source m.sources b.distinct found,
  uses_same k j m,
  output_key_iff k k,
)

remove-routed :
    (m : Mapper) (source s : ℕ × Control) (j : OutputKey)
    → IsBalanced m
    → lookup s (remove source m.sources) ≡ some j
    → output_for s.1 ≡ some j
remove-routed m source s j b found = elim (Bool-cases (source =? s)) [
  | inl same ↦ absurd (none_ne (rw (lookup-remove source s m.sources, same) at found))
  | inr other ↦ b.routed s j (rw (lookup-remove source s m.sources, other) at found)
]
  where
    none_ne : none ≡ some j → ⊥
    none_ne e = cc

release-IsBalanced :
    (m : Mapper) (source : ℕ × Control) (k : OutputKey)
    → lookup source m.sources ≡ some k
    → IsBalanced m
    → IsBalanced (released_state m source k)
unfolding remove
release-IsBalanced m source k found b = record {
  distinct = IsDistinct-remove source m.sources b.distinct;
  counted = λ j. release-counted m source k j found b;
  routed = λ s j found'. remove-routed m source s j b found';
  idle = λ off. rw (b.idle off) refl;
}

-- The found key has a counter, and it is the number of its sources.
drop_count-released :
    (m : Mapper) (source : ℕ × Control) (k : OutputKey)
    → lookup source m.sources ≡ some k
    → IsBalanced m
    → drop_count (record m { sources = remove source m.sources }) k (lookup k m.output_counts)
      ≡ (released_state m source k, if uses k m.sources - 1 == 0 then key k false ∷ [] else [])
unfolding drop_count
drop_count-released m source k found b =
    ground
      (arith, b.counted k, uses-remove k k source m.sources b.distinct found, output_key_iff k k)

pub release_source-Mirrors :
    (m : Mapper) (source : ℕ × Control) → IsBalanced m → Mirrors m (release_source m source)
unfolding release_source release_found
release_source-Mirrors m source b = elim (Option-cases (lookup source m.sources)) [
  | inl e ↦ rw e (Mirrors-nothing m b)
  | inr (k, e) ↦
      rw (e, drop_count-released m source k e b)
        (release-IsBalanced m source k e b, λ j. release-keys m source k j e b)
]
