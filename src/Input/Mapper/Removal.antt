-- ===== src/Input/Mapper/Removal.antt =====
-- A device that leaves takes its own sources with it
-- (services/hearthdeck-input/src/mapping.rs, `remove_device`).
use hearthdeck.Prelude.{
  ℕ, ◌-◌, ◌≡◌, refl, sym, ap, ◌∙◌, inl, inr, Bool, true, false, ◌||◌, Option, none, some, List, [],
  ◌∷◌, if◌then◌else◌, ◌==◌, ◌=?◌, nat_eq, Eq, contains, lookup, remove, lookup-remove, Bool-cases,
  if_elim, Option-cases,
}
use hearthdeck.Input.{Control, source_eq, source_iff, OutputKey, output_key_eq}
use hearthdeck.Input.Mapper.{
  OutputEvent, Mapper, drop_count, release_found, release_source, sources_of, release_all,
  remove_device,
}

drop_count-sources :
    (m : Mapper) (k : OutputKey) (o : Option ℕ) → (drop_count m k o).0.sources ≡ m.sources
unfolding drop_count
drop_count-sources m k none = refl
drop_count-sources m k (some n) =
    if_elim (λ (r : Mapper × List OutputEvent). r.0.sources ≡ m.sources) (n - 1 == 0) (λ _. refl)
      (λ _. refl)

lookup-absent {ℓ κ} :
    {K : Type ℓ} {V : Type κ} ⦃e : Eq K⦄ (t s : K) (m : List (K × V))
    → lookup t m ≡ none
    → lookup s m ≡ (if t =? s then none else lookup s m)
lookup-absent ⦃e⦄ t s m h = elim (Bool-cases (t =? s)) [
  | inl b ↦ rw b (ap (λ k. lookup k m) (sym ((e.beq_iff t s).0 b)) ∙ h)
  | inr b ↦ rw b refl
]

release_source-lookup :
    (m : Mapper) (t s : ℕ × Control)
    → lookup s (release_source m t).0.sources ≡ (if t =? s then none else lookup s m.sources)
unfolding release_source release_found
release_source-lookup m t s = elim (Option-cases (lookup t m.sources)) [
  | inl e ↦ rw e (lookup-absent t s m.sources e)
  | inr (k, e) ↦ rw e (
      ap (lookup s) (
        drop_count-sources (record m { sources = remove t m.sources }) k (lookup k m.output_counts))
      ∙ lookup-remove t s m.sources)
]

-- Two tests of one chain are one test.
if_or {ℓ} :
    {A : Type ℓ} (a b : Bool) (x y : A)
    → (if b then x else (if a then x else y)) ≡ (if a || b then x else y)
if_or true true x y = refl
if_or true false x y = refl
if_or false b x y = refl

release_all-lookup :
    (m : Mapper) (ts : List (ℕ × Control)) (s : ℕ × Control)
    → lookup s (release_all m ts).0.sources ≡ (if contains s ts then none else lookup s m.sources)
unfolding release_all contains
release_all-lookup m [] s = refl
release_all-lookup m (t ∷ ts) s =
    release_all-lookup (release_source m t).0 ts s
    ∙ ap (λ r. if contains s ts then none else r) (release_source-lookup m t s)
    ∙ if_or (t =? s) (contains s ts) none (lookup s m.sources)

same_device : (t s : ℕ × Control) (device : ℕ) → (t =? s) ≡ true → (t.0 == device) ≡ (s.0 == device)
same_device t s device h = ap (λ (r : ℕ × Control). r.0 == device) ((source_iff t s).0 h)

or_false : (a b : Bool) → (a || b) ≡ false → (a ≡ false) × (b ≡ false)
or_false true b h = cc
or_false false b h = (refl, h)

sources_of-tail :
    (device d : ℕ) (c : Control) (k : OutputKey) (s : ℕ × Control)
    (sources : List ((ℕ × Control) × OutputKey))
    → contains s (sources_of device (((d, c), k) ∷ sources)) ≡ false
    → contains s (sources_of device sources) ≡ false
unfolding sources_of contains
sources_of-tail device d c k s sources n = elim (Bool-cases (d == device)) [
  | inl o ↦ (or_false ((d, c) =? s) (contains s (sources_of device sources)) (rw o at n)).1
  | inr o ↦ rw o at n
]

sources_of-head :
    (device d : ℕ) (c : Control) (k : OutputKey) (s : ℕ × Control)
    (sources : List ((ℕ × Control) × OutputKey))
    → (d == device) ≡ true
    → contains s (sources_of device (((d, c), k) ∷ sources)) ≡ false
    → ((d, c) =? s) ≡ false
unfolding sources_of contains
sources_of-head device d c k s sources o n =
    (or_false ((d, c) =? s) (contains s (sources_of device sources)) (rw o at n)).0

true_ne_false : true ≡ false → ⊥
true_ne_false h = cc

sources_of-own :
    (device : ℕ) (s : ℕ × Control) (sources : List ((ℕ × Control) × OutputKey))
    → (s.0 == device) ≡ true
    → contains s (sources_of device sources) ≡ false
    → lookup s sources ≡ none
unfolding lookup
sources_of-own device s [] h n = refl
sources_of-own device s (((d, c), k) ∷ sources) h n = elim (Bool-cases ((d, c) =? s)) [
  | inl e ↦
      let own = same_device (d, c) s device e ∙ h in
      absurd (true_ne_false (sym e ∙ sources_of-head device d c k s sources own n))
  | inr e ↦ rw e (sources_of-own device s sources h (sources_of-tail device d c k s sources n))
]

sources_of-others :
    (device : ℕ) (s : ℕ × Control) (sources : List ((ℕ × Control) × OutputKey))
    → (s.0 == device) ≡ false
    → contains s (sources_of device sources) ≡ false
unfolding sources_of contains
sources_of-others device s [] h = refl
sources_of-others device s (((d, c), k) ∷ sources) h = elim (Bool-cases (d == device)) [
  | inl o ↦ elim (Bool-cases ((d, c) =? s)) [
    | inl e ↦ absurd (true_ne_false (sym o ∙ same_device (d, c) s device e ∙ h))
    | inr e ↦ rw (o, e) (sources_of-others device s sources h)
  ]
  | inr o ↦ rw o (sources_of-others device s sources h)
]

-- When a device leaves, every source of it is forgotten and every source of another device is kept
-- with its key.
pub remove_device-lookup :
    (m : Mapper) (device : ℕ) (s : ℕ × Control)
    → lookup s (remove_device m device).0.sources
      ≡ (if s.0 == device then none else lookup s m.sources)
unfolding remove_device
remove_device-lookup m device s =
    release_all-lookup (record m { right_sticks = remove device m.right_sticks })
      (sources_of device m.sources) s
    ∙ elim (Bool-cases (s.0 == device)) [
      | inl o ↦ elim (Bool-cases (contains s (sources_of device m.sources))) [
        | inl i ↦ rw (o, i) refl
        | inr i ↦ rw (o, i) (sources_of-own device s m.sources o i)
      ]
      | inr o ↦ rw (o, sources_of-others device s m.sources o) refl
    ]
