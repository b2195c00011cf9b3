-- ===== src/Input/Mapper/Keys.antt =====
-- The virtual keyboard mirrors the controllers: a key is down exactly when some source of an active
-- mapping holds it (services/hearthdeck-input/src/mapping.rs).
use hearthdeck.Prelude.{
  ℕ, zero, suc, ◌+◌, ◌≡◌, refl, sym, ap, ◌∙◌, inl, inr, Bool, true, false, Option, none, some, List,
  [], ◌∷◌, ◌++◌, arith, if◌then◌else◌, ltb, ◌=?◌, ◌==◌, lookup, insert, lookup-insert, Bool-cases,
}
use hearthdeck.Input.{Control, source_eq, source_iff, OutputKey, output_key_eq, output_key_iff}
use hearthdeck.Input.Mapper.{OutputEvent, key, mouse_move, Mapper, count_of, output_for}
use hearthdeck.Input.Mapper.Counts.{uses, IsDistinct, IsDistinct-insert, uses-insert}

-- Whether a key is down after some events, from whether it was down before.
abbrev pub keys_after : List OutputEvent → OutputKey → Bool → Bool
keys_after [] k down = down
keys_after (key j pressed ∷ events) k down = keys_after events k (if j =? k then pressed else down)
keys_after (mouse_move x y ∷ events) k down = keys_after events k down

pub keys_after-append :
    (xs ys : List OutputEvent) (k : OutputKey) (down : Bool)
    → keys_after (xs ++ ys) k down ≡ keys_after ys k (keys_after xs k down)
keys_after-append [] ys k down = refl
keys_after-append (key j pressed ∷ xs) ys k down =
    keys_after-append xs ys k (if j =? k then pressed else down)
keys_after-append (mouse_move x y ∷ xs) ys k down = keys_after-append xs ys k down

-- Some source holds the key.
abbrev pub held : Mapper → OutputKey → Bool
held m k = ltb 0 (uses k m.sources)

abbrev pub tally : ℕ → Option ℕ
tally zero = none
tally (suc n) = some (suc n)

-- The counters are the numbers of the sources, none of them 0, and an inactive mapper has none.
pub record IsBalanced (m : Mapper) : Type 0 where
  pub distinct : IsDistinct m.sources
  pub counted : (k : OutputKey) → lookup k m.output_counts ≡ tally (uses k m.sources)
  pub routed :
      (source : ℕ × Control) (k : OutputKey)
      → lookup source m.sources ≡ some k
      → output_for source.1 ≡ some k
  pub idle : m.active ≡ false → m.sources ≡ []

-- A step keeps the counters right, and its events take the keys from what they were to what they
-- are.
abbrev pub Mirrors : Mapper → Mapper × List OutputEvent → Type 0
Mirrors m (m', events) =
    IsBalanced m' × ((k : OutputKey) → keys_after events k (held m k) ≡ held m' k)

pub Mirrors-nothing : (m : Mapper) → IsBalanced m → Mirrors m (m, [])
Mirrors-nothing m b = (b, λ k. refl)

pub Mirrors-then :
    (m m' m'' : Mapper) (xs ys : List OutputEvent)
    → Mirrors m (m', xs)
    → Mirrors m' (m'', ys)
    → Mirrors m (m'', xs ++ ys)
Mirrors-then m m' m'' xs ys h h' =
    (h'.0, λ k. keys_after-append xs ys k (held m k) ∙ (ap (keys_after ys k) (h.1 k) ∙ h'.1 k))

pub count_of-tally : (n : ℕ) → count_of (tally n) ≡ n
count_of-tally zero = refl
count_of-tally (suc n) = refl

pub uses_same :
    (k j : OutputKey) (m : Mapper) → (k =? j) ≡ true → uses k m.sources ≡ uses j m.sources
uses_same k j m same = ap (λ (i : OutputKey). uses i m.sources) ((output_key_iff k j).0 same)

pub count_is_uses :
    (m : Mapper) (k : OutputKey)
    → IsBalanced m
    → count_of (lookup k m.output_counts) ≡ uses k m.sources
count_is_uses m k b = ap count_of (b.counted k) ∙ count_of-tally (uses k m.sources)

-- The state after a press of a new source, before its event.
abbrev pub pressed_state : Mapper → ℕ × Control → OutputKey → Mapper
pressed_state m source k = record m {
  sources = insert source k m.sources;
  output_counts = insert k (count_of (lookup k m.output_counts) + 1) m.output_counts;
}

press-counted :
    (m : Mapper) (source : ℕ × Control) (k j : OutputKey)
    → lookup source m.sources ≡ none
    → IsBalanced m
    → lookup j (pressed_state m source k).output_counts
      ≡ tally (uses j (pressed_state m source k).sources)
press-counted m source k j fresh b = elim (Bool-cases (k =? j)) [
  | inl same ↦
      rw
        (
          lookup-insert k j (count_of (lookup k m.output_counts) + 1) m.output_counts,
          uses-insert j k source m.sources fresh,
          same,
        )
        (ground (arith, count_is_uses m k b, uses_same k j m same))
  | inr other ↦
      rw
        (
          lookup-insert k j (count_of (lookup k m.output_counts) + 1) m.output_counts,
          uses-insert j k source m.sources fresh,
          other,
        )
        (b.counted j)
]

pub press-keys :
    (m : Mapper) (source : ℕ × Control) (k j : OutputKey)
    → lookup source m.sources ≡ none
    → IsBalanced m
    → keys_after
        (if count_of (lookup k m.output_counts) + 1 == 1 then key k true ∷ [] else [])
        j
        (held m j)
      ≡ held (pressed_state m source k) j
press-keys m source k j fresh b =
    rw (uses-insert j k source m.sources fresh, count_is_uses m k b)
      (ground (arith, uses_same k j m))

insert-routed :
    (m : Mapper) (source s : ℕ × Control) (k j : OutputKey)
    → output_for source.1 ≡ some k
    → IsBalanced m
    → lookup s (insert source k m.sources) ≡ some j
    → output_for s.1 ≡ some j
insert-routed m source s k j route b found = elim (Bool-cases (source =? s)) [
  | inl same ↦
      ap (λ (t : ℕ × Control). output_for t.1) (sym ((source_iff source s).0 same))
      ∙ (route ∙ (rw (lookup-insert source s k m.sources, same) at found))
  | inr other ↦ b.routed s j (rw (lookup-insert source s k m.sources, other) at found)
]

pub press-IsBalanced :
    (m : Mapper) (source : ℕ × Control) (k : OutputKey)
    → m.active ≡ true
    → output_for source.1 ≡ some k
    → lookup source m.sources ≡ none
    → IsBalanced m
    → IsBalanced (pressed_state m source k)
press-IsBalanced m source k h route fresh b = record {
  distinct = IsDistinct-insert k source m.sources b.distinct;
  counted = λ j. press-counted m source k j fresh b;
  routed = λ s j found. insert-routed m source s k j route b found;
  idle = λ off. cc;
}
