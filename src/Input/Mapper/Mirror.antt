-- ===== src/Input/Mapper/Mirror.antt =====
-- Every operation of the mapper, and every history of them
-- (services/hearthdeck-input/src/mapping.rs).
use hearthdeck.Prelude.{
  ℕ, ◌≡◌, refl, sym, ap, ◌∙◌, inl, inr, Bool, true, false, not, none, some, List, [], ◌∷◌, ◌++◌,
  arith, ltb, ◌=?◌, nat_eq, lookup, remove, Bool-cases, if_elim, Option-cases, ℕ-cases,
}
use hearthdeck.Prelude.Int.{ℤ, pos, negsuc, ltb_ℤ}
use hearthdeck.Input.{Control, source_eq, OutputKey, output_key_eq}
use hearthdeck.Input.Mapper.{
  OutputEvent, Mapper, default, releases, set_active, release_source, add_count, press_found,
  set_source, button_for, button, output_for, directional_axis, right_stick_axis, sources_of,
  release_all, remove_device,
}
use hearthdeck.Input.Mapper.Counts.{uses, insert_same}
use hearthdeck.Input.Mapper.Keys.{
  keys_after, held, IsBalanced, Mirrors, Mirrors-nothing, Mirrors-then, keys_after-append,
  press-keys, press-IsBalanced,
}
use hearthdeck.Input.Mapper.Release.{release_source-Mirrors}

press_found-Mirrors :
    (m : Mapper) (source : ℕ × Control) (k : OutputKey)
    → m.active ≡ true
    → output_for source.1 ≡ some k
    → IsBalanced m
    → Mirrors m (press_found m source k (lookup source m.sources))
unfolding press_found add_count
press_found-Mirrors m source k h route b = elim (Option-cases (lookup source m.sources)) [
  | inl e ↦ rw e (press-IsBalanced m source k h route e b, λ j. press-keys m source k j e b)
  | inr (old, e) ↦
      rw (e, insert_same source k m.sources (e ∙ (sym (b.routed source old e) ∙ route)))
        (Mirrors-nothing m b)
]

set_source-Mirrors :
    (m : Mapper) (source : ℕ × Control) (k : OutputKey) (pressed : Bool)
    → m.active ≡ true
    → output_for source.1 ≡ some k
    → IsBalanced m
    → Mirrors m (set_source m source k pressed)
unfolding set_source
set_source-Mirrors m source k true h route b = press_found-Mirrors m source k h route b
set_source-Mirrors m source k false h route b = release_source-Mirrors m source b

button-Mirrors :
    (m : Mapper) (device : ℕ) (c : Control) (pressed : Bool)
    → IsBalanced m
    → Mirrors m (button m device c pressed)
unfolding button button_for
button-Mirrors m device c pressed b =
    if_elim (Mirrors m) (not m.active) (λ _. Mirrors-nothing m b)
      λ on. elim (Option-cases (output_for c)) [
        | inl e ↦ rw e (Mirrors-nothing m b)
        | inr (k, e) ↦ rw e (set_source-Mirrors m (device, c) k pressed (ground arith) e b)
      ]

directional_axis-Mirrors :
    (m : Mapper) (device : ℕ) (negative positive : Control) (value : ℤ)
    → IsBalanced m
    → Mirrors m (directional_axis m device negative positive value)
unfolding directional_axis
directional_axis-Mirrors m device negative positive value b =
    if_elim (Mirrors m) (not m.active) (λ _. Mirrors-nothing m b)
      λ _.
        Mirrors-then m m' m'' (button m device negative (ltb_ℤ value (negsuc 349))).1
          (button m' device positive (ltb_ℤ (pos 350) value)).1 first
          (button-Mirrors m' device positive _ first.0)
  where
    m' : Mapper
    m' = (button m device negative (ltb_ℤ value (negsuc 349))).0

    m'' : Mapper
    m'' = (button m' device positive (ltb_ℤ (pos 350) value)).0

    first : Mirrors m (button m device negative (ltb_ℤ value (negsuc 349)))
    first = button-Mirrors m device negative _ b

release_all-Mirrors :
    (m : Mapper) (sources : List (ℕ × Control)) → IsBalanced m → Mirrors m (release_all m sources)
unfolding release_all
release_all-Mirrors m [] b = Mirrors-nothing m b
release_all-Mirrors m (source ∷ sources) b =
    let one = release_source-Mirrors m source b in
    let m' : Mapper = (release_source m source).0 in
    Mirrors-then m m' (release_all m' sources).0 (release_source m source).1
      (release_all m' sources).1 one (release_all-Mirrors m' sources one.0)

-- The sticks have no part in the balance.
sticks-IsBalanced :
    (m : Mapper) (sticks : List (ℕ × (ℤ × ℤ)))
    → IsBalanced m
    → IsBalanced (record m { right_sticks = sticks })
sticks-IsBalanced m sticks b = record {
  distinct = b.distinct;
  counted = b.counted;
  routed = b.routed;
  idle = b.idle;
}

remove_device-Mirrors :
    (m : Mapper) (device : ℕ) → IsBalanced m → Mirrors m (remove_device m device)
unfolding remove_device
remove_device-Mirrors m device b =
    release_all-Mirrors (record m { right_sticks = remove device m.right_sticks })
      (sources_of device m.sources) (sticks-IsBalanced m _ b)

keys_after-releases :
    (counts : List (OutputKey × ℕ)) (k : OutputKey) (down : Bool)
    → (lookup k counts ≡ none → down ≡ false)
    → keys_after (releases counts) k down ≡ false
unfolding releases lookup
keys_after-releases [] k down h = h refl
keys_after-releases ((j, n) ∷ counts) k down h = elim (Bool-cases (j =? k)) [
  | inl e ↦ rw (e, keys_after) (keys_after-releases counts k false (λ _. refl))
  | inr e ↦ rw (e, keys_after) (keys_after-releases counts k down (λ l. h (rw e l)))
]

held_lookup :
    (m : Mapper) (k : OutputKey) → IsBalanced m → lookup k m.output_counts ≡ none → held m k ≡ false
held_lookup m k b e = elim (ℕ-cases (uses k m.sources)) [
  | inl z ↦ rw z refl
  | inr (n, z) ↦ ground (arith, b.counted k)
]

empty-IsBalanced : IsBalanced default
unfolding lookup
empty-IsBalanced = record {
  distinct = tt;
  counted = λ k. refl;
  routed = λ source k e. cc;
  idle = λ _. refl;
}

set_active-Mirrors : (m : Mapper) (on : Bool) → IsBalanced m → Mirrors m (set_active m on)
unfolding set_active
set_active-Mirrors m true b = (
  record { distinct = b.distinct; counted = b.counted; routed = b.routed; idle = λ off. cc },
  λ k. refl,
)
set_active-Mirrors m false b =
    if_elim (Mirrors m) m.active
      (λ _. (
        empty-IsBalanced,
        λ k. keys_after-releases m.output_counts k (held m k) (held_lookup m k b),
      ))
      λ _. Mirrors-nothing m b

pub data Operation : Type 0 where
  activates : Bool → Operation
  presses : ℕ → Control → Bool → Operation
  leans : ℕ → Control → Control → ℤ → Operation
  points : ℕ → Bool → ℤ → Operation
  leaves : ℕ → Operation

unfoldable pub apply : Mapper → Operation → Mapper × List OutputEvent
apply m (activates on) = set_active m on
apply m (presses device c pressed) = button m device c pressed
apply m (leans device negative positive value) = directional_axis m device negative positive value
apply m (points device horizontal value) = (right_stick_axis m device horizontal value, [])
apply m (leaves device) = remove_device m device

unfoldable pub run : Mapper → List Operation → Mapper × List OutputEvent
run m [] = (m, [])
run m (op ∷ ops) =
    let (m', events) = apply m op in let (m'', more) = run m' ops in (m'', events ++ more)

apply-Mirrors : (m : Mapper) (op : Operation) → IsBalanced m → Mirrors m (apply m op)
unfolding apply right_stick_axis
apply-Mirrors m (activates on) b = set_active-Mirrors m on b
apply-Mirrors m (presses device c pressed) b = button-Mirrors m device c pressed b
apply-Mirrors m (leans device negative positive value) b =
    directional_axis-Mirrors m device negative positive value b
apply-Mirrors m (points device horizontal value) b = elim (Bool-cases (not m.active)) [
  | inl e ↦ rw e (Mirrors-nothing m b)
  | inr e ↦ rw e (sticks-IsBalanced m _ b, λ k. refl)
]
apply-Mirrors m (leaves device) b = remove_device-Mirrors m device b

run-Mirrors : (m : Mapper) (ops : List Operation) → IsBalanced m → Mirrors m (run m ops)
unfolding run
run-Mirrors m [] b = Mirrors-nothing m b
run-Mirrors m (op ∷ ops) b =
    let m' : Mapper = (apply m op).0 in
    let first = apply-Mirrors m op b in
    Mirrors-then m m' (run m' ops).0 (apply m op).1 (run m' ops).1 first
      (run-Mirrors m' ops first.0)

-- After any history of operations of the mapper, a key of the virtual keyboard is down exactly
-- when some source that is in the mapper's map holds it, and the counters of the keys are right.
pub run-keys :
    (ops : List Operation)
    → let r = run default ops in
      IsBalanced r.0 × ((k : OutputKey) → keys_after r.1 k false ≡ held r.0 k)
run-keys ops = run-Mirrors default ops empty-IsBalanced

set_active-sources : (m : Mapper) → IsBalanced m → (set_active m false).0.sources ≡ []
unfolding set_active
set_active-sources m b = ground (arith, b.idle)

-- Switching the mapping off releases every key: after any history and then the switch, no key of
-- the virtual keyboard is down.
pub run-set_active :
    (ops : List Operation) (k : OutputKey)
    → let r = run default ops in keys_after (r.1 ++ (set_active r.0 false).1) k false ≡ false
run-set_active ops k =
    let m : Mapper = (run default ops).0 in
    let b : IsBalanced m = (run-keys ops).0 in
    keys_after-append (run default ops).1 (set_active m false).1 k false
    ∙ (ap (keys_after (set_active m false).1 k) ((run-keys ops).1 k)
        ∙ ((set_active-Mirrors m false b).1 k
            ∙ ap (λ (s : List ((ℕ × Control) × OutputKey)). ltb 0 (uses k s))
                (set_active-sources m b)))
