-- ===== src/Input/Broker/Gone.antt =====
-- Which pads are gone, and which stay (services/hearthdeck-input/src/broker.rs, `poll`).
use hearthdeck.Prelude.{
  ℕ, ◌≡◌, refl, sym, ap, ◌∙◌, Bool, true, false, ◌&&◌, ◌||◌, ◌==◌, ==_iff, if◌then◌else◌,
  Bool-cases, Option, none, some, List, [], ◌∷◌, ◌++◌, inl, inr, After, After-then, After-map,
  nat_eq, contains, lookup, arith,
}
use hearthdeck.Input.{Control, source_eq}
use hearthdeck.Input.Ownership
use hearthdeck.Input.Ownership.{Ownership, Signal}
use hearthdeck.Input.Broker.{Platform, Pad, Broker, emit_mapped}
use hearthdeck.Input.Broker.Poll.{
  Fetched, events, would_block, gone, on_events, on_fetched, on_pads, drop_pad, forget,
}
use hearthdeck.Input.Broker.Polled.{Kept, emit_mapped-Kept}

abbrev pub is_gone : Fetched → Bool
is_gone gone = true
is_gone _ = false

pub After-both :
    {A : Type 0} (P Q : A → Type 0) (m : Option A)
    → After P m
    → After Q m
    → After (λ a. P a × Q a) m
After-both P Q none p q = tt
After-both P Q (some a) p q = (p, q)

abbrev gone_of : Fetched → ℕ → List ℕ
gone_of gone id = id ∷ []
gone_of _ id = []

anything : {A : Type 0} (m : Option A) → After (λ _. Unit {0}) m
anything none = tt
anything (some a) = tt

taken : {A : Type 0} {a : A} → some a ≡ none → ⊥
taken h = cc

pub if_none : {A : Type 0} {o : Option A} (b : Bool) → o ≡ none → (if b then none else o) ≡ none
if_none true h = refl
if_none false h = h

pub both_true : (a : Bool) → (a && true) ≡ a
both_true a = ground arith

pub tick_pads-lookup :
    (id : ℕ) (pads : List (ℕ × Ownership.Pad)) (now : ℕ)
    → lookup id pads ≡ none
    → lookup id (Ownership.tick_pads pads now).0 ≡ none
unfolding Ownership.tick_pads lookup
tick_pads-lookup id [] now h = refl
tick_pads-lookup id ((j, p) ∷ pads) now h = elim (Bool-cases (j == id)) [
  | inl q ↦ absurd (taken (rw q at h))
  | inr q ↦ rw q (tick_pads-lookup id pads now (rw q at h))
]

module _ (w : Platform) where
  -- The pads that stay, in their order.
  unfoldable pub staying : (ℕ → Fetched) → List (Pad w) → List (Pad w)
  staying fetched [] = []
  staying fetched (p ∷ pads) =
      if is_gone (fetched p.id) then staying fetched pads else p ∷ staying fetched pads

  -- Nothing of a pad is left: neither its buttons nor its controls' keys.
  abbrev pub Forgotten : ℕ → Broker w → Type 0
  Forgotten id b =
      (lookup id b.state.pads ≡ none) × ((c : Control) → lookup (id, c) b.mapper.sources ≡ none)

  abbrev pub ForgottenIf : Fetched → ℕ → Broker w → Type 0
  ForgottenIf gone id b = Forgotten id b
  ForgottenIf _ id b = Unit

  -- Each pad that is gone is forgotten.
  abbrev pub AllForgotten : (ℕ → Fetched) → List (Pad w) → Broker w → Type 0
  AllForgotten fetched [] b = Unit
  AllForgotten fetched (p ∷ pads) b =
      ForgottenIf (fetched p.id) p.id b × AllForgotten fetched pads b

  pub forgotten_if :
      (f : Fetched) (id : ℕ) (b : Broker w)
      → (is_gone f ≡ true → Forgotten id b)
      → ForgottenIf f id b
  forgotten_if gone id b h = h refl
  forgotten_if (events es) id b h = tt
  forgotten_if would_block id b h = tt

  unfoldable pub gone_ids : (ℕ → Fetched) → List (Pad w) → List ℕ
  gone_ids fetched [] = []
  gone_ids fetched (p ∷ pads) = gone_of (fetched p.id) p.id ++ gone_ids fetched pads

  on_fetched-gone :
      (b : Broker w) (p : Pad w) (enabled : Bool) (f : Fetched)
      → After (λ r. r.2 ≡ gone_of f p.id) (on_fetched w b p enabled f)
  unfolding on_fetched
  on_fetched-gone b p enabled (events es) =
      After-then (λ r. Unit) (λ r. r.2 ≡ []) (on_events w b p enabled es) _ (anything _)
        (λ r k. refl)
  on_fetched-gone b p enabled would_block = refl
  on_fetched-gone b p enabled gone = refl

  pub on_pads-gone :
      (b : Broker w) (pads : List (Pad w)) (fetched : ℕ → Fetched) (enabled : Bool)
      → After (λ r. r.2 ≡ gone_ids fetched pads) (on_pads w b pads fetched enabled)
  unfolding on_pads gone_ids
  on_pads-gone b [] fetched enabled = refl
  on_pads-gone b (p ∷ pads) fetched enabled =
      After-then (λ r. r.2 ≡ gone_of (fetched p.id) p.id)
        (λ r. r.2 ≡ gone_of (fetched p.id) p.id ++ gone_ids fetched pads)
        (on_fetched w b p enabled (fetched p.id)) _ (on_fetched-gone b p enabled (fetched p.id))
        λ r k.
          After-then (λ s. s.2 ≡ gone_ids fetched pads)
            (λ s. s.2 ≡ gone_of (fetched p.id) p.id ++ gone_ids fetched pads)
            (on_pads w r.0 pads fetched enabled) _ (on_pads-gone r.0 pads fetched enabled)
            λ s l. rw (k, l) refl

  unfoldable pub has_pad : ℕ → List (Pad w) → Bool
  has_pad id [] = false
  has_pad id (p ∷ pads) = p.id == id || has_pad id pads

  gone_of-contains :
      (f : Fetched) (j id : ℕ) (ids : List ℕ)
      → contains id (gone_of f j ++ ids) ≡ (is_gone f && j == id || contains id ids)
  unfolding contains
  gone_of-contains (events es) j id ids = refl
  gone_of-contains would_block j id ids = refl
  gone_of-contains gone j id ids = refl

  pub gone_ids-contains :
      (fetched : ℕ → Fetched) (pads : List (Pad w)) (id : ℕ)
      → contains id (gone_ids fetched pads) ≡ (is_gone (fetched id) && has_pad id pads)
  unfolding contains gone_ids has_pad
  gone_ids-contains fetched [] id = ground arith
  gone_ids-contains fetched (p ∷ pads) id =
      gone_of-contains (fetched p.id) p.id id (gone_ids fetched pads)
      ∙ elim (Bool-cases (p.id == id)) [
        | inl q ↦
            let same : p.id ≡ id = (==_iff p.id id).0 q in
            let alike = ap (λ j. is_gone (fetched j)) same in
            ground (arith, gone_ids-contains fetched pads id)
        | inr q ↦ ground (arith, gone_ids-contains fetched pads id)
      ]

  -- The pads without some ids.
  unfoldable pub without : List ℕ → List (Pad w) → List (Pad w)
  without ids [] = []
  without ids (p ∷ pads) = if contains p.id ids then without ids pads else p ∷ without ids pads

  without_none : (pads : List (Pad w)) → without [] pads ≡ pads
  unfolding without contains
  without_none [] = refl
  without_none (p ∷ pads) = ap (λ ps. p ∷ ps) (without_none pads)

  without-drop_pad :
      (id : ℕ) (ids : List ℕ) (pads : List (Pad w))
      → without ids (drop_pad w id pads) ≡ without (id ∷ ids) pads
  unfolding without drop_pad contains
  without-drop_pad id ids [] = refl
  without-drop_pad id ids (p ∷ pads) =
      ground (arith, without-drop_pad id ids pads, ==_iff p.id id, ==_iff id p.id)

  pub without-staying :
      (fetched : ℕ → Fetched) (ids : List ℕ) (pads : List (Pad w))
      → ((id : ℕ) → has_pad id pads ≡ true → contains id ids ≡ is_gone (fetched id))
      → without ids pads ≡ staying fetched pads
  unfolding without staying has_pad
  without-staying fetched ids [] h = refl
  without-staying fetched ids (p ∷ pads) h =
      let here : contains p.id ids ≡ is_gone (fetched p.id) =
        h p.id (ground (arith, ==_iff p.id p.id)) in
      let rest = without-staying fetched ids pads (λ id m. h id (ground arith)) in
      rw (here, rest) refl

  pub forget-pads :
      (b : Broker w) (ids : List ℕ) → After (λ b'. b'.pads ≡ without ids b.pads) (forget w b ids)
  unfolding forget
  forget-pads b [] = sym (without_none b.pads)
  forget-pads b (id ∷ ids) =
      let left = record b {
        pads = drop_pad w id b.pads;
        state = Ownership.remove_pad b.state id;
      } in
      After-then (Kept w left) (λ b'. b'.pads ≡ without (id ∷ ids) b.pads) (emit_mapped w left _) _
        (emit_mapped-Kept w left _)
        λ b' k.
          After-map (λ b''. b''.pads ≡ without ids b'.pads)
            (λ b''. b''.pads ≡ without (id ∷ ids) b.pads) (forget w b' ids) (forget-pads b' ids)
            λ b'' e. e ∙ ap (without ids) k.1 ∙ without-drop_pad id ids b.pads
