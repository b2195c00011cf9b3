-- ===== src/Frontend/Console/Evict.antt =====
-- What leaves the cache of console pages, and what stays
-- (services/hearthdeck-frontend/src/screens/library/console.rs).
use hearthdeck.Prelude.{
  ℕ, zero, suc, ◌+◌, ◌≤◌, ◌≡◌, ◌⊎◌, inl, inr, refl, sym, ap, ◌∙◌, subst, Bool, true, false, not,
  ◌&&◌, ◌||◌, ltb, Bool-cases, Option, Option-cases, none, some, some-injective, List, [], ◌∷◌,
  ◌=?◌, lookup, remove, lookup-remove, length, arith,
}
use hearthdeck.Frontend.Pages.{ConsoleScope, scope_eq, is_plain, is_some, ConsoleListing}
use hearthdeck.Frontend.Console.{narrowed, inflight, oldest, older, evict_on, evict}

older-cases :
    (scope k : ConsoleScope) (used age : ℕ) (rest : Option (ConsoleScope × ℕ))
    → older scope used rest ≡ some (k, age)
    → (scope ≡ k) ⊎ (rest ≡ some (k, age))
older-cases scope k used age none h =
    inl (ap (λ (p : ConsoleScope × ℕ). p.0) (some-injective _ _ h))
older-cases scope k used age (some (other, a)) h = elim (Bool-cases (ltb a used)) [
  | inl q ↦ inr (rw q at h)
  | inr q ↦
      let here : some (scope, used) ≡ some (k, age) = (rw q at h) in
      inl (ap (λ (p : ConsoleScope × ℕ). p.0) (some-injective _ _ here))
]

some-none : {p : ConsoleScope × ℕ} → some p ≡ none → ⊥
some-none h = cc

older-none :
    (scope : ConsoleScope) (used : ℕ) (rest : Option (ConsoleScope × ℕ))
    → older scope used rest ≡ none
    → ⊥
older-none scope used none h = cc
older-none scope used (some (other, a)) h = elim (Bool-cases (ltb a used)) [
  | inl q ↦ some-none (rw q at h)
  | inr q ↦ some-none (rw q at h)
]

module _ {Item Version : Type 0} where
  -- Whether a scope may leave the cache.
  abbrev pub may_leave : ConsoleScope × ConsoleListing Item Version → Bool
  may_leave (scope, log) = not (is_plain scope) && not (is_some log.pending)

  -- Whether some scope may.
  unfoldable pub any_leaves : List (ConsoleScope × ConsoleListing Item Version) → Bool
  any_leaves [] = false
  any_leaves (entry ∷ scopes) = may_leave entry || any_leaves scopes

  -- Whether a scope has an entry that may leave.
  unfoldable pub leaves : ConsoleScope → List (ConsoleScope × ConsoleListing Item Version) → Bool
  leaves k [] = false
  leaves k ((scope, log) ∷ scopes) = scope =? k && may_leave (scope, log) || leaves k scopes

  oldest-leaves :
      (scopes : List (ConsoleScope × ConsoleListing Item Version)) (k : ConsoleScope) (age : ℕ)
      → oldest scopes ≡ some (k, age)
      → leaves k scopes ≡ true
  unfolding oldest leaves
  oldest-leaves [] k age h = cc
  oldest-leaves ((scope, log) ∷ scopes) k age h = elim (Bool-cases (may_leave (scope, log))) [
    | inl q ↦ elim (older-cases scope k log.used age (oldest scopes) (rw q at h)) [
      | inl e ↦ ground (arith, scope_eq.beq_iff scope k)
      | inr e ↦ ground (arith, oldest-leaves scopes k age e)
    ]
    | inr q ↦ ground (arith, oldest-leaves scopes k age (rw q at h))
  ]

  oldest-none :
      (scopes : List (ConsoleScope × ConsoleListing Item Version))
      → oldest scopes ≡ none
      → any_leaves scopes ≡ false
  unfolding oldest any_leaves
  oldest-none [] h = refl
  oldest-none ((scope, log) ∷ scopes) h = elim (Bool-cases (may_leave (scope, log))) [
    | inl q ↦ absurd (older-none scope log.used (oldest scopes) (rw q at h))
    | inr q ↦ ground (arith, oldest-none scopes (rw q at h))
  ]

  length-remove_le :
      (k : ConsoleScope) (scopes : List (ConsoleScope × ConsoleListing Item Version))
      → length (remove k scopes) ≤ length scopes
  unfolding remove
  length-remove_le k [] = omega arith
  length-remove_le k ((scope, log) ∷ scopes) = ground (arith, length-remove_le k scopes)

  length-remove :
      (k : ConsoleScope) (scopes : List (ConsoleScope × ConsoleListing Item Version))
      → leaves k scopes ≡ true
      → length (remove k scopes) + 1 ≤ length scopes
  unfolding remove leaves
  length-remove k [] h = cc
  length-remove k ((scope, log) ∷ scopes) h =
      ground (arith, length-remove_le k scopes, length-remove k scopes)

  evict_on-Bounded :
      (fuel : ℕ) (scopes : List (ConsoleScope × ConsoleListing Item Version))
      → length scopes ≤ fuel
      → (narrowed (evict_on fuel scopes) ≤ 8) ⊎ (any_leaves (evict_on fuel scopes) ≡ false)
  unfolding evict_on narrowed
  evict_on-Bounded zero [] h = inl (omega arith)
  evict_on-Bounded zero (_ ∷ _) h = absurd (omega arith)
  evict_on-Bounded (suc fuel) scopes h = elim (Bool-cases (ltb 8 (narrowed scopes))) [
    | inl q ↦ elim (Option-cases (oldest scopes)) [
      | inl o ↦ inr (rw (q, o) (oldest-none scopes o))
      | inr ((k, age), o) ↦
          let shorter = length-remove k scopes (oldest-leaves scopes k age o) in
          rw (q, o) (evict_on-Bounded fuel (remove k scopes) (omega arith))
    ]
    | inr q ↦ inl (rw q (ground arith))
  ]

  -- The fuel is enough: an eviction ends with at most eight narrowed scopes, or with none that may
  -- leave, as all of them wait for a page.
  pub evict-Bounded :
      (scopes : List (ConsoleScope × ConsoleListing Item Version))
      → (narrowed (evict scopes) ≤ 8) ⊎ (any_leaves (evict scopes) ≡ false)
  evict-Bounded scopes = evict_on-Bounded (length scopes) scopes (omega arith)

  leaves-plain :
      (k : ConsoleScope) (scopes : List (ConsoleScope × ConsoleListing Item Version))
      → is_plain k ≡ true
      → leaves k scopes ≡ false
  unfolding leaves
  leaves-plain k [] h = refl
  leaves-plain k ((scope, log) ∷ scopes) h = elim (Bool-cases (scope =? k)) [
    | inl q ↦
        let plain_too =
          subst (λ (x : ConsoleScope). is_plain x ≡ true) (sym ((scope_eq.beq_iff scope k).0 q))
            h in
        ground (arith, leaves-plain k scopes h)
    | inr q ↦ rw q (leaves-plain k scopes h)
  ]

  removed :
      (k j : ConsoleScope) (scopes : List (ConsoleScope × ConsoleListing Item Version))
      (found : Option (ConsoleListing Item Version))
      → (found ≡ none) ⊎ (found ≡ lookup k (remove j scopes))
      → (found ≡ none) ⊎ (found ≡ lookup k scopes)
  removed k j scopes found (inl n) = inl n
  removed k j scopes found (inr e) = elim (Bool-cases (j =? k)) [
    | inl q ↦ inl (e ∙ lookup-remove j k scopes ∙ rw q refl)
    | inr q ↦ inr (e ∙ lookup-remove j k scopes ∙ rw q refl)
  ]

  -- An eviction drops a log or leaves it as it is.
  pub lookup-evict_on :
      (fuel : ℕ) (k : ConsoleScope) (scopes : List (ConsoleScope × ConsoleListing Item Version))
      → (lookup k (evict_on fuel scopes) ≡ none)
        ⊎ (lookup k (evict_on fuel scopes) ≡ lookup k scopes)
  unfolding evict_on
  lookup-evict_on zero k scopes = inr refl
  lookup-evict_on (suc fuel) k scopes = elim (Bool-cases (ltb 8 (narrowed scopes))) [
    | inl q ↦ elim (Option-cases (oldest scopes)) [
      | inl o ↦ inr (rw (q, o) refl)
      | inr ((j, age), o) ↦
          rw (q, o) (removed k j scopes _ (lookup-evict_on fuel k (remove j scopes)))
    ]
    | inr q ↦ inr (rw q refl)
  ]

  plain-remove :
      (k j : ConsoleScope) (scopes : List (ConsoleScope × ConsoleListing Item Version))
      → is_plain k ≡ true
      → leaves j scopes ≡ true
      → lookup k (remove j scopes) ≡ lookup k scopes
  plain-remove k j scopes h l = elim (Bool-cases (j =? k)) [
    | inl q ↦
        let same = (scope_eq.beq_iff j k).0 q in
        let stays =
          leaves-plain j scopes (subst (λ (x : ConsoleScope). is_plain x ≡ true) (sym same) h) in
        cc
    | inr q ↦ lookup-remove j k scopes ∙ rw q refl
  ]

  plain-evict_on :
      (fuel : ℕ) (k : ConsoleScope) (scopes : List (ConsoleScope × ConsoleListing Item Version))
      → is_plain k ≡ true
      → lookup k (evict_on fuel scopes) ≡ lookup k scopes
  unfolding evict_on
  plain-evict_on zero k scopes h = refl
  plain-evict_on (suc fuel) k scopes h = elim (Bool-cases (ltb 8 (narrowed scopes))) [
    | inl q ↦ elim (Option-cases (oldest scopes)) [
      | inl o ↦ rw (q, o) refl
      | inr ((j, age), o) ↦
          rw (q, o)
            (plain-evict_on fuel k (remove j scopes) h
              ∙ plain-remove k j scopes h (oldest-leaves scopes j age o))
    ]
    | inr q ↦ rw q refl
  ]

  -- A tab, a scope with no search and no facets, never leaves: an eviction keeps its log as it is.
  pub plain-evict :
      (k : ConsoleScope) (scopes : List (ConsoleScope × ConsoleListing Item Version))
      → is_plain k ≡ true
      → lookup k (evict scopes) ≡ lookup k scopes
  plain-evict k scopes h = plain-evict_on (length scopes) k scopes h

  inflight-remove :
      (k : ConsoleScope) (scopes : List (ConsoleScope × ConsoleListing Item Version))
      → inflight (remove k scopes) ≤ inflight scopes
  unfolding inflight remove
  inflight-remove k [] = omega arith
  inflight-remove k ((scope, log) ∷ scopes) = ground (arith, inflight-remove k scopes)

  pub inflight-evict_on :
      (fuel : ℕ) (scopes : List (ConsoleScope × ConsoleListing Item Version))
      → inflight (evict_on fuel scopes) ≤ inflight scopes
  unfolding evict_on
  inflight-evict_on zero scopes = omega arith
  inflight-evict_on (suc fuel) scopes = elim (Bool-cases (ltb 8 (narrowed scopes))) [
    | inl q ↦ elim (Option-cases (oldest scopes)) [
      | inl o ↦ rw (q, o) (omega arith)
      | inr ((j, age), o) ↦
          let less = inflight-remove j scopes in
          let rest = inflight-evict_on fuel (remove j scopes) in rw (q, o) (omega arith)
    ]
    | inr q ↦ rw q (omega arith)
  ]
