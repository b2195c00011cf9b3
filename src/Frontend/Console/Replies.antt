-- ===== src/Frontend/Console/Replies.antt =====
-- Which replies the cache of console pages accepts, and how many it waits for
-- (services/hearthdeck-frontend/src/screens/library/console.rs).
use hearthdeck.Prelude.{
  ℕ, ◌+◌, ◌≤◌, ◌<◌, ◌≡◌, inl, inr, refl, sym, ap, ◌∙◌, subst, max, false, if◌then◌else◌, ◌==◌,
  ==_iff, Bool-cases, Option, Option-cases, none, some, some-injective, List, [], ◌∷◌, ◌=?◌, lookup,
  insert, lookup-insert, length, arith,
}
use hearthdeck.Frontend.Pages.{ConsoleScope, scope_eq, is_some, Page, ConsoleListing, start}
use hearthdeck.Frontend.Console.{
  ConsoleScopes, inflight, evict, stamp, touch, log_of, begin, apply, hand_out, next_prefetch,
}
use hearthdeck.Frontend.Console.Evict.{lookup-evict_on, inflight-evict_on}

module _ {Item Version : Type 0} where
  -- Every log of a scope carries a generation above a number.
  abbrev pub IsAbove : ℕ → Option (ConsoleListing Item Version) → Type 0
  IsAbove g none = Unit
  IsAbove g (some log) = g < log.generation

  lookup-stamp :
      (k : ConsoleScope) (clock : ℕ) (log : ConsoleListing Item Version)
      (scopes : List (ConsoleScope × ConsoleListing Item Version))
      → lookup k scopes ≡ some log
      → lookup k (stamp k clock scopes) ≡ some (record log { used = clock })
  lookup-stamp k clock log scopes h =
      rw
        (
          stamp,
          h,
          lookup-insert k k (record log { used = clock }) scopes,
          (scope_eq.beq_iff k k).1 refl,
        )
        refl

  abbrev begun : ConsoleScope → ConsoleScopes Item Version → ConsoleListing Item Version
  begun scope c = (start 0 (c.generation + 1) (log_of scope c)).0

  begin-IsAbove :
      (scope : ConsoleScope) (c : ConsoleScopes Item Version) (g : ℕ)
      → g ≤ c.generation
      → IsAbove g (lookup scope (begin scope 0 c).0.scopes)
  unfolding begin touch
  begin-IsAbove scope c g le =
      let log = begun scope c in
      let there : lookup scope (insert scope log c.scopes) ≡ some log =
        lookup-insert scope scope log c.scopes ∙ rw ((scope_eq.beq_iff scope scope).1 refl) refl in
      let stamped = stamp scope (c.clock + 1) (insert scope log c.scopes) in
      elim (lookup-evict_on (length stamped) scope stamped) [
        | inl gone ↦ subst (IsAbove g) (sym gone) tt
        | inr kept ↦
            subst (IsAbove g)
              (sym (kept ∙ lookup-stamp scope (c.clock + 1) log (insert scope log c.scopes) there))
              (omega arith)
      ]

  apply-none :
      (scope : ConsoleScope) (c : ConsoleScopes Item Version) (g : ℕ) (page : Page Item Version)
      → lookup scope c.scopes ≡ none
      → apply scope g page c ≡ (c, false)
  unfolding apply
  apply-none scope c g page e = rw (apply, e) refl

  apply-older :
      (scope : ConsoleScope) (c : ConsoleScopes Item Version) (g : ℕ) (page : Page Item Version)
      (log : ConsoleListing Item Version)
      → lookup scope c.scopes ≡ some log
      → (g == log.generation) ≡ false
      → apply scope g page c ≡ (record c { scopes = insert scope log c.scopes }, false)
  unfolding apply
  apply-older scope c g page log e older = rw (apply, e, older) refl

  above-apply :
      (scope : ConsoleScope) (c : ConsoleScopes Item Version) (g : ℕ) (page : Page Item Version)
      → IsAbove g (lookup scope c.scopes)
      → ((apply scope g page c).1 ≡ false)
        × (lookup scope (apply scope g page c).0.scopes ≡ lookup scope c.scopes)
  above-apply scope c g page h = elim (Option-cases (lookup scope c.scopes)) [
    | inl e ↦ rw (apply-none scope c g page e) (refl, refl)
    | inr (log, e) ↦
        let above : g < log.generation = (rw e at h) in
        let older : (g == log.generation) ≡ false = ground (arith, ==_iff g log.generation) in
        rw (apply-older scope c g page log e older) (
          refl,
          lookup-insert scope scope log c.scopes
              ∙ rw ((scope_eq.beq_iff scope scope).1 refl) (sym e),
        )
  ]

  -- A reply of an earlier load is refused: after a first page was asked for, a page with a generation
  -- that the cache handed out before, in whatever lifetime of the scope's log, is dropped, and the
  -- scope's log stays as it is.
  pub begin-apply :
      (scope : ConsoleScope) (c : ConsoleScopes Item Version) (g : ℕ) (page : Page Item Version)
      → g ≤ c.generation
      → ((apply scope g page (begin scope 0 c).0).1 ≡ false)
        × (lookup scope (apply scope g page (begin scope 0 c).0).0.scopes
            ≡ lookup scope (begin scope 0 c).0.scopes)
  begin-apply scope c g page le =
      above-apply scope (begin scope 0 c).0 g page (begin-IsAbove scope c g le)

  inflight-insert :
      (k : ConsoleScope) (log : ConsoleListing Item Version)
      (scopes : List (ConsoleScope × ConsoleListing Item Version))
      → inflight (insert k log scopes) ≤ inflight scopes + 1
  unfolding inflight insert
  inflight-insert k log [] = ground arith
  inflight-insert k log ((scope, other) ∷ scopes) = ground (arith, inflight-insert k log scopes)

  inflight-insert_used :
      (k : ConsoleScope) (clock : ℕ) (log : ConsoleListing Item Version)
      (scopes : List (ConsoleScope × ConsoleListing Item Version))
      → lookup k scopes ≡ some log
      → inflight (insert k (record log { used = clock }) scopes) ≡ inflight scopes
  unfolding inflight insert lookup
  inflight-insert_used k clock log [] h = cc
  inflight-insert_used k clock log ((scope, other) ∷ scopes) h = elim (Bool-cases (scope =? k)) [
    | inl q ↦
        let same : some other ≡ some log = (rw q at h) in
        rw q (
          ap
            (λ (l : ConsoleListing Item Version).
              if is_some l.pending then inflight scopes + 1 else inflight scopes)
            (sym (some-injective _ _ same)))
    | inr q ↦ let rest = inflight-insert_used k clock log scopes (rw q at h) in rw q (ground arith)
  ]

  inflight-stamp :
      (k : ConsoleScope) (clock : ℕ) (scopes : List (ConsoleScope × ConsoleListing Item Version))
      → inflight (stamp k clock scopes) ≡ inflight scopes
  inflight-stamp k clock scopes = elim (Option-cases (lookup k scopes)) [
    | inl e ↦ rw (stamp, e) refl
    | inr (log, e) ↦ rw (stamp, e) (inflight-insert_used k clock log scopes e)
  ]

  inflight-begin :
      (scope : ConsoleScope) (c : ConsoleScopes Item Version)
      → inflight (begin scope 0 c).0.scopes ≤ inflight c.scopes + 1
  unfolding begin touch
  inflight-begin scope c =
      let inserted = insert scope (begun scope c) c.scopes in
      let stamped = stamp scope (c.clock + 1) inserted in
      let evicted : inflight (evict stamped) ≤ inflight stamped =
        inflight-evict_on (length stamped) stamped in
      let same : inflight stamped ≡ inflight inserted =
        inflight-stamp scope (c.clock + 1) inserted in
      let more : inflight inserted ≤ inflight c.scopes + 1 =
        inflight-insert scope (begun scope c) c.scopes in
      let result : inflight (evict stamped) ≤ inflight c.scopes + 1 =
        omega (arith, evicted, same, more) in
      result

  hand_out-Bounded :
      (queue : List ConsoleScope) (c : ConsoleScopes Item Version)
      → inflight (hand_out queue c).0.scopes ≤ max 3 (inflight c.scopes)
  unfolding hand_out
  hand_out-Bounded [] c = omega arith
  hand_out-Bounded (scope ∷ queue) c = ground (
    arith,
    hand_out-Bounded queue c,
    hand_out-Bounded queue (begin scope 0 c).0,
    inflight-begin scope c,
  )

  -- The background warm-up never has more than three pages in flight, but for those that were in
  -- flight before it, whatever is queued.
  pub next_prefetch-Bounded :
      (c : ConsoleScopes Item Version)
      → inflight (next_prefetch c).0.scopes ≤ max 3 (inflight c.scopes)
  next_prefetch-Bounded c = hand_out-Bounded c.prefetch c
