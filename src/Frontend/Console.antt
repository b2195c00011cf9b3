-- ===== src/Frontend/Console.antt =====
-- The cache of the console grid's pages, a log per scope
-- (services/hearthdeck-frontend/src/screens/library/console.rs). The map's order is that of the list.
pub mod Evict
pub mod Replies
mod Tests
use hearthdeck.Prelude.{
  ℕ, zero, suc, ◌+◌, ◌%◌, ◌^◌, ◌≡◌, ◌↔◌, refl, Bool, true, false, not, ◌&&◌, ◌||◌, if◌then◌else◌,
  ltb, leb, ◌==◌, Option, none, some, List, [], ◌∷◌, ◌++◌, String, Eq, string_eq, ◌=?◌, is_some_and,
  contains, lookup, insert, remove, length, arith,
}
use hearthdeck.Prelude.Int.{ℤ}
use hearthdeck.Prelude.Equality.{
  option_eq, int_eq, pair_eq, list_eq, same_option_iff, same_list_iff,
}
use hearthdeck.Frontend.Pages.{
  ConsoleScope, scope_eq, plain, is_plain, Page, ConsoleListing, is_some, new_listing, start,
  apply_page, failed_page, extend_page,
}

pub data Ensure : Type 0 where
  cached loading : Ensure
  requested : ℕ → Ensure

pub record ConsoleScopes (Item Version : Type 0) : Type 0 where
  pub scopes : List (ConsoleScope × ConsoleListing Item Version)
  pub prefetch : List ConsoleScope
  pub clock : ℕ
  pub generation : ℕ
  pub source : ℕ

abbrev pub max_prefetch_inflight : ℕ
max_prefetch_inflight = 3

abbrev pub max_narrowed_scopes : ℕ
max_narrowed_scopes = 8

-- The older of two candidates, the first where they are as old.
abbrev pub older : ConsoleScope → ℕ → Option (ConsoleScope × ℕ) → Option (ConsoleScope × ℕ)
older scope used none = some (scope, used)
older scope used (some (other, age)) =
    if ltb age used then some (other, age) else some (scope, used)

abbrev pub and_ready : ConsoleScope → Option ℕ → List (ConsoleScope × ℕ) → List (ConsoleScope × ℕ)
and_ready scope none ready = ready
and_ready scope (some generation) ready = (scope, generation) ∷ ready

module _ {Item Version : Type 0} where
  unfoldable pub narrowed : List (ConsoleScope × ConsoleListing Item Version) → ℕ
  narrowed [] = 0
  narrowed ((scope, log) ∷ scopes) = if is_plain scope then narrowed scopes else narrowed scopes + 1

  unfoldable pub inflight : List (ConsoleScope × ConsoleListing Item Version) → ℕ
  inflight [] = 0
  inflight ((scope, log) ∷ scopes) =
      if is_some log.pending then inflight scopes + 1 else inflight scopes

  -- The scope that has gone longest without being used, of the narrowed ones with no page in flight.
  unfoldable pub oldest :
      List (ConsoleScope × ConsoleListing Item Version) → Option (ConsoleScope × ℕ)
  oldest [] = none
  oldest ((scope, log) ∷ scopes) =
      let rest = oldest scopes in
      if not (is_plain scope) && not (is_some log.pending) then older scope log.used rest else rest

  -- The loop, on fuel: each turn removes a scope, so as much as there are scopes is enough.
  unfoldable pub evict_on :
      ℕ
      → List (ConsoleScope × ConsoleListing Item Version)
      → List (ConsoleScope × ConsoleListing Item Version)
  evict_on zero scopes = scopes
  evict_on (suc fuel) scopes =
      if ltb max_narrowed_scopes (narrowed scopes)
      then elim (oldest scopes) [
        | none ↦ scopes
        | some (scope, _) ↦ evict_on fuel (remove scope scopes)
      ]
      else scopes

  abbrev pub evict :
      List (ConsoleScope × ConsoleListing Item Version)
      → List (ConsoleScope × ConsoleListing Item Version)
  evict scopes = evict_on (length scopes) scopes

  abbrev pub stamp :
      ConsoleScope
      → ℕ
      → List (ConsoleScope × ConsoleListing Item Version)
      → List (ConsoleScope × ConsoleListing Item Version)
  stamp scope clock scopes = elim (lookup scope scopes) [
    | none ↦ scopes
    | some log ↦ insert scope (record log { used = clock }) scopes
  ]

  unfoldable pub touch : ConsoleScope → ConsoleScopes Item Version → ConsoleScopes Item Version
  touch scope c = record c { clock = c.clock + 1; scopes = stamp scope (c.clock + 1) c.scopes }

  abbrev pub log_of : ConsoleScope → ConsoleScopes Item Version → ConsoleListing Item Version
  log_of scope c = elim (lookup scope c.scopes) [ none ↦ new_listing | some log ↦ log ]

  abbrev pub next_generation : ℕ → ConsoleScopes Item Version → ℕ
  next_generation offset c = if offset == 0 then c.generation + 1 else c.generation

  unfoldable pub begin :
      ConsoleScope → ℕ → ConsoleScopes Item Version → ConsoleScopes Item Version × Option ℕ
  begin scope offset c =
      let generation = next_generation offset c in
      let (log, answer) = start offset generation (log_of scope c) in
      let c' =
        touch scope (record c { generation = generation; scopes = insert scope log c.scopes }) in
      (record c' { scopes = evict c'.scopes }, answer)

  abbrev pub ensure_answer :
      ConsoleScopes Item Version × Option ℕ → ConsoleScopes Item Version × Ensure
  ensure_answer (c, none) = (c, loading)
  ensure_answer (c, some generation) = (c, requested generation)

  abbrev pub ensure_log :
      ConsoleScope
      → Option (ConsoleListing Item Version)
      → ConsoleScopes Item Version
      → ConsoleScopes Item Version × Ensure
  ensure_log scope none c = ensure_answer (begin scope 0 c)
  ensure_log scope (some log) c =
      if log.loaded
      then (c, cached)
      else if is_some log.pending
      then (c, loading)
      else ensure_answer (begin scope 0 c)

  unfoldable pub ensure :
      ConsoleScope → ConsoleScopes Item Version → ConsoleScopes Item Version × Ensure
  ensure scope c = let c' = touch scope c in ensure_log scope (lookup scope c'.scopes) c'

  unfoldable pub apply :
      ConsoleScope
      → ℕ
      → Page Item Version
      → ConsoleScopes Item Version
      → ConsoleScopes Item Version × Bool
  apply scope generation page c = elim (lookup scope c.scopes) [
    | none ↦ (c, false)
    | some log ↦
        let (log', merged) = apply_page generation page log in
        (record c { scopes = insert scope log' c.scopes }, merged)
  ]

  unfoldable pub failed :
      ConsoleScope → ℕ → ConsoleScopes Item Version → ConsoleScopes Item Version × Bool
  failed scope generation c = elim (lookup scope c.scopes) [
    | none ↦ (c, false)
    | some log ↦
        let (log', ended) = failed_page generation log in
        (record c { scopes = insert scope log' c.scopes }, ended)
  ]

  abbrev pub extend_offset : ConsoleScope → Bool → ConsoleScopes Item Version → Option ℕ
  extend_offset scope at_end c = elim (lookup scope c.scopes) [
    | none ↦ none
    | some log ↦ extend_page at_end log
  ]

  abbrev pub invalidate : ConsoleScopes Item Version → ConsoleScopes Item Version
  invalidate c = record c { source = c.source + 1; prefetch = []; scopes = [] }

  abbrev pub is_idle : ConsoleListing Item Version → Bool
  is_idle log = not log.loaded && not (is_some log.pending)

  abbrev pub is_owed : Option (ConsoleListing Item Version) → Bool
  is_owed none = true
  is_owed (some log) = is_idle log

  unfoldable pub queue_prefetch :
      List (Option ℤ) → ConsoleScopes Item Version → ConsoleScopes Item Version
  queue_prefetch [] c = c
  queue_prefetch (platform ∷ platforms) c = queue_prefetch platforms (
      if is_owed (lookup (plain platform) c.scopes) && not (contains (plain platform) c.prefetch)
      then record c { prefetch = c.prefetch ++ plain platform ∷ [] }
      else c)

  -- The loop takes one scope from the queue at each turn.
  unfoldable pub hand_out :
      List ConsoleScope
      → ConsoleScopes Item Version
      → ConsoleScopes Item Version × List (ConsoleScope × ℕ)
  hand_out [] c = (record c { prefetch = [] }, [])
  hand_out (scope ∷ queue) c =
      let waits = hand_out queue c in
      let (begun, answer) = begin scope 0 c in
      let after_begin = hand_out queue begun in
      if ltb (inflight c.scopes) max_prefetch_inflight
      then if is_owed (lookup scope c.scopes)
        then (after_begin.0, and_ready scope answer after_begin.1)
        else waits
      else (record c { prefetch = scope ∷ queue }, [])

  abbrev pub next_prefetch :
      ConsoleScopes Item Version → ConsoleScopes Item Version × List (ConsoleScope × ℕ)
  next_prefetch c = hand_out c.prefetch c
