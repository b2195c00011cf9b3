-- ===== src/Frontend/Pages.antt =====
-- A scope of the console grid and the pages loaded for it
-- (services/hearthdeck-frontend/src/screens/library/console.rs). `Item` and `Version` are the records
-- that a page only carries. Whether the viewport has reached the end of what is loaded, which the code
-- computes with `f32`, is an argument.
use hearthdeck.Prelude.{
  ℕ, ◌+◌, ◌%◌, ◌^◌, ◌≡◌, ◌↔◌, Bool, true, false, ◌&&◌, if◌then◌else◌, ltb, ◌==◌, Option, none, some,
  List, [], ◌∷◌, ◌++◌, String, Eq, string_eq, ◌=?◌, insert, length, arith,
}
use hearthdeck.Prelude.Int.{ℤ}
use hearthdeck.Prelude.Equality.{
  option_eq, int_eq, pair_eq, list_eq, same_option_iff, same_list_iff,
}

pub record ConsoleScope : Type 0 where
  pub platform : Option ℤ
  pub search : String
  pub facets : List (String × String)

abbrev pub same_scope : ConsoleScope → ConsoleScope → Bool
same_scope a b = a.platform =? b.platform && (a.search =? b.search && a.facets =? b.facets)

pub same_scope_iff : (a b : ConsoleScope) → (same_scope a b ≡ true) ↔ (a ≡ b)
same_scope_iff a b =
    let p = same_option_iff ⦃e = int_eq⦄ a.platform b.platform in
    let f = same_list_iff ⦃e = pair_eq ⦃e = string_eq⦄ ⦃f = string_eq⦄⦄ a.facets b.facets in
    ground (arith, p, f, string_eq.beq_iff a.search b.search)

instance abbrev pub scope_eq : Eq ConsoleScope
scope_eq = record { beq = same_scope; beq_iff = same_scope_iff }

abbrev pub plain : Option ℤ → ConsoleScope
plain platform = record { platform = platform; search = ""; facets = [] }

abbrev pub is_empty_list : {A : Type 0} → List A → Bool
is_empty_list [] = true
is_empty_list (_ ∷ _) = false

abbrev pub is_plain : ConsoleScope → Bool
is_plain scope = scope.search =? "" && is_empty_list scope.facets

pub record Page (Item Version : Type 0) : Type 0 where
  pub entries : List Item
  pub versions : List (String × List Version)
  pub total : ℕ
  pub offset : ℕ

pub record ConsoleListing (Item Version : Type 0) : Type 0 where
  pub entries : List Item
  pub versions : List (String × List Version)
  pub next_offset : Option ℕ
  pub pending : Option ℕ
  pub generation : ℕ
  pub loaded : Bool
  pub used : ℕ

abbrev pub is_some {ℓ} : {A : Type ℓ} → Option A → Bool
is_some none = false
is_some (some _) = true

abbrev pub insert_all :
    {Version : Type 0}
    → List (String × List Version)
    → List (String × List Version)
    → List (String × List Version)
insert_all [] m = m
insert_all ((id, versions) ∷ rest) m = insert_all rest (insert id versions m)

module _ {Item Version : Type 0} where
  abbrev pub new_listing : ConsoleListing Item Version
  new_listing = record {
    entries = [];
    versions = [];
    next_offset = none;
    pending = none;
    generation = 0;
    loaded = false;
    used = 0;
  }

  abbrev pub start : ℕ → ℕ → ConsoleListing Item Version → ConsoleListing Item Version × Option ℕ
  start offset generation log =
      if ltb 0 offset && is_some log.pending
      then (log, none)
      else if offset == 0
      then (
        record log { generation = generation; next_offset = none; pending = some generation },
        some generation,
      )
      else (record log { pending = some log.generation }, some log.generation)

  -- A page from the load in flight: the first replaces the log, a later one extends it.
  abbrev pub merge : Page Item Version → ConsoleListing Item Version → ConsoleListing Item Version
  merge page log =
      let loaded = page.offset + length page.entries in
      record log {
        pending = none;
        loaded = true;
        entries = (if page.offset == 0 then [] else log.entries) ++ page.entries;
        versions = insert_all page.versions (if page.offset == 0 then [] else log.versions);
        next_offset =
            if ltb 0 (length page.entries) && ltb loaded page.total
            then some (loaded % 2 ^ 32)
            else none;
      }

  abbrev pub apply_page :
      ℕ → Page Item Version → ConsoleListing Item Version → ConsoleListing Item Version × Bool
  apply_page generation page log =
      if generation == log.generation then (merge page log, true) else (log, false)

  abbrev pub failed_page : ℕ → ConsoleListing Item Version → ConsoleListing Item Version × Bool
  failed_page generation log =
      if generation == log.generation then (record log { pending = none }, true) else (log, false)

  abbrev pub extend_page : Bool → ConsoleListing Item Version → Option ℕ
  extend_page at_end log = elim log.next_offset [
    | none ↦ none
    | some next ↦ if is_some log.pending then none else if at_end then some next else none
  ]
