-- ===== src/Frontend/Items.antt =====
-- An entry of the library, and the categories and facet values that it matches
-- (services/hearthdeck-frontend/src/library_item.rs and form_factor.rs). `Icon` is the desktop
-- library's icon, `lower` is `to_lowercase`.
use hearthdeck.Prelude.{
  Bool, true, false, ◌||◌, if◌then◌else◌, Option, none, some, List, [], ◌∷◌, String, string_eq,
  ◌=?◌, is_some_and, map, contains, append, strip_prefix, strip_ignoring_case, eq_ignore_ascii_case,
  split_once, to_decimal,
}
use hearthdeck.Prelude.Int.{ℤ}
use hearthdeck.Catalog.{Section, FormFactor, desktop, from_category, same_form}

abbrev pub store_filter_prefix : String
store_filter_prefix = "hearthdeck-store:"

abbrev pub source_filter_prefix : String
source_filter_prefix = "hearthdeck-source:"

abbrev pub console_filter_prefix : String
console_filter_prefix = "hearthdeck-console:"

pub record ConsoleMetadata : Type 0 where
  pub platform_id : ℤ
  pub genres : List String
  pub regions : List String

pub record LibraryItem (Icon : Type 0) : Type 0 where
  pub id : String
  pub name : String
  pub exec : Option String
  pub icon : Icon
  pub categories : List String
  pub wm_class : Option String
  pub form_factor : Option FormFactor
  pub store : Option String
  pub sources : List String
  pub console : Option ConsoleMetadata
  pub section : Section

-- `form_factor::of`.
abbrev pub form_of : {Icon : Type 0} → LibraryItem Icon → FormFactor
form_of item = elim item.form_factor [ none ↦ desktop | some form ↦ form ]

-- `form_factor::set`.
abbrev pub set_form : {Icon : Type 0} → FormFactor → LibraryItem Icon → LibraryItem Icon
set_form form item = record item { form_factor = some form }

unfoldable pub any_lower : (String → String) → String → List String → Bool
any_lower lower value [] = false
any_lower lower value (x ∷ xs) = lower x =? lower value || any_lower lower value xs

abbrev pub has_form : Option FormFactor → FormFactor → Bool
has_form f form = is_some_and f (λ own. same_form own form)

module _ {Icon : Type 0} (lower : String → String) (item : LibraryItem Icon) where
  abbrev pub matches_form : String → Option FormFactor → Bool
  matches_form category (some form) = has_form item.form_factor form
  matches_form category none = any_lower lower category item.categories

  abbrev pub matches_source : String → Option String → Bool
  matches_source category (some value) = any_lower lower value item.sources
  matches_source category none = matches_form category (from_category category)

  abbrev pub matches_store : String → Option String → Bool
  matches_store category (some value) = is_some_and item.store (λ s. lower s =? lower value)
  matches_store category none =
      matches_source category (strip_ignoring_case source_filter_prefix category)

  -- Past the prefixes of a console's metadata.
  abbrev pub matches_plain : String → Bool
  matches_plain category = matches_store category (strip_ignoring_case store_filter_prefix category)

  abbrev pub matches_split : String → Option (String × String) → Bool
  matches_split category none = matches_plain category
  matches_split category (some (prefix, value)) =
      if eq_ignore_ascii_case prefix "hearthdeck-console"
      then is_some_and item.console (λ c. to_decimal c.platform_id =? value)
      else if eq_ignore_ascii_case prefix "hearthdeck-genre"
      then is_some_and item.console (λ c. any_lower lower value c.genres)
      else if eq_ignore_ascii_case prefix "hearthdeck-region"
      then is_some_and item.console (λ c. any_lower lower value c.regions)
      else matches_plain category

  -- 58 is the code of the colon.
  unfoldable pub matches_category : String → Bool
  matches_category category = matches_split category (split_once 58 category)

  abbrev pub facet_category : String → Bool
  facet_category value =
      if is_some_and (from_category value) (λ _. true)
      then matches_category value
      else contains value item.categories

  abbrev pub facet_source : String → Bool
  facet_source value = elim (strip_prefix source_filter_prefix value) [
    | some source ↦ contains source item.sources
    | none ↦ facet_category value
  ]

  abbrev pub facet_store : String → Bool
  facet_store value = elim (strip_prefix store_filter_prefix value) [
    | some store ↦ is_some_and item.store (λ s. s =? store)
    | none ↦ facet_source value
  ]

  abbrev pub facet_region : String → Bool
  facet_region value = elim (strip_prefix "hearthdeck-region:" value) [
    | some region ↦ is_some_and item.console (λ c. contains region c.regions)
    | none ↦ facet_store value
  ]

  abbrev pub facet_genre : String → Bool
  facet_genre value = elim (strip_prefix "hearthdeck-genre:" value) [
    | some genre ↦ is_some_and item.console (λ c. contains genre c.genres)
    | none ↦ facet_region value
  ]

  unfoldable pub matches_facet : String → Bool
  matches_facet value = elim (strip_prefix console_filter_prefix value) [
    | some platform ↦ is_some_and item.console (λ c. to_decimal c.platform_id =? platform)
    | none ↦ facet_genre value
  ]

abbrev pub store_filter_value : {Icon : Type 0} → LibraryItem Icon → Option String
store_filter_value item = elim item.store [
  | none ↦ none
  | some store ↦ some (append store_filter_prefix store)
]

abbrev pub source_filter_values : {Icon : Type 0} → LibraryItem Icon → List String
source_filter_values item = map (append source_filter_prefix) item.sources
