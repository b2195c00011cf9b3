-- ===== src/Frontend/Groups.antt =====
-- The tabs of the library's sections and what a tab shows
-- (services/hearthdeck-frontend/src/app_group.rs). A sorted map is a list in the order of its keys.
pub mod Views
mod Tests
use hearthdeck.Prelude.{
  ℕ, Bool, true, false, not, ◌&&◌, ◌||◌, if◌then◌else◌, Option, none, some, List, [], ◌∷◌, String,
  string_eq, ◌=?◌, map, contains, get_elem?, append, strip_prefix, has_text, leb_text, to_decimal,
}
use hearthdeck.Prelude.Int.{ℤ}
use hearthdeck.Catalog.{
  Section, pc_games, console_games, applications, same_section, couch, desktop, same_form,
  category_value,
}
use hearthdeck.Frontend.Items.{
  LibraryItem, form_of, matches_category, matches_facet, store_filter_value, store_filter_prefix,
  console_filter_prefix,
}
use hearthdeck.Frontend.Facets.{or_self, in_section}

pub data FilterType : Type 0 where
  app_ids : List String → FilterType
  in_categories : (categories exclude include : List String) → FilterType
  all_of : FilterType

pub record AppGroup : Type 0 where
  pub name : String
  pub icon : String
  pub filter : FilterType

pub record Sections : Type 0 where
  pub pc_games : List AppGroup
  pub console_games : List AppGroup
  pub applications : List AppGroup

-- A sorted map in which a later value replaces an earlier one.
unfoldable pub insert_key : String → String → List (String × String) → List (String × String)
insert_key k v [] = (k, v) ∷ []
insert_key k v ((j, w) ∷ m) =
    let rest = insert_key k v m in
    if k =? j then (k, v) ∷ m else if leb_text k j then (k, v) ∷ (j, w) ∷ m else (j, w) ∷ rest

abbrev pub group_of : String → String → AppGroup
group_of name category = record {
  name = name;
  icon = "folder-symbolic";
  filter = in_categories (category ∷ []) [] [];
}

abbrev pub romm_console_category : ℤ → String
romm_console_category platform_id = append console_filter_prefix (to_decimal platform_id)

abbrev pub tabs_of : Section → Sections → List AppGroup
tabs_of pc_games s = s.pc_games
tabs_of console_games s = s.console_games
tabs_of applications s = s.applications

abbrev pub store_group : String → AppGroup
store_group category =
    group_of (or_self category (strip_prefix store_filter_prefix category)) category

abbrev pub desktop_group : AppGroup
desktop_group = group_of "hearthdeck-desktop" (category_value desktop)

abbrev pub is_couch_view : Section → Option ℕ → String → Bool
is_couch_view section none input = same_section section applications && input =? ""
is_couch_view section (some _) input = false

abbrev pub tab_at : List AppGroup → Option ℕ → Option AppGroup
tab_at groups none = none
tab_at groups (some i) = get_elem? groups i

module _ {Icon : Type 0} where
  unfoldable pub any_desktop : List (LibraryItem Icon) → Bool
  any_desktop [] = false
  any_desktop (e ∷ entries) = same_form (form_of e) desktop || any_desktop entries

  abbrev pub suits : Bool → LibraryItem Icon → Bool
  suits couch_only e = if couch_only then same_form (form_of e) couch else true

  unfoldable pub keep :
      (LibraryItem Icon → Bool) → List (LibraryItem Icon) → List (LibraryItem Icon)
  keep test [] = []
  keep test (e ∷ entries) = if test e then e ∷ keep test entries else keep test entries

module _ {Icon : Type 0} (lower : String → String) where
  unfoldable pub any_category : LibraryItem Icon → List String → Bool
  any_category e [] = false
  any_category e (c ∷ cs) = matches_category lower e c || any_category e cs

  abbrev pub matches_filter : FilterType → LibraryItem Icon → Bool
  matches_filter (app_ids names) e = contains e.id names
  matches_filter (in_categories categories exclude include) e =
      any_category e categories && not (contains e.id exclude) || contains e.id include
  matches_filter all_of e = true

  unfoldable pub stores : List (LibraryItem Icon) → List (String × String) → List (String × String)
  stores [] m = m
  stores (e ∷ entries) m =
      stores entries
        (elim (store_filter_value e) [ none ↦ m | some value ↦ insert_key (lower value) value m ])

  unfoldable pub derived_groups : Section → List (LibraryItem Icon) → List AppGroup
  derived_groups pc_games entries =
      map (λ kv. store_group kv.1) (stores (in_section pc_games entries) [])
  derived_groups applications entries =
      if any_desktop (in_section applications entries) then desktop_group ∷ [] else []
  derived_groups console_games entries = []

  unfoldable pub sync_category_groups : List (LibraryItem Icon) → Sections → Sections
  sync_category_groups entries s = record s {
    pc_games = derived_groups pc_games entries;
    applications = derived_groups applications entries;
  }

  unfoldable pub all_facets : LibraryItem Icon → List (String × String) → Bool
  all_facets e [] = true
  all_facets e ((_, value) ∷ facets) = matches_facet lower e value && all_facets e facets

  abbrev pub in_group : Option AppGroup → LibraryItem Icon → Bool
  in_group none e = true
  in_group (some group) e = matches_filter group.filter e

  abbrev pub found : String → LibraryItem Icon → Bool
  found input e =
      if input =? ""
      then true
      else has_text (lower e.name) (lower input) || matches_category lower e input

  abbrev pub is_shown :
      Section → Option AppGroup → Bool → String → List (String × String) → LibraryItem Icon → Bool
  is_shown section group couch_only input facets e =
      same_section section e.section
      && suits couch_only e
      && in_group group e
      && all_facets e facets
      && found input e

  unfoldable pub filtered_by_facets :
      Sections
      → Section
      → Option ℕ
      → String
      → List (LibraryItem Icon)
      → List (String × String)
      → List (LibraryItem Icon)
  filtered_by_facets s section tab input entries facets =
      keep
        (is_shown section (tab_at (tabs_of section s) tab) (is_couch_view section tab input) input
          facets)
        entries

abbrev pub console_group : ℤ × String → AppGroup
console_group platform = group_of platform.1 (romm_console_category platform.0)

-- `same` is the derived equality of two lists of groups.
abbrev pub sync_console_groups :
    (List AppGroup → List AppGroup → Bool) → List (ℤ × String) → Sections → Sections × Bool
sync_console_groups same platforms s =
    let groups = map console_group platforms in
    if same s.console_games groups then (s, false) else (record s { console_games = groups }, true)
