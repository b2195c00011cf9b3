-- ===== src/Frontend/Facets.antt =====
-- The facets that a section offers from its entries
-- (services/hearthdeck-frontend/src/app_group.rs, providers/filter.rs). A sorted set is a list in its
-- order, without repetition. The labels of the two facets, the locale's, stand by their names.
pub mod Offers
use hearthdeck.Prelude.{
  if◌then◌else◌, ltb, Option, none, some, List, [], ◌∷◌, String, string_eq, ◌=?◌, map, length,
  strip_prefix, leb_text,
}
use hearthdeck.Catalog.{Section, pc_games, console_games, applications, same_section}
use hearthdeck.Frontend.Items.{
  LibraryItem, store_filter_value, source_filter_values, store_filter_prefix, source_filter_prefix,
}

pub record FacetOption : Type 0 where
  pub value : String
  pub label : String

pub record Facet : Type 0 where
  pub id : String
  pub label : String
  pub options : List FacetOption

-- A sorted set.
unfoldable pub insert_value : String → List String → List String
insert_value v [] = v ∷ []
insert_value v (w ∷ ws) =
    let rest = insert_value v ws in
    if v =? w then w ∷ ws else if leb_text v w then v ∷ w ∷ ws else w ∷ rest

abbrev pub or_self : String → Option String → String
or_self value none = value
or_self value (some rest) = rest

abbrev pub source_label : String → String
source_label source =
    if source =? "system"
    then "System"
    else if source =? "local"
    then "Local"
    else if source =? "flatpak"
    then "Flatpak"
    else if source =? "snap"
    then "Snap"
    else if source =? "nix"
    then "Nix"
    else if source =? "streaming"
    then "Streaming"
    else source

abbrev pub facet_value_label : String → String
facet_value_label value = elim (strip_prefix source_filter_prefix value) [
  | some source ↦ source_label source
  | none ↦ or_self value (strip_prefix store_filter_prefix value)
]

unfoldable pub insert_values : List String → List String → List String
insert_values [] set = set
insert_values (v ∷ vs) set = insert_values vs (insert_value v set)

abbrev pub option_of : String → FacetOption
option_of value = record { value = value; label = facet_value_label value }

abbrev pub facet_for : String → String → List String → List Facet
facet_for id label values =
    if ltb (length values) 2
    then []
    else record { id = id; label = label; options = map option_of values } ∷ []

abbrev pub optional : Option String → List String
optional none = []
optional (some v) = v ∷ []

module _ {Icon : Type 0} where
  unfoldable pub in_section : Section → List (LibraryItem Icon) → List (LibraryItem Icon)
  in_section section [] = []
  in_section section (e ∷ entries) =
      if same_section section e.section
      then e ∷ in_section section entries
      else in_section section entries

  abbrev pub values_of : Section → LibraryItem Icon → List String
  values_of pc_games e = optional (store_filter_value e)
  values_of applications e = source_filter_values e
  values_of console_games e = []

  unfoldable pub facet_values : Section → List (LibraryItem Icon) → List String → List String
  facet_values section [] set = set
  facet_values section (e ∷ entries) set =
      facet_values section entries
        (if same_section section e.section then insert_values (values_of section e) set else set)

  unfoldable pub section_facets : Section → List (LibraryItem Icon) → List Facet
  section_facets pc_games entries =
      facet_for "store" "filter-store" (facet_values pc_games entries [])
  section_facets applications entries =
      facet_for "source" "filter-source" (facet_values applications entries [])
  section_facets console_games entries = []
