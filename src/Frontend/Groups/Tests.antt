-- ===== src/Frontend/Groups/Tests.antt =====
-- Runs of the library's tabs, facets, filters and choices on a small catalog
-- (services/hearthdeck-frontend/src).
use hearthdeck.Prelude.{
  ℕ, ◌+◌, ◌≡◌, refl, Bool, true, false, not, ◌&&◌, ◌||◌, if◌then◌else◌, none, some, List, [], ◌∷◌,
  String, string_eq, ◌=?◌, map, length, strip_prefix, split_once, eq_ignore_ascii_case,
  strip_ignoring_case, has_text, contains, lookup,
}
use hearthdeck.Prelude.Int.{pos, negsuc}
use hearthdeck.Catalog.{pc_games, applications, couch, desktop, from_category}
use hearthdeck.Frontend.Items.{LibraryItem, matches_category}
use hearthdeck.Frontend.Facets.{
  Facet, in_section, section_facets, facet_values, insert_value, insert_values,
}
use hearthdeck.Frontend.Facets.Offers.{offers, offers_option, any_match, offers-any_match}
use hearthdeck.Frontend.Groups.{
  Sections, filtered_by_facets, sync_category_groups, any_desktop, keep, all_facets, derived_groups,
  any_category,
}
use hearthdeck.Frontend.Groups.Views.{all_formed, views-divide, narrowed_by, facets-narrowed_by}
use hearthdeck.Frontend.Choices.{AppLibraryConfig}
use hearthdeck.Frontend.Filters.{
  State, cycle_row, update, cycle, position, rem_euclid, option_offered,
}
use hearthdeck.Frontend.Filters.Cycle.{are_distinct, cycle_inverse}
use hearthdeck.Frontend.Filters.Arrows.{
  next_value, previous_value, value_before, update-next_previous,
}

abbrev unchanged : String → String
unchanged s = s

abbrev app : String → List String → LibraryItem Unit
app id sources = record {
  id = id;
  name = id;
  exec = none;
  icon = tt;
  categories = [];
  wm_class = none;
  form_factor = some desktop;
  store = none;
  sources = sources;
  console = none;
  section = applications;
}

abbrev kodi : LibraryItem Unit
kodi = record (app "kodi" ("flatpak" ∷ [])) { form_factor = some couch }

abbrev game : LibraryItem Unit
game = record (app "hades" []) { form_factor = none; store = some "Epic"; section = pc_games }

abbrev library : List (LibraryItem Unit)
library = app "gimp" ("system" ∷ []) ∷ kodi ∷ game ∷ app "files" ("system" ∷ []) ∷ []

abbrev no_sections : Sections
no_sections = record { pc_games = []; console_games = []; applications = [] }

library_formed : all_formed library ≡ true
unfolding all_formed
library_formed = refl

library_desktop : any_desktop (in_section applications library) ≡ true
unfolding any_desktop in_section
library_desktop = refl

couch_view :
    map
      (λ e. e.id)
      (filtered_by_facets unchanged
        (sync_category_groups unchanged library no_sections)
        applications
        none
        ""
        library
        [])
    ≡ "kodi" ∷ []
unfolding filtered_by_facets keep all_facets
couch_view = refl

desktop_tab :
    map
      (λ e. e.id)
      (filtered_by_facets unchanged
        (sync_category_groups unchanged library no_sections)
        applications
        (some 0)
        ""
        library
        [])
    ≡ "gimp" ∷ "files" ∷ []
unfolding filtered_by_facets keep all_facets sync_category_groups derived_groups any_desktop
    in_section any_category matches_category split_once eq_ignore_ascii_case strip_ignoring_case
    from_category contains
desktop_tab = refl

system_offered : offers (section_facets applications library) "hearthdeck-source:system" ≡ true
unfolding offers offers_option section_facets facet_values insert_values insert_value
system_offered = refl

views-divide_example :
    length (
        filtered_by_facets unchanged
          (sync_category_groups unchanged library no_sections)
          applications
          none
          ""
          library
          [])
      + length (
          filtered_by_facets unchanged
            (sync_category_groups unchanged library no_sections)
            applications
            (some 0)
            ""
            library
            [])
    ≡ length (in_section applications library)
views-divide_example = views-divide unchanged library no_sections library_formed library_desktop

abbrev system_and_gog : List (String × String)
system_and_gog = ("source", "hearthdeck-source:system") ∷ ("store", "hearthdeck-store:gog") ∷ []

facets-narrowed_by_example :
    filtered_by_facets unchanged no_sections applications none "" library system_and_gog
    ≡ narrowed_by unchanged system_and_gog
        (filtered_by_facets unchanged no_sections applications none "" library [])
facets-narrowed_by_example =
    facets-narrowed_by unchanged no_sections applications none "" library system_and_gog

offers-any_match_example :
    any_match unchanged (in_section applications library) "hearthdeck-source:system" ≡ true
offers-any_match_example =
    offers-any_match unchanged applications library "hearthdeck-source:system" system_offered

abbrev config : AppLibraryConfig
config = record { desktop_input_apps = "gimp" ∷ []; form_overrides = ("kodi", desktop) ∷ [] }

abbrev genre : Facet
genre = record {
  id = "genre";
  label = "Genre";
  options =
      record { value = "Action"; label = "Action" } ∷ record { value = "RPG"; label = "RPG" } ∷ [];
}

genre_distinct : are_distinct genre.options ≡ true
unfolding are_distinct option_offered
genre_distinct = refl

rpg_offered : option_offered "RPG" genre.options ≡ true
unfolding option_offered
rpg_offered = refl

wraps : cycle genre (some "RPG") (pos 1) ≡ none
unfolding cycle position rem_euclid hearthdeck.Prelude.Int.◌+ℤ◌
wraps = refl

cycle_inverse_example :
    (cycle genre (cycle genre (some "RPG") (pos 1)) (negsuc 0) ≡ some "RPG")
    × (cycle genre (cycle genre (some "RPG") (negsuc 0)) (pos 1) ≡ some "RPG")
cycle_inverse_example = cycle_inverse genre (some "RPG") genre_distinct rpg_offered

abbrev drawer : State
drawer = record { facets = genre ∷ []; selected = ("genre", "RPG") ∷ []; is_open = true }

update-next_previous_example :
    (lookup "genre" (update drawer (cycle_row 0 (pos 1))).0.selected
      ≡ next_value genre.options (lookup "genre" drawer.selected))
    × (lookup "genre" (update drawer (cycle_row 0 (negsuc 0))).0.selected
        ≡ previous_value genre.options (lookup "genre" drawer.selected))
update-next_previous_example = update-next_previous drawer 0 genre "genre" refl

action_before : previous_value genre.options (some "RPG") ≡ some "Action"
unfolding value_before
action_before = refl
