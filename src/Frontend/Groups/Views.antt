-- ===== src/Frontend/Groups/Views.antt =====
-- What the views of a section show together, and how a selection narrows them
-- (services/hearthdeck-frontend/src/app_group.rs).
use hearthdeck.Prelude.{
  ℕ, ◌+◌, ◌≡◌, refl, ◌∙◌, Bool, true, false, ◌&&◌, if◌then◌else◌, Option, none, some, List, [], ◌∷◌,
  String, string_eq, is_some_and, length, arith, contains, split_once, strip_ignoring_case,
  eq_ignore_ascii_case,
}
use hearthdeck.Catalog.{Section, applications, same_section, desktop, from_category}
use hearthdeck.Frontend.Items.{LibraryItem, matches_category, matches_facet, has_form}
use hearthdeck.Frontend.Facets.{in_section}
use hearthdeck.Frontend.Groups.{
  Sections, desktop_group, any_desktop, keep, suits, derived_groups, sync_category_groups,
  any_category, matches_filter, in_group, all_facets, found, is_shown, filtered_by_facets, AppGroup,
}

-- Every application has a form, as the daemon's rules give it one.
unfoldable pub all_formed : {Icon : Type 0} → List (LibraryItem Icon) → Bool
all_formed [] = true
all_formed (e ∷ entries) =
    (if same_section applications e.section then is_some_and e.form_factor (λ _. true) else true)
    && all_formed entries

matches-desktop :
    {Icon : Type 0} (lower : String → String) (e : LibraryItem Icon)
    → matches_filter lower desktop_group.filter e ≡ has_form e.form_factor desktop
unfolding matches_category split_once strip_ignoring_case eq_ignore_ascii_case from_category
    any_category contains
matches-desktop lower e = ground arith

rotate : (a b c d f : Bool) → (a && b && c && d && f) ≡ ((a && b && c && true && f) && d)
rotate a b c d f = ground arith

keep-both :
    {Icon : Type 0} (test more : LibraryItem Icon → Bool) (entries : List (LibraryItem Icon))
    → keep (λ e. test e && more e) entries ≡ keep more (keep test entries)
unfolding keep
keep-both test more [] = refl
keep-both test more (e ∷ entries) = ground (arith, keep-both test more entries)

keep_all : {Icon : Type 0} (entries : List (LibraryItem Icon)) → keep (λ _. true) entries ≡ entries
unfolding keep
keep_all [] = refl
keep_all (e ∷ entries) = ground (arith, keep_all entries)

keep-same :
    {Icon : Type 0} (test test' : LibraryItem Icon → Bool) (entries : List (LibraryItem Icon))
    → ((e : LibraryItem Icon) → test e ≡ test' e)
    → keep test entries ≡ keep test' entries
unfolding keep
keep-same test test' [] h = refl
keep-same test test' (e ∷ entries) h = ground (arith, h e, keep-same test test' entries h)

-- The two views of the applications, side by side.
views-count :
    {Icon : Type 0} (lower : String → String) (entries : List (LibraryItem Icon))
    → all_formed entries ≡ true
    → length (keep (is_shown lower applications none true "" []) entries)
        + length (keep (is_shown lower applications (some desktop_group) false "" []) entries)
      ≡ length (in_section applications entries)
unfolding keep all_formed in_section all_facets
views-count lower [] h = omega arith
views-count lower (e ∷ entries) h =
    ground (arith, matches-desktop lower e, views-count lower entries)

-- The couch view, which the section opens on, and the Desktop tab divide the applications: where every
-- application has a form and some are for the desktop, together they show as many entries as the
-- section has.
pub views-divide :
    {Icon : Type 0} (lower : String → String) (entries : List (LibraryItem Icon)) (s : Sections)
    → all_formed entries ≡ true
    → any_desktop (in_section applications entries) ≡ true
    → length (
          filtered_by_facets lower
            (sync_category_groups lower entries s)
            applications
            none
            ""
            entries
            [])
        + length (
            filtered_by_facets lower
              (sync_category_groups lower entries s)
              applications
              (some 0)
              ""
              entries
              [])
      ≡ length (in_section applications entries)
unfolding filtered_by_facets sync_category_groups derived_groups
views-divide lower entries s formed some_desktop =
    rw some_desktop (views-count lower entries formed)

shown-facets :
    {Icon : Type 0} (lower : String → String) (section : Section) (group : Option AppGroup)
    (couch_only : Bool) (input : String) (facets : List (String × String)) (e : LibraryItem Icon)
    → is_shown lower section group couch_only input facets e
      ≡ (is_shown lower section group couch_only input [] e && all_facets lower e facets)
unfolding all_facets
shown-facets lower section group couch_only input facets e =
    rotate (same_section section e.section) (suits couch_only e) (in_group lower group e)
      (all_facets lower e facets) (found lower input e)

-- The entries that are left when each selected value in turn takes out those without it.
unfoldable pub narrowed_by :
    {Icon : Type 0}
    → (String → String)
    → List (String × String)
    → List (LibraryItem Icon)
    → List (LibraryItem Icon)
narrowed_by lower [] entries = entries
narrowed_by lower ((_, value) ∷ facets) entries =
    narrowed_by lower facets (keep (λ e. matches_facet lower e value) entries)

keep-all_facets :
    {Icon : Type 0} (lower : String → String) (facets : List (String × String))
    (entries : List (LibraryItem Icon))
    → keep (λ e. all_facets lower e facets) entries ≡ narrowed_by lower facets entries
unfolding narrowed_by all_facets
keep-all_facets lower [] entries = keep_all entries
keep-all_facets lower ((_, value) ∷ facets) entries =
    keep-both (λ e. matches_facet lower e value) (λ e. all_facets lower e facets) entries
    ∙ keep-all_facets lower facets (keep (λ e. matches_facet lower e value) entries)

-- A selection of facets narrows what a view shows, and does nothing else: with it a view shows the
-- entries that it shows without, in their order, less those that do not match the first selected
-- value, less those that do not match the second, and so on to the last.
pub facets-narrowed_by :
    {Icon : Type 0} (lower : String → String) (s : Sections) (section : Section) (tab : Option ℕ)
    (input : String) (entries : List (LibraryItem Icon)) (facets : List (String × String))
    → filtered_by_facets lower s section tab input entries facets
      ≡ narrowed_by lower facets (filtered_by_facets lower s section tab input entries [])
unfolding filtered_by_facets
facets-narrowed_by lower s section tab input entries facets =
    keep-same _ _ entries (λ e. shown-facets lower section _ _ input facets e)
    ∙ keep-both _ _ entries
    ∙ keep-all_facets lower facets _
