-- ===== src/Frontend/Filters/Offered.antt =====
-- The selection of the drawer against the facets that it shows
-- (services/hearthdeck-frontend/src/screens/library/filters.rs).
use hearthdeck.Prelude.{◌≡◌, refl, Bool, true, false, ◌&&◌, List, [], ◌∷◌, String, string_eq, arith}
use hearthdeck.Catalog.{Section, console_games, same_section}
use hearthdeck.Frontend.Items.{LibraryItem}
use hearthdeck.Frontend.Facets.{Facet, section_facets}
use hearthdeck.Frontend.Filters.{State, is_offered, retain_offered, load_local_facets}

unfoldable pub all_offered : List Facet → List (String × String) → Bool
all_offered facets [] = true
all_offered facets ((id, value) ∷ selected) =
    is_offered facets id value && all_offered facets selected

-- Each selected value is one that its facet offers.
abbrev pub IsOffered : State → Type 0
IsOffered s = all_offered s.facets s.selected ≡ true

retain-offered :
    (facets : List Facet) (selected : List (String × String))
    → all_offered facets (retain_offered facets selected) ≡ true
unfolding all_offered retain_offered
retain-offered facets [] = refl
retain-offered facets ((id, v) ∷ selected) = ground (arith, retain-offered facets selected)

-- Loading the facets of a local section leaves only values selected that they offer, whatever was
-- selected before: a choice made in another section does not stay.
pub load-IsOffered :
    {Icon : Type 0} (section : Section) (catalog : List (LibraryItem Icon)) (s : State)
    → same_section section console_games ≡ false
    → IsOffered (load_local_facets section catalog s)
unfolding load_local_facets
load-IsOffered section catalog s h =
    rw h (retain-offered (section_facets section catalog) s.selected)
