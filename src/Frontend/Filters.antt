-- ===== src/Frontend/Filters.antt =====
-- The library's filter drawer: its facets and the selected values
-- (services/hearthdeck-frontend/src/screens/library/filters.rs, providers/filter.rs). The selection, a
-- sorted map, is a list without repetition of its keys. An `i32` is an integer: the arrows pass -1
-- and 1.
pub mod Arrows
pub mod Cycle
pub mod Offered
use hearthdeck.Prelude.{
  ℕ, zero, suc, ◌+◌, ◌-◌, ◌%◌, ◌≡◌, Bool, true, false, not, ◌&&◌, ◌||◌, if◌then◌else◌, ◌==◌, Option,
  none, some, List, [], ◌∷◌, String, string_eq, ◌=?◌, map, length, get_elem?, lookup, insert,
  remove, is_some_and,
}
use hearthdeck.Prelude.Int.{ℤ, pos, negsuc, ◌+ℤ◌}
use hearthdeck.Catalog.{Section, console_games, same_section}
use hearthdeck.Frontend.Items.{LibraryItem}
use hearthdeck.Frontend.Facets.{FacetOption, Facet, section_facets}

pub data Message : Type 0 where
  select : (facet : String) → Option String → Message
  cycle_row : (row : ℕ) (delta : ℤ) → Message
  toggle close clear : Message

pub data Effect : Type 0 where
  nothing refilter : Effect

pub record State : Type 0 where
  pub facets : List Facet
  pub selected : List (String × String)
  pub is_open : Bool

-- `position`.
unfoldable pub position : String → List FacetOption → Option ℕ
position v [] = none
position v (o ∷ options) =
    let rest = position v options in
    if o.value =? v then some 0 else elim rest [ none ↦ none | some i ↦ some (suc i) ]

-- The remainder that is not negative, by a positive number.
unfoldable pub rem_euclid : ℤ → ℕ → ℕ
rem_euclid (pos n) k = n % k
rem_euclid (negsuc n) k = k - 1 - n % k

-- The place of the current value: none is 0, an option is one more than its position.
abbrev pub index_of : List FacetOption → Option String → ℕ
index_of options none = 0
index_of options (some v) = elim (position v options) [ none ↦ 0 | some i ↦ suc i ]

-- The value at a place.
abbrev pub value_at : List FacetOption → ℕ → Option String
value_at options zero = none
value_at options (suc i) = elim (get_elem? options i) [ none ↦ none | some o ↦ some o.value ]

unfoldable pub cycle : Facet → Option String → ℤ → Option String
cycle facet current delta =
    value_at facet.options
      (rem_euclid (pos (index_of facet.options current) +ℤ delta) (length facet.options + 1))

abbrev pub selecting : String → Option String → State → State
selecting facet none s = record s { selected = remove facet s.selected }
selecting facet (some value) s = record s { selected = insert facet value s.selected }

abbrev pub cycle_at : Option Facet → ℤ → State → State × Effect
cycle_at none delta s = (s, nothing)
cycle_at (some facet) delta s =
    (selecting facet.id (cycle facet (lookup facet.id s.selected) delta) s, refilter)

unfoldable pub update : State → Message → State × Effect
update s (select facet value) = (selecting facet value s, refilter)
update s (cycle_row row delta) = cycle_at (get_elem? s.facets row) delta s
update s clear = (record s { selected = [] }, refilter)
update s toggle = (record s { is_open = not s.is_open }, nothing)
update s close = (record s { is_open = false }, nothing)

unfoldable pub option_offered : String → List FacetOption → Bool
option_offered v [] = false
option_offered v (o ∷ options) = o.value =? v || option_offered v options

-- Whether some facet has the id and the value.
unfoldable pub is_offered : List Facet → String → String → Bool
is_offered [] id value = false
is_offered (f ∷ facets) id value =
    f.id =? id && option_offered value f.options || is_offered facets id value

unfoldable pub retain_offered : List Facet → List (String × String) → List (String × String)
retain_offered facets [] = []
retain_offered facets ((id, value) ∷ selected) =
    if is_offered facets id value
    then (id, value) ∷ retain_offered facets selected
    else retain_offered facets selected

unfoldable pub load_local_facets :
    {Icon : Type 0} → Section → List (LibraryItem Icon) → State → State
load_local_facets section catalog s = if same_section section console_games then s else record s {
  facets = section_facets section catalog;
  selected = retain_offered (section_facets section catalog) s.selected;
}

-- The console's own facets get the locale's names; `known_name` is `RommFacet::from_id` and `name`.
abbrev pub named : (String → Option String) → Facet → Facet
named known_name f = elim (known_name f.id) [ none ↦ f | some label ↦ record f { label = label } ]

abbrev pub load_console_facets : (String → Option String) → List Facet → State → State
load_console_facets known_name facets s = record s { facets = map (named known_name) facets }

abbrev pub clear_source : State → State
clear_source s = record s { facets = []; selected = [] }

abbrev pub reset : State
reset = record { facets = []; selected = []; is_open = false }
