-- ===== src/Frontend/Facets/Offers.antt =====
-- Every value that a facet offers is one that some entry of the section matches
-- (services/hearthdeck-frontend/src/app_group.rs and library_item.rs).
use hearthdeck.Prelude.{
  ◌≡◌, inl, inr, refl, some-injective, subst, Option-cases, ap, ◌∙◌, Bool, true, false, ◌||◌,
  Bool-cases, Option, none, some, List, [], ◌∷◌, String, string_eq, ◌=?◌, is_some_and, arith, map,
  contains, append, strip_prefix,
}
use hearthdeck.Catalog.{Section, pc_games, console_games, applications, same_section}
use hearthdeck.Frontend.Items.{
  LibraryItem, matches_facet, store_filter_prefix, source_filter_prefix, store_filter_value,
}
use hearthdeck.Frontend.Facets.{
  FacetOption, Facet, insert_value, insert_values, option_of, facet_for, optional, in_section,
  values_of, facet_values, section_facets,
}

unfoldable pub offers_option : List FacetOption → String → Bool
offers_option [] v = false
offers_option (o ∷ options) v = o.value =? v || offers_option options v

-- Whether a list of facets offers a value.
unfoldable pub offers : List Facet → String → Bool
offers [] v = false
offers (f ∷ facets) v = offers_option f.options v || offers facets v

unfoldable pub any_match :
    {Icon : Type 0} → (String → String) → List (LibraryItem Icon) → String → Bool
any_match lower [] v = false
any_match lower (e ∷ entries) v = matches_facet lower e v || any_match lower entries v

store_matches :
    {Icon : Type 0} (lower : String → String) (e : LibraryItem Icon) (store : String)
    → matches_facet lower e (append store_filter_prefix store)
      ≡ is_some_and e.store (λ s. s =? store)
unfolding matches_facet strip_prefix
store_matches lower e store = refl

source_matches :
    {Icon : Type 0} (lower : String → String) (e : LibraryItem Icon) (source : String)
    → matches_facet lower e (append source_filter_prefix source) ≡ contains source e.sources
unfolding matches_facet strip_prefix
source_matches lower e source = refl

contains-insert_value :
    (v w : String) (set : List String)
    → contains w (insert_value v set) ≡ (v =? w || contains w set)
unfolding contains insert_value
contains-insert_value v w [] = refl
contains-insert_value v w (x ∷ set) = ground (
  arith,
  contains-insert_value v w set,
  string_eq.beq_iff v x,
  string_eq.beq_iff v w,
  string_eq.beq_iff x w,
)

contains-insert_values :
    (w : String) (vs set : List String)
    → contains w (insert_values vs set) ≡ (contains w vs || contains w set)
unfolding contains insert_values
contains-insert_values w [] set = refl
contains-insert_values w (v ∷ vs) set =
    ground (arith, contains-insert_values w vs (insert_value v set), contains-insert_value v w set)

contains-map :
    (f : String → String) (v : String) (xs : List String)
    → contains v (map f xs) ≡ true
    → (x : String) × (contains x xs ≡ true) × (f x ≡ v)
unfolding contains
contains-map f v [] h = cc
contains-map f v (x ∷ xs) h = elim (Bool-cases (f x =? v)) [
  | inl q ↦ (x, ground (arith, string_eq.beq_iff x x), (string_eq.beq_iff (f x) v).0 q)
  | inr q ↦ let (y, there, e) = contains-map f v xs (ground arith) in (y, ground arith, e)
]

contains-optional : (v : String) (o : Option String) → contains v (optional o) ≡ true → o ≡ some v
unfolding contains
contains-optional v none h = cc
contains-optional v (some w) h = ap some ((string_eq.beq_iff w v).0 (ground arith))

store-match :
    {Icon : Type 0} (lower : String → String) (e : LibraryItem Icon) (v : String)
    → store_filter_value e ≡ some v
    → matches_facet lower e v ≡ true
store-match lower e v h = elim (Option-cases e.store) [
  | inl q ↦ let h' : none ≡ some v = (rw (store_filter_value, q) at h) in cc
  | inr (store, q) ↦
      let here : some (append store_filter_prefix store) ≡ some v =
        (rw (store_filter_value, q) at h) in
      subst (λ w. matches_facet lower e w ≡ true) (some-injective _ _ here)
        (store_matches lower e store ∙ rw q ((string_eq.beq_iff store store).1 refl))
]

values-match :
    {Icon : Type 0} (lower : String → String) (section : Section) (e : LibraryItem Icon)
    (v : String)
    → contains v (values_of section e) ≡ true
    → matches_facet lower e v ≡ true
unfolding contains
values-match lower pc_games e v h =
    store-match lower e v (contains-optional v (store_filter_value e) h)
values-match lower console_games e v h = cc
values-match lower applications e v h =
    let (source, there, here) = contains-map (append source_filter_prefix) v e.sources h in
    subst (λ w. matches_facet lower e w ≡ true) here (source_matches lower e source ∙ there)

facet_values-match :
    {Icon : Type 0} (lower : String → String) (section : Section)
    (entries : List (LibraryItem Icon)) (set : List String) (v : String)
    → contains v (facet_values section entries set) ≡ true
    → (contains v set || any_match lower (in_section section entries) v) ≡ true
unfolding facet_values any_match in_section
facet_values-match lower section [] set v h = ground arith
facet_values-match lower section (e ∷ entries) set v h =
    elim (Bool-cases (same_section section e.section)) [
      | inl q ↦
          let ih =
            facet_values-match lower section entries (insert_values (values_of section e) set) v
              (rw q at h) in
          rw q (
            ground (
              arith,
              contains-insert_values v (values_of section e) set,
              values-match lower section e v,
            ))
      | inr q ↦ let ih = facet_values-match lower section entries set v (rw q at h) in rw q ih
    ]

offers-options :
    (v : String) (values : List String) → offers_option (map option_of values) v ≡ contains v values
unfolding offers_option contains
offers-options v [] = refl
offers-options v (w ∷ values) = ground (arith, offers-options v values)

offers-facet_for :
    (id label v : String) (values : List String)
    → offers (facet_for id label values) v ≡ true
    → contains v values ≡ true
unfolding offers
offers-facet_for id label v values h = ground (arith, offers-options v values)

offered-any_match :
    {Icon : Type 0} (lower : String → String) (section : Section)
    (entries : List (LibraryItem Icon)) (id label v : String)
    → offers (facet_for id label (facet_values section entries [])) v ≡ true
    → any_match lower (in_section section entries) v ≡ true
unfolding contains
offered-any_match lower section entries id label v h =
    facet_values-match lower section entries [] v
      (offers-facet_for id label v (facet_values section entries []) h)

-- A value that a section offers is never an empty choice: some entry of the section matches it.
pub offers-any_match :
    {Icon : Type 0} (lower : String → String) (section : Section)
    (entries : List (LibraryItem Icon)) (v : String)
    → offers (section_facets section entries) v ≡ true
    → any_match lower (in_section section entries) v ≡ true
unfolding offers section_facets
offers-any_match lower pc_games entries v h =
    offered-any_match lower pc_games entries "store" "filter-store" v h
offers-any_match lower console_games entries v h = cc
offers-any_match lower applications entries v h =
    offered-any_match lower applications entries "source" "filter-source" v h
