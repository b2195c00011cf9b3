-- ===== src/Frontend/Choices/Laws.antt =====
-- The user's choices hold for the one application that they were made for
-- (services/hearthdeck-frontend/src/app_group.rs).
use hearthdeck.Prelude.{
  ◌≡◌, refl, true, ◌||◌, if◌then◌else◌, Bool-cases, inl, inr, Option, none, some, List, [], ◌∷◌,
  ◌++◌, String, string_eq, ◌=?◌, arith, map, contains, contains-delete, lookup, lookup-insert,
}
use hearthdeck.Catalog.{FormFactor, couch, desktop, same_form}
use hearthdeck.Frontend.Items.{LibraryItem, form_of}
use hearthdeck.Frontend.Choices.{
  AppLibraryConfig, desktop_input_enabled, xor, toggle_desktop_input, set_form_override,
  desktop_input_for, overridden, override, apply_form_overrides,
}

contains-append_one :
    (k id : String) (ids : List String) → contains k (ids ++ id ∷ []) ≡ (contains k ids || id =? k)
unfolding contains
contains-append_one k id [] = ground arith
contains-append_one k id (x ∷ ids) = ground (arith, contains-append_one k id ids)

toggled :
    (c : AppLibraryConfig) (id k : String)
    → desktop_input_enabled (toggle_desktop_input c id) k
      ≡ xor (id =? k) (desktop_input_enabled c k)
unfolding toggle_desktop_input
toggled c id k = ground (
  arith,
  contains-append_one k id c.desktop_input_apps,
  contains-delete id k c.desktop_input_apps,
  string_eq.beq_iff id k,
)

-- Toggling the pointer input of an application flips whether it launches with it, whichever default
-- it has, and changes that of no other.
pub toggle-desktop_input_for :
    {Icon : Type 0} (c : AppLibraryConfig) (id : String) (e : LibraryItem Icon)
    → desktop_input_for (toggle_desktop_input c id) e ≡ xor (id =? e.id) (desktop_input_for c e)
unfolding desktop_input_for
toggle-desktop_input_for c id e = ground (arith, toggled c id e.id)

same_form_iff : (a b : FormFactor) → same_form a b ≡ true → a ≡ b
same_form_iff couch couch h = refl
same_form_iff couch desktop h = cc
same_form_iff desktop couch h = cc
same_form_iff desktop desktop h = refl

form-overridden :
    {Icon : Type 0} (form : FormFactor) (e : LibraryItem Icon)
    → form_of (overridden (some form) e) ≡ form
form-overridden form e = elim (Bool-cases (same_form (form_of e) form)) [
  | inl h ↦ rw h (same_form_iff (form_of e) form h)
  | inr h ↦ rw h refl
]

form-override :
    {Icon : Type 0} (c : AppLibraryConfig) (id : String) (form : FormFactor) (e : LibraryItem Icon)
    → form_of (override (set_form_override c id form) e)
      ≡ (if id =? e.id then form else form_of (override c e))
form-override c id form e = elim (Bool-cases (id =? e.id)) [
  | inl h ↦ rw (lookup-insert id e.id form c.form_overrides, h) (form-overridden form e)
  | inr h ↦ rw (lookup-insert id e.id form c.form_overrides, h) refl
]

overridden-id :
    {Icon : Type 0} (f : Option FormFactor) (e : LibraryItem Icon) → (overridden f e).id ≡ e.id
overridden-id none e = refl
overridden-id (some form) e = ground arith

overridden_idem :
    {Icon : Type 0} (f : Option FormFactor) (e : LibraryItem Icon)
    → overridden f (overridden f e) ≡ overridden f e
overridden_idem none e = refl
overridden_idem (some couch) e = elim (Bool-cases (same_form (form_of e) couch)) [
  | inl h ↦ rw (h, h) refl
  | inr h ↦ rw h refl
]
overridden_idem (some desktop) e = elim (Bool-cases (same_form (form_of e) desktop)) [
  | inl h ↦ rw (h, h) refl
  | inr h ↦ rw h refl
]

override_idem :
    {Icon : Type 0} (c : AppLibraryConfig) (e : LibraryItem Icon)
    → override c (override c e) ≡ override c e
override_idem c e =
    rw (overridden-id (lookup e.id c.form_overrides) e)
      (overridden_idem (lookup e.id c.form_overrides) e)

apply_idem :
    {Icon : Type 0} (c : AppLibraryConfig) (entries : List (LibraryItem Icon))
    → apply_form_overrides c (apply_form_overrides c entries) ≡ apply_form_overrides c entries
unfolding apply_form_overrides
apply_idem c [] = refl
apply_idem c (e ∷ entries) = cc (override_idem c e, apply_idem c entries)

forms-set :
    {Icon : Type 0} (c : AppLibraryConfig) (id : String) (form : FormFactor)
    (entries : List (LibraryItem Icon))
    → map form_of (apply_form_overrides (set_form_override c id form) entries)
      ≡ map (λ e. if id =? e.id then form else form_of (override c e)) entries
unfolding apply_form_overrides
forms-set c id form [] = refl
forms-set c id form (e ∷ entries) = cc (form-override c id form e, forms-set c id form entries)

-- What the user chose outranks the record: after the choice of a form for an id, a loaded record with
-- that id has the form, and one with another id has the form that it had without the choice. To put
-- the choices onto records again changes nothing.
pub override-set :
    {Icon : Type 0} (c : AppLibraryConfig) (id : String) (form : FormFactor)
    (entries : List (LibraryItem Icon))
    → (map form_of (apply_form_overrides (set_form_override c id form) entries)
        ≡ map (λ e. if id =? e.id then form else form_of (override c e)) entries)
      × (apply_form_overrides c (apply_form_overrides c entries) ≡ apply_form_overrides c entries)
override-set c id form entries = (forms-set c id form entries, apply_idem c entries)
