-- ===== src/Frontend/Choices.antt =====
-- The user's own choices of input and form (services/hearthdeck-frontend/src/app_group.rs). A sorted
-- map is a list without repetition of its keys.
pub mod Laws
use hearthdeck.Prelude.{
  Bool, true, false, not, ◌&&◌, if◌then◌else◌, Option, none, some, List, [], ◌∷◌, ◌++◌, String,
  string_eq, map, contains, delete, lookup, insert,
}
use hearthdeck.Catalog.{applications, same_section, FormFactor, desktop, same_form}
use hearthdeck.Frontend.Items.{LibraryItem, form_of, set_form}

pub record AppLibraryConfig : Type 0 where
  pub desktop_input_apps : List String
  pub form_overrides : List (String × FormFactor)

abbrev pub desktop_input_enabled : AppLibraryConfig → String → Bool
desktop_input_enabled c id = contains id c.desktop_input_apps

abbrev pub xor : Bool → Bool → Bool
xor true b = not b
xor false b = b

unfoldable pub toggle_desktop_input : AppLibraryConfig → String → AppLibraryConfig
toggle_desktop_input c id =
    if desktop_input_enabled c id
    then record c { desktop_input_apps = delete id c.desktop_input_apps }
    else record c { desktop_input_apps = c.desktop_input_apps ++ id ∷ [] }

abbrev pub set_form_override : AppLibraryConfig → String → FormFactor → AppLibraryConfig
set_form_override c id form = record c { form_overrides = insert id form c.form_overrides }

module _ {Icon : Type 0} where
  unfoldable pub desktop_input_for : AppLibraryConfig → LibraryItem Icon → Bool
  desktop_input_for c e =
      xor (desktop_input_enabled c e.id)
        (same_section applications e.section && same_form (form_of e) desktop)

  abbrev pub overridden : Option FormFactor → LibraryItem Icon → LibraryItem Icon
  overridden none e = e
  overridden (some form) e = if same_form (form_of e) form then e else set_form form e

  abbrev pub override : AppLibraryConfig → LibraryItem Icon → LibraryItem Icon
  override c e = overridden (lookup e.id c.form_overrides) e

  unfoldable pub apply_form_overrides :
      AppLibraryConfig → List (LibraryItem Icon) → List (LibraryItem Icon)
  apply_form_overrides c entries = map (override c) entries
