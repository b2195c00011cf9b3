-- ===== src/Input/Protocol.antt =====
-- The connection protocol of the broker: roles, deliveries and the session's focus
-- (services/hearthdeck-protocol/src/input.rs, services/hearthdeck-protocol/src/lib.rs).
use Prim.Native.String.{String}
use text.Mathlib.Text.{◌==◌ as str_eq}
use hearthdeck.Prelude.{ℕ, Bool, true, false, ◌&&◌, ◌||◌, ◌==◌, Option, List, [], ◌∷◌, is_some_and}
use hearthdeck.Input.{Action}

abbrev pub version : ℕ
version = 1

pub data Role : Type 0 where
  frontend overlay : Role

pub data Delivery : Type 0 where
  observe handoff frontend text_entry overlay : Delivery

pub record Hello : Type 0 where
  pub version : ℕ
  pub role : Role
  pub delivery : Delivery

-- The pairs that `Hello::valid` admits.
abbrev pub admits : Role → Delivery → Bool
admits Role.frontend Delivery.overlay = false
admits Role.frontend _ = true
admits Role.overlay Delivery.observe = true
admits Role.overlay Delivery.overlay = true
admits Role.overlay _ = false

unfoldable pub valid : Hello → Bool
valid h = h.version == version && admits h.role h.delivery

abbrev pub same_role : Role → Role → Bool
same_role Role.frontend Role.frontend = true
same_role Role.overlay Role.overlay = true
same_role _ _ = false

abbrev pub is_overlay : Delivery → Bool
is_overlay Delivery.overlay = true
is_overlay _ = false

abbrev pub is_text_entry : Delivery → Bool
is_text_entry Delivery.text_entry = true
is_text_entry _ = false

pub data InputProfile : Type 0 where
  native desktop : InputProfile

pub record InputMode : Type 0 where
  pub profile : InputProfile
  pub retro_osk : Bool

pub record SessionContext : Type 0 where
  pub mode : InputMode
  pub app_ids : List String

unfoldable pub any_id : String → List String → Bool
any_id focused [] = false
any_id focused (id ∷ ids) = str_eq id focused || any_id focused ids

unfoldable pub matches_focus : SessionContext → Option String → Bool
matches_focus session focused = is_some_and focused (λ name. any_id name session.app_ids)

-- What the broker sends to a client; the text of a failure is left out.
pub data Event : Type 0 where
  ready failed : Event
  act : Action → Event
