-- ===== src/Catalog.antt =====
-- Where a record of the catalog stands in the library, and in which form it is used
-- (services/hearthdeck-protocol/src/lib.rs and classification.rs, and the rules of
-- services/hearthdeck-ai/src/categorization/rules.rs). `lower` is `to_lowercase`.
mod Tests
pub mod Rules
use hearthdeck.Prelude.{
  Bool, true, false, ◌&&◌, ◌||◌, if◌then◌else◌, Option, none, some, List, [], ◌∷◌, String, append,
  has_text, eq_ignore_ascii_case,
}

pub data Section : Type 0 where
  pc_games console_games applications : Section

abbrev pub same_section : Section → Section → Bool
same_section pc_games pc_games = true
same_section console_games console_games = true
same_section applications applications = true
same_section _ _ = false

pub data FormFactor : Type 0 where
  couch desktop : FormFactor

abbrev pub same_form : FormFactor → FormFactor → Bool
same_form couch couch = true
same_form desktop desktop = true
same_form _ _ = false

abbrev pub category_value : FormFactor → String
category_value couch = "hearthdeck-form:couch"
category_value desktop = "hearthdeck-form:desktop"

unfoldable pub from_category : String → Option FormFactor
from_category category =
    if eq_ignore_ascii_case category (category_value couch)
    then some couch
    else if eq_ignore_ascii_case category (category_value desktop)
    then some desktop
    else none

abbrev pub other : FormFactor → FormFactor
other couch = desktop
other desktop = couch

pub record CatalogClassification : Type 0 where
  pub section : Section
  pub streaming : Bool
  pub form_factor : Option FormFactor

abbrev pub watch_services : List String
watch_services =
    "stremio" ∷ "netflix" ∷ "primevideo" ∷ "prime video" ∷ "prime-video" ∷ "disneyplus" ∷ "disney+"
    ∷ "hulu" ∷ "hbomax" ∷ "hbo max" ∷ "max.com" ∷ "crunchyroll" ∷ "paramountplus" ∷ "paramount+"
    ∷ "peacock" ∷ "tubitv" ∷ "tubi.tv" ∷ "plutotv" ∷ "pluto.tv" ∷ "appletv" ∷ "apple tv"
    ∷ "tv.apple" ∷ "plex" ∷ "jellyfin" ∷ "emby" ∷ "kodi" ∷ []

abbrev pub emulators : List String
emulators =
    "retroarch" ∷ "dolphin" ∷ "pcsx2" ∷ "duckstation" ∷ "rpcs3" ∷ "citra" ∷ "yuzu" ∷ "ryujinx"
    ∷ "mame" ∷ "mupen" ∷ "xemu" ∷ "melon" ∷ "ppsspp" ∷ "snes9x" ∷ "mgba" ∷ "mednafen" ∷ "desmume"
    ∷ "fsuae" ∷ "scummvm" ∷ "cemu" ∷ "ares" ∷ "bsnes" ∷ "limbo" ∷ "flycast" ∷ "redream"
    ∷ "standalone" ∷ "emulator" ∷ []

abbrev pub couch_launchers : List String
couch_launchers =
    "heroic" ∷ "steam" ∷ "lutris" ∷ "retroarch" ∷ "emulationstation" ∷ "es-de" ∷ "moonlight" ∷ []

unfoldable pub has_any : String → List String → Bool
has_any signal [] = false
has_any signal (name ∷ names) = has_text signal name || has_any signal names

abbrev pub signal_of : (String → String) → String → Option String → String
signal_of lower id exec =
    lower (append "hearthdeck:" (append id (append " " (elim exec [ none ↦ "" | some e ↦ e ]))))

abbrev pub placed : String → Section → Section
placed signal pc_games = if has_any signal emulators then console_games else pc_games
placed signal section = section

abbrev pub is_couch : Option FormFactor → Bool
is_couch (some couch) = true
is_couch _ = false

unfoldable pub classify_catalog :
    (String → String) → String → Option String → Section → Option FormFactor → CatalogClassification
classify_catalog lower id exec section modeled_form =
    let signal = signal_of lower id exec in
    let streaming = same_section section applications && has_any signal watch_services in
    record {
      section = placed signal section;
      streaming = streaming;
      form_factor =
          if same_section (placed signal section) applications
          then some (
              if streaming || has_any signal couch_launchers || is_couch modeled_form
              then couch
              else desktop)
          else none;
    }
