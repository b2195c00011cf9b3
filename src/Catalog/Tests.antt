-- ===== src/Catalog/Tests.antt =====
-- Runs of the catalog's rules (services/hearthdeck-ai/src/categorization/rules.rs).
use hearthdeck.Prelude.{
  ◌≡◌, refl, true, false, ◌&&◌, if◌then◌else◌, none, some, is_some_and, String, has_text,
}
use hearthdeck.Catalog.{
  pc_games, console_games, applications, couch, classify_catalog, is_couch, has_any,
}
use hearthdeck.Catalog.Rules.{model_promotes}

abbrev unchanged : String → String
unchanged s = s

stremio :
    classify_catalog unchanged "net.stremio" none applications none
    ≡ record { section = applications; streaming = true; form_factor = some couch }
unfolding classify_catalog has_any has_text
stremio = refl

emulator :
    classify_catalog unchanged "dolphin" none pc_games none
    ≡ record { section = console_games; streaming = false; form_factor = none }
unfolding classify_catalog has_any has_text
emulator = refl

model_promotes_example :
    classify_catalog unchanged "gimp" none applications (some couch)
    ≡ record (classify_catalog unchanged "gimp" none applications none) {
      form_factor =
          if is_couch (some couch)
            && is_some_and
                (classify_catalog unchanged "gimp" none applications none).form_factor
                (λ _. true)
          then some couch
          else (classify_catalog unchanged "gimp" none applications none).form_factor;
    }
model_promotes_example = model_promotes unchanged "gimp" none applications (some couch)
