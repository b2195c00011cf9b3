-- ===== src/Catalog/Rules.antt =====
-- What a model can change of a record's place
-- (services/hearthdeck-ai/src/categorization/rules.rs).
use hearthdeck.Prelude.{
  ◌≡◌, ap, Bool, true, false, ◌&&◌, ◌||◌, if◌then◌else◌, Option, none, some, is_some_and, String,
  arith,
}
use hearthdeck.Catalog.{
  Section, applications, same_section, FormFactor, couch, desktop, classify_catalog, placed,
  is_couch, has_any, signal_of, watch_services, couch_launchers,
}

-- Whether a classification has a form: exactly the applications have one.
pub form-application :
    (lower : String → String) (id : String) (exec : Option String) (section : Section)
    (modeled_form : Option FormFactor)
    → is_some_and (classify_catalog lower id exec section modeled_form).form_factor (λ _. true)
      ≡ same_section (classify_catalog lower id exec section modeled_form).section applications
unfolding classify_catalog
form-application lower id exec section modeled_form = ground arith

abbrev form_for : Bool → Bool → Bool → Bool → Option FormFactor
form_for application streaming launcher promoted =
    if application
    then some (if streaming || launcher || promoted then couch else desktop)
    else none

form_for-promoted :
    (application streaming launcher promoted : Bool)
    → form_for application streaming launcher promoted ≡ (
        if promoted && is_some_and (form_for application streaming launcher false) (λ _. true)
        then some couch
        else form_for application streaming launcher false)
form_for-promoted application streaming launcher promoted = ground arith

-- A model may only promote: whatever it says of a record, the section and the streaming mark are
-- those that the rules give without it, and so is the form, unless the model says couch, and then the
-- form is couch wherever the rules give one.
pub model_promotes :
    (lower : String → String) (id : String) (exec : Option String) (section : Section)
    (modeled_form : Option FormFactor)
    → classify_catalog lower id exec section modeled_form
      ≡ record (classify_catalog lower id exec section none) {
        form_factor =
            if is_couch modeled_form
              && is_some_and (classify_catalog lower id exec section none).form_factor (λ _. true)
            then some couch
            else (classify_catalog lower id exec section none).form_factor;
      }
unfolding classify_catalog
model_promotes lower id exec section modeled_form =
    let signal = signal_of lower id exec in
    ap
      (λ (f : Option FormFactor). record (classify_catalog lower id exec section none) {
        form_factor = f;
      })
      (form_for-promoted (same_section (placed signal section) applications)
        (same_section section applications && has_any signal watch_services)
        (has_any signal couch_launchers) (is_couch modeled_form))
