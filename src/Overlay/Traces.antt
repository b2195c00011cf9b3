-- ===== src/Overlay/Traces.antt =====
-- Histories of the quick menu: what holds after any events
-- (services/hearthdeck-overlay/src/state.rs).
use hearthdeck.Prelude.{
  ℕ, suc, ◌+◌, ◌≤◌, ◌≡◌, refl, ◌∙◌, Bool, true, false, List, [], ◌∷◌, arith, if◌then◌else◌,
}
use hearthdeck.Overlay.{
  Event, resume, close_fails, hide_after_close, log_out_succeeded, log_out_fails, Effect, show,
  hide, stop_application, end_session, OverlayState, default, busy, toggle, update, run,
}
use hearthdeck.Overlay.Menu.{IsValid, update-IsValid}

run_from-IsValid : (s : OverlayState) (es : List Event) → IsValid s → IsValid (run s es).0
unfolding run
run_from-IsValid s [] v = v
run_from-IsValid s (e ∷ es) v = run_from-IsValid (update s e).0 es (update-IsValid s e v)

-- After any history from the initial state the cursor is on an entry of the menu on screen, or,
-- while an action is pending, below the three entries of the normal menu.
pub run-IsValid : (es : List Event) → IsValid (run default es).0
run-IsValid es = run_from-IsValid default es (omega arith)

-- What the shell shows when it carries out the effects in order.
abbrev pub shown : Bool → List Effect → Bool
shown on [] = on
shown on (show ∷ effects) = shown true effects
shown on (hide ∷ effects) = shown false effects
shown on (_ ∷ effects) = shown on effects

shown-update :
    (s : OverlayState) (e : Event) (effects : List Effect)
    → shown s.visible ((update s e).1 ∷ effects) ≡ shown (update s e).0.visible effects
unfolding update
shown-update s toggle effects = ground arith
shown-update s _ effects = ground arith

-- Carrying out the effects of a history, in order, shows the menu exactly when the state says that
-- it is visible: no show or hide is missed.
pub shown-run :
    (s : OverlayState) (es : List Event) → shown s.visible (run s es).1 ≡ (run s es).0.visible
unfolding run
shown-run s [] = refl
shown-run s (e ∷ es) = shown-update s e (run (update s e).0 es).1 ∙ shown-run (update s e).0 es

-- How often a history asks the shell to stop the application or to end the session.
abbrev pub commits : List Effect → ℕ
commits [] = 0
commits (stop_application ∷ effects) = suc (commits effects)
commits (end_session ∷ effects) = suc (commits effects)
commits (_ ∷ effects) = commits effects

-- How often the shell reports that an action is over, or resumes.
abbrev pub settles : List Event → ℕ
settles [] = 0
settles (resume ∷ es) = suc (settles es)
settles (close_fails ∷ es) = suc (settles es)
settles (hide_after_close ∷ es) = suc (settles es)
settles (log_out_succeeded ∷ es) = suc (settles es)
settles (log_out_fails ∷ es) = suc (settles es)
settles (_ ∷ es) = settles es

abbrev pending : OverlayState → ℕ
pending s = if busy s.status then 1 else 0

commits-update :
    (s : OverlayState) (e : Event) (es : List Event) (effects : List Effect)
    → commits effects + pending (update s e).0 ≤ suc (settles es)
    → commits ((update s e).1 ∷ effects) + pending s ≤ suc (settles (e ∷ es))
unfolding update
commits-update s toggle es effects h = ground arith
commits-update s _ es effects h = ground arith

commits-run-pending :
    (s : OverlayState) (es : List Event) → commits (run s es).1 + pending s ≤ suc (settles es)
unfolding run
commits-run-pending s [] = ground arith
commits-run-pending s (e ∷ es) =
    commits-update s e es (run (update s e).0 es).1 (commits-run-pending (update s e).0 es)

-- An action is never asked for again while one is pending: in any history the requests to stop the
-- application or to end the session outnumber the reports and resumes by at most one.
pub commits-run : (s : OverlayState) (es : List Event) → commits (run s es).1 ≤ suc (settles es)
commits-run s es = omega (arith, commits-run-pending s es)
