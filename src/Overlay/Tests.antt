-- ===== src/Overlay/Tests.antt =====
-- Runs of the quick menu (services/hearthdeck-overlay/src/state.rs).
use hearthdeck.Prelude.{◌≡◌, refl, ◌≤◌, suc, true, false, List, [], ◌∷◌}
use hearthdeck.Overlay.{
  Event, toggle, navigate_down, activate, close_fails, show, stop_application, nothing,
  OverlayState, closing, close_failed, default, update, run,
}
use hearthdeck.Overlay.Menu.{IsValid}
use hearthdeck.Overlay.Traces.{run-IsValid, shown, shown-run, commits, settles, commits-run}

abbrev closing_state : OverlayState
closing_state = record { visible = true; status = closing; selected = 1 }

abbrev retry_state : OverlayState
retry_state = record { visible = true; status = close_failed; selected = 1 }

abbrev history : List Event
history = toggle ∷ navigate_down ∷ activate ∷ close_fails ∷ activate ∷ []

history_effects :
    (run default history).1 ≡ show ∷ nothing ∷ stop_application ∷ nothing ∷ stop_application ∷ []
unfolding run update
history_effects = refl

run-IsValid_example : IsValid (run default history).0
run-IsValid_example = run-IsValid history

shown-run_example : shown false (run default history).1 ≡ (run default history).0.visible
shown-run_example = shown-run default history

commits-run_example : commits (run default history).1 ≤ suc (settles history)
commits-run_example = commits-run default history
