-- ===== src/Frontend/Tests.antt =====
-- Runs of the frontend's state machines and cursors (services/hearthdeck-frontend/src).
use hearthdeck.Prelude.{
  ℕ, suc, ◌≡◌, ◌≢◌, ◌≤◌, ◌<◌, ◌%◌, refl, sym, ap, ◌∙◌, true, false, none, some, List, [], ◌∷◌,
  arith,
}
use hearthdeck.Frontend.Launch
use hearthdeck.Frontend.Launch.{
  start, accepted, fails, dismiss, idle, shown_title, StartedIn, run-title, launches, dismissals,
  launches-dismissals, overlay-is_visible,
}
use hearthdeck.Frontend.Control
use hearthdeck.Frontend.Control.{
  session_observed, session_check_failed, frontend_unfocused, checking, launching,
  control_needs_observation, launching_holds, frontend_has_control,
}
use hearthdeck.Frontend.Grid
use hearthdeck.Frontend.Grid.{
  Layout, Cursors, Confirm, Direction, up, down, left, right, ring_at, ring_len, step_tile,
  focused_tile, confirm_tile,
}
use hearthdeck.Frontend.Grid.Steps.{down-up}
use hearthdeck.Frontend.Rails
use hearthdeck.Frontend.Rails.{Cursor, cards_in}
use hearthdeck.Frontend.Rails.Clamp.{IsOn}
use hearthdeck.Frontend.Rails.Steps.{step_down-up}
use hearthdeck.Frontend.Details
use hearthdeck.Frontend.Details.{play, back, favorite, screenshot, any_row, rows}
use hearthdeck.Frontend.Details.Moves.{move}
use hearthdeck.Frontend.Details.Steps.{step-move}

abbrev launch_history : List Launch.Event
launch_history = start "Zelda" ∷ start "Mario" ∷ fails "no core" ∷ dismiss ∷ []

launches-dismissals_example :
    launches (Launch.run idle launch_history).1 ≤ suc (dismissals launch_history)
launches-dismissals_example = launches-dismissals idle launch_history

control_reached : frontend_has_control (Control.run checking (session_observed false ∷ [])) ≡ true
unfolding Control.run Control.update frontend_has_control
control_reached = refl

control_needs_observation_example :
    Control.some_event Control.is_observation (session_observed false ∷ []) ≡ true
control_needs_observation_example =
    control_needs_observation (session_observed false ∷ []) control_reached

-- Six tiles in rows of four: the last row is short.
abbrev library : Layout
library = record {
  sections = 2;
  tabs = 1;
  filter_button = true;
  facets = 3;
  drawer_open = false;
  tiles = 6;
  columns = 4;
}

abbrev empty_library : Layout
empty_library = record {
  sections = 2;
  tabs = 1;
  filter_button = false;
  facets = 0;
  drawer_open = false;
  tiles = 0;
  columns = 4;
}

abbrev on_tile : ℕ → Cursors
on_tile t = record { tile = t; column = 0; filter_row = 0; ring = none }

confirms_nothing : Grid.confirm (Grid.clamp (on_tile 3) empty_library) empty_library ≡ Grid.nothing
unfolding Grid.confirm Grid.clamp
confirms_nothing = refl

steps_down : step_tile 3 3 down 6 4 ≡ some (5, 3)
unfolding step_tile Grid.step_tile_in
steps_down = refl

steps_left : step_tile 5 3 left 6 4 ≡ some (4, 0)
unfolding step_tile Grid.step_tile_in
steps_left = refl

down-up_example : step_tile 5 3 up 6 4 ≡ some (3, 3 % 4)
down-up_example = down-up 3 6 4 5 3 (omega arith) (omega arith) steps_down

abbrev rails : List ℕ
rails = 5 ∷ 0 ∷ 2 ∷ []

abbrev on_fourth : Cursor
on_fourth = record { rail = 0; card = 3; remembered = 3 }

third_rail : 0 < cards_in rails 2
unfolding cards_in
third_rail = omega arith

IsOn-on_fourth : IsOn rails on_fourth
unfolding cards_in
IsOn-on_fourth = omega arith

-- The step passes over the empty rail and keeps the card in mind.
steps_over : Rails.step on_fourth down rails ≡ record { rail = 2; card = 1; remembered = 3 }
unfolding Rails.step Rails.step_from Rails.clamp Rails.rail_of Rails.scan_down cards_in
steps_over = refl

moves : Rails.step on_fourth down rails ≢ on_fourth
moves h = let same : 2 ≡ 0 = ap (λ c. c.rail) (sym steps_over ∙ h) in omega (arith, same)

step_down-up_example : Rails.step (Rails.step on_fourth down rails) up rails ≡ on_fourth
step_down-up_example = step_down-up on_fourth rails IsOn-on_fourth refl moves

abbrev two_shots : Details.Layout
two_shots = record { shots = 2; discs = 1; picker_open = false }

steps_to_play : Details.step two_shots (screenshot 1) down ≡ some play
unfolding Details.step Details.step_in Details.step_at Details.row_of Details.column_of
    Details.contains_focus rows Details.page_rows Details.actions Details.screenshots
steps_to_play = refl

second_shot_shown : any_row (screenshot 1) (rows two_shots) ≡ true
unfolding any_row rows Details.contains_focus Details.screenshots
second_shot_shown = refl

step-move_example : Details.step two_shots (screenshot 1) down ≡ move two_shots (screenshot 1) down
step-move_example = step-move two_shots (screenshot 1) down second_shot_shown
