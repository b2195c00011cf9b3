-- ===== src/Overlay.antt =====
-- The quick menu's state machine (services/hearthdeck-overlay/src/state.rs). `&mut self` becomes
-- the returned state; `self.update(Event::Resume)` and its like are calls of the arm's handler.
pub mod Menu
pub mod Traces
mod Tests
use hearthdeck.Prelude.{
  ℕ, zero, suc, ◌+◌, ◌-◌, ◌%◌, Bool, true, false, not, ◌&&◌, ◌||◌, if◌then◌else◌, List, [], ◌∷◌,
}

abbrev pub menu_item_count : ℕ
menu_item_count = 3

abbrev pub retry_item_count : ℕ
retry_item_count = 2

pub data Status : Type 0 where
  menu closing close_failed logging_out log_out_failed : Status

abbrev pub busy : Status → Bool
busy closing = true
busy logging_out = true
busy _ = false

abbrev pub item_count : Status → ℕ
item_count menu = menu_item_count
item_count close_failed = retry_item_count
item_count log_out_failed = retry_item_count
item_count closing = retry_item_count
item_count logging_out = retry_item_count

pub data Event : Type 0 where
  toggle navigate_up navigate_down activate resume close close_succeeded close_fails : Event
  hide_after_close log_out log_out_succeeded log_out_fails : Event

pub data Effect : Type 0 where
  nothing show hide stop_application delay_hide end_session : Effect

pub record OverlayState : Type 0 where
  pub visible : Bool
  pub status : Status
  pub selected : ℕ

abbrev pub default : OverlayState
default = record { visible = false; status = menu; selected = 0 }

-- The arms that other arms call again.
on_resume : OverlayState → OverlayState × Effect
on_resume s = (record s { visible = false; status = menu }, hide)

on_close : OverlayState → OverlayState × Effect
on_close s =
    if busy s.status then (s, nothing) else (record s { status = closing }, stop_application)

on_log_out : OverlayState → OverlayState × Effect
on_log_out s =
    if busy s.status then (s, nothing) else (record s { status = logging_out }, end_session)

on_toggle : OverlayState → OverlayState × Effect
on_toggle s =
    if busy s.status
    then (s, nothing)
    else if s.visible
    then (record s { visible = false }, hide)
    else (record { visible = true; status = menu; selected = 0 }, show)

-- `backwards` is the code's `event == Event::NavigateUp`.
on_navigate : Bool → OverlayState → OverlayState × Effect
on_navigate backwards s =
    if s.visible && not (busy s.status)
    then (
      record s {
        selected =
            if backwards
            then (s.selected + item_count s.status - 1) % item_count s.status
            else (s.selected + 1) % item_count s.status;
      },
      nothing,
    )
    else (s, nothing)

-- The inner `match (self.status, self.selected)`.
choose : Status → ℕ → OverlayState → OverlayState × Effect
unfolding on_resume on_close on_log_out
choose menu zero s = on_resume s
choose close_failed (suc zero) s = on_resume s
choose log_out_failed (suc zero) s = on_resume s
choose menu (suc zero) s = on_close s
choose close_failed zero s = on_close s
choose menu (suc (suc zero)) s = on_log_out s
choose log_out_failed zero s = on_log_out s
choose _ _ s = (s, nothing)

unfoldable pub update : OverlayState → Event → OverlayState × Effect
unfolding on_toggle on_navigate choose
update s toggle = on_toggle s
update s navigate_up = on_navigate true s
update s navigate_down = on_navigate false s
update s activate =
    if not s.visible || busy s.status then (s, nothing) else choose s.status s.selected s
update s resume = on_resume s
update s close = on_close s
update s close_succeeded = (s, delay_hide)
update s close_fails = (record s { status = close_failed; selected = 0 }, nothing)
update s hide_after_close = (record s { visible = false; status = menu }, hide)
update s log_out = on_log_out s
update s log_out_succeeded = on_resume s
update s log_out_fails = (record s { status = log_out_failed; selected = 0 }, nothing)

-- A history of events and the effects it asks for.
unfoldable pub run : OverlayState → List Event → OverlayState × List Effect
run s [] = (s, [])
run s (e ∷ es) =
    let (s', effect) = update s e in let (final, effects) = run s' es in (final, effect ∷ effects)
