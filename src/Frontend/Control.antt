-- ===== src/Frontend/Control.antt =====
-- Whether the frontend may act on controller input
-- (services/hearthdeck-frontend/src/input_ownership.rs). `&mut self` becomes the returned state.
use hearthdeck.Prelude.{
  ◌≡◌, refl, inl, inr, Bool, true, false, ◌||◌, List, [], ◌∷◌, arith, Bool-cases,
}

pub data InputOwnership : Type 0 where
  checking frontend launching managed_session unfocused : InputOwnership

pub data Event : Type 0 where
  session_observed : Bool → Event
  session_check_failed launch_started launch_accepted launch_failed : Event
  frontend_focused frontend_unfocused : Event

unfoldable pub update : InputOwnership → Event → InputOwnership
update checking (session_observed true) = managed_session
update launching (session_observed true) = managed_session
update managed_session (session_observed true) = managed_session
update checking (session_observed false) = frontend
update managed_session (session_observed false) = frontend
update frontend launch_started = launching
update launching launch_accepted = managed_session
update launching launch_failed = frontend
update managed_session frontend_focused = frontend
update unfocused frontend_focused = frontend
update frontend frontend_unfocused = unfocused
update managed_session frontend_unfocused = unfocused
update unfocused frontend_unfocused = unfocused
update s _ = s

unfoldable pub frontend_has_control : InputOwnership → Bool
frontend_has_control frontend = true
frontend_has_control _ = false

unfoldable pub run : InputOwnership → List Event → InputOwnership
run s [] = s
run s (e ∷ es) = run (update s e) es

abbrev pub is_observation : Event → Bool
is_observation (session_observed _) = true
is_observation _ = false

-- Whether some event of a history passes a test.
abbrev pub some_event : (Event → Bool) → List Event → Bool
some_event test [] = false
some_event test (e ∷ es) = test e || some_event test es

checking_stays : (e : Event) → is_observation e ≡ false → update checking e ≡ checking
unfolding update
checking_stays (session_observed b) h = cc
checking_stays e h = refl

-- From the start, the frontend has no control until the session was looked up: a history in which
-- it ends with control holds an observation.
pub control_needs_observation :
    (es : List Event)
    → frontend_has_control (run checking es) ≡ true
    → some_event is_observation es ≡ true
unfolding run frontend_has_control
control_needs_observation [] h = cc
control_needs_observation (e ∷ es) h = elim (Bool-cases (is_observation e)) [
  | inl o ↦ rw o refl
  | inr o ↦ rw o (control_needs_observation es (rw (checking_stays e o) at h))
]

-- The events that end a launch.
abbrev pub ends_launch : Event → Bool
ends_launch launch_failed = true
ends_launch launch_accepted = true
ends_launch (session_observed true) = true
ends_launch _ = false

launching_stays : (e : Event) → ends_launch e ≡ false → update launching e ≡ launching
unfolding update
launching_stays (session_observed true) h = cc
launching_stays (session_observed false) h = refl
launching_stays launch_accepted h = cc
launching_stays launch_failed h = cc
launching_stays e h = refl

-- While a launch is under way, stale observations of no session, focus changes and failed checks do
-- not give control back: only its failure, its acceptance or an observed session end it.
pub launching_holds :
    (es : List Event) → some_event ends_launch es ≡ false → run launching es ≡ launching
unfolding run
launching_holds [] h = refl
launching_holds (e ∷ es) h =
    rw (launching_stays e (ground arith)) (launching_holds es (ground arith))
