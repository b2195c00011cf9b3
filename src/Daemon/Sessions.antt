-- ===== src/Daemon/Sessions.antt =====
-- The service that launches and stops applications through the bridge, and records their plays
-- (services/hearthdeck-daemon/src/sessions.rs). The bridge's answer to a request is an argument, and
-- so is what the database and the clock give during a call, `Io`.
mod Tests
pub mod Reconcile
pub mod Reach
pub mod Errors
use hearthdeck.Prelude.{
  ℕ, ◌≡◌, Bool, true, false, not, if◌then◌else◌, Option, none, some, List, [], ◌∷◌, ◌++◌, String,
  string_eq, ◌=?◌, map,
}
use hearthdeck.Daemon.Protocol.{
  BridgeRequest, stop_active_application_session, stop_application_session,
  active_application_session, BridgeResponse, launch_accepted, application_session, stop_accepted,
  error, BridgeErrorCode, ApplicationSession, ServerEvent, application_session_changed,
  ActivityEntry,
}
use hearthdeck.Daemon.Worker.{Worker, request}
use hearthdeck.Daemon.Activity.{
  Sqlite, ActivityStore, closed, session_started, session_ended, running_sessions,
  sweep_running_sessions,
}

pub data Result {ℓ} (E A : Type ℓ) : Type ℓ where
  ok : A → Result E A
  err : E → Result E A

pub data LaunchError : Type 0 where
  transport : String → LaunchError
  rejected : BridgeErrorCode → String → LaunchError
  unexpected : BridgeResponse → LaunchError

pub data ControlError : Type 0 where
  transport : String → ControlError
  rejected : BridgeErrorCode → String → ControlError
  unexpected_lookup unexpected_stop : ControlError

pub data StopTarget : Type 0 where
  active : StopTarget
  session : String → StopTarget

-- The journal, the refresh workers by their source, if there is a discovery, and the events that
-- were sent.
pub record SessionService : Type 0 where
  pub activity : ActivityStore
  pub discovery : Option (List (String × Worker))
  pub events : List ServerEvent

-- The bridge's answer, or the failure to reach it.
pub data Reply : Type 0 where
  unreachable : String → Reply
  replies : BridgeResponse → Reply

-- During a call: the times of its statements, and whether each is carried out; those that close a
-- play by the session's id.
pub record Io : Type 0 where
  pub launched_at : String
  pub started_at : String
  pub ended_at : String → String
  pub start_ok : Bool
  pub list_ok : Bool
  pub update_ok : String → Bool
  pub select_ok : String → Bool

abbrev pub active_of : Reply → Result ControlError (Option ApplicationSession)
active_of (unreachable e) = err (ControlError.transport e)
active_of (replies (application_session s)) = ok s
active_of (replies _) = err ControlError.unexpected_lookup

abbrev pub stop_request : StopTarget → BridgeRequest
stop_request active = stop_active_application_session
stop_request (session id) = stop_application_session id

abbrev pub stopped_id : StopTarget → String → String
stopped_id active id = id
stopped_id (session id) _ = id

abbrev pub send_event : ServerEvent → SessionService → SessionService
send_event e s = record s { events = s.events ++ e ∷ [] }

-- `discovery.request(&source)`, where both are there.
abbrev pub refresh :
    Option String → Option (List (String × Worker)) → Option (List (String × Worker))
refresh (some source) (some workers) = some (request workers source).0
refresh _ discovery = discovery

-- The end of a play that was closed, or whose close failed.
abbrev pub announce : Option String → SessionService → SessionService
announce source s =
    send_event (application_session_changed none)
      (record s { discovery = refresh source s.discovery })

abbrev pub after_close : Option (Option String) → SessionService → SessionService
after_close (some (some source)) s = announce (some source) s
after_close (some none) s = s
after_close none s = announce none s

abbrev pub finished_sessions : List String → Option String → List String
finished_sessions [] current = []
finished_sessions (id ∷ rest) none = id ∷ finished_sessions rest none
finished_sessions (id ∷ rest) (some a) =
    let others = finished_sessions rest (some a) in if id =? a then others else id ∷ others

abbrev pub id_of : Option ApplicationSession → Option String
id_of none = none
id_of (some s) = some s.id

module _ (q : Sqlite) (bridge : BridgeRequest → Reply) (io : Io) where
  unfoldable pub active_session : Result ControlError (Option ApplicationSession)
  active_session = active_of (bridge active_application_session)

  unfoldable pub finished : String → SessionService → SessionService
  finished id s =
      let (store, source) =
        session_ended q id closed (io.ended_at id) (io.update_ok id) (io.select_ok id) s.activity in
      after_close source (record s { activity = store })

  abbrev pub stop_replied :
      StopTarget → Reply → SessionService → SessionService × Result ControlError Unit
  stop_replied target (unreachable e) s = (s, err (ControlError.transport e))
  stop_replied target (replies (stop_accepted id)) s = (finished (stopped_id target id) s, ok tt)
  stop_replied target (replies (error code message)) s =
      (s, err (ControlError.rejected code message))
  stop_replied target (replies _) s = (s, err ControlError.unexpected_stop)

  unfoldable pub stop : StopTarget → SessionService → SessionService × Result ControlError Unit
  stop target s = stop_replied target (bridge (stop_request target)) s

  -- A failure to record the launch is logged.
  abbrev pub recorded : ActivityEntry q.Value → ApplicationSession → ActivityStore → ActivityStore
  recorded entry played store =
      elim (session_started q entry played io.launched_at io.started_at io.start_ok store) [
        | none ↦ store
        | some store' ↦ store'
      ]

  abbrev pub launch_replied :
      ActivityEntry q.Value
      → Reply
      → SessionService
      → SessionService × Result LaunchError ApplicationSession
  launch_replied entry (unreachable e) s = (s, err (LaunchError.transport e))
  launch_replied entry (replies (launch_accepted played)) s = (
    send_event (application_session_changed (some played))
        (record s { activity = recorded entry played s.activity }),
    ok played,
  )
  launch_replied entry (replies (error code message)) s =
      (s, err (LaunchError.rejected code message))
  launch_replied entry (replies response) s = (s, err (LaunchError.unexpected response))

  unfoldable pub launch :
      BridgeRequest
      → ActivityEntry q.Value
      → SessionService
      → SessionService × Result LaunchError ApplicationSession
  launch request entry s = launch_replied entry (bridge request) s

  abbrev pub finish_all : List String → SessionService → SessionService
  finish_all [] s = s
  finish_all (id ∷ rest) s = finish_all rest (finished id s)

  abbrev pub reconcile_with :
      List String
      → Result ControlError (Option ApplicationSession)
      → SessionService
      → SessionService
  reconcile_with running (err e) s = s
  reconcile_with running (ok current) s = finish_all (finished_sessions running (id_of current)) s

  abbrev pub reconcile_listed : Option (List String) → SessionService → SessionService
  reconcile_listed none s = s
  reconcile_listed (some []) s = s
  reconcile_listed (some (id ∷ rest)) s = reconcile_with (id ∷ rest) active_session s

  unfoldable pub reconcile : SessionService → SessionService
  reconcile s = reconcile_listed (running_sessions io.list_ok s.activity) s
