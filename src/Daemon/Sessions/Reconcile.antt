-- ===== src/Daemon/Sessions/Reconcile.antt =====
-- What the watcher leaves running (services/hearthdeck-daemon/src/sessions.rs).
use hearthdeck.Prelude.{
  ◌≡◌, refl, ap, ◌∙◌, Bool, true, false, not, ◌&&◌, if◌then◌else◌, Option, none, some, List, [],
  ◌∷◌, String, string_eq, ◌=?◌, contains, arith, is_some_and,
}
use hearthdeck.Daemon.Protocol.{
  BridgeRequest, active_application_session, application_session, ApplicationSession,
}
use hearthdeck.Daemon.Activity.{Sqlite, closed, session_ended, running_sessions}
use hearthdeck.Daemon.Activity.Running.{
  is_playing, close-is_playing, running_sessions-lem, running_sessions-some,
}
use hearthdeck.Daemon.Sessions.{
  SessionService, Reply, replies, Io, ok, finished, finished_sessions, finish_all, reconcile,
  reconcile_listed, active_session, id_of, after_close,
}

contains-finished_sessions :
    (k : String) (ids : List String) (current : Option String)
    → contains k (finished_sessions ids current)
      ≡ (contains k ids && not (is_some_and current (λ a. a =? k)))
unfolding contains
contains-finished_sessions k [] current = refl
contains-finished_sessions k (id ∷ ids) none = ground (arith, contains-finished_sessions k ids none)
contains-finished_sessions k (id ∷ ids) (some a) = ground (
  arith,
  contains-finished_sessions k ids (some a),
  string_eq.beq_iff id a,
  string_eq.beq_iff id k,
  string_eq.beq_iff a k,
)

after_close-activity :
    (source : Option (Option String)) (s : SessionService)
    → (after_close source s).activity ≡ s.activity
after_close-activity none s = refl
after_close-activity (some none) s = refl
after_close-activity (some (some source)) s = refl

-- Whether a session's play is running in the service's journal.
abbrev pub plays : String → SessionService → Bool
plays k s = is_playing k s.activity.play_sessions

module _ (q : Sqlite) (bridge : BridgeRequest → Reply) (io : Io) where
  pub finished-activity :
      (id : String) (s : SessionService)
      → (finished q bridge io id s).activity
        ≡ (session_ended q id closed
            (io.ended_at id)
            (io.update_ok id)
            (io.select_ok id)
            s.activity).0
  unfolding finished
  finished-activity id s = after_close-activity _ _

  pub finished-plays :
      (k id : String) (s : SessionService)
      → io.update_ok id ≡ true
      → plays k (finished q bridge io id s) ≡ (if id =? k then false else plays k s)
  unfolding session_ended
  finished-plays k id s h =
      rw (finished-activity id s, h)
        (close-is_playing q id k (io.ended_at id) s.activity.play_sessions)

  finish_all-plays :
      (k : String) (ids : List String) (s : SessionService)
      → ((id : String) → io.update_ok id ≡ true)
      → plays k (finish_all q bridge io ids s) ≡ (if contains k ids then false else plays k s)
  unfolding contains
  finish_all-plays k [] s h = refl
  finish_all-plays k (id ∷ ids) s h =
      ground
        (arith, finish_all-plays k ids (finished q bridge io id s) h, finished-plays k id s (h id))

  reconcile_listed-plays :
      (k : String) (s : SessionService) (current : Option ApplicationSession) (ids : List String)
      → ((id : String) → io.update_ok id ≡ true)
      → active_session q bridge io ≡ ok current
      → contains k ids ≡ plays k s
      → plays k (reconcile_listed q bridge io (some ids) s)
        ≡ (plays k s && is_some_and (id_of current) (λ a. a =? k))
  unfolding contains
  reconcile_listed-plays k s current [] closes reply listed = ground arith
  reconcile_listed-plays k s current (id ∷ ids) closes reply listed = rw reply (
      finish_all-plays k (finished_sessions (id ∷ ids) (id_of current)) s closes
      ∙ ground (arith, contains-finished_sessions k (id ∷ ids) (id_of current)))

  -- The watcher leaves running the play that the bridge calls active, if it was running, and no
  -- other: the database carries the statements out and the bridge answers with the active session.
  pub reconcile-plays :
      (k : String) (s : SessionService) (current : Option ApplicationSession)
      → io.list_ok ≡ true
      → ((id : String) → io.update_ok id ≡ true)
      → bridge active_application_session ≡ replies (application_session current)
      → plays k (reconcile q bridge io s) ≡ (plays k s && is_some_and (id_of current) (λ a. a =? k))
  unfolding reconcile active_session
  reconcile-plays k s current listed closes reply =
      let (ids, e) = running_sessions-some s.activity in
      rw (ap (λ (b : Bool). running_sessions b s.activity) listed, e)
        (reconcile_listed-plays k s current ids closes (rw reply refl)
          (running_sessions-lem k s.activity ids e))
