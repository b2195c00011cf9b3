-- ===== src/Daemon/Sessions/Reach.antt =====
-- The journal over the whole life of a database
-- (services/hearthdeck-daemon/src/sessions.rs, and the daemon's start in main.rs).
use hearthdeck.Prelude.{
  ◌≡◌, refl, sym, subst, Bool, true, false, Option, none, some, some-injective, List, [], ◌∷◌,
  String, string_eq, >>=-eq-some, Option-cases, inl, inr,
}
use hearthdeck.Daemon.Protocol.{
  BridgeRequest, ApplicationSession, ActivityEntry, is_healthy, applications, launch_accepted,
  application_session, stop_accepted, retro_cores_installed, error,
}
use hearthdeck.Daemon.Worker.{Worker}
use hearthdeck.Daemon.Activity.{
  Sqlite, ActivityStore, closed, session_started, session_ended, sweep_running_sessions,
}
use hearthdeck.Daemon.Activity.Journal.{
  IsJournal, all_kept, kept-close, kept-sweep, start_rows-IsJournal,
}
use hearthdeck.Daemon.Sessions.{
  SessionService, Reply, unreachable, replies, Io, Result, ok, err, ControlError, StopTarget,
  finished, stop, stop_replied, launch, launch_replied, reconcile, reconcile_listed, reconcile_with,
  finish_all, finished_sessions, id_of, recorded, stopped_id,
}
use hearthdeck.Daemon.Sessions.Reconcile.{finished-activity}

-- The service over an empty database, launches, stops, ticks of the watcher, and restarts of the
-- daemon, which sweep the plays that are left: in any order, with any answers of the bridge and any
-- statements failing.
pub data Reach (q : Sqlite) : SessionService → Type 0 where
  start :
      (discovery : Option (List (String × Worker)))
      → Reach q (record {
        activity = record { launch_activity = []; play_sessions = [] };
        discovery = discovery;
        events = [];
      })
  launches :
      {s : SessionService} (bridge : BridgeRequest → Reply) (io : Io) (request : BridgeRequest)
      (entry : ActivityEntry q.Value)
      → Reach q s
      → Reach q (launch q bridge io request entry s).0
  stops :
      {s : SessionService} (bridge : BridgeRequest → Reply) (io : Io) (target : StopTarget)
      → Reach q s
      → Reach q (stop q bridge io target s).0
  watches :
      {s : SessionService} (bridge : BridgeRequest → Reply) (io : Io)
      → Reach q s
      → Reach q (reconcile q bridge io s)
  restarts :
      {s : SessionService} (sweep_ok : Bool) (discovery : Option (List (String × Worker)))
      → Reach q s
      → Reach q (record {
        activity = (sweep_running_sessions sweep_ok s.activity).0;
        discovery = discovery;
        events = [];
      })

session_started-IsJournal :
    (q : Sqlite) (entry : ActivityEntry q.Value) (session : ApplicationSession)
    (launched_at started_at : String) (started_ok : Bool) (store store' : ActivityStore)
    → IsJournal store
    → session_started q entry session launched_at started_at started_ok store ≡ some store'
    → IsJournal store'
unfolding session_started
session_started-IsJournal q entry session launched_at started_at false store store' h e =
    let (_, _, refused) = >>=-eq-some (q.to_string entry) _ e in cc
session_started-IsJournal q entry session launched_at started_at true store store' h e =
    let (snapshot, _, done) = >>=-eq-some (q.to_string entry) _ e in
    subst IsJournal (some-injective _ _ done)
      (start_rows-IsJournal q entry session launched_at started_at snapshot store h)

session_ended-IsJournal :
    (q : Sqlite) (id now : String) (update_ok select_ok : Bool) (store : ActivityStore)
    → IsJournal store
    → IsJournal (session_ended q id closed now update_ok select_ok store).0
unfolding session_ended
session_ended-IsJournal q id now false select_ok store h = h
session_ended-IsJournal q id now true select_ok store h =
    kept-close q id now store.launch_activity store.play_sessions h

sweep-IsJournal :
    (sweep_ok : Bool) (store : ActivityStore)
    → IsJournal store
    → IsJournal (sweep_running_sessions sweep_ok store).0
unfolding sweep_running_sessions
sweep-IsJournal false store h = h
sweep-IsJournal true store h = kept-sweep store.launch_activity store.play_sessions h

module _ (q : Sqlite) (bridge : BridgeRequest → Reply) (io : Io) where
  finished-IsJournal :
      (id : String) (s : SessionService)
      → IsJournal s.activity
      → IsJournal (finished q bridge io id s).activity
  finished-IsJournal id s h = subst IsJournal (sym (finished-activity q bridge io id s)) (
      session_ended-IsJournal q id (io.ended_at id) (io.update_ok id) (io.select_ok id) s.activity
        h)

  finish_all-IsJournal :
      (ids : List String) (s : SessionService)
      → IsJournal s.activity
      → IsJournal (finish_all q bridge io ids s).activity
  finish_all-IsJournal [] s h = h
  finish_all-IsJournal (id ∷ ids) s h =
      finish_all-IsJournal ids (finished q bridge io id s) (finished-IsJournal id s h)

  reconcile_with-IsJournal :
      (ids : List String) (current : Result ControlError (Option ApplicationSession))
      (s : SessionService)
      → IsJournal s.activity
      → IsJournal (reconcile_with q bridge io ids current s).activity
  reconcile_with-IsJournal ids (err _) s h = h
  reconcile_with-IsJournal ids (ok current) s h =
      finish_all-IsJournal (finished_sessions ids (id_of current)) s h

  reconcile_listed-IsJournal :
      (listed : Option (List String)) (s : SessionService)
      → IsJournal s.activity
      → IsJournal (reconcile_listed q bridge io listed s).activity
  reconcile_listed-IsJournal none s h = h
  reconcile_listed-IsJournal (some []) s h = h
  reconcile_listed-IsJournal (some (id ∷ ids)) s h = reconcile_with-IsJournal (id ∷ ids) _ s h

  recorded-IsJournal :
      (entry : ActivityEntry q.Value) (played : ApplicationSession) (store : ActivityStore)
      → IsJournal store
      → IsJournal (recorded q bridge io entry played store)
  recorded-IsJournal entry played store h =
      elim (Option-cases
        (session_started q entry played io.launched_at io.started_at io.start_ok store)) [
          | inl e ↦ rw (recorded, e) h
          | inr (store', e) ↦
              rw (recorded, e)
                (session_started-IsJournal q entry played io.launched_at io.started_at io.start_ok
                  store store' h e)
        ]

  launch_replied-IsJournal :
      (entry : ActivityEntry q.Value) (reply : Reply) (s : SessionService)
      → IsJournal s.activity
      → IsJournal (launch_replied q bridge io entry reply s).0.activity
  launch_replied-IsJournal entry (replies (launch_accepted played)) s h =
      recorded-IsJournal entry played s.activity h
  launch_replied-IsJournal entry (unreachable _) s h = h
  launch_replied-IsJournal entry (replies (is_healthy _)) s h = h
  launch_replied-IsJournal entry (replies (applications _ _)) s h = h
  launch_replied-IsJournal entry (replies (application_session _)) s h = h
  launch_replied-IsJournal entry (replies (stop_accepted _)) s h = h
  launch_replied-IsJournal entry (replies (retro_cores_installed _)) s h = h
  launch_replied-IsJournal entry (replies (error _ _)) s h = h

  stop_replied-IsJournal :
      (target : StopTarget) (reply : Reply) (s : SessionService)
      → IsJournal s.activity
      → IsJournal (stop_replied q bridge io target reply s).0.activity
  stop_replied-IsJournal target (replies (stop_accepted id)) s h =
      finished-IsJournal (stopped_id target id) s h
  stop_replied-IsJournal target (unreachable _) s h = h
  stop_replied-IsJournal target (replies (is_healthy _)) s h = h
  stop_replied-IsJournal target (replies (applications _ _)) s h = h
  stop_replied-IsJournal target (replies (launch_accepted _)) s h = h
  stop_replied-IsJournal target (replies (application_session _)) s h = h
  stop_replied-IsJournal target (replies (retro_cores_installed _)) s h = h
  stop_replied-IsJournal target (replies (error _ _)) s h = h

-- Over the whole life of a database, every row of the journal is honest about its end: a closed play
-- has an end and a duration, and a running play or one whose end the daemon never saw has neither;
-- and each play's item has its row of launches, from which its source is looked up.
pub Reach-IsJournal : {q : Sqlite} {s : SessionService} → Reach q s → IsJournal s.activity
unfolding all_kept launch stop reconcile
Reach-IsJournal (start _) = refl
Reach-IsJournal {q} (launches {s = s} bridge io request entry r) =
    launch_replied-IsJournal q bridge io entry (bridge request) s (Reach-IsJournal r)
Reach-IsJournal {q} (stops {s = s} bridge io target r) =
    stop_replied-IsJournal q bridge io target _ s (Reach-IsJournal r)
Reach-IsJournal {q} (watches {s = s} bridge io r) =
    reconcile_listed-IsJournal q bridge io _ s (Reach-IsJournal r)
Reach-IsJournal (restarts {s = s} sweep_ok discovery r) =
    sweep-IsJournal sweep_ok s.activity (Reach-IsJournal r)
