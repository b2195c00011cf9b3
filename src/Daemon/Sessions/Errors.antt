-- ===== src/Daemon/Sessions/Errors.antt =====
-- Requests that the bridge does not carry out, and a play that ends twice
-- (services/hearthdeck-daemon/src/sessions.rs).
use hearthdeck.Prelude.{◌≡◌, refl, Option, none, some, List, [], ◌∷◌, String}
use hearthdeck.Daemon.Protocol.{
  BridgeRequest, ApplicationSession, ActivityEntry, is_healthy, applications, launch_accepted,
  application_session, stop_accepted, retro_cores_installed, error,
}
use hearthdeck.Daemon.Activity.{Sqlite}
use hearthdeck.Daemon.Sessions.{
  SessionService, Reply, unreachable, replies, Io, Result, ok, err, ControlError, StopTarget, stop,
  stop_replied, launch, launch_replied, reconcile, reconcile_listed, reconcile_with, active_session,
}

-- If a result is an error, the service stays as it was.
abbrev pub StaysOnError {ℓ} : {E A : Type ℓ} → SessionService → SessionService → Result E A → Type 0
StaysOnError s s' (ok _) = Unit
StaysOnError s s' (err _) = s' ≡ s

module _ (q : Sqlite) (bridge : BridgeRequest → Reply) (io : Io) where
  launch_replied-StaysOnError :
      (entry : ActivityEntry q.Value) (reply : Reply) (s : SessionService)
      → StaysOnError s
          (launch_replied q bridge io entry reply s).0
          (launch_replied q bridge io entry reply s).1
  launch_replied-StaysOnError entry (unreachable _) s = refl
  launch_replied-StaysOnError entry (replies (is_healthy _)) s = refl
  launch_replied-StaysOnError entry (replies (applications _ _)) s = refl
  launch_replied-StaysOnError entry (replies (launch_accepted _)) s = tt
  launch_replied-StaysOnError entry (replies (application_session _)) s = refl
  launch_replied-StaysOnError entry (replies (stop_accepted _)) s = refl
  launch_replied-StaysOnError entry (replies (retro_cores_installed _)) s = refl
  launch_replied-StaysOnError entry (replies (error _ _)) s = refl

  stop_replied-StaysOnError :
      (target : StopTarget) (reply : Reply) (s : SessionService)
      → StaysOnError s
          (stop_replied q bridge io target reply s).0
          (stop_replied q bridge io target reply s).1
  stop_replied-StaysOnError target (unreachable _) s = refl
  stop_replied-StaysOnError target (replies (is_healthy _)) s = refl
  stop_replied-StaysOnError target (replies (applications _ _)) s = refl
  stop_replied-StaysOnError target (replies (launch_accepted _)) s = refl
  stop_replied-StaysOnError target (replies (application_session _)) s = refl
  stop_replied-StaysOnError target (replies (stop_accepted _)) s = tt
  stop_replied-StaysOnError target (replies (retro_cores_installed _)) s = refl
  stop_replied-StaysOnError target (replies (error _ _)) s = refl

  reconcile_with-StaysOnError :
      (ids : List String) (current : Result ControlError (Option ApplicationSession))
      (s : SessionService)
      → StaysOnError s (reconcile_with q bridge io ids current s) current
  reconcile_with-StaysOnError ids (ok _) s = tt
  reconcile_with-StaysOnError ids (err _) s = refl

  StaysOnError-refl :
      (r : Result ControlError (Option ApplicationSession)) (s : SessionService)
      → StaysOnError s s r
  StaysOnError-refl (ok _) s = tt
  StaysOnError-refl (err _) s = refl

  reconcile_listed-StaysOnError :
      (listed : Option (List String)) (s : SessionService)
      → StaysOnError s (reconcile_listed q bridge io listed s) (active_session q bridge io)
  reconcile_listed-StaysOnError none s = StaysOnError-refl _ s
  reconcile_listed-StaysOnError (some []) s = StaysOnError-refl _ s
  reconcile_listed-StaysOnError (some (id ∷ ids)) s = reconcile_with-StaysOnError (id ∷ ids) _ s

  -- A launch or a stop that answers with an error, for whatever reason, changes nothing: no row, no
  -- refresh, no event. Nor does the watcher's tick when the bridge does not say which session is
  -- active.
  pub errors-StaysOnError :
      (request : BridgeRequest) (entry : ActivityEntry q.Value) (target : StopTarget)
      (s : SessionService)
      → StaysOnError s (launch q bridge io request entry s).0 (launch q bridge io request entry s).1
        × StaysOnError s (stop q bridge io target s).0 (stop q bridge io target s).1
        × StaysOnError s (reconcile q bridge io s) (active_session q bridge io)
  unfolding launch stop reconcile
  errors-StaysOnError request entry target s = (
    launch_replied-StaysOnError entry (bridge request) s,
    stop_replied-StaysOnError target _ s,
    reconcile_listed-StaysOnError _ s,
  )
