-- ===== src/Daemon/Worker/Tests.antt =====
-- Runs of the refresh worker at concrete inputs
-- (services/hearthdeck-daemon/src/provider_worker.rs).
use hearthdeck.Prelude.{
  ℕ, ◌+◌, ◌≡◌, ◌≤◌, refl, true, false, List, [], ◌∷◌, String, arith, none, some, lookup, string_eq,
}
use hearthdeck.Daemon.Worker.{
  queued, already_scheduled, unknown_provider, Outcome, panics, Worker, spawned, send, enqueue,
  work, waits_for_room, request, discovery,
}
use hearthdeck.Daemon.Worker.Reach.{Reach, start, requests, works, pending, Reach-runs}
use hearthdeck.Daemon.Worker.Idle.{steps, Reach-enqueue}
use hearthdeck.Daemon.Worker.Request.{answered-Unchanged}

abbrev panicked_run : List (String × Outcome)
panicked_run =
    ("09:00", panics "index")
    ∷ ("09:01", panics "index")
    ∷ ("09:02", panics "index")
    ∷ ("09:03", panics "index")
    ∷ ("09:04", panics "index")
    ∷ []

-- A request, and the worker up to the provider's run.
abbrev in_panic : Worker
in_panic =
    work
      (work (work (enqueue (spawned "romm" discovery)).0 "09:00" (panics "index")) "09:01"
        (panics "index"))
      "09:02" (panics "index")

in_panic-Reach : Reach 1 1 in_panic
unfolding enqueue send work waits_for_room
in_panic-Reach =
    works "09:02" (panics "index")
      (works "09:01" (panics "index") (works "09:00" (panics "index") (requests start refl)))

answers_in_panic : (enqueue in_panic).1 ≡ already_scheduled
unfolding enqueue send work
answers_in_panic = refl

after_panic : (steps in_panic panicked_run).health.last_error ≡ some "index"
unfolding enqueue send work
after_panic = refl

unknown_request :
    request (("romm", (spawned "romm" discovery)) ∷ []) "steam"
    ≡ (("romm", (spawned "romm" discovery)) ∷ [], unknown_provider)
unfolding request hearthdeck.Prelude.lookup
unknown_request = refl

Reach-runs_example : 1 ≡ 1 + pending in_panic
Reach-runs_example = Reach-runs in_panic-Reach

Reach-enqueue_example : (enqueue (steps in_panic panicked_run)).1 ≡ queued
Reach-enqueue_example = Reach-enqueue in_panic-Reach panicked_run (omega arith)

-- A worker whose task is gone, so that nothing receives from its channel.
abbrev gone : List (String × Worker)
gone = ("romm", record in_panic { state = (spawned "romm" discovery).state; alive = false }) ∷ []

gone-unknown : (request gone "romm").1 ≡ unknown_provider
unfolding request enqueue send work hearthdeck.Prelude.lookup
gone-unknown = refl

answered-Unchanged_example : lookup "romm" (request gone "romm").0 ≡ lookup "romm" gone
answered-Unchanged_example = answered-Unchanged gone "romm" "romm" gone-unknown
