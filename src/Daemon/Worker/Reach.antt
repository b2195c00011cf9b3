-- ===== src/Daemon/Worker/Reach.antt =====
-- Every interleaving of requests with the worker
-- (services/hearthdeck-daemon/src/provider_worker.rs).
use hearthdeck.Prelude.{ℕ, ◌+◌, ◌≡◌, refl, ◌⊎◌, inl, Bool, true, false, String, arith, ap}
use hearthdeck.Daemon.Worker.{
  RefreshRequest, ProviderStatus, ProviderHealth, ProviderKind, refreshing, queued, Outcome, Point,
  waiting, received, marked, in_run, Worker, spawned, send, enqueue, waits_for_room, work,
}

-- What the state and the channel are at each point of the worker.
abbrev pub IsAt : Point → Worker → Type 0
IsAt waiting w =
    (w.state.running ≡ false)
    × (((w.state.queued ≡ false) × (w.messages ≡ 0)) ⊎ ((w.state.queued ≡ true) × (w.messages ≡ 1)))
IsAt received w = (w.state.running ≡ false) × (w.state.queued ≡ true) × (w.messages ≡ 0)
IsAt _ w = (w.state.running ≡ true) × (w.state.queued ≡ false) × (w.messages ≡ 0)

abbrev pub IsWellFormed : Worker → Type 0
IsWellFormed w = (w.alive ≡ true) × IsAt w.point w

abbrev pub counted : RefreshRequest → ℕ
counted queued = 1
counted _ = 0

-- Whether a step of the worker starts a run of the provider.
abbrev pub starts : Worker → ℕ
starts w = elim w.point [ marked ↦ 1 | _ ↦ 0 ]

-- A worker that requests and its own steps lead to, in any order, with the number of requests that
-- were answered by `queued` and of runs that were started.
pub data Reach : ℕ → ℕ → Worker → Type 0 where
  start : {id : String} {kind : ProviderKind} → Reach 0 0 (spawned id kind)
  requests :
      {asked runs : ℕ} {w : Worker}
      → Reach asked runs w
      → waits_for_room w ≡ false
      → Reach (asked + counted (enqueue w).1) runs (enqueue w).0
  works :
      {asked runs : ℕ} {w : Worker} (now : String) (outcome : Outcome)
      → Reach asked runs w
      → Reach asked (runs + starts w) (work w now outcome)

-- The runs that were asked for and are not started.
abbrev pub pending : Worker → ℕ
pending w = elim w.point [ waiting ↦ w.messages | received ↦ 1 | marked ↦ 1 | _ ↦ 0 ]

enqueue-IsWellFormed : (w : Worker) → IsWellFormed w → IsWellFormed (enqueue w).0
unfolding enqueue send
enqueue-IsWellFormed w h = ground arith

pub work-IsWellFormed :
    (w : Worker) (now : String) (outcome : Outcome)
    → IsWellFormed w
    → IsWellFormed (work w now outcome)
unfolding work
work-IsWellFormed w now outcome h = ground arith

enqueue-pending :
    (w : Worker) → IsWellFormed w → pending (enqueue w).0 ≡ pending w + counted (enqueue w).1
unfolding enqueue send
enqueue-pending w h = ground arith

work-pending :
    (w : Worker) (now : String) (outcome : Outcome)
    → IsWellFormed w
    → pending w ≡ starts w + pending (work w now outcome)
unfolding work
work-pending w now outcome h = ground arith

pub Reach-IsWellFormed : {asked runs : ℕ} {w : Worker} → Reach asked runs w → IsWellFormed w
Reach-IsWellFormed start = (refl, (refl, inl (refl, refl)))
Reach-IsWellFormed (requests r _) = enqueue-IsWellFormed _ (Reach-IsWellFormed r)
Reach-IsWellFormed (works now outcome r) = work-IsWellFormed _ now outcome (Reach-IsWellFormed r)

-- Every request that is answered by `queued` starts one run: whatever the order of the requests and
-- of the worker's steps, and however its runs end, the runs that were asked for are those that were
-- started and the ones that wait.
pub Reach-runs : {asked runs : ℕ} {w : Worker} → Reach asked runs w → asked ≡ runs + pending w
Reach-runs start = refl
Reach-runs (requests {w = w} r _) =
    let before = Reach-runs r in let step = enqueue-pending w (Reach-IsWellFormed r) in omega arith
Reach-runs (works {w = w} now outcome r) =
    let before = Reach-runs r in
    let step = work-pending w now outcome (Reach-IsWellFormed r) in omega arith

waiting_room : (w : Worker) → IsWellFormed w → waits_for_room w ≡ false
unfolding waits_for_room
waiting_room w h = ground arith

-- The send that happens with the state locked never waits: in every state that requests and the
-- worker's steps lead to, a request that would send finds room in the channel.
pub Reach-waits_for_room :
    {asked runs : ℕ} {w : Worker} → Reach asked runs w → waits_for_room w ≡ false
Reach-waits_for_room r = waiting_room _ (Reach-IsWellFormed r)

-- Whether the run of the provider is under way, at a point of the worker.
abbrev pub is_in_run : Point → Bool
is_in_run in_run = true
is_in_run _ = false

abbrev pub is_refreshing : ProviderStatus → Bool
is_refreshing refreshing = true
is_refreshing _ = false

enqueue-health : (w : Worker) → ((enqueue w).0.health ≡ w.health) × ((enqueue w).0.point ≡ w.point)
unfolding enqueue send
enqueue-health w = ground arith

work-status :
    (w : Worker) (now : String) (outcome : Outcome)
    → is_refreshing w.health.status ≡ is_in_run w.point
    → is_refreshing (work w now outcome).health.status ≡ is_in_run (work w now outcome).point
unfolding work
work-status w now outcome h = ground arith

-- The health record says `refreshing` exactly while a run of the provider is under way, in every
-- state that requests and the worker's steps lead to, and however its runs end.
pub Reach-status :
    {asked runs : ℕ} {w : Worker}
    → Reach asked runs w
    → is_refreshing w.health.status ≡ is_in_run w.point
Reach-status start = refl
Reach-status (requests {w = w} r _) =
    rw
      (
        ap (λ (h : ProviderHealth). is_refreshing h.status) (enqueue-health w).0,
        ap is_in_run (enqueue-health w).1,
      )
      (Reach-status r)
Reach-status (works {w = w} now outcome r) = work-status w now outcome (Reach-status r)
