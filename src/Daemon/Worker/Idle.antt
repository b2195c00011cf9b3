-- ===== src/Daemon/Worker/Idle.antt =====
-- The worker comes back from every run (services/hearthdeck-daemon/src/provider_worker.rs).
use hearthdeck.Prelude.{ℕ, ◌-◌, ◌*◌, ◌≡◌, ◌≤◌, String, arith, List, [], ◌∷◌, length}
use hearthdeck.Daemon.Worker.{
  queued, Outcome, waiting, received, marked, in_run, recorded, Worker, send, enqueue, work,
}
use hearthdeck.Daemon.Worker.Reach.{IsWellFormed, Reach, Reach-IsWellFormed, work-IsWellFormed}

-- Steps of the worker, each with the clock's text and the way its run ends.
abbrev pub steps : Worker → List (String × Outcome) → Worker
steps w [] = w
steps w ((now, outcome) ∷ rest) = steps (work w now outcome) rest

-- How many steps lead back to `recv` with nothing to receive.
abbrev pub steps_left : Worker → ℕ
steps_left w = elim w.point [
  | waiting ↦ 5 * w.messages
  | received ↦ 4
  | marked ↦ 3
  | in_run ↦ 2
  | recorded ↦ 1
]

work-steps_left :
    (w : Worker) (now : String) (outcome : Outcome)
    → IsWellFormed w
    → steps_left (work w now outcome) ≡ steps_left w - 1
unfolding work
work-steps_left w now outcome h = ground arith

idle-enqueue : (w : Worker) → IsWellFormed w → steps_left w ≡ 0 → (enqueue w).1 ≡ queued
unfolding enqueue send
idle-enqueue w h e = ground arith

steps_left-Bounded : (w : Worker) → IsWellFormed w → steps_left w ≤ 5
steps_left-Bounded w h = ground arith

steps-enqueue :
    (w : Worker) (events : List (String × Outcome))
    → IsWellFormed w
    → steps_left w ≤ length events
    → (enqueue (steps w events)).1 ≡ queued
steps-enqueue w [] h le = idle-enqueue w h (omega arith)
steps-enqueue w ((now, outcome) ∷ rest) h le =
    let left = work-steps_left w now outcome h in
    steps-enqueue (work w now outcome) rest (work-IsWellFormed w now outcome h) (omega arith)

-- The worker comes back from every run: from each state that requests and the worker's steps lead
-- to, five further steps of the worker, whether its run succeeds, fails or panics, lead to a state in
-- which the next request is queued.
pub Reach-enqueue :
    {asked runs : ℕ} {w : Worker}
    → Reach asked runs w
    → (events : List (String × Outcome)) → 5 ≤ length events
    → (enqueue (steps w events)).1 ≡ queued
Reach-enqueue {w = w} r events le =
    let h = Reach-IsWellFormed r in
    let bound = steps_left-Bounded w h in steps-enqueue w events h (omega arith)
