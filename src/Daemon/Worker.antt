-- ===== src/Daemon/Worker.antt =====
-- The refresh worker of a provider, and the requests that reach it
-- (services/hearthdeck-daemon/src/provider_worker.rs, with the health records of
-- services/hearthdeck-daemon/src/state.rs). The worker is a task of its own: its program points are
-- the places where another task may run, and a step goes from one to the next. The channel holds
-- one message. `now` is the clock's text at the step.
pub mod Reach
pub mod Idle
pub mod Request
mod Tests
use hearthdeck.Prelude.{
  ℕ, zero, suc, ◌+◌, ◌-◌, Bool, true, false, not, ◌&&◌, ◌||◌, if◌then◌else◌, ltb, ◌==◌, Option,
  none, some, List, [], ◌∷◌, String, string_eq, lookup, insert,
}

pub data RefreshRequest : Type 0 where
  queued already_scheduled unknown_provider : RefreshRequest

pub record RefreshState : Type 0 where
  pub running : Bool
  pub queued : Bool

pub data ProviderStatus : Type 0 where
  starting refreshing ready degraded : ProviderStatus

pub data ProviderKind : Type 0 where
  discovery metadata : ProviderKind

pub record ProviderHealth : Type 0 where
  pub id : String
  pub kind : ProviderKind
  pub status : ProviderStatus
  pub record_count : Option ℕ
  pub last_attempt_at : Option String
  pub last_success_at : Option String
  pub last_error : Option String

abbrev pub starting_provider_health : String → ProviderKind → ProviderHealth
starting_provider_health id kind = record {
  id = id;
  kind = kind;
  status = starting;
  record_count = none;
  last_attempt_at = none;
  last_success_at = none;
  last_error = none;
}

abbrev pub record_provider_started : ProviderHealth → String → ProviderHealth
record_provider_started h now = record h {
  status = refreshing;
  last_attempt_at = some now;
  last_error = none;
}

abbrev pub record_provider_success : ProviderHealth → String → ℕ → ProviderHealth
record_provider_success h now count = record h {
  status = ready;
  record_count = some count;
  last_attempt_at = some now;
  last_success_at = some now;
  last_error = none;
}

abbrev pub record_provider_failure : ProviderHealth → String → String → ProviderHealth
record_provider_failure h now error = record h {
  status = degraded;
  last_attempt_at = some now;
  last_error = some error;
}

-- How a run of the provider ends; a panic is caught, with its message.
pub data Outcome : Type 0 where
  succeeds : ℕ → Outcome
  fails : String → Outcome
  panics : String → Outcome

-- Where the worker stands: at `recv`, with a message that it received, marked as running, in the
-- provider's run, and after it.
pub data Point : Type 0 where
  waiting received marked in_run recorded : Point

-- A worker, with its channel: the messages in it, and whether the receiver is there.
pub record Worker : Type 0 where
  pub state : RefreshState
  pub messages : ℕ
  pub alive : Bool
  pub point : Point
  pub health : ProviderHealth

abbrev pub spawned : String → ProviderKind → Worker
spawned id kind = record {
  state = record { running = false; queued = false };
  messages = 0;
  alive = true;
  point = waiting;
  health = starting_provider_health id kind;
}

-- `sender.send(())` on a channel that has room, then the answer.
unfoldable pub send : Worker → Worker × RefreshRequest
send w =
    if w.alive
    then (record w { state = record w.state { queued = true }; messages = w.messages + 1 }, queued)
    else (record w { state = record w.state { queued = false } }, unknown_provider)

unfoldable pub enqueue : Worker → Worker × RefreshRequest
enqueue w = if w.state.running || w.state.queued then (w, already_scheduled) else send w

-- Whether `enqueue` would wait for room in the channel, with the lock held.
unfoldable pub waits_for_room : Worker → Bool
waits_for_room w = not (w.state.running || w.state.queued) && w.alive && ltb 0 w.messages

abbrev pub record_outcome : ProviderHealth → String → Outcome → ProviderHealth
record_outcome h now (succeeds count) = record_provider_success h now count
record_outcome h now (fails error) = record_provider_failure h now error
record_outcome h now (panics message) = record_provider_failure h now message

abbrev receive : Worker → Worker
receive w = if ltb 0 w.messages then record w { messages = w.messages - 1; point = received } else w

-- One step of the worker's loop; `outcome` is how its run ends, if it is in one.
unfoldable pub work : Worker → String → Outcome → Worker
work w now outcome = elim w.point [
  | waiting ↦ receive w
  | received ↦ record w { state = record { running = true; queued = false }; point = marked }
  | marked ↦ record w { health = record_provider_started w.health now; point = in_run }
  | in_run ↦ record w { health = record_outcome w.health now outcome; point = recorded }
  | recorded ↦ record w { state = record w.state { running = false }; point = waiting }
]

-- `WorkerSet::request`: the workers by their provider's id.
abbrev pub request_found :
    List (String × Worker) → String → Option Worker → List (String × Worker) × RefreshRequest
request_found workers id none = (workers, unknown_provider)
request_found workers id (some w) = let (w', answer) = enqueue w in (insert id w' workers, answer)

unfoldable pub request : List (String × Worker) → String → List (String × Worker) × RefreshRequest
request workers id = request_found workers id (lookup id workers)

-- `WorkerSet::request_all`, for the keys in the order of the list.
abbrev pub request_all : List (String × Worker) → List String → List (String × Worker)
request_all workers [] = workers
request_all workers (id ∷ ids) = request_all (request workers id).0 ids
