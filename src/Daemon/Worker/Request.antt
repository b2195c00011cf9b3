-- ===== src/Daemon/Worker/Request.antt =====
-- Requests that are not served (services/hearthdeck-daemon/src/provider_worker.rs).
use hearthdeck.Prelude.{
  ◌≡◌, refl, sym, ap, inl, inr, Bool, false, Bool-cases, Option-cases, some, List, String,
  string_eq, lookup, insert, lookup-insert, ◌=?◌, arith,
}
use hearthdeck.Daemon.Worker.{unknown_provider, Worker, send, enqueue, request}

not_queued :
    (w : Worker)
    → w.state.queued ≡ false
    → record w { state = record w.state { queued = false } } ≡ w
not_queued w e = ap (λ (b : Bool). record w { state = record w.state { queued = b } }) (sym e)

enqueue-unknown : (w : Worker) → (enqueue w).1 ≡ unknown_provider → (enqueue w).0 ≡ w
unfolding enqueue send
enqueue-unknown w e = elim (Bool-cases w.state.queued) [
  | inl q ↦ ground arith
  | inr q ↦ ground (arith, not_queued w q)
]

-- To insert what is there changes no entry.
insert-lookup :
    {V : Type 0} (id key : String) (v : V) (m : List (String × V))
    → lookup id m ≡ some v
    → lookup key (insert id v m) ≡ lookup key m
insert-lookup id key v m e = elim (Bool-cases (id =? key)) [
  | inl q ↦ rw (lookup-insert id key v m, q, sym ((string_eq.beq_iff id key).0 q)) (sym e)
  | inr q ↦ rw (lookup-insert id key v m, q) refl
]

-- A request that is answered by `unknown_provider`, since no worker has the id or the worker's task
-- is gone, leaves every worker as it was: none stays marked as queued.
pub answered-Unchanged :
    (workers : List (String × Worker)) (id key : String)
    → (request workers id).1 ≡ unknown_provider
    → lookup key (request workers id).0 ≡ lookup key workers
unfolding request
answered-Unchanged workers id key e = elim (Option-cases (lookup id workers)) [
  | inl q ↦ rw q refl
  | inr (w, q) ↦
      let unknown = (rw q at e) in
      rw (q, enqueue-unknown w unknown) (insert-lookup id key w workers q)
]
