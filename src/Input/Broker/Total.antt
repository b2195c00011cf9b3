-- ===== src/Input/Broker/Total.antt =====
-- The broker's operations return: only the virtual output or the release of a device can be fatal
-- (services/hearthdeck-input/src/broker.rs).
use hearthdeck.Prelude.{
  ℕ, ◌≡◌, inl, inr, true, ◌||◌, Option, none, some, List, [], ◌∷◌, ◌++◌, if_elim, if◌then◌else◌,
  Bool-cases, Returns, Returns-bind,
}
use hearthdeck.Input.Ownership
use hearthdeck.Input.Ownership.{same_owner}
use hearthdeck.Input.Mapper.{Mapper, OutputEvent}
use hearthdeck.Input.Protocol.{Event, is_overlay}
use hearthdeck.Input.Broker.{
  Platform, Broker, Pad, Client, Grabbed, fatal, denied, granted, ungrab_all, rolled_back,
  grab_from, grab_all, find_id, retain_not, ids_of, emit_mapped, emit_events, owner_of, hand_over,
  reconcile, release, is_some, captures, disconnect, sent, send_to, send, disconnect_all,
  any_text_entry, settle, capture_for, register, connect,
}

-- Releases are granted and the output takes every event.
pub record IsReliable (w : Platform) : Type 0 where
  pub releases : (d : w.Device) → (w.ungrab d).1 ≡ true
  pub emits : (o : w.Output) (events : List OutputEvent) → Returns (w.emit o events)

module _ (w : Platform) (reliable : IsReliable w) where
  emit_events-Returns :
      (output : w.Output) (events : List OutputEvent) → Returns (emit_events w output events)
  emit_events-Returns output [] = tt
  emit_events-Returns output (e ∷ es) = reliable.emits output (e ∷ es)

  emit_mapped-Returns : (b : Broker w) (r : Mapper × List OutputEvent) → Returns (emit_mapped w b r)
  unfolding emit_mapped
  emit_mapped-Returns b (m, events) =
      Returns-bind (emit_events w b.output events) _ (emit_events-Returns b.output events) (λ o. tt)

  reconcile-Returns : (b : Broker w) → Returns (reconcile w b)
  unfolding reconcile hand_over
  reconcile-Returns b =
      Returns-bind (hand_over w b (owner_of w b)) _
        (if_elim Returns (same_owner (owner_of w b) b.state.owner) (λ _. tt)
          (λ _. Returns-bind (emit_mapped w b _) _ (emit_mapped-Returns b _) (λ b'. tt)))
        (λ b'. emit_mapped-Returns b' _)

  ungrab_all-Returns : (pads : List (Pad w)) → Returns (ungrab_all w pads)
  unfolding ungrab_all
  ungrab_all-Returns [] = tt
  ungrab_all-Returns (p ∷ pads) =
      rw (reliable.releases p.device)
        (Returns-bind (ungrab_all w pads) _ (ungrab_all-Returns pads) (λ ps. tt))

  release-Returns : (b : Broker w) → Returns (release w b)
  unfolding release
  release-Returns b =
      if_elim Returns (is_some w b.capture)
        (λ _. Returns-bind (ungrab_all w b.pads) _ (ungrab_all-Returns b.pads) (λ ps. tt)) (λ _. tt)

  pub disconnect-Returns : (b : Broker w) (id : ℕ) → Returns (disconnect w b id)
  unfolding disconnect
  disconnect-Returns b id =
      Returns-bind (if captures w b.capture id then release w left else some left) _
        (if_elim Returns (captures w b.capture id) (λ _. release-Returns left) (λ _. tt))
        reconcile-Returns
    where
      left : Broker w
      left = record b { clients = retain_not w id b.clients }

  send-Returns : (b : Broker w) (id : ℕ) (event : Event) → Returns (send w b id event)
  unfolding send
  send-Returns b id event = go (find_id w id b.clients)
    where
      tried : (r : Option w.Channel) → Returns (sent w b id r)
      tried none = disconnect-Returns b id
      tried (some channel) = tt

      go : (r : Option (Client w)) → Returns (send_to w b id event r)
      go none = tt
      go (some c) = tried (w.try_send c.events event)

  disconnect_all-Returns : (b : Broker w) (ids : List ℕ) → Returns (disconnect_all w b ids)
  unfolding disconnect_all
  disconnect_all-Returns b [] = tt
  disconnect_all-Returns b (id ∷ ids) =
      Returns-bind (disconnect w b id) _ (disconnect-Returns b id)
        (λ b'. disconnect_all-Returns b' ids)

  -- A grab of all the devices is granted or denied.
  abbrev IsDecided : Grabbed w → Type 0
  IsDecided fatal = ⊥
  IsDecided _ = Unit {0}

  rolled_back-IsDecided :
      (r : Option (List (Pad w))) (rest : List (Pad w))
      → Returns r
      → IsDecided (rolled_back w r rest)
  rolled_back-IsDecided none rest h = h
  rolled_back-IsDecided (some before) rest h = tt

  grab_from-IsDecided : (before pads : List (Pad w)) → IsDecided (grab_from w before pads)
  unfolding grab_from
  grab_from-IsDecided before [] = tt
  grab_from-IsDecided before (p ∷ pads) = elim (Bool-cases (w.grab p.device).1) [
    | inl e ↦ rw e (grab_from-IsDecided (before ++ _ ∷ []) pads)
    | inr e ↦ rw e (rolled_back-IsDecided (ungrab_all w before) _ (ungrab_all-Returns before))
  ]

  settle-Returns : (b : Broker w) (id : ℕ) (r : Grabbed w) → IsDecided r → Returns (settle w b id r)
  settle-Returns b id fatal h = absurd h
  settle-Returns b id (denied pads) h =
      Returns-bind (send w _ id Event.failed) _ (send-Returns _ id Event.failed) reconcile-Returns
  settle-Returns b id (granted pads) h =
      Returns-bind (reconcile w _) _ (reconcile-Returns _) (λ b'. send-Returns b' id Event.ready)

  capture_for-Returns : (b : Broker w) (id : ℕ) → Returns (capture_for w b id)
  unfolding capture_for grab_all
  capture_for-Returns b id = Returns-bind (emit_mapped w b _) _ (emit_mapped-Returns b _) λ b'.
      if_elim Returns (b'.keyboard || any_text_entry w b'.clients)
        (λ _. send-Returns _ id Event.failed)
        (λ _.
          settle-Returns (record b' { state = Ownership.suspend b'.state }) id
            (grab_from w [] b'.pads) (grab_from-IsDecided [] b'.pads))

  -- On a reliable platform every connection, whatever the client and the channels do, is handled
  -- without a fatal error.
  pub connect-Returns : (b : Broker w) (client : Client w) → Returns (connect w b client)
  unfolding connect register
  connect-Returns b client =
      Returns-bind (disconnect_all w b (ids_of w client.hello.role b.clients)) _
        (disconnect_all-Returns b _)
        λ b'.
          if_elim Returns (is_overlay client.hello.delivery) (λ _. capture_for-Returns _ client.id)
            (λ _.
              Returns-bind (reconcile w _) _ (reconcile-Returns _)
                (λ b''. send-Returns b'' client.id Event.ready))
