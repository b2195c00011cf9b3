-- ===== src/Input/Broker/Connect.antt =====
-- A new connection replaces those of its role, and an overlay takes every controller or none
-- (services/hearthdeck-input/src/broker.rs, `connect`).
use hearthdeck.Prelude.{
  ℕ, ◌≡◌, sym, subst, inl, inr, true, false, ◌||◌, none, some, List, [], ◌∷◌, ◌++◌, arith, if_elim,
  Bool-cases, Option-cases, After, After-then, ◌==◌, nat_eq,
}
use hearthdeck.Input.Ownership
use hearthdeck.Input.Mapper
use hearthdeck.Input.Protocol.{Role, Event, Hello, same_role, is_overlay, valid}
use hearthdeck.Input.Broker.{
  Platform, Broker, Client, Grabbed, fatal, denied, granted, grab_all, find_id, find_role, ids_of,
  disconnect_all, reconcile, send, settle, capture_for, register, connect, any_text_entry,
}
use hearthdeck.Input.Broker.Grab.{AllAre, AllOrNothing, grab_all-AllOrNothing}
use hearthdeck.Input.Broker.Owners.{emit_mapped-then}
use hearthdeck.Input.Broker.Capture.{
  IsOverlay, Guarded, IsGuarded, reconcile-IsGuarded, send-IsGuarded,
}
use hearthdeck.Input.Broker.Roles.{Covered-ids_of, Cleared, disconnect_all-Cleared, not_overlay}

module _ (w : Platform) where
  -- With no client in the overlay's role there is no capture.
  no_capture :
      (b : Broker w) → IsGuarded w b → find_role w Role.overlay b.clients ≡ none → b.capture ≡ none
  no_capture b g n = elim (Option-cases b.capture) [
    | inl e ↦ e
    | inr (id, e) ↦
        absurd (not_overlay w id b.clients n (subst (λ c. Guarded w c b.pads b.clients) e g).1)
  ]

  find_id-append :
      (c : Client w) (clients : List (Client w))
      → find_id w c.id clients ≡ none
      → find_id w c.id (clients ++ c ∷ []) ≡ some c
  unfolding find_id
  find_id-append c [] f = ground arith
  find_id-append c (d ∷ clients) f = ground (arith, find_id-append c clients)

  find_id-append_found :
      (id : ℕ) (c : Client w) (clients : List (Client w))
      → IsOverlay w (find_id w id clients)
      → IsOverlay w (find_id w id (clients ++ c ∷ []))
  unfolding find_id
  find_id-append_found id c [] h = absurd h
  find_id-append_found id c (d ∷ clients) h = elim (Bool-cases (d.id == id)) [
    | inl e ↦ rw e (rw e at h)
    | inr e ↦ rw e (find_id-append_found id c clients (rw e at h))
  ]

  push-IsGuarded :
      (b : Broker w) (c : Client w)
      → IsGuarded w b
      → IsGuarded w (record b { clients = b.clients ++ c ∷ [] })
  push-IsGuarded b c g = elim (Option-cases b.capture) [
    | inl e ↦ rw e (subst (λ r. Guarded w r b.pads b.clients) e g)
    | inr (id, e) ↦
        let g' : Guarded w (some id) b.pads b.clients =
          subst (λ r. Guarded w r b.pads b.clients) e g in
        rw e (g'.0, find_id-append_found id c b.clients g'.1)
  ]

  settle-IsGuarded :
      (b : Broker w) (id : ℕ) (r : Grabbed w)
      → b.capture ≡ none
      → IsOverlay w (find_id w id b.clients)
      → AllOrNothing w r
      → After (IsGuarded w) (settle w b id r)
  settle-IsGuarded b id fatal n o h = tt
  settle-IsGuarded b id (denied pads) n o h =
      After-then (IsGuarded w) (IsGuarded w) (send w (record b { pads = pads }) id Event.failed)
        (reconcile w) (send-IsGuarded w (record b { pads = pads }) id Event.failed (rw n h))
        (reconcile-IsGuarded w)
  settle-IsGuarded b id (granted pads) n o h =
      After-then (IsGuarded w) (IsGuarded w)
        (reconcile w (record b { pads = pads; capture = some id })) _
        (reconcile-IsGuarded w (record b { pads = pads; capture = some id }) (h, o))
        λ b' g. send-IsGuarded w b' id Event.ready g

  capture_for-IsGuarded :
      (b : Broker w) (id : ℕ)
      → b.capture ≡ none
      → AllAre w false b.pads
      → IsOverlay w (find_id w id b.clients)
      → After (IsGuarded w) (capture_for w b id)
  unfolding capture_for
  capture_for-IsGuarded b id n free o =
      emit_mapped-then w (IsGuarded w) b (Mapper.set_active b.mapper false).0
        (Mapper.set_active b.mapper false).1 _
        λ output.
          if_elim (After (IsGuarded w)) (b.keyboard || any_text_entry w b.clients)
            (λ _. send-IsGuarded w (quiet output) id Event.failed (rw n free))
            (λ _.
              settle-IsGuarded (quiet output) id (grab_all w b.pads) n o
                (grab_all-AllOrNothing w b.pads free))
    where
      quiet : w.Output → Broker w
      quiet output = record b {
        mapper = (Mapper.set_active b.mapper false).0;
        output = output;
        state = Ownership.suspend b.state;
      }

  -- A greeting that asks for the overlay's delivery is in the overlay's role.
  valid-overlay :
      (h : Hello)
      → valid h ≡ true
      → is_overlay h.delivery ≡ true
      → same_role h.role Role.overlay ≡ true
  unfolding valid
  valid-overlay h v o = ground arith

  same_role_eq : (r s : Role) → same_role r s ≡ true → r ≡ s
  same_role_eq r s h = ground arith

  register-IsGuarded :
      (b : Broker w) (client : Client w)
      → valid client.hello ≡ true
      → Cleared w client.hello.role client.id b
      → After (IsGuarded w) (register w (record b { clients = b.clients ++ client ∷ [] }) client)
  unfolding register
  register-IsGuarded b client v c =
      if_elim (After (IsGuarded w)) (is_overlay client.hello.delivery)
        (λ o.
          let role = valid-overlay client.hello v o in
          let n =
            no_capture b c.0
              (subst (λ r. find_role w r b.clients ≡ none) (same_role_eq _ _ role) c.1) in
          capture_for-IsGuarded joined client.id n (subst (λ r. Guarded w r b.pads b.clients) n c.0)
            (subst (IsOverlay w) (sym (find_id-append client b.clients c.2)) role))
        λ _.
          After-then (IsGuarded w) (IsGuarded w) (reconcile w joined) _
            (reconcile-IsGuarded w joined (push-IsGuarded b client c.0))
            λ b' g. send-IsGuarded w b' client.id Event.ready g
    where
      joined : Broker w
      joined = record b { clients = b.clients ++ client ∷ [] }

  -- A client with a valid greeting and a new id connects to a guarded broker, where a capture has
  -- every pad and its client is connected as the overlay, and without a capture no pad is grabbed:
  -- fatal errors apart, the broker is guarded afterwards.
  pub connect-IsGuarded :
      (b : Broker w) (client : Client w)
      → IsGuarded w b
      → valid client.hello ≡ true
      → find_id w client.id b.clients ≡ none
      → After (IsGuarded w) (connect w b client)
  unfolding connect
  connect-IsGuarded b client g v f =
      After-then (Cleared w client.hello.role client.id) (IsGuarded w)
        (disconnect_all w b (ids_of w client.hello.role b.clients)) _
        (disconnect_all-Cleared w client.hello.role client.id b _ g
          (Covered-ids_of w client.hello.role b.clients) f)
        λ b' c. register-IsGuarded b' client v c
