-- ===== src/Input/Broker/Capture.antt =====
-- Who holds the capture, and that a capture has every controller
-- (services/hearthdeck-input/src/broker.rs).
use hearthdeck.Prelude.{
  ℕ, ◌≡◌, refl, ◌∙◌, subst, inl, inr, true, false, Option, none, some, List, [], ◌∷◌, arith,
  if_elim, Bool-cases, Option-cases, After, After-bind, After-then, After-map, ◌==◌, if◌then◌else◌,
}
use hearthdeck.Input.{Action}
use hearthdeck.Input.Protocol.{Role, Event, same_role}
use hearthdeck.Input.Broker.{
  Platform, Broker, Pad, Client, find_id, retain_not, store, ungrab_all, release, reconcile,
  disconnect, captures, send, send_to, sent, revoke, notify, deliver, deliver_to,
}
use hearthdeck.Input.Broker.Grab.{AllAre, ungrab_all-free}
use hearthdeck.Input.Broker.Owners.{Same, reconcile-After}

module _ (w : Platform) where
  -- The client `id` is connected, in the overlay's role.
  abbrev pub IsOverlay : Option (Client w) → Type 0
  IsOverlay none = ⊥
  IsOverlay (some c) = same_role c.hello.role Role.overlay ≡ true

  -- With a capture every pad is grabbed and its client is connected as the overlay; with none, no
  -- pad is grabbed.
  abbrev pub Guarded : Option ℕ → List (Pad w) → List (Client w) → Type 0
  Guarded none pads clients = AllAre w false pads
  Guarded (some id) pads clients = AllAre w true pads × IsOverlay (find_id w id clients)

  abbrev pub IsGuarded : Broker w → Type 0
  IsGuarded b = Guarded b.capture b.pads b.clients

  Same-IsGuarded : {b b' : Broker w} → Same w b b' → IsGuarded b → IsGuarded b'
  Same-IsGuarded {b} {b'} s g = rw (s.capture, s.pads, s.clients) g

  pub reconcile-IsGuarded : (b : Broker w) → IsGuarded b → After IsGuarded (reconcile w b)
  reconcile-IsGuarded b g =
      After-map (λ b'. Same w b b' × _) IsGuarded (reconcile w b) (reconcile-After w b)
        (λ b' s. Same-IsGuarded s.0 g)

  find_id-retain_not :
      (id j : ℕ) (clients : List (Client w))
      → (id == j) ≡ false
      → find_id w id (retain_not w j clients) ≡ find_id w id clients
  unfolding find_id retain_not
  find_id-retain_not id j [] h = refl
  find_id-retain_not id j (c ∷ clients) h = ground (arith, find_id-retain_not id j clients h)

  find_id-store :
      (id j : ℕ) (channel : w.Channel) (clients : List (Client w))
      → IsOverlay (find_id w id clients)
      → IsOverlay (find_id w id (store w j channel clients))
  unfolding find_id store
  find_id-store id j channel [] h = h
  find_id-store id j channel (c ∷ clients) h = elim (Bool-cases (c.id == j)) [
    | inl e ↦ elim (Bool-cases (c.id == id)) [
      | inl e' ↦ rw (e, e') (rw e' at h)
      | inr e' ↦ rw (e, e') (rw e' at h)
    ]
    | inr e ↦ elim (Bool-cases (c.id == id)) [
      | inl e' ↦ rw (e, e') (rw e' at h)
      | inr e' ↦ rw (e, e') (find_id-store id j channel clients (rw e' at h))
    ]
  ]

  -- After a release there is no capture, no pad is grabbed, and the clients are as before.
  abbrev Released : Broker w → Broker w → Type 0
  Released b b' = (b'.capture ≡ none) × AllAre w false b'.pads × (b'.clients ≡ b.clients)

  release-After :
      (b : Broker w) → (b.capture ≡ none → AllAre w false b.pads) → After (Released b) (release w b)
  unfolding release
  release-After b g = elim (Option-cases b.capture) [
    | inl e ↦ rw e (refl, g e, refl)
    | inr (id, e) ↦ rw e (
        After-bind _ (ungrab_all w b.pads) _
          λ pads p. (refl, ungrab_all-free w b.pads pads p, refl))
  ]

  Released-IsGuarded : (b b' : Broker w) → Released b b' → IsGuarded b'
  Released-IsGuarded b b' r = rw r.0 r.1

  guarded_free : (b : Broker w) → IsGuarded b → b.capture ≡ none → AllAre w false b.pads
  guarded_free b g e = subst (λ c. Guarded c b.pads b.clients) e g

  -- The clients that are left keep the capture guarded, if it is not `id` that captured.
  retain-IsGuarded :
      (b : Broker w) (id : ℕ)
      → captures w b.capture id ≡ false
      → IsGuarded b
      → IsGuarded (record b { clients = retain_not w id b.clients })
  retain-IsGuarded b id h g = elim (Option-cases b.capture) [
    | inl e ↦ rw e (guarded_free b g e)
    | inr (owner, e) ↦
        let g' : Guarded (some owner) b.pads b.clients =
          subst (λ c. Guarded c b.pads b.clients) e g in
        let ne : (owner == id) ≡ false = rw e at h in
        rw e (g'.0, rw (find_id-retain_not owner id b.clients ne) g'.1)
  ]

  -- A disconnect, fatal errors apart, keeps a guarded broker guarded, and removes the clients with
  -- the id and no others.
  pub disconnect-IsGuarded :
      (b : Broker w) (id : ℕ)
      → IsGuarded b
      → After (λ b'. IsGuarded b' × (b'.clients ≡ retain_not w id b.clients)) (disconnect w b id)
  unfolding disconnect
  disconnect-IsGuarded b id g =
      After-then P P (if captures w b.capture id then release w left else some left) (reconcile w)
        (if_elim (After P) (captures w b.capture id)
          (λ e.
            After-map (Released left) P (release w left) (release-After left (guarded_free b g))
              (λ b' r. (Released-IsGuarded left b' r, r.2)))
          (λ e. (retain-IsGuarded b id e g, refl)))
        λ b' p.
          After-map (λ b''. Same w b' b'' × _) P (reconcile w b') (reconcile-After w b')
            λ b'' s. (Same-IsGuarded s.0 p.0, s.0.clients ∙ p.1)
    where
      left : Broker w
      left = record b { clients = retain_not w id b.clients }

      P : Broker w → Type 0
      P b' = IsGuarded b' × (b'.clients ≡ retain_not w id b.clients)

  store-IsGuarded :
      (b : Broker w) (id : ℕ) (channel : w.Channel)
      → IsGuarded b
      → IsGuarded (record b { clients = store w id channel b.clients })
  store-IsGuarded b id channel g = elim (Option-cases b.capture) [
    | inl e ↦ rw e (guarded_free b g e)
    | inr (owner, e) ↦
        let g' : Guarded (some owner) b.pads b.clients =
          subst (λ c. Guarded c b.pads b.clients) e g in
        rw e (g'.0, find_id-store owner id channel b.clients g'.1)
  ]

  -- Sending to a client, which disconnects it where its channel refuses the event, keeps a guarded
  -- broker guarded, fatal errors apart.
  pub send-IsGuarded :
      (b : Broker w) (id : ℕ) (event : Event) → IsGuarded b → After IsGuarded (send w b id event)
  unfolding send
  send-IsGuarded b id event g = go (find_id w id b.clients)
    where
      tried : (r : Option w.Channel) → After IsGuarded (sent w b id r)
      tried none =
          After-map (λ b'. IsGuarded b' × _) IsGuarded (disconnect w b id)
            (disconnect-IsGuarded b id g) (λ b' p. p.0)
      tried (some channel) = store-IsGuarded b id channel g

      go : (r : Option (Client w)) → After IsGuarded (send_to w b id event r)
      go none = g
      go (some c) = tried (w.try_send c.events event)

  -- Delivering an action, fatal errors apart, keeps a guarded broker guarded, also where the client
  -- of the action is too slow and gets disconnected.
  pub deliver-IsGuarded :
      (b : Broker w) (action : Action) → IsGuarded b → After IsGuarded (deliver w b action)
  unfolding deliver
  deliver-IsGuarded b action g = go _
    where
      go : (r : Option (Client w)) → After IsGuarded (deliver_to w b r action)
      go none = g
      go (some c) = send-IsGuarded b c.id (Event.act action) g

  -- Revoking the capture of a guarded broker, fatal errors apart, leaves it guarded.
  pub revoke-IsGuarded : (b : Broker w) → IsGuarded b → After IsGuarded (revoke w b)
  unfolding revoke
  revoke-IsGuarded b g =
      After-then (Released b) IsGuarded (release w b) _ (release-After b (guarded_free b g)) λ b' r.
        After-then IsGuarded IsGuarded (reconcile w b') (notify w b.capture)
          (reconcile-IsGuarded b' (Released-IsGuarded b b' r)) (told b.capture)
    where
      told : (owner : Option ℕ) (b' : Broker w) → IsGuarded b' → After IsGuarded (notify w owner b')
      told none b' g' = g'
      told (some id) b' g' = send-IsGuarded b' id Event.failed g'
