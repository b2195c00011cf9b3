-- ===== src/Input/Broker/Polled.antt =====
-- What a poll's events and its lost pads keep (services/hearthdeck-input/src/broker.rs, `poll`).
use hearthdeck.Prelude.{
  ℕ, ◌≡◌, refl, ◌∙◌, Bool, true, false, not, ◌&&◌, ◌==◌, Option, none, some, List, [], ◌∷◌, if_elim,
  After, After-then, After-map,
}
use hearthdeck.Prelude.Int.{ℤ}
use hearthdeck.Input.Ownership
use hearthdeck.Input.Ownership.{Ownership, Signal}
use hearthdeck.Input.Mapper.{Mapper, OutputEvent}
use hearthdeck.Input.Axis.{KeyCode, AxisCode}
use hearthdeck.Input.Broker.{Platform, Pad, Broker, emit_mapped}
use hearthdeck.Input.Broker.Grab.{AllAre}
use hearthdeck.Input.Broker.Owners.{emit_mapped-After}
use hearthdeck.Input.Broker.Capture.{Guarded, IsGuarded}
use hearthdeck.Input.Broker.Poll.{
  KernelEvent, key_event, axis_event, other_event, Fetched, events, is_value, would_block, gone,
  let_go, emit_armed, on_key, on_axis, on_event, on_events, on_fetched, on_pads, drop_pad, forget,
}

module _ (w : Platform) where
  -- What no controller event changes.
  abbrev pub Kept : Broker w → Broker w → Type 0
  Kept b b' = (b'.capture ≡ b.capture) × (b'.pads ≡ b.pads) × (b'.clients ≡ b.clients)

  Kept-trans : (a b c : Broker w) → Kept a b → Kept b c → Kept a c
  Kept-trans a b c k l = (l.0 ∙ k.0, l.1 ∙ k.1, l.2 ∙ k.2)

  pub emit_mapped-Kept :
      (b : Broker w) (r : Mapper × List OutputEvent) → After (Kept b) (emit_mapped w b r)
  emit_mapped-Kept b (m, es) = emit_mapped-After w (Kept b) b m es (λ output. (refl, refl, refl))

  let_go-Kept : (b : Broker w) (id : ℕ) (pressed : Bool) → After (Kept b) (let_go w b id pressed)
  unfolding let_go
  let_go-Kept b id true = emit_mapped-Kept b _
  let_go-Kept b id false = (refl, refl, refl)

  emit_armed-Kept :
      (b : Broker w) (id : ℕ) (armed : Bool) (r : Mapper × List OutputEvent)
      → After (Kept b) (emit_armed w b id armed r)
  unfolding emit_armed
  emit_armed-Kept b id armed r =
      if_elim (After (Kept b)) (armed && not (Ownership.guide_held b.state id)) {y = some b}
        (λ _. emit_mapped-Kept b r) (λ _. (refl, refl, refl))

  on_key-Kept :
      (b : Broker w) (id : ℕ) (enabled : Bool) (code : KeyCode) (value : ℤ)
      → After (λ r. Kept b r.0) (on_key w b id enabled code value)
  unfolding on_key
  on_key-Kept b id enabled code value =
      After-then (Kept b) (λ r. Kept b r.0) (let_go w _ id _) _ (let_go-Kept _ id _)
        λ b' k.
          After-then (Kept b') (λ r. Kept b r.0) (emit_armed w b' id _ _) _
            (emit_armed-Kept b' id _ _) λ b'' l. Kept-trans b b' b'' k l

  on_axis-Kept :
      (b : Broker w) (p : Pad w) (enabled : Bool) (code : AxisCode) (value : ℤ)
      → After (λ r. Kept b r.0) (on_axis w b p enabled code value)
  unfolding on_axis
  on_axis-Kept b p enabled code value =
      After-then (Kept b) (λ r. Kept b r.0) (emit_armed w _ p.id _ _) _ (emit_armed-Kept _ p.id _ _)
        λ b' k. k

  on_event-Kept :
      (b : Broker w) (p : Pad w) (enabled : Bool) (e : KernelEvent)
      → After (λ r. Kept b r.0) (on_event w b p enabled e)
  unfolding on_event
  on_event-Kept b p enabled (key_event code value) =
      if_elim (After (λ r. Kept b r.0)) (is_value 2 value) {x = some (b, [])}
        (λ _. (refl, refl, refl)) (λ _. on_key-Kept b p.id enabled code value)
  on_event-Kept b p enabled (axis_event code value) = on_axis-Kept b p enabled code value
  on_event-Kept b p enabled other_event = (refl, refl, refl)

  on_events-Kept :
      (b : Broker w) (p : Pad w) (enabled : Bool) (es : List KernelEvent)
      → After (λ r. Kept b r.0) (on_events w b p enabled es)
  unfolding on_events
  on_events-Kept b p enabled [] = (refl, refl, refl)
  on_events-Kept b p enabled (e ∷ es) =
      After-then (λ r. Kept b r.0) (λ r. Kept b r.0) (on_event w b p enabled e) _
        (on_event-Kept b p enabled e)
        λ r k.
          After-then (λ s. Kept r.0 s.0) (λ s. Kept b s.0) (on_events w r.0 p enabled es) _
            (on_events-Kept r.0 p enabled es) λ s l. Kept-trans b r.0 s.0 k l

  on_fetched-Kept :
      (b : Broker w) (p : Pad w) (enabled : Bool) (f : Fetched)
      → After (λ r. Kept b r.0) (on_fetched w b p enabled f)
  unfolding on_fetched
  on_fetched-Kept b p enabled (events es) =
      After-then (λ r. Kept b r.0) (λ r. Kept b r.0) (on_events w b p enabled es) _
        (on_events-Kept b p enabled es) λ r k. k
  on_fetched-Kept b p enabled would_block = (refl, refl, refl)
  on_fetched-Kept b p enabled gone = (refl, refl, refl)

  pub on_pads-Kept :
      (b : Broker w) (pads : List (Pad w)) (fetched : ℕ → Fetched) (enabled : Bool)
      → After (λ r. Kept b r.0) (on_pads w b pads fetched enabled)
  unfolding on_pads
  on_pads-Kept b [] fetched enabled = (refl, refl, refl)
  on_pads-Kept b (p ∷ pads) fetched enabled =
      After-then (λ r. Kept b r.0) (λ r. Kept b r.0) (on_fetched w b p enabled (fetched p.id)) _
        (on_fetched-Kept b p enabled (fetched p.id))
        λ r k.
          After-then (λ s. Kept r.0 s.0) (λ s. Kept b s.0) (on_pads w r.0 pads fetched enabled) _
            (on_pads-Kept r.0 pads fetched enabled) λ s l. Kept-trans b r.0 s.0 k l

  pub Kept-IsGuarded : (b b' : Broker w) → Kept b b' → IsGuarded w b → IsGuarded w b'
  Kept-IsGuarded b b' k g = rw (k.0, k.1, k.2) g

  drop_pad-AllAre :
      (v : Bool) (id : ℕ) (pads : List (Pad w)) → AllAre w v pads → AllAre w v (drop_pad w id pads)
  unfolding drop_pad
  drop_pad-AllAre v id [] h = tt
  drop_pad-AllAre v id (p ∷ pads) h =
      if_elim (AllAre w v) (not (p.id == id)) (λ _. (h.0, drop_pad-AllAre v id pads h.1))
        (λ _. drop_pad-AllAre v id pads h.1)

  drop_pad-Guarded :
      (capture : Option ℕ) (b : Broker w) (id : ℕ)
      → Guarded w capture b.pads b.clients
      → Guarded w capture (drop_pad w id b.pads) b.clients
  drop_pad-Guarded none b id g = drop_pad-AllAre false id b.pads g
  drop_pad-Guarded (some owner) b id g = (drop_pad-AllAre true id b.pads g.0, g.1)

  -- What a poll changes of neither client nor capture, and guards.
  abbrev pub Watched : Broker w → Broker w → Type 0
  Watched b b' = IsGuarded w b' × (b'.capture ≡ b.capture) × (b'.clients ≡ b.clients)

  pub forget-Watched :
      (b : Broker w) (ids : List ℕ) → IsGuarded w b → After (Watched b) (forget w b ids)
  unfolding forget
  forget-Watched b [] g = (g, refl, refl)
  forget-Watched b (id ∷ ids) g =
      let left = record b {
        pads = drop_pad w id b.pads;
        state = Ownership.remove_pad b.state id;
      } in
      After-then (Kept left) (Watched b) (emit_mapped w left _) _ (emit_mapped-Kept left _) λ b' k.
        After-map (Watched b') (Watched b) (forget w b' ids)
          (forget-Watched b' ids (Kept-IsGuarded left b' k (drop_pad-Guarded b.capture b id g)))
          λ b'' l. (l.0, l.1 ∙ k.0, l.2 ∙ k.2)
