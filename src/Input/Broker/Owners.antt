-- ===== src/Input/Broker/Owners.antt =====
-- After `reconcile` the owner and the mapping are those that the broker's state asks for
-- (services/hearthdeck-input/src/broker.rs, `reconcile`).
use hearthdeck.Prelude.{
  ◌≡◌, refl, sym, ap, ◌∙◌, inl, inr, Bool, true, false, Option, none, some, List, arith, if_elim,
  Bool-cases, After, After-bind, After-then, ◌>>=◌,
}
use hearthdeck.Input.Ownership
use hearthdeck.Input.Ownership.{Owner, Ownership, same_owner}
use hearthdeck.Input.Mapper
use hearthdeck.Input.Mapper.{Mapper, OutputEvent}
use hearthdeck.Input.Broker.{
  Platform, Broker, emit_mapped, emit_events, owner_of, hand_over, reconcile, session_has_focus,
}

same_owner_eq : (a b : Owner) → same_owner a b ≡ true → a ≡ b
same_owner_eq a b h = ground arith

set_owner-owner : (o : Ownership) (owner : Owner) → (Ownership.set_owner o owner).owner ≡ owner
unfolding Ownership.set_owner Ownership.suspend
set_owner-owner o owner = elim (Bool-cases (same_owner o.owner owner)) [
  | inl e ↦ rw e (same_owner_eq o.owner owner e)
  | inr e ↦ rw e refl
]

set_active-active : (m : Mapper) (on : Bool) → (Mapper.set_active m on).0.active ≡ on
unfolding Mapper.set_active
set_active-active m true = refl
set_active-active m false = ground arith

module _ (w : Platform) where
  -- What `reconcile` leaves alone, and its asking does not change.
  pub record Same (b b' : Broker w) : Type 0 where
    pub capture : b'.capture ≡ b.capture
    pub pads : b'.pads ≡ b.pads
    pub clients : b'.clients ≡ b.clients
    pub keyboard : b'.keyboard ≡ b.keyboard
    pub asked : owner_of w b' ≡ owner_of w b

  abbrev pub Settled : Broker w → Type 0
  Settled b =
      (b.state.owner ≡ owner_of w b) × (b.mapper.active ≡ same_owner (owner_of w b) Owner.desktop)

  pub emit_mapped-After {ℓ} :
      (P : Broker w → Type ℓ) (b : Broker w) (m : Mapper) (events : List OutputEvent)
      → ((output : w.Output) → P (record b { mapper = m; output = output }))
      → After P (emit_mapped w b (m, events))
  unfolding emit_mapped
  emit_mapped-After P b m events h =
      After-bind P (emit_events w b.output events) _ (λ output _. h output)

  pub emit_mapped-then {ℓ} :
      (P : Broker w → Type ℓ) (b : Broker w) (m : Mapper) (events : List OutputEvent)
      (f : Broker w → Option (Broker w))
      → ((output : w.Output) → After P (f (record b { mapper = m; output = output })))
      → After P (emit_mapped w b (m, events) >>= f)
  unfolding emit_mapped
  emit_mapped-then P b m events f h = go (emit_events w b.output events)
    where
      go :
          (r : Option w.Output)
          → After P ((r >>= (λ output. some (record b { mapper = m; output = output }))) >>= f)
      go none = tt
      go (some output) = h output

  Same-parts :
      (b : Broker w) (m : Mapper) (o : w.Output) (s : Ownership)
      → Same b (record b { mapper = m; output = o; state = s })
  unfolding owner_of session_has_focus
  Same-parts b m o s = record {
    capture = refl;
    pads = refl;
    clients = refl;
    keyboard = refl;
    asked = refl;
  }

  Same-trans : {a b c : Broker w} → Same a b → Same b c → Same a c
  Same-trans h k = record {
    capture = k.capture ∙ h.capture;
    pads = k.pads ∙ h.pads;
    clients = k.clients ∙ h.clients;
    keyboard = k.keyboard ∙ h.keyboard;
    asked = k.asked ∙ h.asked;
  }

  hand_over-After :
      (b : Broker w) (owner : Owner)
      → After (λ b'. Same b b' × (b'.state.owner ≡ owner)) (hand_over w b owner)
  unfolding hand_over
  hand_over-After b owner =
      if_elim (After P) (same_owner owner b.state.owner)
        (λ e. (Same-parts b b.mapper b.output b.state, sym (same_owner_eq owner b.state.owner e)))
        λ e.
          emit_mapped-then P b (Mapper.set_active b.mapper false).0
            (Mapper.set_active b.mapper false).1 _
            λ output. (Same-parts b _ output _, set_owner-owner b.state owner)
    where
      P : Broker w → Type 0
      P b' = Same b b' × (b'.state.owner ≡ owner)

  -- When `reconcile` returns, the owner is the one asked for, the mapping is active exactly for the
  -- desktop's owner, and clients, pads, capture and keyboard are as before.
  pub reconcile-After : (b : Broker w) → After (λ b'. Same b b' × Settled b') (reconcile w b)
  unfolding reconcile
  reconcile-After b =
      After-then (λ b'. Same b b' × (b'.state.owner ≡ owner_of w b)) Q
        (hand_over w b (owner_of w b)) _ (hand_over-After b (owner_of w b))
        λ b' q. emit_mapped-After Q b' (active b').0 (active b').1 λ output.
          let same = Same-trans q.0 (Same-parts b' (active b').0 output b'.state) in
          (
            same,
            (
              q.1 ∙ sym same.asked,
              set_active-active b'.mapper _
                  ∙ ap (λ (o : Owner). same_owner o Owner.desktop) (sym same.asked),
            ),
          )
    where
      Q : Broker w → Type 0
      Q b' = Same b b' × Settled b'

      active : Broker w → Mapper × List OutputEvent
      active b' = Mapper.set_active b'.mapper (same_owner (owner_of w b) Owner.desktop)
