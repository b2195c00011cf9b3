-- ===== src/Input/Broker/Unplugged.antt =====
-- The pads that a poll finds gone (services/hearthdeck-input/src/broker.rs, `poll`).
use hearthdeck.Prelude.{
  ℕ, ◌≡◌, refl, sym, ap, ◌∙◌, true, ◌||◌, ◌==◌, ==_iff, Bool-cases, List, [], ◌∷◌, inl, inr, ◌⊎◌,
  After, After-then, After-map, nat_eq, contains, lookup-remove, arith,
}
use hearthdeck.Input.{source_eq}
use hearthdeck.Input.Ownership
use hearthdeck.Input.Ownership.{Ownership, Signal}
use hearthdeck.Input.Mapper
use hearthdeck.Input.Mapper.{Mapper, OutputEvent}
use hearthdeck.Input.Mapper.Removal.{remove_device-lookup}
use hearthdeck.Input.Broker.{Platform, Pad, Broker, emit_mapped}
use hearthdeck.Input.Broker.Owners.{emit_mapped-After}
use hearthdeck.Input.Broker.Capture.{IsGuarded}
use hearthdeck.Input.Broker.Poll.{Fetched, on_pads, drop_pad, forget, collect}
use hearthdeck.Input.Broker.Polled.{Kept, Watched, on_pads-Kept, Kept-IsGuarded, forget-Watched}
use hearthdeck.Input.Broker.Gone.{
  After-both, tick_pads-lookup, if_none, both_true, staying, Forgotten, AllForgotten, forgotten_if,
  gone_ids, on_pads-gone, has_pad, gone_ids-contains, without, without-staying, forget-pads,
}

module _ (w : Platform) where
  forgets-again :
      (b : Broker w) (id j : ℕ) (output : w.Output)
      → (id ≡ j) ⊎ Forgotten w id b
      → Forgotten w id (record b {
        pads = drop_pad w j b.pads;
        state = Ownership.remove_pad b.state j;
        mapper = (Mapper.remove_device b.mapper j).0;
        output = output;
      })
  unfolding Ownership.remove_pad
  forgets-again b id j output (inl same) =
      let itself : (j == id) ≡ true = ground (arith, ==_iff j id) in
      let itself' : (id == j) ≡ true = ground (arith, ==_iff id j) in
      (
        lookup-remove j id b.state.pads ∙ rw itself refl,
        λ c. remove_device-lookup b.mapper j (id, c) ∙ rw itself' refl,
      )
  forgets-again b id j output (inr h) = (
    lookup-remove j id b.state.pads ∙ if_none (j == id) h.0,
    λ c. remove_device-lookup b.mapper j (id, c) ∙ if_none (id == j) (h.1 c),
  )

  -- What was forgotten before stays so.
  forget-Forgotten :
      (b : Broker w) (done ids : List ℕ)
      → ((id : ℕ) → contains id done ≡ true → Forgotten w id b)
      → After
          (λ b'. (id : ℕ) → (contains id done || contains id ids) ≡ true → Forgotten w id b')
          (forget w b ids)
  unfolding forget contains
  forget-Forgotten b done [] h = λ id m. h id (ground arith)
  forget-Forgotten b done (j ∷ ids) h =
      let left = record b { pads = drop_pad w j b.pads; state = Ownership.remove_pad b.state j } in
      After-then (λ b'. (id : ℕ) → contains id (j ∷ done) ≡ true → Forgotten w id b')
        (λ b'. (id : ℕ) → (contains id done || contains id (j ∷ ids)) ≡ true → Forgotten w id b')
        (emit_mapped w left (Mapper.remove_device left.mapper j)) _
        (emit_mapped-After w (λ b'. (id : ℕ) → contains id (j ∷ done) ≡ true → Forgotten w id b')
          left (Mapper.remove_device left.mapper j).0 (Mapper.remove_device left.mapper j).1
          λ output id m. forgets-again b id j output (elim (Bool-cases (j == id)) [
            | inl q ↦ inl (sym ((==_iff j id).0 q))
            | inr q ↦ inr (h id (rw q at m))
          ]))
        λ b' k.
          After-map
            (λ b''.
              (id : ℕ) → (contains id (j ∷ done) || contains id ids) ≡ true → Forgotten w id b'')
            (λ b''.
              (id : ℕ) → (contains id done || contains id (j ∷ ids)) ≡ true → Forgotten w id b'')
            (forget w b' ids) (forget-Forgotten b' (j ∷ done) ids k)
            λ b'' l id m. l id (ground arith)

  all-Forgotten :
      (fetched : ℕ → Fetched) (all pads : List (Pad w)) (b : Broker w)
      → ((id : ℕ) → has_pad w id pads ≡ true → has_pad w id all ≡ true)
      → ((id : ℕ) → contains id (gone_ids w fetched all) ≡ true → Forgotten w id b)
      → AllForgotten w fetched pads b
  unfolding has_pad
  all-Forgotten fetched all [] b s h = tt
  all-Forgotten fetched all (p ∷ pads) b s h =
      let there : has_pad w p.id all ≡ true = s p.id (ground (arith, ==_iff p.id p.id)) in
      (
        forgotten_if w (fetched p.id) p.id b
            (λ g. h p.id (gone_ids-contains w fetched all p.id ∙ rw (g, there) refl)),
        all-Forgotten fetched all pads b (λ id m. s id (ground arith)) h,
      )

  not_none : (id : ℕ) → contains id [] ≡ true → ⊥
  unfolding contains
  not_none id h = cc

  rest : (id : ℕ) (ids : List ℕ) → (contains id [] || contains id ids) ≡ contains id ids
  unfolding contains
  rest id ids = refl

  ticked :
      (b : Broker w) (id now : ℕ)
      → Forgotten w id b
      → Forgotten w id (record b { state = (Ownership.tick b.state now).0 })
  unfolding Ownership.tick
  ticked b id now h = (tick_pads-lookup id b.state.pads now h.0, h.1)

  -- The pads that are gone leave and no other does: after the middle of a poll of a guarded broker,
  -- from the pads' events to the owner's tick, fatal errors apart, the broker has the pads that can
  -- still be read, in their order; of each pad that is gone, neither buttons nor keys of the mapper
  -- are left; and capture and clients are as before, and the broker is guarded: every pad is grabbed
  -- under a capture, and none without one.
  pub collect-Unplugged :
      (b : Broker w) (fetched : ℕ → Fetched)
      → IsGuarded w b
      → After
          (λ r.
            (r.0.pads ≡ staying w fetched b.pads)
            × AllForgotten w fetched b.pads r.0
            × Watched w b r.0)
          (collect w b fetched)
  unfolding collect Ownership.tick
  collect-Unplugged b fetched g =
      After-then (λ r. Kept w b r.0 × (r.2 ≡ gone_ids w fetched b.pads)) _
        (on_pads w b b.pads fetched _) _
        (After-both _ _ _ (on_pads-Kept w b b.pads fetched _) (on_pads-gone w b b.pads fetched _))
        λ r k.
          After-then _ _ (forget w r.0 r.2) _
            (After-both _ _ _ (forget-Watched w r.0 r.2 (Kept-IsGuarded w b r.0 k.0 g)) (
              After-both _ _ _ (forget-pads w r.0 r.2)
                (forget-Forgotten r.0 [] r.2 (λ id m. absurd (not_none id m)))))
            λ b'' l.
              let gone_now = λ (id : ℕ) (m : contains id (gone_ids w fetched b.pads) ≡ true).
                ticked b'' id b.now
                  (l.1.1 id (ap (λ ids. contains id [] || contains id ids) k.1 ∙ rest id _ ∙ m)) in
              (
                l.1.0
                    ∙ ap (without w r.2) k.0.1
                    ∙ ap (λ ids. without w ids b.pads) k.1
                    ∙ without-staying w fetched (gone_ids w fetched b.pads) b.pads
                        (λ id m. gone_ids-contains w fetched b.pads id ∙ rw m (both_true _)),
                all-Forgotten fetched b.pads b.pads
                    (record b'' { state = (Ownership.tick b''.state b.now).0 }) (λ id m. m)
                    gone_now,
                (l.0.0, l.0.1 ∙ k.0.0, l.0.2 ∙ k.0.2),
              )
