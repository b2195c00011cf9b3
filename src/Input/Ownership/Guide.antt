-- ===== src/Input/Ownership/Guide.antt =====
-- The guide button and its chord exclude one another
-- (services/hearthdeck-input/src/ownership.rs, `button`).
use hearthdeck.Prelude.{
  ℕ, ◌≡◌, refl, ◌⊎◌, inl, inr, Bool, true, false, not, ◌||◌, if◌then◌else◌, List, [], ◌∷◌, ◌++◌,
  arith, Bool-cases, ◌=?◌, contains, contains-insert_item, contains-delete,
}
use hearthdeck.Input.{Control, guide, control_eq, toggle_overlay}
use hearthdeck.Input.Ownership.{
  Owner, Signal, act, summon_keyboard, Pad, hold, changes, respond, on_guide, on_keyboard_chord,
  button_pad,
}

-- A button event other than the guide's: control, pressed, time, whether the keyboard is enabled.
abbrev pub Edge : Type 0
Edge = Control × Bool × ℕ × Bool

unfoldable pub edges : Owner → Pad → List Edge → Pad × List Signal
edges owner p [] = (p, [])
edges owner p ((c, pressed, now, k) ∷ es) =
    let (q, signals) = button_pad owner p c pressed now k in
    let (final, more) = edges owner q es in (final, signals ++ more)

abbrev pub Spares : List Edge → Type 0
Spares [] = Unit {0}
Spares ((c, _, _, _) ∷ es) = ((c =? guide) ≡ false) × Spares es

-- While the guide is held: the chord is spent or still open.
abbrev Waiting : Pad → Type 0
Waiting p = (p.armed ≡ true) × (contains guide p.held ≡ true)

-- What a guide press that is held may have emitted: nothing, or the keyboard chord, which spends it.
abbrev Chord : Bool → Bool → List Signal → Type 0
Chord used used' signals =
    ((signals ≡ []) × (used' ≡ used))
    ⊎ ((used ≡ false) × (signals ≡ summon_keyboard ∷ []) × (used' ≡ true))

respond_held :
    (owner : Owner) (p : Pad) (c : Control) (pressed : Bool) (now : ℕ) (k : Bool)
    → (c =? guide) ≡ false
    → Waiting p
    → let r = respond owner p c pressed now k in Waiting r.0 × Chord p.guide_used r.0.guide_used r.1
unfolding respond on_keyboard_chord
respond_held owner p c pressed now k g w = ground arith

hold-Waiting :
    (p : Pad) (c : Control) (pressed : Bool)
    → (c =? guide) ≡ false
    → Waiting p
    → Waiting (hold p c pressed)
hold-Waiting p c true g w = ground (arith, contains-insert_item c guide p.held)
hold-Waiting p c false g w = ground (arith, contains-delete c guide p.held)

button_pad_held :
    (owner : Owner) (p : Pad) (c : Control) (pressed : Bool) (now : ℕ) (k : Bool)
    → (c =? guide) ≡ false
    → Waiting p
    → let r = button_pad owner p c pressed now k in
      Waiting r.0 × Chord p.guide_used r.0.guide_used r.1
unfolding button_pad
button_pad_held owner p c pressed now k g w =
    elim (Bool-cases (not (changes p c pressed) || not p.armed)) [
      | inl e ↦ rw e (hold-Waiting p c pressed g w, inl (refl, refl))
      | inr e ↦
          rw e
            (respond_held owner (hold p c pressed) c pressed now k g (hold-Waiting p c pressed g w))
    ]

Chord-append :
    (u v w : Bool) (xs ys : List Signal) → Chord u v xs → Chord v w ys → Chord u w (xs ++ ys)
Chord-append u v w xs ys (inl (a, b)) (inl (c, d)) = ground arith
Chord-append u v w xs ys (inl (a, b)) (inr (c, d, e)) = ground arith
Chord-append u v w xs ys (inr (a, b, f)) (inl (c, d)) = ground arith
Chord-append u v w xs ys (inr (a, b, f)) (inr (c, d, e)) = ground arith

edges_held :
    (owner : Owner) (p : Pad) (es : List Edge)
    → Spares es
    → Waiting p
    → let r = edges owner p es in Waiting r.0 × Chord p.guide_used r.0.guide_used r.1
unfolding edges
edges_held owner p [] s w = (w, inl (refl, refl))
edges_held owner p ((c, pressed, now, k) ∷ es) s w =
    let (w', chord) = button_pad_held owner p c pressed now k s.0 w in
    let q : Pad = (button_pad owner p c pressed now k).0 in
    let (w'', chord') = edges_held owner q es s.1 w' in
    (w'', Chord-append p.guide_used q.guide_used _ _ _ chord chord')

guide_press :
    (owner : Owner) (p : Pad) (now : ℕ) (k : Bool)
    → p.armed ≡ true
    → contains guide p.held ≡ false
    → let r = button_pad owner p guide true now k in
      Waiting r.0 × (r.0.guide_used ≡ false) × (r.1 ≡ [])
unfolding button_pad respond on_guide
guide_press owner p now k h g = ground (arith, contains-insert_item guide guide p.held)

guide_release :
    (owner : Owner) (p : Pad) (now : ℕ) (k : Bool)
    → Waiting p
    → (button_pad owner p guide false now k).1
      ≡ (if p.guide_used then [] else act toggle_overlay ∷ [])
unfolding button_pad respond on_guide
guide_release owner p now k w = ground arith

-- An armed pad that does not hold guide presses it, has any other button events, and releases it: it
-- emits exactly one signal, either the keyboard chord while guide was held and nothing at the release, or nothing
-- while it was held and the overlay's toggle at the release.
pub guide_exclusive :
    (owner : Owner) (p : Pad) (t u : ℕ) (k l : Bool) (es : List Edge)
    → p.armed ≡ true
    → contains guide p.held ≡ false
    → Spares es
    → let pressed = button_pad owner p guide true t k in
      let during = edges owner pressed.0 es in
      let released = button_pad owner during.0 guide false u l in
      (pressed.1 ≡ [])
      × (((during.1 ≡ []) × (released.1 ≡ act toggle_overlay ∷ []))
          ⊎ ((during.1 ≡ summon_keyboard ∷ []) × (released.1 ≡ [])))
guide_exclusive owner p t u k l es h g s =
    let (w, fresh, silent) = guide_press owner p t k h g in
    let q : Pad = (button_pad owner p guide true t k).0 in
    let (w', chord) = edges_held owner q es s w in
    let r = guide_release owner (edges owner q es).0 u l w' in
    (silent, ground (arith, chord, r, fresh))
