-- ===== src/Input/Ownership/Pads.antt =====
-- The auto-repeat of a pad is never left over: it belongs to a direction that is still held, on a
-- pad that is armed, for an owner that navigates
-- (services/hearthdeck-input/src/ownership.rs).
use hearthdeck.Prelude.{
  ℕ, ◌≡◌, refl, ◌⊎◌, ap, sym, subst, inl, inr, Bool, true, false, ◌||◌, ◌&&◌, not, Option, none,
  some, List, [], ◌∷◌, arith, is_some_and, ◌=?◌, contains, delete, insert_item, contains-delete,
  contains-insert_item, delete_absent, insert_item_present, Option-cases, Bool-cases,
}
use hearthdeck.Input.{
  Control, guide, select, control_eq, control_iff, Action, action_eq, action_iff,
}
use hearthdeck.Input.Ownership.{
  Owner, frontend, overlay, same_owner, Pad, action, is_move, respond, on_frontend, navigate_by,
  rearm, on_guide, on_keyboard_chord, lone_select, keyboard_chord, button_pad, tick_pad, hold,
  changes, changes,
}

abbrev pub drives : Action → Control → Bool
drives a c = is_some_and (action c) (λ b. b =? a)

-- Whether a control of the set stands for the action.
abbrev pub driven : Action → List Control → Bool
driven a [] = false
driven a (c ∷ held) = drives a c || driven a held

driven_of_contains :
    (a : Action) (c : Control) (held : List Control)
    → contains c held ≡ true
    → drives a c ≡ true
    → driven a held ≡ true
unfolding contains
driven_of_contains a c [] h d = h
driven_of_contains a c (x ∷ held) h d = elim (Bool-cases (x =? c)) [
  | inl e ↦ rw ((control_iff x c).0 e, d) refl
  | inr e ↦ ground (arith, driven_of_contains a c held)
]

driven-insert_item :
    (a : Action) (c : Control) (held : List Control)
    → driven a (insert_item c held) ≡ (drives a c || driven a held)
unfolding insert_item
driven-insert_item a c held = elim (Bool-cases (contains c held)) [
  | inl old ↦ rw old (elim (Bool-cases (drives a c)) [
    | inl d ↦ rw d (driven_of_contains a c held old d)
    | inr d ↦ rw d
  ])
  | inr new ↦ rw new
]

driven-delete :
    (a : Action) (c : Control) (held : List Control)
    → drives a c ≡ false
    → driven a (delete c held) ≡ driven a held
unfolding delete
driven-delete a c [] d = refl
driven-delete a c (x ∷ held) d = elim (Bool-cases (x =? c)) [
  | inl e ↦ rw e (rw ((control_iff x c).0 e, d) (driven-delete a c held d))
  | inr e ↦ rw e (rw (driven-delete a c held d))
]

abbrev pub navigates : Owner → Bool
navigates owner = same_owner owner frontend || same_owner owner overlay

abbrev pub Steady : Owner → List Control → Bool → Option (Action × ℕ) → Type 0
Steady owner held armed none = Unit {0}
Steady owner held armed (some (a, at)) =
    (armed ≡ true)
    × (contains guide held ≡ false)
    × (driven a held ≡ true)
    × (is_move a ≡ true)
    × (navigates owner ≡ true)

abbrev pub IsSteady : Owner → Pad → Type 0
IsSteady owner p = Steady owner p.held p.armed p.repeat

-- What holds of a pad's repeat between the change of its held set and the answer to it.
abbrev Loose : Owner → Control → Bool → List Control → Bool → Option (Action × ℕ) → Type 0
Loose owner c pressed held armed none = Unit {0}
Loose owner c pressed held armed (some (a, at)) =
    ((c =? guide) ≡ false → contains guide held ≡ false)
    × (((c =? guide) && not pressed) ≡ false)
    × ((driven a held || (not pressed && drives a c)) ≡ true)
    × (is_move a ≡ true)
    × (navigates owner ≡ true)

navigate_by-IsSteady :
    (owner : Owner) (p : Pad) (c : Control) (pressed : Bool) (now : ℕ)
    → p.armed ≡ true
    → (c =? guide) ≡ false
    → contains guide p.held ≡ false
    → navigates owner ≡ true
    → (pressed ≡ true → contains c p.held ≡ true)
    → Loose owner c pressed p.held p.armed p.repeat
    → IsSteady owner (navigate_by p (action c) pressed now).0
unfolding navigate_by
navigate_by-IsSteady owner p c true now h g q n k l = elim (Option-cases p.repeat) [
  | inl e ↦ elim (Option-cases (action c)) [
    | inl d ↦ rw d (ground arith)
    | inr (b, d) ↦ rw d (ground (arith, driven_of_contains b c p.held (k refl), action_iff b b))
  ]
  | inr ((a, at), e) ↦ elim (Option-cases (action c)) [
    | inl d ↦ rw d (ground arith)
    | inr (b, d) ↦ rw d (ground (arith, driven_of_contains b c p.held (k refl), action_iff b b))
  ]
]
navigate_by-IsSteady owner p c false now h g q n k l = elim (Option-cases p.repeat) [
  | inl e ↦ elim (Option-cases (action c)) [
    | inl d ↦ rw d (ground arith)
    | inr (b, d) ↦ rw d (ground arith)
  ]
  | inr ((a, at), e) ↦ elim (Option-cases (action c)) [
    | inl d ↦ rw d (ground arith)
    | inr (b, d) ↦ rw d (ground (arith, action_iff a b, action_iff b a))
  ]
]

lone_select_quiet :
    (p : Pad) (c : Control) (pressed : Bool) (a : Action)
    → lone_select p c pressed ≡ true
    → drives a c ≡ false
unfolding lone_select
lone_select_quiet p c pressed a e = rw ((control_iff c select).0 (ground arith))

keyboard_chord_pressed :
    (p : Pad) (c : Control) (pressed : Bool) → keyboard_chord p c pressed ≡ true → pressed ≡ true
unfolding keyboard_chord
keyboard_chord_pressed p c pressed e = ground arith

on_frontend-IsSteady :
    (owner : Owner) (p : Pad) (c : Control) (pressed : Bool) (now : ℕ)
    → p.armed ≡ true
    → (c =? guide) ≡ false
    → contains guide p.held ≡ false
    → navigates owner ≡ true
    → (pressed ≡ true → contains c p.held ≡ true)
    → Loose owner c pressed p.held p.armed p.repeat
    → IsSteady owner (on_frontend p c pressed now).0
unfolding on_frontend
on_frontend-IsSteady owner p c pressed now h g q n k l =
    let rest = navigate_by-IsSteady owner (rearm p c pressed) c pressed now h g q n k l in
    elim (Option-cases p.repeat) [
      | inl e ↦ ground (arith, rest)
      | inr ((a, at), e) ↦ ground (
        arith,
        rest,
        lone_select_quiet (rearm p c pressed) c pressed a,
        keyboard_chord_pressed (rearm p c pressed) c pressed,
      )
    ]

on_guide-IsSteady :
    (owner : Owner) (p : Pad) (c : Control) (pressed : Bool)
    → (c =? guide) ≡ true
    → Loose owner c pressed p.held p.armed p.repeat
    → IsSteady owner (on_guide p pressed).0
unfolding on_guide
on_guide-IsSteady owner p c pressed g l = elim (Option-cases p.repeat) [
  | inl e ↦ ground arith
  | inr ((a, at), e) ↦ ground arith
]

chord-repeat :
    (owner : Owner) (p : Pad) (b : Bool)
    → IsSteady owner p
    → IsSteady owner (on_keyboard_chord owner p b).0
unfolding on_keyboard_chord
chord-repeat owner p b s = ground arith

respond-IsSteady :
    (owner : Owner) (p : Pad) (c : Control) (pressed : Bool) (now : ℕ) (keyboard_enabled : Bool)
    → p.armed ≡ true
    → (pressed ≡ true → contains c p.held ≡ true)
    → Loose owner c pressed p.held p.armed p.repeat
    → IsSteady owner (respond owner p c pressed now keyboard_enabled).0
unfolding respond
respond-IsSteady owner p c pressed now keyboard_enabled h k l = elim (Option-cases p.repeat) [
  | inl e ↦ ground (
    arith,
    navigate_by-IsSteady owner p c pressed now h,
    on_frontend-IsSteady owner p c pressed now h,
    on_guide-IsSteady owner p c pressed,
    chord-repeat owner p keyboard_enabled,
  )
  | inr ((a, at), e) ↦ ground (
    arith,
    navigate_by-IsSteady owner p c pressed now h,
    on_frontend-IsSteady owner p c pressed now h,
    on_guide-IsSteady owner p c pressed,
    chord-repeat owner p keyboard_enabled,
  )
]

hold-Loose :
    (owner : Owner) (p : Pad) (c : Control) (pressed : Bool)
    → changes p c pressed ≡ true
    → IsSteady owner p
    → Loose owner c pressed (hold p c pressed).held p.armed p.repeat
hold-Loose owner p c true h s = elim (Option-cases p.repeat) [
  | inl e ↦ rw e tt
  | inr ((a, at), e) ↦
      ground (arith, driven-insert_item a c p.held, contains-insert_item c guide p.held)
]
hold-Loose owner p c false h s = elim (Option-cases p.repeat) [
  | inl e ↦ rw e tt
  | inr ((a, at), e) ↦ ground (
    arith,
    driven-delete a c p.held,
    contains-delete c guide p.held,
    λ (g : (c =? guide) ≡ true).
        ap (λ (d : Control). contains d p.held) ((control_iff c guide).0 g),
  )
]

hold_unchanged :
    (p : Pad) (c : Control) (pressed : Bool) → changes p c pressed ≡ false → hold p c pressed ≡ p
hold_unchanged p c true e = ground (arith, insert_item_present c p.held)
hold_unchanged p c false e = ground (arith, delete_absent c p.held)

held-hold :
    (p : Pad) (c : Control) (pressed : Bool)
    → pressed ≡ true
    → contains c (hold p c pressed).held ≡ true
held-hold p c true e = ground (arith, contains-insert_item c c p.held)
held-hold p c false e = cc

unarmed-IsSteady :
    (owner : Owner) (p : Pad) (held : List Control)
    → p.armed ≡ false
    → IsSteady owner p
    → IsSteady owner (record p { held = held })
unarmed-IsSteady owner p held h s = elim (Option-cases p.repeat) [
  | inl e ↦ rw e tt
  | inr ((a, at), e) ↦ ground arith
]

-- A button event keeps the pad's repeat tied to a held direction, for the same owner.
pub button_pad-IsSteady :
    (owner : Owner) (p : Pad) (c : Control) (pressed : Bool) (now : ℕ) (keyboard_enabled : Bool)
    → IsSteady owner p
    → IsSteady owner (button_pad owner p c pressed now keyboard_enabled).0
unfolding button_pad
button_pad-IsSteady owner p c pressed now keyboard_enabled s =
    elim (Bool-cases (not (changes p c pressed) || not p.armed)) [
      | inl e ↦ rw e (quiet (ground arith))
      | inr e ↦
          let h : p.armed ≡ true = ground arith in
          rw e (
            respond-IsSteady owner (hold p c pressed) c pressed now keyboard_enabled h
              (held-hold p c pressed) (hold-Loose owner p c pressed (ground arith) s))
    ]
  where
    quiet : ((changes p c pressed) ≡ false) ⊎ (p.armed ≡ false) → IsSteady owner (hold p c pressed)
    quiet (inl e) = subst (IsSteady owner) (sym (hold_unchanged p c pressed e)) s
    quiet (inr e) = unarmed-IsSteady owner p (hold p c pressed).held e s

pub tick_pad-IsSteady :
    (owner : Owner) (p : Pad) (now : ℕ) → IsSteady owner p → IsSteady owner (tick_pad p now).0
unfolding tick_pad
tick_pad-IsSteady owner p now s = elim (Option-cases p.repeat) [
  | inl e ↦ ground arith
  | inr ((a, at), e) ↦ ground arith
]
