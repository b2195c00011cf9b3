-- ===== src/Input/Ownership/States.antt =====
-- The invariant of all the pads, over every history of the state
-- (services/hearthdeck-input/src/ownership.rs).
use hearthdeck.Prelude.{
  ℕ, ◌≡◌, refl, subst, ◌⊎◌, inl, inr, Bool, true, false, none, some, List, [], ◌∷◌, ◌++◌, arith,
  Option-cases, Bool-cases, lookup, insert, remove, nat_eq, ◌=?◌,
}
use hearthdeck.Input.{Control, Action}
use hearthdeck.Input.Ownership.{
  Owner, same_owner, Signal, act, Pad, default_pad, suspend_pad, pad_of, is_move, Ownership,
  default, suspend, set_owner, remove_pad, button, tick, tick_pad, tick_pads, armed, armed,
}
use hearthdeck.Input.Ownership.Repeat.{tick_pad_repeat}
use hearthdeck.Input.Ownership.Arming.{button_pad_unarmed}
use hearthdeck.Input.Ownership.Pads.{
  Steady, driven, IsSteady, button_pad-IsSteady, tick_pad-IsSteady,
}

abbrev pub AllPads {ℓ} : (Pad → Type ℓ) → List (ℕ × Pad) → Type ℓ
AllPads P [] = Unit
AllPads P ((id, p) ∷ pads) = P p × AllPads P pads

abbrev pub SteadyPads : Owner → List (ℕ × Pad) → Type 0
SteadyPads owner = AllPads (IsSteady owner)

lookup-IsSteady :
    (owner : Owner) (id : ℕ) (pads : List (ℕ × Pad))
    → SteadyPads owner pads
    → IsSteady owner (pad_of (lookup id pads))
unfolding lookup
lookup-IsSteady owner id [] s = tt
lookup-IsSteady owner id ((j, p) ∷ pads) s = elim (Bool-cases (j =? id)) [
  | inl e ↦ rw e s.0
  | inr e ↦ rw e (lookup-IsSteady owner id pads s.1)
]

insert-SteadyPads :
    (owner : Owner) (id : ℕ) (p : Pad) (pads : List (ℕ × Pad))
    → IsSteady owner p
    → SteadyPads owner pads
    → SteadyPads owner (insert id p pads)
unfolding insert
insert-SteadyPads owner id p [] h s = (h, tt)
insert-SteadyPads owner id p ((j, q) ∷ pads) h s = elim (Bool-cases (j =? id)) [
  | inl e ↦ rw e (h, s.1)
  | inr e ↦ rw e (s.0, insert-SteadyPads owner id p pads h s.1)
]

remove-SteadyPads :
    (owner : Owner) (id : ℕ) (pads : List (ℕ × Pad))
    → SteadyPads owner pads
    → SteadyPads owner (remove id pads)
unfolding remove
remove-SteadyPads owner id [] s = tt
remove-SteadyPads owner id ((j, q) ∷ pads) s = elim (Bool-cases (j =? id)) [
  | inl e ↦ rw e (remove-SteadyPads owner id pads s.1)
  | inr e ↦ rw e (s.0, remove-SteadyPads owner id pads s.1)
]

-- A suspended pad is steady for any owner, as it has no repeat.
suspend-SteadyPads : (owner : Owner) (o : Ownership) → SteadyPads owner (suspend o).pads
unfolding suspend
suspend-SteadyPads owner o = go o.pads
  where
    go : (pads : List (ℕ × Pad)) → SteadyPads owner (suspend (record o { pads = pads })).pads
    go [] = tt
    go ((id, p) ∷ pads) = (tt, go pads)

suspend-IsSteadyState : (o : Ownership) → SteadyPads (suspend o).owner (suspend o).pads
unfolding suspend
suspend-IsSteadyState o = suspend-SteadyPads o.owner o

tick_pads-SteadyPads :
    (owner : Owner) (now : ℕ) (pads : List (ℕ × Pad))
    → SteadyPads owner pads
    → SteadyPads owner (tick_pads pads now).0
unfolding tick_pads
tick_pads-SteadyPads owner now [] s = tt
tick_pads-SteadyPads owner now ((id, p) ∷ pads) s =
    (tick_pad-IsSteady owner p now s.0, tick_pads-SteadyPads owner now pads s.1)

pub data Operation : Type 0 where
  sets_owner : Owner → Operation
  suspends : Operation
  removes : ℕ → Operation
  presses : ℕ → Control → Bool → ℕ → Bool → Operation
  ticks : ℕ → Operation

unfoldable pub apply : Ownership → Operation → Ownership
apply o (sets_owner owner) = set_owner o owner
apply o suspends = suspend o
apply o (removes id) = remove_pad o id
apply o (presses id c pressed now k) = (button o id c pressed now k).0
apply o (ticks now) = (tick o now).0

unfoldable pub run : Ownership → List Operation → Ownership
run o [] = o
run o (op ∷ ops) = run (apply o op) ops

abbrev pub IsSteadyState : Ownership → Type 0
IsSteadyState o = SteadyPads o.owner o.pads

apply-IsSteadyState :
    (o : Ownership) (op : Operation) → IsSteadyState o → IsSteadyState (apply o op)
unfolding apply set_owner remove_pad button tick
apply-IsSteadyState o (sets_owner owner) s = elim (Bool-cases (same_owner o.owner owner)) [
  | inl e ↦ rw e s
  | inr e ↦ rw e (suspend-IsSteadyState (record o { owner = owner }))
]
apply-IsSteadyState o suspends s = suspend-IsSteadyState o
apply-IsSteadyState o (removes id) s = remove-SteadyPads o.owner id o.pads s
apply-IsSteadyState o (presses id c pressed now k) s =
    insert-SteadyPads o.owner id _ o.pads
      (button_pad-IsSteady o.owner (pad_of (lookup id o.pads)) c pressed now k
        (lookup-IsSteady o.owner id o.pads s))
      s
apply-IsSteadyState o (ticks now) s = tick_pads-SteadyPads o.owner now o.pads s

run-IsSteadyState :
    (o : Ownership) (ops : List Operation) → IsSteadyState o → IsSteadyState (run o ops)
unfolding run
run-IsSteadyState o [] s = s
run-IsSteadyState o (op ∷ ops) s = run-IsSteadyState (apply o op) ops (apply-IsSteadyState o op s)

-- Some pad is armed and holds a control that stands for the action.
abbrev pub Held : Action → List (ℕ × Pad) → Type 0
Held a [] = ⊥
Held a ((id, p) ∷ pads) = ((p.armed ≡ true) × (driven a p.held ≡ true)) ⊎ Held a pads

-- Each signal is a direction that an armed pad is holding.
abbrev pub Directions : List (ℕ × Pad) → List Signal → Type 0
Directions pads [] = Unit {0}
Directions pads (s ∷ signals) =
    ((a : Action) × (s ≡ act a) × (is_move a ≡ true) × Held a pads) × Directions pads signals

Directions-append :
    (pads : List (ℕ × Pad)) (xs ys : List Signal)
    → Directions pads xs
    → Directions pads ys
    → Directions pads (xs ++ ys)
Directions-append pads [] ys h k = k
Directions-append pads (x ∷ xs) ys h k = (h.0, Directions-append pads xs ys h.1 k)

Directions-weaken :
    (id : ℕ) (p : Pad) (pads : List (ℕ × Pad)) (xs : List Signal)
    → Directions pads xs
    → Directions ((id, p) ∷ pads) xs
Directions-weaken id p pads [] h = h
Directions-weaken id p pads (x ∷ xs) h =
    let (a, e, m, held) = h.0 in ((a, e, m, inr held), Directions-weaken id p pads xs h.1)

tick_pad_quiet : (p : Pad) (now : ℕ) → p.repeat ≡ none → (tick_pad p now).1 ≡ []
unfolding tick_pad
tick_pad_quiet p now e = ground arith

tick_pad-Directions :
    (owner : Owner) (id : ℕ) (p : Pad) (pads : List (ℕ × Pad)) (now : ℕ)
    → IsSteady owner p
    → Directions ((id, p) ∷ pads) (tick_pad p now).1
tick_pad-Directions owner id p pads now s = elim (Option-cases p.repeat) [
  | inl e ↦ rw (tick_pad_quiet p now e) tt
  | inr ((a, at), e) ↦ emits a at e (subst (Steady owner p.held p.armed) e s)
]
  where
    emits :
        (a : Action) (at : ℕ)
        → p.repeat ≡ some (a, at)
        → Steady owner p.held p.armed (some (a, at))
        → Directions ((id, p) ∷ pads) (tick_pad p now).1
    emits a at e s' = elim (tick_pad_repeat p a at now s'.0 e).1 [
      | inl (w, quiet, e') ↦ rw quiet tt
      | inr (w, said, e') ↦ rw said ((a, refl, s'.3, inl (s'.0, s'.2)), tt)
    ]

tick_pads-Directions :
    (owner : Owner) (now : ℕ) (pads : List (ℕ × Pad))
    → SteadyPads owner pads
    → Directions pads (tick_pads pads now).1
unfolding tick_pads
tick_pads-Directions owner now [] s = tt
tick_pads-Directions owner now ((id, p) ∷ pads) s =
    Directions-append ((id, p) ∷ pads) _ _ (tick_pad-Directions owner id p pads now s.0)
      (Directions-weaken id p pads _ (tick_pads-Directions owner now pads s.1))

-- After any history of operations, every signal of a tick is one of the four directions, and a pad
-- that is armed holds a control which stands for it.
pub tick-Directions :
    (ops : List Operation) (now : ℕ)
    → Directions (run default ops).pads (tick (run default ops) now).1
unfolding tick
tick-Directions ops now =
    let o = run default ops in
    tick_pads-Directions o.owner now o.pads (run-IsSteadyState default ops tt)

lookup-suspend :
    (id : ℕ) (o : Ownership)
    → (lookup id (suspend o).pads ≡ none)
      ⊎ ((p : Pad) × (lookup id (suspend o).pads ≡ some p) × (p.armed ≡ false))
unfolding suspend lookup
lookup-suspend id o = go o.pads
  where
    go :
        (pads : List (ℕ × Pad))
        → (lookup id (suspend (record o { pads = pads })).pads ≡ none)
          ⊎ ((p : Pad) × (lookup id (suspend (record o { pads = pads })).pads ≡ some p)
              × (p.armed ≡ false))
    go [] = inl refl
    go ((j, p) ∷ pads) = elim (Bool-cases (j =? id)) [
      | inl e ↦ rw e (inr (suspend_pad p, refl, refl))
      | inr e ↦ rw e (go pads)
    ]

-- When the owner changes, every pad is disarmed: the next button event of any pad, known or new,
-- has no signal for the new owner.
pub set_owner-button :
    (o : Ownership) (owner : Owner) (id : ℕ) (c : Control) (pressed : Bool) (now : ℕ) (k : Bool)
    → same_owner o.owner owner ≡ false
    → ((button (set_owner o owner) id c pressed now k).1 ≡ [])
      × (armed (set_owner o owner) id ≡ false)
unfolding set_owner button armed
set_owner-button o owner id c pressed now k e = rw e (elim (lookup-suspend id o') [
  | inl h ↦ (rw (h, button_pad_unarmed (suspend o').owner default_pad c pressed now k refl), rw h)
  | inr (p, h, q) ↦ (rw (h, button_pad_unarmed (suspend o').owner p c pressed now k q), rw h q)
])
  where
    o' : Ownership
    o' = record o { owner = owner }
