-- ===== src/Input/Ownership/Repeat.antt =====
-- How fast a held direction repeats (services/hearthdeck-input/src/ownership.rs, `tick`).
use hearthdeck.Prelude.{
  ℕ, ◌≡◌, refl, ◌≤◌, ◌<◌, ◌+◌, ◌*◌, ◌⊎◌, inl, inr, true, List, [], ◌∷◌, ◌++◌, arith, length, some,
}
use hearthdeck.Input.{Action}
use hearthdeck.Input.Ownership.{Signal, act, Pad, tick_pad}

-- Polls of one pad with no event between them.
unfoldable pub polls : Pad → List ℕ → Pad × List Signal
polls p [] = (p, [])
polls p (now ∷ times) =
    let (q, signals) = tick_pad p now in
    let (final, more) = polls q times in (final, signals ++ more)

abbrev pub AllUpTo : ℕ → List ℕ → Type 0
AllUpTo last [] = Unit {0}
AllUpTo last (t ∷ times) = (t ≤ last) × AllUpTo last times

abbrev pub Every : Action → List Signal → Type 0
Every a [] = Unit {0}
Every a (s ∷ signals) = (s ≡ act a) × Every a signals

pub tick_pad_repeat :
    (p : Pad) (a : Action) (at now : ℕ)
    → p.armed ≡ true
    → p.repeat ≡ some (a, at)
    → let r = tick_pad p now in
      (r.0.armed ≡ true)
      × (((now < at) × (r.1 ≡ []) × (r.0.repeat ≡ some (a, at)))
          ⊎ ((at ≤ now) × (r.1 ≡ act a ∷ []) × (r.0.repeat ≡ some (a, now + 180))))
unfolding tick_pad
tick_pad_repeat p a at now h e = ground arith

abbrev Paced : Action → ℕ → ℕ → List Signal → Type 0
Paced a at last signals =
    Every a signals × ((length signals ≡ 0) ⊎ (at + 180 * length signals ≤ last + 180))

-- One poll before the rest, whose bound starts from where the poll leaves the repeat.
Paced-poll :
    (p : Pad) (a : Action) (at now last : ℕ) (more : List Signal)
    → p.armed ≡ true
    → p.repeat ≡ some (a, at)
    → now ≤ last
    → ((next : ℕ) → (tick_pad p now).0.repeat ≡ some (a, next) → Paced a next last more)
    → Paced a at last ((tick_pad p now).1 ++ more)
Paced-poll p a at now last more h e b rest = elim (tick_pad_repeat p a at now h e).1 [
  | inl (w, quiet, e') ↦ rw quiet (rest at e')
  | inr (w, said, e') ↦
      rw said ((refl, (rest (now + 180) e').0), ground (arith, (rest (now + 180) e').1))
]

-- An armed pad whose repeat is due at `at`, polled at any times up to `last`, emits only the
-- repeated action, and is paced by 180 ms: it emits nothing, or its number n of signals satisfies
-- at + 180 * n ≤ last + 180, so that the first is not before `at`.
pub polls_rate :
    (p : Pad) (a : Action) (at last : ℕ) (times : List ℕ)
    → p.armed ≡ true
    → p.repeat ≡ some (a, at)
    → AllUpTo last times
    → let signals = (polls p times).1 in
      Every a signals × ((length signals ≡ 0) ⊎ (at + 180 * length signals ≤ last + 180))
unfolding polls
polls_rate p a at last [] h e b = (tt, inl refl)
polls_rate p a at last (now ∷ times) h e b =
    let q : Pad = (tick_pad p now).0 in
    let h' : q.armed ≡ true = (tick_pad_repeat p a at now h e).0 in
    Paced-poll p a at now last (polls q times).1 h e b.0
      λ next e'. polls_rate q a next last times h' e' b.1
