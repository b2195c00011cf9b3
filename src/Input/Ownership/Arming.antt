-- ===== src/Input/Ownership/Arming.antt =====
-- A pad says nothing to a new owner until all its controls were let go of
-- (services/hearthdeck-input/src/ownership.rs, `suspend`, `button`, `tick`).
use hearthdeck.Prelude.{ℕ, ◌≡◌, refl, Bool, true, false, not, ◌||◌, List, [], ◌∷◌, ◌++◌, arith}
use hearthdeck.Input.{Control}
use hearthdeck.Input.Ownership.{Owner, Signal, Pad, hold, changes, button_pad, tick_pad, is_empty}

-- What can happen to one pad while its owner stays.
pub data PadEvent : Type 0 where
  edge : Control → Bool → ℕ → Bool → PadEvent
  poll : ℕ → PadEvent

unfoldable pub pad_step : Owner → Pad → PadEvent → Pad × List Signal
pad_step owner p (edge c pressed now keyboard_enabled) =
    button_pad owner p c pressed now keyboard_enabled
pad_step owner p (poll now) = tick_pad p now

unfoldable pub pad_run : Owner → Pad → List PadEvent → Pad × List Signal
pad_run owner p [] = (p, [])
pad_run owner p (e ∷ es) =
    let (q, signals) = pad_step owner p e in
    let (final, more) = pad_run owner q es in (final, signals ++ more)

-- Whether some poll of the history found the pad with every control let go of.
unfoldable pub neutral_poll : Owner → Pad → List PadEvent → Bool
neutral_poll owner p [] = false
neutral_poll owner p (edge c pressed now keyboard_enabled ∷ es) =
    neutral_poll owner (pad_step owner p (edge c pressed now keyboard_enabled)).0 es
neutral_poll owner p (poll now ∷ es) =
    is_empty p.held || neutral_poll owner (pad_step owner p (poll now)).0 es

pub button_pad_unarmed :
    (owner : Owner) (p : Pad) (c : Control) (pressed : Bool) (now : ℕ) (keyboard_enabled : Bool)
    → p.armed ≡ false
    → button_pad owner p c pressed now keyboard_enabled ≡ (hold p c pressed, [])
unfolding button_pad
button_pad_unarmed owner p c pressed now keyboard_enabled h =
    let t : (not (changes p c pressed) || not p.armed) ≡ true = ground arith in rw t

tick_pad_unarmed :
    (p : Pad) (now : ℕ) → p.armed ≡ false → is_empty p.held ≡ false → tick_pad p now ≡ (p, [])
unfolding tick_pad
tick_pad_unarmed p now h e = ground arith

-- From the moment a pad is disarmed, whatever its buttons do and however often it is polled, it
-- emits no signal and stays disarmed as long as no poll finds all its controls let go of.
pub pad_run_disarmed :
    (owner : Owner) (p : Pad) (es : List PadEvent)
    → p.armed ≡ false
    → neutral_poll owner p es ≡ false
    → ((pad_run owner p es).1 ≡ []) × ((pad_run owner p es).0.armed ≡ false)
unfolding pad_run pad_step neutral_poll
pad_run_disarmed owner p [] h n = (refl, h)
pad_run_disarmed owner p (edge c pressed now k ∷ es) h n =
    let same = button_pad_unarmed owner p c pressed now k h in
    rw same (pad_run_disarmed owner (hold p c pressed) es h (rw same at n))
pad_run_disarmed owner p (poll now ∷ es) h n =
    let same = tick_pad_unarmed p now h (ground arith) in
    rw same (pad_run_disarmed owner p es h (rw same at (rest (is_empty p.held) _ n)))
  where
    rest : (a b : Bool) → (a || b) ≡ false → b ≡ false
    rest a b e = ground arith
