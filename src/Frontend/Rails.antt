-- ===== src/Frontend/Rails.antt =====
-- Where the dashboard's cursor is, and where a step goes
-- (services/hearthdeck-frontend/src/screens/dashboard/focus.rs). A `usize` is a natural number, and
-- the `i32` that counts rails in `shift_rail` is one too, since the loop ends below zero. The
-- functions that scroll a rail's picture compute with floating point and are left out.
use hearthdeck.Prelude.{
  ℕ, zero, suc, ◌+◌, ◌-◌, min, ◌≤◌, ◌<◌, ◌≡◌, refl, Bool, true, false, if◌then◌else◌, ltb, List, [],
  ◌∷◌, Option, none, some, length, get_elem?, arith,
}
use mathlib.Core.Option.{map}
use hearthdeck.Frontend.Grid.{Direction, up, down, left, right}
pub mod Clamp
pub mod Steps

pub record Cursor : Type 0 where
  pub rail : ℕ
  pub card : ℕ
  pub remembered : ℕ

abbrev pub or_zero : Option ℕ → ℕ
or_zero none = 0
or_zero (some n) = n

unfoldable pub cards_in : List ℕ → ℕ → ℕ
cards_in rails index = or_zero (get_elem? rails index)

-- `rails.iter().position(|cards| *cards > 0)`.
unfoldable pub first_filled : List ℕ → Option ℕ
first_filled [] = none
first_filled (cards ∷ rails) =
    let rest = first_filled rails in if ltb 0 cards then some 0 else map suc rest

unfoldable pub rail_of : Cursor → List ℕ → ℕ
rail_of c rails = if ltb 0 (cards_in rails c.rail) then c.rail else or_zero (first_filled rails)

unfoldable pub clamp : Cursor → List ℕ → Cursor
clamp c rails = record {
  rail = rail_of c rails;
  card = min c.card (cards_in rails (rail_of c rails) - 1);
  remembered = c.remembered;
}

abbrev pub land : Cursor → List ℕ → ℕ → Cursor
land c rails index = record {
  rail = index;
  card = min c.remembered (cards_in rails index - 1);
  remembered = c.remembered;
}

-- The loop of `shift_rail` towards the first rail, at the rail after the one it looks at.
unfoldable pub scan_up : Cursor → List ℕ → ℕ → Cursor
scan_up c rails zero = c
scan_up c rails (suc index) =
    let rest = scan_up c rails index in
    if ltb 0 (cards_in rails index) then land c rails index else rest

-- The loop of `shift_rail` towards the last rail, on as much fuel as there are rails left.
unfoldable pub scan_down : Cursor → List ℕ → ℕ → ℕ → Cursor
scan_down c rails zero index = c
scan_down c rails (suc fuel) index =
    let rest = scan_down c rails fuel (index + 1) in
    if ltb 0 (cards_in rails index) then land c rails index else rest

abbrev pub moved_to : Cursor → ℕ → Cursor
moved_to c card = record { rail = c.rail; card = card; remembered = card }

unfoldable pub step_from : Cursor → Direction → List ℕ → Cursor
step_from c left rails = moved_to c (c.card - 1)
step_from c right rails = moved_to c (min (c.card + 1) (cards_in rails c.rail - 1))
step_from c up rails = scan_up c rails c.rail
step_from c down rails = scan_down c rails (length rails - (c.rail + 1)) (c.rail + 1)

unfoldable pub step : Cursor → Direction → List ℕ → Cursor
step c direction rails = step_from (clamp c rails) direction rails

unfoldable pub confirm_at : Cursor → List ℕ → Option (ℕ × ℕ)
confirm_at c rails = if ltb c.card (cards_in rails c.rail) then some (c.rail, c.card) else none

unfoldable pub confirm : Cursor → List ℕ → Option (ℕ × ℕ)
confirm c rails = confirm_at (clamp c rails) rails
