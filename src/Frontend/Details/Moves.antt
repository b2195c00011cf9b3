-- ===== src/Frontend/Details/Moves.antt =====
-- Where each step goes on the details screen, control by control
-- (services/hearthdeck-frontend/src/screens/details/focus.rs).
use hearthdeck.Prelude.{
  ℕ, zero, suc, ◌+◌, min, Bool, true, false, ltb, if◌then◌else◌, Option, none, some,
}
use hearthdeck.Frontend.Grid.{Direction, up, down, left, right}
use hearthdeck.Frontend.Details.{
  Focus, play, favorite, disc, play_later, back, screenshot, disc_choice, Layout,
}

-- The controls of the page, from left to right: Back, Play, Favorite, the disc where there is a choice
-- of discs, Play Later.
abbrev pub left_of : Bool → Focus → Option Focus
left_of has_discs play = some back
left_of has_discs favorite = some play
left_of has_discs disc = some favorite
left_of true play_later = some disc
left_of false play_later = some favorite
left_of has_discs _ = none

abbrev pub right_of : Bool → Focus → Option Focus
right_of has_discs back = some play
right_of has_discs play = some favorite
right_of true favorite = some disc
right_of false favorite = some play_later
right_of has_discs disc = some play_later
right_of has_discs _ = none

abbrev pub place : Bool → Focus → ℕ
place has_discs play = 1
place has_discs favorite = 2
place has_discs disc = 3
place true play_later = 4
place false play_later = 3
place has_discs _ = 0

-- The control below a screenshot, the last one below those that stand further to the right.
abbrev pub below : Bool → ℕ → Focus
below has_discs zero = back
below has_discs (suc zero) = play
below has_discs (suc (suc zero)) = favorite
below true (suc (suc (suc zero))) = disc
below has_discs (suc (suc (suc _))) = play_later

-- The moves from a screenshot, which stand in a row above the controls.
abbrev pub from_screenshot : ℕ → Bool → ℕ → Direction → Option Focus
from_screenshot shots has_discs zero left = none
from_screenshot shots has_discs (suc k) left = some (screenshot k)
from_screenshot shots has_discs k right =
    if ltb (k + 1) shots then some (screenshot (k + 1)) else none
from_screenshot shots has_discs k up = none
from_screenshot shots has_discs k down = some (below has_discs k)

abbrev pub from_control : ℕ → Bool → Focus → Direction → Option Focus
from_control shots has_discs f left = left_of has_discs f
from_control shots has_discs f right = right_of has_discs f
from_control zero has_discs f up = none
from_control (suc shots) has_discs f up = some (screenshot (min (place has_discs f) shots))
from_control shots has_discs f down = none

-- The moves in the disc picker, a column.
abbrev pub choice_above : ℕ → Option Focus
choice_above zero = none
choice_above (suc k) = some (disc_choice k)

abbrev pub from_choice : ℕ → ℕ → Direction → Option Focus
from_choice discs k up = choice_above k
from_choice discs k down = if ltb (k + 1) discs then some (disc_choice (k + 1)) else none
from_choice discs k _ = none

abbrev pub move : Layout → Focus → Direction → Option Focus
move l (screenshot k) d = from_screenshot l.shots (ltb 1 l.discs) k d
move l (disc_choice k) d = from_choice l.discs k d
move l f d = from_control l.shots (ltb 1 l.discs) f d
