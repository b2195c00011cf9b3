-- ===== src/Frontend/Details.antt =====
-- Where the details screen's cursor is, and where a step goes
-- (services/hearthdeck-frontend/src/screens/details/focus.rs). The names that `widget_id` gives the
-- renderer are left out.
use hearthdeck.Prelude.{
  ℕ, zero, suc, ◌+◌, ◌-◌, min, ◌≤◌, ◌<◌, ◌≡◌, refl, Bool, true, false, if◌then◌else◌, ltb, ◌==◌,
  ◌||◌, List, [], ◌∷◌, ◌++◌, Option, none, some, length, get_elem?, ◌>>=◌,
}
use hearthdeck.Frontend.Grid.{Direction, up, down, left, right}
pub mod Moves
pub mod Page
pub mod Rows
pub mod Steps

pub data Focus : Type 0 where
  play favorite disc play_later back : Focus
  screenshot : ℕ → Focus
  disc_choice : ℕ → Focus

-- The derived equality.
abbrev pub same_focus : Focus → Focus → Bool
same_focus play play = true
same_focus favorite favorite = true
same_focus disc disc = true
same_focus play_later play_later = true
same_focus back back = true
same_focus (screenshot a) (screenshot b) = a == b
same_focus (disc_choice a) (disc_choice b) = a == b
same_focus _ _ = false

unfoldable pub actions : Bool → List Focus
actions has_discs =
    if has_discs
    then back ∷ play ∷ favorite ∷ disc ∷ play_later ∷ []
    else back ∷ play ∷ favorite ∷ play_later ∷ []

pub record Layout : Type 0 where
  pub shots : ℕ
  pub discs : ℕ
  pub picker_open : Bool

-- `(first..first + count).map(Focus::Screenshot)`.
unfoldable pub screenshots : ℕ → ℕ → List Focus
screenshots first zero = []
screenshots first (suc count) = screenshot first ∷ screenshots (first + 1) count

-- `(first..first + count).map(|index| vec![Focus::DiscChoice(index)])`.
unfoldable pub choices : ℕ → ℕ → List (List Focus)
choices first zero = []
choices first (suc count) = (disc_choice first ∷ []) ∷ choices (first + 1) count

unfoldable pub page_rows : Layout → List (List Focus)
page_rows l = actions (ltb 1 l.discs) ∷ []

unfoldable pub rows : Layout → List (List Focus)
rows l =
    if l.picker_open
    then choices 0 l.discs
    else if ltb 0 l.shots
    then screenshots 0 l.shots ∷ page_rows l
    else page_rows l

-- `row.contains(&focus)`.
unfoldable pub contains_focus : Focus → List Focus → Bool
contains_focus focus [] = false
contains_focus focus (x ∷ row) = same_focus x focus || contains_focus focus row

-- `rows.iter().any(|row| row.contains(&focus))`.
unfoldable pub any_row : Focus → List (List Focus) → Bool
any_row focus [] = false
any_row focus (row ∷ rows) = contains_focus focus row || any_row focus rows

abbrev pub first_of : List (List Focus) → Focus
first_of [] = play
first_of ([] ∷ rows) = play
first_of ((focus ∷ row) ∷ rows) = focus

unfoldable pub clamp_in : List (List Focus) → Focus → Focus
clamp_in rows focus =
    if any_row focus rows then focus else if any_row play rows then play else first_of rows

unfoldable pub clamp : Layout → Focus → Focus
clamp l focus = clamp_in (rows l) focus

-- `row.iter().position(|candidate| *candidate == focus)`.
unfoldable pub column_of : Focus → List Focus → Option ℕ
column_of focus [] = none
column_of focus (x ∷ row) =
    let rest = column_of focus row in
    if same_focus x focus then some 0 else (rest >>= (λ i. some (suc i)))

-- `rows.iter().position(|row| row.contains(&focus))`, with the row itself.
unfoldable pub row_of : Focus → List (List Focus) → Option (ℕ × List Focus)
row_of focus [] = none
row_of focus (row ∷ rows) =
    let rest = row_of focus rows in
    if contains_focus focus row then some (0, row) else (rest >>= (λ (i, r). some (suc i, r)))

-- The index beside another in a direction, none below zero.
abbrev pub next_index : Direction → ℕ → Option ℕ
next_index left zero = none
next_index left (suc i) = some i
next_index up zero = none
next_index up (suc i) = some i
next_index right i = some (i + 1)
next_index down i = some (i + 1)

-- The `match direction` of `step`, at the row and the column of the cursor.
unfoldable pub step_at : List (List Focus) → ℕ → List Focus → ℕ → Direction → Option Focus
step_at rows row_index row column left = next_index left column >>= get_elem? row
step_at rows row_index row column right = next_index right column >>= get_elem? row
step_at rows row_index row column up =
    next_index up row_index >>= get_elem? rows >>= (λ r. get_elem? r (min column (length r - 1)))
step_at rows row_index row column down =
    next_index down row_index >>= get_elem? rows >>= (λ r. get_elem? r (min column (length r - 1)))

unfoldable pub step_in : List (List Focus) → Focus → Direction → Option Focus
step_in rows focus direction = row_of focus rows >>= (λ (row_index, row).
    column_of focus row >>= (λ column. step_at rows row_index row column direction))

unfoldable pub step : Layout → Focus → Direction → Option Focus
step l focus direction = step_in (rows l) focus direction
