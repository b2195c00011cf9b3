-- ===== src/Frontend/Grid.antt =====
-- Where the library's cursor is, and where a step goes
-- (services/hearthdeck-frontend/src/screens/library/focus.rs).
pub mod Steps
pub mod Ring
pub mod Clamp
use hearthdeck.Prelude.{
  ℕ, zero, suc, ◌+◌, ◌-◌, ◌*◌, ◌/◌, ◌%◌, min, max, Bool, true, false, not, ◌&&◌, ◌||◌,
  if◌then◌else◌, ltb, leb, ◌==◌, Option, none, some, is_some_and,
}
use hearthdeck.Prelude.Int.{ℤ, pos, negsuc}

pub data Direction : Type 0 where
  up down left right : Direction

pub record Layout : Type 0 where
  pub sections : ℕ
  pub tabs : ℕ
  pub filter_button : Bool
  pub facets : ℕ
  pub drawer_open : Bool
  pub tiles : ℕ
  pub columns : ℕ

pub record Cursors : Type 0 where
  pub tile : ℕ
  pub column : ℕ
  pub filter_row : ℕ
  pub ring : Option ℕ

pub data Outcome : Type 0 where
  tile_at : ℕ → ℕ → Outcome
  filter_row_at : ℕ → Outcome
  filter_value : ℕ → ℤ → Outcome
  stayed : Outcome

pub data Chrome : Type 0 where
  section : ℕ → Chrome
  search_box : Chrome
  tab : ℕ → Chrome
  filter_button : Chrome

pub data Confirm : Type 0 where
  confirm_tile : ℕ → Confirm
  confirm_filter : ℕ → Confirm
  confirm_chrome : Chrome → Confirm
  nothing : Confirm

-- `usize::div_ceil`.
abbrev pub div_ceil : ℕ → ℕ → ℕ
div_ceil a b = if ltb 0 (a % b) then a / b + 1 else a / b

-- The `match direction` of `step_tile`, at the corrected tile and columns.
unfoldable pub step_tile_in : ℕ → ℕ → Direction → ℕ → ℕ → Option (ℕ × ℕ)
step_tile_in tile column left tiles columns =
    if ltb 0 (tile % columns) then some (tile - 1, tile % columns - 1) else none
step_tile_in tile column right tiles columns =
    if ltb (tile % columns + 1) columns && ltb tile (tiles - 1)
    then some (tile + 1, tile % columns + 1)
    else none
step_tile_in tile column up tiles columns =
    if ltb 0 (tile / columns)
    then some (min ((tile / columns - 1) * columns + column) (tile / columns * columns - 1), column)
    else none
step_tile_in tile column down tiles columns =
    if ltb (tile / columns + 1) (div_ceil tiles columns)
    then some (min ((tile / columns + 1) * columns + column) (tiles - 1), column)
    else none

unfoldable pub step_tile : ℕ → ℕ → Direction → ℕ → ℕ → Option (ℕ × ℕ)
step_tile tile column direction tiles columns =
    if tiles == 0
    then none
    else step_tile_in (min tile (tiles - 1)) (min column (max columns 1 - 1)) direction tiles
        (max columns 1)

-- The open drawer's `match direction`, at the corrected row.
abbrev pub step_drawer : ℕ → ℕ → Direction → Outcome
step_drawer row facets up = filter_row_at ((row + facets - 1) % facets)
step_drawer row facets down = filter_row_at ((row + 1) % facets)
step_drawer row facets left = filter_value row (negsuc 0)
step_drawer row facets right = filter_value row (pos 1)

abbrev pub moved : Option (ℕ × ℕ) → Outcome
moved none = stayed
moved (some (tile, column)) = tile_at tile column

unfoldable pub step : Cursors → Direction → Layout → Outcome
step c direction l =
    if l.drawer_open && ltb 0 l.facets
    then step_drawer (min c.filter_row (l.facets - 1)) l.facets direction
    else moved (step_tile c.tile c.column direction l.tiles l.columns)

unfoldable pub ring_len : Layout → ℕ
ring_len l = l.sections + 1 + l.tabs + (if l.filter_button then 1 else 0)

unfoldable pub ring_at : ℕ → Layout → Option Chrome
ring_at index l =
    if ltb index l.sections
    then some (section index)
    else if index - l.sections == 0
    then some search_box
    else if ltb (index - l.sections - 1) l.tabs
    then some (tab (index - l.sections - 1))
    else if index - l.sections - 1 == l.tabs && l.filter_button
    then some Chrome.filter_button
    else none

-- `cursors.ring.and_then(|index| ring_at(index, layout))`.
abbrev pub ring_stop : Option ℕ → Layout → Option Chrome
ring_stop none l = none
ring_stop (some index) l = ring_at index l

unfoldable pub focused_tile : Cursors → Layout → Option ℕ
focused_tile c l =
    if is_some_and (ring_stop c.ring l) (λ _. true)
    then none
    else if ltb c.tile l.tiles
    then some c.tile
    else none

-- `checked_sub(1)`.
abbrev pub checked_pred : ℕ → Option ℕ
checked_pred zero = none
checked_pred (suc n) = some n

-- The ring's step at a stop, corrected to the stops that there are.
abbrev pub ring_from : ℕ → Bool → ℕ → Option ℕ
ring_from index backwards stops =
    if backwards
    then checked_pred index
    else if ltb (index + 1) stops
    then some (index + 1)
    else none

abbrev pub ring_move : Option ℕ → Bool → ℕ → Option ℕ
ring_move none backwards stops = some (if backwards then stops - 1 else 0)
ring_move (some index) backwards stops = ring_from (min index (stops - 1)) backwards stops

unfoldable pub ring_step : Option ℕ → Bool → Layout → Option ℕ
ring_step ring backwards l = if ring_len l == 0 then none else ring_move ring backwards (ring_len l)

abbrev pub confirm_content : Cursors → Layout → Confirm
confirm_content c l =
    if l.drawer_open && ltb 0 l.facets
    then confirm_filter (min c.filter_row (l.facets - 1))
    else if ltb c.tile l.tiles
    then confirm_tile c.tile
    else nothing

abbrev pub confirm_at : Option Chrome → Cursors → Layout → Confirm
confirm_at (some stop) c l = confirm_chrome stop
confirm_at none c l = confirm_content c l

unfoldable pub confirm : Cursors → Layout → Confirm
confirm c l = confirm_at (ring_stop c.ring l) c l

abbrev pub clamp_ring : Option ℕ → ℕ → Option ℕ
clamp_ring none stops = none
clamp_ring (some index) stops = if ltb 0 stops then some (min index (stops - 1)) else none

unfoldable pub clamp : Cursors → Layout → Cursors
clamp c l = record {
  tile = min c.tile (l.tiles - 1);
  column = c.column;
  filter_row = min c.filter_row (max l.facets 1 - 1);
  ring = clamp_ring c.ring (ring_len l);
}
