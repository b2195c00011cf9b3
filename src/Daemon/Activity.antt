-- ===== src/Daemon/Activity.antt =====
-- The play journal (services/hearthdeck-daemon/src/activity.rs): the two tables, and the statements
-- on them as functions of their rows. A statement's argument `ok` is whether the database carries it
-- out; the code's `Err` is `none`. `now` is what `strftime` gives at the statement.
pub mod Running
pub mod Journal
pub mod Ended
pub mod Games
use hearthdeck.Prelude.{
  ℕ, zero, suc, ◌+◌, ◌≡◌, min, max, Bool, true, false, not, if◌then◌else◌, Option, none, some, List,
  [], ◌∷◌, String, string_eq, ◌=?◌, lookup, insert, length, ◌>>=◌, map, is_some_and, leb_text, take,
}
use hearthdeck.Prelude.Int.{ℤ}
use hearthdeck.Daemon.Protocol.{ActivityEntry, RecentActivity, ApplicationSession}

-- What the store uses of the JSON library and of SQLite: an entry as text and back, the source and
-- the lowered kind of such a text, and the whole seconds between two times.
pub record Sqlite : Type 1 where
  pub Value : Type 0
  pub to_string : ActivityEntry Value → Option String
  pub from_str : String → Option (ActivityEntry Value)
  pub extract_source : String → Option String
  pub lower_kind : String → Option String
  pub seconds : String → String → ℤ
  pub from_to : (e : ActivityEntry Value) (s : String) → to_string e ≡ some s → from_str s ≡ some e
  pub source_to :
      (e : ActivityEntry Value) (s : String)
      → to_string e ≡ some s
      → extract_source s ≡ some e.source

pub data SessionOutcome : Type 0 where
  running closed unclosed : SessionOutcome

abbrev pub is_running : SessionOutcome → Bool
is_running running = true
is_running _ = false

-- A row of `launch_activity` under its key, the item.
pub record Launch : Type 0 where
  pub snapshot_json : String
  pub last_launched_at : String
  pub launch_count : ℕ

-- A row of `play_sessions` under its key, the session.
pub record Play : Type 0 where
  pub item_id : String
  pub source_id : String
  pub started_at : String
  pub ended_at : Option String
  pub outcome : SessionOutcome
  pub duration_seconds : Option ℤ

pub record ActivityStore : Type 0 where
  pub launch_activity : List (String × Launch)
  pub play_sessions : List (String × Play)

-- ORDER BY: rows that are equal in the order stay as in the table.
module _ {A : Type 0} (is_before : A → A → Bool) where
  abbrev pub insert_ordered : A → List A → List A
  insert_ordered a [] = a ∷ []
  insert_ordered a (b ∷ rows) = if is_before a b then a ∷ b ∷ rows else b ∷ insert_ordered a rows

  unfoldable pub order_by : List A → List A
  order_by [] = []
  order_by (a ∷ rows) = insert_ordered a (order_by rows)

-- INSERT INTO launch_activity, or the update of the row that has the key.
abbrev pub upsert_launch :
    String → String → String → List (String × Launch) → List (String × Launch)
upsert_launch id snapshot now rows = elim (lookup id rows) [
  | none ↦
      insert id (record { snapshot_json = snapshot; last_launched_at = now; launch_count = 1 }) rows
  | some l ↦
      insert id
        (record {
          snapshot_json = snapshot;
          last_launched_at = now;
          launch_count = l.launch_count + 1;
        })
        rows
]

-- INSERT INTO play_sessions, or nothing if a row has the key.
abbrev pub insert_play : String → Play → List (String × Play) → List (String × Play)
insert_play id play rows = elim (lookup id rows) [ none ↦ insert id play rows | some _ ↦ rows ]

abbrev pub has_id : String → String × Play → Bool
has_id id row = if row.0 =? id then is_running row.1.outcome else false

-- The item of the first row that `UPDATE … RETURNING item_id` changes.
unfoldable pub returned_item : String → List (String × Play) → Option String
returned_item id [] = none
returned_item id (row ∷ rows) = if has_id id row then some row.1.item_id else returned_item id rows

-- The ids of the rows whose outcome is `running`, with the times they started at.
unfoldable pub running_rows : List (String × Play) → List (String × String)
running_rows [] = []
running_rows (row ∷ rows) =
    if is_running row.1.outcome
    then (row.0, row.1.started_at) ∷ running_rows rows
    else running_rows rows

abbrev pub sweep_row : String × Play → String × Play
sweep_row row =
    if is_running row.1.outcome then (row.0, record row.1 { outcome = unclosed }) else row

abbrev pub started_play : String → ApplicationSession → String → Play
started_play item session now = record {
  item_id = item;
  source_id = session.source_id;
  started_at = now;
  ended_at = none;
  outcome = running;
  duration_seconds = none;
}

module _ (q : Sqlite) where
  abbrev pub close_row : String → SessionOutcome → String → String × Play → String × Play
  close_row id outcome now row =
      if has_id id row
      then (
        row.0,
        record row.1 {
          ended_at = some now;
          outcome = outcome;
          duration_seconds = some (q.seconds row.1.started_at now);
        },
      )
      else row

  abbrev pub start_rows :
      ActivityEntry q.Value
      → ApplicationSession
      → String
      → String
      → String
      → ActivityStore
      → ActivityStore
  start_rows entry session launched_at started_at snapshot store = record {
    launch_activity = upsert_launch entry.id snapshot launched_at store.launch_activity;
    play_sessions =
        insert_play session.id (started_play entry.id session started_at) store.play_sessions;
  }

  -- The transaction: both rows, or neither.
  unfoldable pub session_started :
      ActivityEntry q.Value
      → ApplicationSession
      → String
      → String
      → Bool
      → ActivityStore
      → Option ActivityStore
  session_started entry session launched_at started_at ok store = do
    snapshot ← q.to_string entry
    if ok then some (start_rows entry session launched_at started_at snapshot store) else none

  abbrev pub source_of : String → List (String × Launch) → Option String
  source_of item launches = elim (lookup item launches) [
    | none ↦ none
    | some l ↦ q.extract_source l.snapshot_json
  ]

  -- The first statement closes the play, the second looks its source up. The second may fail when
  -- the first has been carried out.
  unfoldable pub session_ended :
      String
      → SessionOutcome
      → String
      → Bool
      → Bool
      → ActivityStore
      → ActivityStore × Option (Option String)
  session_ended id outcome now update_ok select_ok store =
      if update_ok
      then (
        record store { play_sessions = map (close_row id outcome now) store.play_sessions },
        elim (returned_item id store.play_sessions) [
          | none ↦ some none
          | some item ↦ if select_ok then some (source_of item store.launch_activity) else none
        ],
      )
      else (store, none)

  unfoldable pub recent_activity_from_row : Launch → Option (RecentActivity q.Value)
  recent_activity_from_row l = do
    entry ← q.from_str l.snapshot_json
    some (record {
      entry = entry;
      last_launched_at = l.last_launched_at;
      launch_count = l.launch_count;
    })

  abbrev pub is_game : Launch → Bool
  is_game l = is_some_and (q.lower_kind l.snapshot_json) (λ kind. kind =? "game")

  unfoldable pub game_rows : List (String × Launch) → List Launch
  game_rows [] = []
  game_rows (row ∷ rows) = if is_game row.1 then row.1 ∷ game_rows rows else game_rows rows

  -- A text that is no entry fails the call.
  abbrev pub collect : List Launch → Option (List (RecentActivity q.Value))
  collect [] = some []
  collect (l ∷ rows) = do
    recent ← recent_activity_from_row l
    rest ← collect rows
    some (recent ∷ rest)

  -- `limit.clamp(1, 50)` rows, the latest launch first.
  unfoldable pub recent_games : ℕ → Bool → ActivityStore → Option (List (RecentActivity q.Value))
  recent_games limit ok store =
      if ok
      then collect (
          take (min (max limit 1) 50) (
            order_by (λ a b. leb_text b.last_launched_at a.last_launched_at)
              (game_rows store.launch_activity)))
      else none

unfoldable pub running_sessions : Bool → ActivityStore → Option (List String)
running_sessions ok store =
    if ok
    then some
        (map (λ row. row.0) (order_by (λ a b. leb_text a.1 b.1) (running_rows store.play_sessions)))
    else none

unfoldable pub sweep_running_sessions : Bool → ActivityStore → ActivityStore × Option ℕ
sweep_running_sessions ok store =
    if ok
    then (
      record store { play_sessions = map sweep_row store.play_sessions },
      some (length (running_rows store.play_sessions)),
    )
    else (store, none)
