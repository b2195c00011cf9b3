-- ===== src/Daemon/Activity/Journal.antt =====
-- What every row of the play journal says of how its play ended
-- (services/hearthdeck-daemon/src/activity.rs).
use hearthdeck.Prelude.{
  ◌≡◌, refl, Bool, true, false, ◌&&◌, ◌||◌, Option, Option-cases, none, some, List, [], ◌∷◌, String,
  string_eq, ◌=?◌, lookup, insert, lookup-insert, map, inl, inr, arith, is_some_and,
}
use hearthdeck.Prelude.Int.{ℤ}
use hearthdeck.Daemon.Protocol.{ApplicationSession, ActivityEntry}
use hearthdeck.Daemon.Activity.{
  Sqlite, SessionOutcome, closed, Play, Launch, ActivityStore, insert_play, upsert_launch,
  started_play, start_rows, sweep_row, close_row,
}

-- A closed play has an end and a duration, a running or an unclosed one has neither.
abbrev pub is_honest : SessionOutcome → Option String → Option ℤ → Bool
is_honest closed (some _) (some _) = true
is_honest closed _ _ = false
is_honest _ none none = true
is_honest _ _ _ = false

-- Each row is honest, and its item has a row of launches.
unfoldable pub all_kept : List (String × Launch) → List (String × Play) → Bool
all_kept launches [] = true
all_kept launches (row ∷ rows) =
    is_honest row.1.outcome row.1.ended_at row.1.duration_seconds
    && is_some_and (lookup row.1.item_id launches) (λ _. true)
    && all_kept launches rows

abbrev pub IsJournal : ActivityStore → Type 0
IsJournal store = all_kept store.launch_activity store.play_sessions ≡ true

pub kept-close :
    (q : Sqlite) (id now : String) (launches : List (String × Launch)) (rows : List (String × Play))
    → all_kept launches rows ≡ true
    → all_kept launches (map (close_row q id closed now) rows) ≡ true
unfolding all_kept
kept-close q id now launches [] h = refl
kept-close q id now launches (row ∷ rows) h = ground (arith, kept-close q id now launches rows)

pub kept-sweep :
    (launches : List (String × Launch)) (rows : List (String × Play))
    → all_kept launches rows ≡ true
    → all_kept launches (map sweep_row rows) ≡ true
unfolding all_kept
kept-sweep launches [] h = refl
kept-sweep launches (row ∷ rows) h = ground (arith, kept-sweep launches rows)

kept-insert :
    (launches : List (String × Launch)) (id : String) (p : Play) (rows : List (String × Play))
    → is_honest p.outcome p.ended_at p.duration_seconds ≡ true
    → is_some_and (lookup p.item_id launches) (λ _. true) ≡ true
    → all_kept launches rows ≡ true
    → all_kept launches (insert id p rows) ≡ true
unfolding all_kept insert
kept-insert launches id p [] hp hi h = ground arith
kept-insert launches id p (row ∷ rows) hp hi h =
    ground (arith, kept-insert launches id p rows hp hi)

kept-launches :
    (launches launches' : List (String × Launch)) (rows : List (String × Play))
    → ((k : String)
        → is_some_and (lookup k launches) (λ _. true) ≡ true
        → is_some_and (lookup k launches') (λ _. true) ≡ true)
    → all_kept launches rows ≡ true
    → all_kept launches' rows ≡ true
unfolding all_kept
kept-launches launches launches' [] more h = refl
kept-launches launches launches' (row ∷ rows) more h =
    ground (arith, more row.1.item_id, kept-launches launches launches' rows more)

lookup-insert_launch :
    (id k : String) (l : Launch) (rows : List (String × Launch))
    → is_some_and (lookup k (insert id l rows)) (λ _. true)
      ≡ (id =? k || is_some_and (lookup k rows) (λ _. true))
lookup-insert_launch id k l rows = ground (arith, lookup-insert id k l rows)

lookup-upsert :
    (id k snapshot now : String) (rows : List (String × Launch))
    → is_some_and (lookup k (upsert_launch id snapshot now rows)) (λ _. true)
      ≡ (id =? k || is_some_and (lookup k rows) (λ _. true))
lookup-upsert id k snapshot now rows = elim (Option-cases (lookup id rows)) [
  | inl e ↦ rw (is_some_and, upsert_launch, e) (lookup-insert_launch id k _ rows)
  | inr (l, e) ↦ rw (is_some_and, upsert_launch, e) (lookup-insert_launch id k _ rows)
]

kept-insert_play :
    (launches : List (String × Launch)) (id : String) (p : Play) (rows : List (String × Play))
    → is_honest p.outcome p.ended_at p.duration_seconds ≡ true
    → is_some_and (lookup p.item_id launches) (λ _. true) ≡ true
    → all_kept launches rows ≡ true
    → all_kept launches (insert_play id p rows) ≡ true
kept-insert_play launches id p rows hp hi h = elim (Option-cases (lookup id rows)) [
  | inl e ↦ rw (insert_play, e) (kept-insert launches id p rows hp hi h)
  | inr (_, e) ↦ rw (insert_play, e) h
]

pub start_rows-IsJournal :
    (q : Sqlite) (entry : ActivityEntry q.Value) (session : ApplicationSession)
    (launched_at started_at snapshot : String) (store : ActivityStore)
    → IsJournal store
    → IsJournal (start_rows q entry session launched_at started_at snapshot store)
start_rows-IsJournal q entry session launched_at started_at snapshot store h =
    let launches = upsert_launch entry.id snapshot launched_at store.launch_activity in
    let kept : all_kept launches store.play_sessions ≡ true =
      kept-launches store.launch_activity launches store.play_sessions
        (λ k m. ground (arith, lookup-upsert entry.id k snapshot launched_at store.launch_activity))
        h in
    let own : is_some_and (lookup entry.id launches) (λ _. true) ≡ true = ground (
      arith,
      lookup-upsert entry.id entry.id snapshot launched_at store.launch_activity,
      string_eq.beq_iff entry.id entry.id,
    ) in
    kept-insert_play launches session.id (started_play entry.id session started_at)
      store.play_sessions refl own kept
