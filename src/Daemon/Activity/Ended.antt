-- ===== src/Daemon/Activity/Ended.antt =====
-- The end of a play, once (services/hearthdeck-daemon/src/activity.rs).
use hearthdeck.Prelude.{
  some-injective, inl, inr, ◌≡◌, refl, subst, ap, ◌∙◌, Bool, true, false, Option-cases, none, some,
  List, [], ◌∷◌, String, string_eq, lookup, insert, lookup-insert, map, arith, >>=-eq-some,
}
use hearthdeck.Daemon.Protocol.{ApplicationSession, ActivityEntry}
use hearthdeck.Daemon.Activity.{
  Sqlite, SessionOutcome, closed, is_running, Play, Launch, ActivityStore, insert_play,
  upsert_launch, started_play, start_rows, session_started, session_ended, returned_item, close_row,
  source_of,
}
use hearthdeck.Daemon.Activity.Running.{
  is_playing, none-returned_item, close-is_playing, close-absent,
}

-- A play that is not running is closed by nothing.
pub session_ended-absent :
    (q : Sqlite) (id now : String) (outcome : SessionOutcome) (select_ok : Bool)
    (store : ActivityStore)
    → is_playing id store.play_sessions ≡ false
    → session_ended q id outcome now true select_ok store ≡ (store, some none)
unfolding session_ended
session_ended-absent q id now outcome select_ok store h =
    rw
      (
        none-returned_item id store.play_sessions h,
        close-absent q id now outcome store.play_sessions h,
      )
      refl

-- Only the first close of a play writes: after a close that the database carried out, a further one
-- changes nothing and answers with no source, whatever its outcome and time.
pub session_ended-twice :
    (q : Sqlite) (id now later : String) (outcome : SessionOutcome) (select_ok select_ok' : Bool)
    (store : ActivityStore)
    → session_ended q id outcome later true select_ok'
        (session_ended q id closed now true select_ok store).0
      ≡ ((session_ended q id closed now true select_ok store).0, some none)
unfolding session_ended
session_ended-twice q id now later outcome select_ok select_ok' store =
    session_ended-absent q id later outcome select_ok'
      (session_ended q id closed now true select_ok store).0
      (ground (arith, close-is_playing q id id now store.play_sessions, string_eq.beq_iff id id))

returned-insert :
    (id : String) (p : Play) (rows : List (String × Play))
    → lookup id rows ≡ none
    → is_running p.outcome ≡ true
    → returned_item id (insert id p rows) ≡ some p.item_id
unfolding returned_item insert lookup
returned-insert id p [] h r = ground (arith, string_eq.beq_iff id id)
returned-insert id p (row ∷ rows) h r =
    ground (arith, returned-insert id p rows, string_eq.beq_iff id id)

lookup-close :
    (q : Sqlite) (id now : String) (outcome : SessionOutcome) (p : Play)
    (rows : List (String × Play))
    → lookup id rows ≡ some p
    → lookup id (map (close_row q id outcome now) rows)
      ≡ some ((close_row q id outcome now (id, p)).1)
unfolding lookup
lookup-close q id now outcome p [] h = ground arith
lookup-close q id now outcome p (row ∷ rows) h =
    ground (arith, lookup-close q id now outcome p rows, string_eq.beq_iff id id)

source_of-insert :
    (q : Sqlite) (id : String) (l : Launch) (rows : List (String × Launch))
    → source_of q id (insert id l rows) ≡ q.extract_source l.snapshot_json
source_of-insert q id l rows =
    rw (source_of, lookup-insert id id l rows, (string_eq.beq_iff id id).1 refl) refl

source_of-upsert :
    (q : Sqlite) (id snapshot now : String) (rows : List (String × Launch))
    → source_of q id (upsert_launch id snapshot now rows) ≡ q.extract_source snapshot
source_of-upsert q id snapshot now rows = elim (Option-cases (lookup id rows)) [
  | inl e ↦ rw (source_of, upsert_launch, e) (source_of-insert q id _ rows)
  | inr (l, e) ↦ rw (source_of, upsert_launch, e) (source_of-insert q id _ rows)
]

-- The row of a play that has ended.
abbrev pub ended_play : Sqlite → String → ApplicationSession → String → String → Play
ended_play q item session started_at now = record (started_play item session started_at) {
  ended_at = some now;
  outcome = closed;
  duration_seconds = some (q.seconds started_at now);
}

-- The play of a session closes with the source of the entry, and leaves one row with its start, its
-- end and the time between.
abbrev pub ClosesWith :
    (q : Sqlite)
    → ActivityEntry q.Value
    → ApplicationSession
    → String
    → String
    → ActivityStore
    → Type 0
ClosesWith q entry session started_at now store =
    ((session_ended q session.id closed now true true store).1 ≡ some (some entry.source))
    × (lookup session.id (session_ended q session.id closed now true true store).0.play_sessions
        ≡ some (ended_play q entry.id session started_at now))

start_rows-ClosesWith :
    (q : Sqlite) (entry : ActivityEntry q.Value) (session : ApplicationSession)
    (launched_at started_at now snapshot : String) (store : ActivityStore)
    → lookup session.id store.play_sessions ≡ none
    → q.to_string entry ≡ some snapshot
    → ClosesWith q entry session started_at now
        (start_rows q entry session launched_at started_at snapshot store)
unfolding session_ended
start_rows-ClosesWith q entry session launched_at started_at now snapshot store fresh e =
    let play = started_play entry.id session started_at in
    let rows = insert session.id play store.play_sessions in
    let there : lookup session.id rows ≡ some play = ground (
      arith,
      lookup-insert session.id session.id play store.play_sessions,
      string_eq.beq_iff session.id session.id,
    ) in
    (
      rw
          (
            insert_play,
            fresh,
            returned-insert session.id play store.play_sessions fresh refl,
            source_of-upsert q entry.id snapshot launched_at store.launch_activity,
          )
          (ap some (q.source_to entry snapshot e)),
      rw (insert_play, fresh)
          (lookup-close q session.id now closed play rows there
            ∙ rw ((string_eq.beq_iff session.id session.id).1 refl) refl),
    )

-- A play that is recorded and then closed answers with the source of the entry that it was launched
-- from, and leaves one row with its start, its end and the time between: the session had no row
-- before, and the database carries the statements out.
pub session_started-ClosesWith :
    (q : Sqlite) (entry : ActivityEntry q.Value) (session : ApplicationSession)
    (launched_at started_at now : String) (store store' : ActivityStore)
    → lookup session.id store.play_sessions ≡ none
    → session_started q entry session launched_at started_at true store ≡ some store'
    → ClosesWith q entry session started_at now store'
unfolding session_started
session_started-ClosesWith q entry session launched_at started_at now store store' fresh e =
    let (snapshot, written, done) = >>=-eq-some (q.to_string entry) _ e in
    subst (ClosesWith q entry session started_at now) (some-injective _ _ done) (
      start_rows-ClosesWith q entry session launched_at started_at now snapshot store fresh written)
