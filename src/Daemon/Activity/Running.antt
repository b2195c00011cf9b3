-- ===== src/Daemon/Activity/Running.antt =====
-- Which plays are running, after each statement
-- (services/hearthdeck-daemon/src/activity.rs).
use hearthdeck.Prelude.{
  leb_text, ◌≡◌, refl, sym, ◌∙◌, Bool, true, false, ◌||◌, some-injective, if◌then◌else◌, none, some,
  List, [], ◌∷◌, String, string_eq, ◌=?◌, map, contains, arith,
}
use hearthdeck.Daemon.Activity.{
  Sqlite, SessionOutcome, closed, Play, ActivityStore, insert_ordered, order_by, has_id,
  returned_item, running_rows, sweep_row, close_row, running_sessions,
}

-- Whether a session has a running play.
unfoldable pub is_playing : String → List (String × Play) → Bool
is_playing id [] = false
is_playing id (row ∷ rows) = has_id id row || is_playing id rows

contains-insert_ordered :
    {A : Type 0} (before : A → A → Bool) (f : A → String) (k : String) (a : A) (rows : List A)
    → contains k (map f (insert_ordered before a rows)) ≡ (f a =? k || contains k (map f rows))
unfolding contains
contains-insert_ordered before f k a [] = refl
contains-insert_ordered before f k a (b ∷ rows) =
    ground (arith, contains-insert_ordered before f k a rows)

contains-order_by :
    {A : Type 0} (before : A → A → Bool) (f : A → String) (k : String) (rows : List A)
    → contains k (map f (order_by before rows)) ≡ contains k (map f rows)
unfolding contains order_by
contains-order_by before f k [] = refl
contains-order_by before f k (a ∷ rows) = ground (
  arith,
  contains-insert_ordered before f k a (order_by before rows),
  contains-order_by before f k rows,
)

contains-running_rows :
    (k : String) (rows : List (String × Play))
    → contains k (map (λ row. row.0) (running_rows rows)) ≡ is_playing k rows
unfolding contains running_rows is_playing
contains-running_rows k [] = refl
contains-running_rows k (row ∷ rows) = ground (arith, contains-running_rows k rows)

pub running_sessions-lem :
    (k : String) (store : ActivityStore) (ids : List String)
    → running_sessions true store ≡ some ids
    → contains k ids ≡ is_playing k store.play_sessions
unfolding running_sessions
running_sessions-lem k store ids e = rw (sym (some-injective _ _ e)) (
    contains-order_by (λ (a b : String × String). leb_text a.1 b.1) (λ row. row.0) k
      (running_rows store.play_sessions)
    ∙ contains-running_rows k store.play_sessions)

pub running_sessions-some :
    (store : ActivityStore) → (ids : List String) × (running_sessions true store ≡ some ids)
unfolding running_sessions
running_sessions-some store = (_, refl)

pub close-is_playing :
    (q : Sqlite) (id k now : String) (rows : List (String × Play))
    → is_playing k (map (close_row q id closed now) rows)
      ≡ (if id =? k then false else is_playing k rows)
unfolding is_playing
close-is_playing q id k now [] = ground arith
close-is_playing q id k now (row ∷ rows) = ground (
  arith,
  close-is_playing q id k now rows,
  string_eq.beq_iff id k,
  string_eq.beq_iff row.0 k,
  string_eq.beq_iff row.0 id,
)

pub returned_item-none :
    (id : String) (rows : List (String × Play))
    → returned_item id rows ≡ none
    → is_playing id rows ≡ false
unfolding returned_item is_playing
returned_item-none id [] e = refl
returned_item-none id (row ∷ rows) e = ground (arith, returned_item-none id rows)

pub none-returned_item :
    (id : String) (rows : List (String × Play))
    → is_playing id rows ≡ false
    → returned_item id rows ≡ none
unfolding returned_item is_playing
none-returned_item id [] e = refl
none-returned_item id (row ∷ rows) e = ground (arith, none-returned_item id rows)

or-false : {a b : Bool} → (a || b) ≡ false → (a ≡ false) × (b ≡ false)
or-false h = ground arith

close_row-absent :
    (q : Sqlite) (id now : String) (outcome : SessionOutcome) (row : String × Play)
    → has_id id row ≡ false
    → close_row q id outcome now row ≡ row
close_row-absent q id now outcome row e = rw e refl

pub close-absent :
    (q : Sqlite) (id now : String) (outcome : SessionOutcome) (rows : List (String × Play))
    → is_playing id rows ≡ false
    → map (close_row q id outcome now) rows ≡ rows
unfolding is_playing
close-absent q id now outcome [] e = refl
close-absent q id now outcome (row ∷ rows) e =
    let (here, there) = or-false e in
    rw (close_row-absent q id now outcome row here, close-absent q id now outcome rows there) refl

pub sweep-is_playing :
    (k : String) (rows : List (String × Play)) → is_playing k (map sweep_row rows) ≡ false
unfolding is_playing
sweep-is_playing k [] = refl
sweep-is_playing k (row ∷ rows) = ground (arith, sweep-is_playing k rows)
