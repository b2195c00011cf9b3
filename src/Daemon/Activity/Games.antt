-- ===== src/Daemon/Activity/Games.antt =====
-- The games that were played last, and the sweep at the daemon's start
-- (services/hearthdeck-daemon/src/activity.rs).
use hearthdeck.Prelude.{
  ℕ, zero, suc, ◌≤◌, ◌≡◌, min, max, refl, sym, ap, ◌∙◌, subst, Bool, true, false, Option-cases,
  some, some-injective, List, [], ◌∷◌, String, string_eq, ◌=?◌, lookup, insert, length, take, map,
  arith, is_some_and, >>=-eq-some, inl, inr,
}
use hearthdeck.Daemon.Protocol.{ApplicationSession, ActivityEntry, RecentActivity}
use hearthdeck.Daemon.Activity.{
  Sqlite, Play, Launch, ActivityStore, upsert_launch, order_by, start_rows, session_started,
  running_rows, sweep_row, running_sessions, sweep_running_sessions, is_game, game_rows, collect,
  recent_activity_from_row, recent_games,
}

length-take : {A : Type 0} (n : ℕ) (xs : List A) → length (take n xs) ≤ n
length-take zero xs = omega arith
length-take (suc n) [] = omega arith
length-take (suc n) (x ∷ xs) = omega (arith, length-take n xs)

length-collect :
    (q : Sqlite) (rows : List Launch) (recent : List (RecentActivity q.Value))
    → collect q rows ≡ some recent
    → length recent ≡ length rows
length-collect q [] recent e = sym (ap length (some-injective _ _ e))
length-collect q (l ∷ rows) recent e =
    let (first, _, next) = >>=-eq-some (recent_activity_from_row q l) _ e in
    let (rest, collected, done) = >>=-eq-some (collect q rows) _ next in
    sym (ap length (some-injective _ _ done)) ∙ ap suc (length-collect q rows rest collected)

-- A list of recent games has at most fifty plays, and at most the limit that was asked for, or one.
pub length-recent_games :
    (q : Sqlite) (limit : ℕ) (ok : Bool) (store : ActivityStore)
    (recent : List (RecentActivity q.Value))
    → recent_games q limit ok store ≡ some recent
    → length recent ≤ min (max limit 1) 50
unfolding recent_games
length-recent_games q limit false store recent e = cc
length-recent_games q limit true store recent e =
    rw (length-collect q _ recent e) (length-take (min (max limit 1) 50) _)

game_rows-insert :
    (q : Sqlite) (id : String) (l : Launch) (rows : List (String × Launch))
    → is_game q l ≡ false
    → is_some_and (lookup id rows) (is_game q) ≡ false
    → game_rows q (insert id l rows) ≡ game_rows q rows
unfolding game_rows insert lookup
game_rows-insert q id l [] new old = ground arith
game_rows-insert q id l (row ∷ rows) new old = ground (arith, game_rows-insert q id l rows)

game_rows-upsert :
    (q : Sqlite) (id snapshot now : String) (rows : List (String × Launch))
    → is_some_and (q.lower_kind snapshot) (λ kind. kind =? "game") ≡ false
    → is_some_and (lookup id rows) (is_game q) ≡ false
    → game_rows q (upsert_launch id snapshot now rows) ≡ game_rows q rows
game_rows-upsert q id snapshot now rows new old = elim (Option-cases (lookup id rows)) [
  | inl e ↦ rw (upsert_launch, e) (game_rows-insert q id _ rows new old)
  | inr (l, e) ↦ rw (upsert_launch, e) (game_rows-insert q id _ rows new old)
]

session_started-rows :
    (q : Sqlite) (entry : ActivityEntry q.Value) (session : ApplicationSession)
    (launched_at started_at snapshot : String) (store : ActivityStore)
    → q.to_string entry ≡ some snapshot
    → session_started q entry session launched_at started_at true store
      ≡ some (start_rows q entry session launched_at started_at snapshot store)
unfolding session_started
session_started-rows q entry session launched_at started_at snapshot store written = rw written refl

start_rows-recent_games :
    (q : Sqlite) (entry : ActivityEntry q.Value) (session : ApplicationSession)
    (launched_at started_at : String) (limit : ℕ) (ok : Bool) (store : ActivityStore)
    (snapshot : String)
    → is_some_and (q.lower_kind snapshot) (λ kind. kind =? "game") ≡ false
    → is_some_and (lookup entry.id store.launch_activity) (is_game q) ≡ false
    → recent_games q limit ok (start_rows q entry session launched_at started_at snapshot store)
      ≡ recent_games q limit ok store
unfolding recent_games
start_rows-recent_games q entry session launched_at started_at limit ok store snapshot new old =
    rw (game_rows-upsert q entry.id snapshot launched_at store.launch_activity new old) refl

-- The launch of an application or of a film does not hide a game: if neither the entry nor an earlier
-- play of the same item is a game, the list of recent games stays the same, whatever its limit.
pub session_started-recent_games :
    (q : Sqlite) (entry : ActivityEntry q.Value) (session : ApplicationSession)
    (launched_at started_at : String) (limit : ℕ) (ok : Bool) (store store' : ActivityStore)
    (snapshot : String)
    → q.to_string entry ≡ some snapshot
    → is_some_and (q.lower_kind snapshot) (λ kind. kind =? "game") ≡ false
    → is_some_and (lookup entry.id store.launch_activity) (is_game q) ≡ false
    → session_started q entry session launched_at started_at true store ≡ some store'
    → recent_games q limit ok store' ≡ recent_games q limit ok store
session_started-recent_games q entry session launched_at started_at limit ok store store' snapshot
      written new old e =
    subst (λ st. recent_games q limit ok st ≡ recent_games q limit ok store)
      (some-injective _ _ (
        sym (session_started-rows q entry session launched_at started_at snapshot store written)
        ∙ e))
      (start_rows-recent_games q entry session launched_at started_at limit ok store snapshot new
        old)

running-sweep : (rows : List (String × Play)) → running_rows (map sweep_row rows) ≡ []
unfolding running_rows
running-sweep [] = refl
running-sweep (row ∷ rows) = ground (arith, running-sweep rows)

-- The sweep at the daemon's start leaves no play running, and a second one has nothing to close.
pub sweep-running_sessions :
    (store : ActivityStore)
    → (running_sessions true (sweep_running_sessions true store).0 ≡ some [])
      × ((sweep_running_sessions true (sweep_running_sessions true store).0).1 ≡ some 0)
unfolding running_sessions sweep_running_sessions order_by
sweep-running_sessions store = rw (running-sweep store.play_sessions) (refl, refl)
