-- ===== src/Daemon/Sessions/Tests.antt =====
-- Runs of the journal and of the session service at concrete inputs
-- (services/hearthdeck-daemon/src/sessions.rs and activity.rs).
use hearthdeck.Prelude.{
  ℕ, ◌≡◌, ◌≤◌, min, max, refl, sym, ap, ◌∙◌, Bool, true, false, ◌&&◌, if◌then◌else◌, Option, none,
  some, List, [], ◌∷◌, String, string_eq, ◌=?◌, arith, Bool-cases, ◌⊎◌, inl, inr, lookup, length,
  is_some_and,
}
use hearthdeck.Prelude.Int.{pos}
use hearthdeck.Input.Protocol.{InputProfile}
use hearthdeck.Daemon.Protocol.{
  BridgeRequest, launch_retro_game, ApplicationSession, ActivityEntry, ApplicationSessionState,
  launch_accepted, application_session, error, not_found,
}
use hearthdeck.Daemon.Activity.{
  Sqlite, ActivityStore, session_started, session_ended, recent_games, running_sessions,
  started_play, is_game, returned_item, running_rows, order_by, game_rows, recent_activity_from_row,
}
use hearthdeck.Daemon.Activity.Running.{is_playing}
use hearthdeck.Daemon.Activity.Journal.{IsJournal}
use hearthdeck.Daemon.Activity.Ended.{ClosesWith, session_started-ClosesWith}
use hearthdeck.Daemon.Sessions.{
  SessionService, Reply, replies, Io, StopTarget, launch, stop, finished, reconcile, active_session,
  id_of,
}
use hearthdeck.Daemon.Sessions.Reconcile.{plays, reconcile-plays}
use hearthdeck.Daemon.Sessions.Errors.{StaysOnError, errors-StaysOnError}
use hearthdeck.Daemon.Sessions.Reach.{Reach-IsJournal, start, launches, watches}

-- An entry whose title is its id, and a JSON library that writes this one entry.
abbrev entry_of : String → String → String → ActivityEntry Unit
entry_of id kind source = record {
  id = id;
  title = id;
  icon = none;
  categories = [];
  kind = some kind;
  source = source;
  metadata = tt;
}

abbrev text_of :
    String
    → String
    → String
    → String
    → String
    → Option String
    → List String
    → Option String
    → String
    → Option String
text_of i k o id title none [] (some kind) source =
    if id =? i && (title =? i && (kind =? k && source =? o)) then some "entry" else none
text_of i k o id title _ _ _ source = none

abbrev fields :
    ActivityEntry Unit → Option String → List String → Option String → ActivityEntry Unit
fields e icon categories kind = record e { icon = icon; categories = categories; kind = kind }

text_of-entry :
    (i k o s : String) (e : ActivityEntry Unit) (icon : Option String) (categories : List String)
    (kind : Option String)
    → text_of i k o e.id e.title icon categories kind e.source ≡ some s
    → entry_of i k o ≡ fields e icon categories kind
text_of-entry i k o s e none [] (some kind) h = ground (
  arith,
  string_eq.beq_iff e.id i,
  string_eq.beq_iff e.title i,
  string_eq.beq_iff kind k,
  string_eq.beq_iff e.source o,
)
text_of-entry i k o s e none [] none h = cc
text_of-entry i k o s e none (_ ∷ _) kind h = cc
text_of-entry i k o s e (some _) categories kind h = cc

abbrev sqlite : String → String → String → Sqlite
sqlite i k o = record {
  Value = Unit;
  to_string = λ e. text_of i k o e.id e.title e.icon e.categories e.kind e.source;
  from_str = λ _. some (entry_of i k o);
  extract_source = λ _. some o;
  lower_kind = λ _. some k;
  seconds = λ _ _. pos 60;
  from_to = λ e s h. ap some (text_of-entry i k o s e e.icon e.categories e.kind h);
  source_to = λ e s h.
      ap (λ (w : ActivityEntry Unit). some w.source)
        (text_of-entry i k o s e e.icon e.categories e.kind h);
}

abbrev played : ApplicationSession
played = record {
  id = "s1";
  source_id = "retroarch";
  application_id = "romm:42";
  state = ApplicationSessionState.running;
}

abbrev zelda : ActivityEntry Unit
zelda = entry_of "romm:42" "game" "romm"

abbrev romm : Sqlite
romm = sqlite "romm:42" "game" "romm"

abbrev empty_store : ActivityStore
empty_store = record { launch_activity = []; play_sessions = [] }

abbrev zelda_store : ActivityStore
zelda_store = record {
  launch_activity =
      ("romm:42", record { snapshot_json = "entry"; last_launched_at = "20:00"; launch_count = 1 })
      ∷ [];
  play_sessions = ("s1", started_play "romm:42" played "20:00") ∷ [];
}

zelda_started :
    session_started romm zelda played "20:00" "20:00" true empty_store ≡ some zelda_store
unfolding session_started hearthdeck.Prelude.insert hearthdeck.Prelude.lookup
zelda_started = refl

zelda_fresh : lookup "s1" empty_store.play_sessions ≡ none
unfolding hearthdeck.Prelude.lookup
zelda_fresh = refl

-- Every statement is carried out.
abbrev works : Io
works = record {
  launched_at = "20:00";
  started_at = "20:00";
  ended_at = λ _. "21:00";
  start_ok = true;
  list_ok = true;
  update_ok = λ _. true;
  select_ok = λ _. true;
}

abbrev accepts : BridgeRequest → Reply
accepts _ = replies (launch_accepted played)

abbrev idle : BridgeRequest → Reply
idle _ = replies (application_session none)

abbrev refuses : BridgeRequest → Reply
refuses _ = replies (error not_found "no session")

abbrev retro : BridgeRequest
retro = launch_retro_game "/cores/snes.so" "/cache/zelda.sfc" "s1" InputProfile.native

abbrev fresh_service : SessionService
fresh_service = record { activity = empty_store; discovery = none; events = [] }

abbrev playing : SessionService
playing = (launch romm accepts works retro zelda fresh_service).0

plays_after_launch : plays "s1" playing ≡ true
unfolding launch session_started is_playing hearthdeck.Prelude.insert hearthdeck.Prelude.lookup
plays_after_launch = refl

events_after_end : length (reconcile romm idle works playing).events ≡ 2
unfolding launch session_started is_playing reconcile running_sessions finished session_ended
    active_session hearthdeck.Prelude.insert hearthdeck.Prelude.lookup returned_item running_rows
    order_by
events_after_end = refl

session_started-ClosesWith_example : ClosesWith romm zelda played "20:00" "21:00" zelda_store
session_started-ClosesWith_example =
    session_started-ClosesWith romm zelda played "20:00" "20:00" "21:00" empty_store zelda_store
      zelda_fresh zelda_started

reconcile-plays_example :
    plays "s1" (reconcile romm idle works playing)
    ≡ (plays "s1" playing && is_some_and (id_of none) (λ a. a =? "s1"))
reconcile-plays_example = reconcile-plays romm idle works "s1" playing none refl (λ _. refl) refl

errors-StaysOnError_example :
    StaysOnError playing
      (launch romm refuses works retro zelda playing).0
      (launch romm refuses works retro zelda playing).1
    × StaysOnError playing
        (stop romm refuses works (StopTarget.session "s1") playing).0
        (stop romm refuses works (StopTarget.session "s1") playing).1
    × StaysOnError playing
        (reconcile romm refuses works playing)
        (active_session romm refuses works)
errors-StaysOnError_example =
    errors-StaysOnError romm refuses works retro zelda (StopTarget.session "s1") playing

Reach-IsJournal_example : IsJournal (reconcile romm idle works playing).activity
Reach-IsJournal_example =
    Reach-IsJournal (watches idle works (launches accepts works retro zelda (start none)))

zelda_recent :
    recent_games romm 6 true zelda_store
    ≡ some (record { entry = zelda; last_launched_at = "20:00"; launch_count = 1 } ∷ [])
unfolding recent_games game_rows order_by recent_activity_from_row
zelda_recent = refl

-- A launched application, in a store that also has it.
abbrev desktop : Sqlite
desktop = sqlite "files" "application" "desktop"

abbrev files_store : ActivityStore
files_store = record {
  launch_activity =
      ("files", record { snapshot_json = "entry"; last_launched_at = "20:00"; launch_count = 1 })
      ∷ [];
  play_sessions = ("s1", started_play "files" played "20:00") ∷ [];
}

files_started :
    session_started desktop
      (entry_of "files" "application" "desktop")
      played
      "20:00"
      "20:00"
      true
      empty_store
    ≡ some files_store
unfolding session_started hearthdeck.Prelude.insert hearthdeck.Prelude.lookup
files_started = refl

files_absent : is_some_and (lookup "files" empty_store.launch_activity) (is_game desktop) ≡ false
unfolding hearthdeck.Prelude.lookup
files_absent = refl
