-- ===== src/Frontend/Refresh.antt =====
-- Which reads of the daemon's data go stale, are made, and are made again
-- (services/hearthdeck-frontend/src/app/refresh.rs, and the arms of app/mod.rs that take their
-- answers). The state is the part of the application that these read and write; the views and the
-- cursors, which are rebuilt from it, are left out; `Rail` and `Console` are the records of a
-- collection and of a console. A read is a value: its identity and its delay in
-- seconds.
pub mod Chain
pub mod Grows
pub mod Reach
mod Tests
use hearthdeck.Prelude.{
  ℕ, ◌+◌, Bool, true, false, not, ◌&&◌, if◌then◌else◌, ◌==◌, Option, none, some, List, [], ◌∷◌,
  ◌++◌, String, string_eq, Eq, ◌=?◌,
}
use hearthdeck.Prelude.Int.{ℤ}
use hearthdeck.Prelude.Equality.{same_option, same_list, int_eq, list_eq}
use hearthdeck.Catalog.{Section, console_games, same_section, FormFactor, same_form}
use hearthdeck.Frontend.Items.{ConsoleMetadata, LibraryItem}
use hearthdeck.Frontend.Choices.{AppLibraryConfig, apply_form_overrides}
use hearthdeck.Frontend.Filters.{State, clear_source}
use hearthdeck.Frontend.Console.{ConsoleScopes, invalidate}

pub data DaemonEvent : Type 0 where
  library_changed metadata_changed categorization_changed application_session_changed unknown :
      DaemonEvent

pub data FeedEvent : Type 0 where
  changed : DaemonEvent → FeedEvent
  resumed : FeedEvent

pub data Page : Type 0 where
  dashboard library details settings : Page

pub record Retries : Type 0 where
  pub catalog : Bool
  pub consoles : Bool
  pub collections : Bool

pub record Stale : Type 0 where
  pub catalog : Bool
  pub collections : Bool
  pub missing_consoles : Bool
  pub categorization : Bool

pub data Read : Type 0 where
  read_catalog read_consoles read_collections : (identity delay : ℕ) → Read
  read_categorization : Read

abbrev pub data_retry_interval : ℕ
data_retry_interval = 10

abbrev pub fresh : Stale
fresh = record {
  catalog = false;
  collections = false;
  missing_consoles = false;
  categorization = false;
}

abbrev pub all_data : Stale
all_data = record fresh { catalog = true; collections = true; missing_consoles = true }

abbrev pub stale_after : FeedEvent → Stale
stale_after (changed library_changed) = all_data
stale_after (changed metadata_changed) = all_data
stale_after (changed categorization_changed) = record all_data { categorization = true }
stale_after (changed application_session_changed) = record fresh { collections = true }
stale_after resumed = all_data
stale_after (changed unknown) = fresh

abbrev pub stale_tick : Page → Stale
stale_tick dashboard = record fresh { collections = true }
stale_tick _ = fresh

abbrev pub dashboard_tick_runs : Page → Bool
dashboard_tick_runs page = (stale_tick page).collections

abbrev pub is_resumed : FeedEvent → Bool
is_resumed resumed = true
is_resumed (changed _) = false

pub record Catalog (Icon : Type 0) : Type 0 where
  pub source : List (LibraryItem Icon)
  pub entries : List (LibraryItem Icon)

pub record App (Icon Version Rail Console : Type 0) : Type 0 where
  pub page : Page
  pub cur_section : Section
  pub config : AppLibraryConfig
  pub catalog : Catalog Icon
  pub catalog_request : ℕ
  pub collections : List Rail
  pub collections_request : ℕ
  pub filters : State
  pub console : ConsoleScopes (LibraryItem Icon) Version
  pub console_platforms : List Console
  pub retries : Retries

abbrev pub same_console : ConsoleMetadata → ConsoleMetadata → Bool
same_console a b = a.platform_id =? b.platform_id && a.genres =? b.genres && a.regions =? b.regions

-- The derived equality of two optional values.
abbrev pub same_by : {A : Type 0} → (A → A → Bool) → Option A → Option A → Bool
same_by same none none = true
same_by same (some a) (some b) = same a b
same_by same _ _ = false

abbrev pub is_empty : {A : Type 0} → List A → Bool
is_empty [] = true
is_empty (_ ∷ _) = false

module _ {Icon : Type 0} ⦃eq : Eq Icon⦄ where
  abbrev pub same_item : LibraryItem Icon → LibraryItem Icon → Bool
  same_item a b =
      a.id =? b.id
      && a.name =? b.name
      && same_option a.exec b.exec
      && a.icon =? b.icon
      && a.categories =? b.categories
      && same_option a.wm_class b.wm_class
      && same_by same_form a.form_factor b.form_factor
      && same_option a.store b.store
      && a.sources =? b.sources
      && same_by same_console a.console b.console
      && same_section a.section b.section

  unfoldable pub same_items : List (LibraryItem Icon) → List (LibraryItem Icon) → Bool
  same_items [] [] = true
  same_items (x ∷ xs) (y ∷ ys) = same_item x y && same_items xs ys
  same_items _ _ = false

  -- `Catalog::project`, with whether the entries changed.
  unfoldable pub project : AppLibraryConfig → Catalog Icon → Catalog Icon × Bool
  project config c =
      let entries = apply_form_overrides config c.source in
      if same_items entries c.entries then (c, false) else (record c { entries = entries }, true)

  abbrev pub replace :
      List (LibraryItem Icon) → AppLibraryConfig → Catalog Icon → Catalog Icon × Bool
  replace source config c = project config (record c { source = source })

module _ {Icon Version Rail Console : Type 0} where
  abbrev pub load_catalog :
      ℕ → App Icon Version Rail Console → App Icon Version Rail Console × List Read
  load_catalog delay a = (
    record a { catalog_request = a.catalog_request + 1 },
    read_catalog (a.catalog_request + 1) delay ∷ [],
  )

  abbrev pub load_collections_after :
      ℕ → App Icon Version Rail Console → App Icon Version Rail Console × List Read
  load_collections_after delay a = (
    record a { collections_request = a.collections_request + 1 },
    read_collections (a.collections_request + 1) delay ∷ [],
  )

  abbrev pub load_consoles_after :
      ℕ → App Icon Version Rail Console → App Icon Version Rail Console × List Read
  load_consoles_after delay a = (a, read_consoles a.console.source delay ∷ [])

  abbrev pub catalog_failed :
      App Icon Version Rail Console → App Icon Version Rail Console × List Read
  catalog_failed a =
      load_catalog data_retry_interval (record a { retries = record a.retries { catalog = true } })

  abbrev pub consoles_failed :
      App Icon Version Rail Console → App Icon Version Rail Console × List Read
  consoles_failed a =
      load_consoles_after data_retry_interval
        (record a { retries = record a.retries { consoles = true } })

  abbrev pub collections_failed :
      App Icon Version Rail Console → App Icon Version Rail Console × List Read
  collections_failed a =
      load_collections_after data_retry_interval
        (record a { retries = record a.retries { collections = true } })

  -- A batch of reads goes on with another where a condition holds.
  abbrev pub and_if :
      Bool
      → (App Icon Version Rail Console → App Icon Version Rail Console × List Read)
      → App Icon Version Rail Console × List Read
      → App Icon Version Rail Console × List Read
  and_if true load (a, reads) = let (a', more) = load a in (a', reads ++ more)
  and_if false load (a, reads) = (a, reads)

  abbrev pub invalidate_console_source :
      App Icon Version Rail Console → App Icon Version Rail Console
  invalidate_console_source a = record a {
    console = invalidate a.console;
    retries = record a.retries { consoles = false };
    filters =
        if same_section a.cur_section console_games then clear_source a.filters else a.filters;
  }

  abbrev pub reload_consoles :
      App Icon Version Rail Console → App Icon Version Rail Console × List Read
  reload_consoles a = load_consoles_after 0 (invalidate_console_source a)

  abbrev pub needs_consoles : App Icon Version Rail Console → Bool
  needs_consoles a = is_empty a.console_platforms && not a.retries.consoles

  unfoldable pub daemon_changed :
      FeedEvent → App Icon Version Rail Console → App Icon Version Rail Console × List Read
  daemon_changed event a =
      let stale = stale_after event in
      let catalog = and_if (stale.catalog && not a.retries.catalog) (load_catalog 0) (a, []) in
      let rails =
        and_if (stale.collections && not a.retries.collections) (load_collections_after 0)
          catalog in
      let consoles =
        if is_resumed event
        then and_if true reload_consoles rails
        else and_if (stale.missing_consoles && needs_consoles a) (load_consoles_after 0) rails in
      and_if stale.categorization (λ b. (b, read_categorization ∷ [])) consoles

  unfoldable pub dashboard_ticked :
      App Icon Version Rail Console → App Icon Version Rail Console × List Read
  dashboard_ticked a =
      and_if ((stale_tick a.page).collections && not a.retries.collections)
        (load_collections_after 0) (a, [])

  unfoldable pub refresh_dashboard :
      App Icon Version Rail Console → App Icon Version Rail Console × List Read
  refresh_dashboard a =
      and_if (needs_consoles a) (load_consoles_after 0)
        (and_if (not a.retries.collections) (load_collections_after 0) (a, []))

  -- The arm of `CollectionsLoaded`; `none` is an error.
  unfoldable pub collections_loaded :
      ℕ
      → Option (List Rail)
      → App Icon Version Rail Console
      → App Icon Version Rail Console × List Read
  collections_loaded request result a =
      if request == a.collections_request
      then elim result [
        | none ↦ collections_failed a
        | some rails ↦ (
          record a { collections = rails; retries = record a.retries { collections = false } },
          [],
        )
      ]
      else (a, [])

module _ {Icon Version Rail Console : Type 0} ⦃eq : Eq Icon⦄ where
  -- The arm of `CatalogLoaded`, up to the tabs and the grid that follow a changed catalog.
  unfoldable pub catalog_loaded :
      ℕ
      → Option (List (LibraryItem Icon))
      → App Icon Version Rail Console
      → App Icon Version Rail Console × List Read
  catalog_loaded request result a =
      if request == a.catalog_request
      then elim result [
        | none ↦ catalog_failed a
        | some entries ↦ (
          record a {
            catalog = (replace entries a.config a.catalog).0;
            retries = record a.retries { catalog = false };
          },
          [],
        )
      ]
      else (a, [])
