-- ===== src/Frontend/Refresh/Tests.antt =====
-- Runs of the reads and their retries
-- (services/hearthdeck-frontend/src/app/refresh.rs).
use hearthdeck.Prelude.{◌≡◌, refl, false, none, some, [], ◌∷◌, ◌++◌, String, string_eq, lookup}
use hearthdeck.Catalog.{applications, couch}
use hearthdeck.Frontend.Items.{LibraryItem, set_form}
use hearthdeck.Frontend.Choices.{apply_form_overrides}
use hearthdeck.Frontend.Refresh.{
  library_changed, unknown, changed, resumed, dashboard, read_catalog, read_consoles,
  read_collections, App, load_catalog, daemon_changed, catalog_loaded, same_items, project,
}
use hearthdeck.Frontend.Refresh.Chain.{IsChained}
use hearthdeck.Frontend.Refresh.Reach.{start, loads, catalog_answers, Reach-IsChained}

abbrev boot : App String String String String
boot = record {
  page = dashboard;
  cur_section = applications;
  config = record { desktop_input_apps = []; form_overrides = ("gimp", couch) ∷ [] };
  catalog = record { source = []; entries = [] };
  catalog_request = 0;
  collections = [];
  collections_request = 0;
  filters = record { facets = []; selected = []; is_open = false };
  console = record { scopes = []; prefetch = []; clock = 0; generation = 0; source = 0 };
  console_platforms = [];
  retries = record { catalog = false; consoles = false; collections = false };
}

abbrev gimp : LibraryItem String
gimp = record {
  id = "gimp";
  name = "GIMP";
  exec = none;
  icon = "gimp";
  categories = [];
  wm_class = none;
  form_factor = none;
  store = none;
  sources = [];
  console = none;
  section = applications;
}

abbrev loading : App String String String String
loading = (load_catalog 0 boot).0

-- The first read fails, an event comes, and the read that is made again succeeds.
abbrev failing : App String String String String
failing = (catalog_loaded 1 none loading).0

failed_once : (catalog_loaded 1 none loading).1 ≡ read_catalog 2 10 ∷ []
unfolding catalog_loaded
failed_once = refl

left_to_the_chain :
    (daemon_changed (changed library_changed) failing).1
    ≡ read_collections 1 0 ∷ read_consoles 0 0 ∷ []
unfolding daemon_changed catalog_loaded
left_to_the_chain = refl

resumes :
    (daemon_changed resumed boot).1
    ≡ read_catalog 1 0 ∷ read_collections 1 0 ∷ read_consoles 1 0 ∷ []
unfolding daemon_changed
resumes = refl

ignored : (daemon_changed (changed unknown) boot).1 ≡ []
unfolding daemon_changed
ignored = refl

shown : (catalog_loaded 1 (some (gimp ∷ [])) loading).0.catalog.entries ≡ set_form couch gimp ∷ []
unfolding catalog_loaded project same_items apply_form_overrides lookup
shown = refl

Reach-IsChained_example :
    IsChained
      (catalog_loaded 1 none loading).0.catalog_request
      (catalog_loaded 1 none loading).0.retries.catalog
      ([] ++ [] ++ (catalog_loaded 1 none loading).1)
Reach-IsChained_example =
    Reach-IsChained (catalog_answers [] [] 1 0 none (loads refl (start {a = boot} refl)))
