-- ===== src/Lib.antt =====
-- Hearthdeck: how controllers drive the shell, the state machines of its surfaces, what the library
-- shows, and what the daemon runs and records.
--
-- The program is a set of Rust services. The input broker (services/hearthdeck-input) reads every
-- controller and hands what it reads to one owner at a time: the frontend, the text entry, the quick
-- menu (the overlay), a game's desktop through a virtual keyboard and mouse, or nobody. Clients
-- connect with a greeting of the protocol (services/hearthdeck-protocol). The quick menu
-- (services/hearthdeck-overlay) and the frontend (services/hearthdeck-frontend) receive actions and
-- move their own cursors. The daemon (services/hearthdeck-daemon) starts games over the bridge, keeps
-- a journal of plays in a database, and refreshes the sources of the catalog, each with a worker of
-- its own; the categorization (services/hearthdeck-ai) places the entries of the catalog, and the
-- frontend shows them under tabs and facets and keeps the pages of console games that it has loaded.
--
-- Files. Prelude holds the libraries' names that the others use, the Boolean tests, chains of steps
-- that may fail, lists over native numbers, hash maps and sets as lists without repetition, and the
-- integers of `i32` and `i64`, texts and their decimal numbers, and derived equalities.
--   Overlay: services/hearthdeck-overlay/src/state.rs. `OverlayState::update` is `update`; its arms
--     that other arms call again are `on_resume`, `on_close`, `on_log_out`.
--   Input: the controls, keys and actions, from mapping.rs and the protocol's input.rs.
--   Input/Ownership: services/hearthdeck-input/src/ownership.rs. `Ownership::button` is `button`, the
--     pad's part of it `button_pad` and, past the early returns, `respond`; `Ownership::tick` is
--     `tick`, the pad's part `tick_pad`; `Ownership::remove` is `remove_pad`.
--   Input/Mapper: services/hearthdeck-input/src/mapping.rs, one function for each method of `Mapper`.
--   Input/Axis: the normalized axes of services/hearthdeck-input/src/linux.rs, and the controls that
--     the broker reads from keys and axes (`key_control`, `axis_controls` of broker.rs).
--   Input/Protocol: services/hearthdeck-protocol/src/input.rs, `Hello::valid` and
--     `SessionContext::matches_focus`.
--   Input/Broker: services/hearthdeck-input/src/broker.rs, one function for each of `connect`,
--     `send`, `disconnect`, `release`, `revoke`, `reconcile`, `deliver` and `grab_all`.
--   Input/Broker/Poll: the part of `poll` in broker.rs from the pads' events to the owner's tick, as
--     `collect`, and the pointer's movement, as `move_pointer`. What the kernel has for a pad is an
--     argument.
--   Frontend/Launch, Frontend/Control: services/hearthdeck-frontend/src/launch_state.rs and
--     input_ownership.rs.
--   Frontend/Grid, Frontend/Rails, Frontend/Details: the cursors of the library, of the dashboard and
--     of the details screen, screens/{library,dashboard,details}/focus.rs of the same crate.
--   Frontend/Items: library_item.rs and form_factor.rs of that crate, what an entry matches.
--   Frontend/Facets, Frontend/Groups, Frontend/Choices: app_group.rs, in this order `section_facets`,
--     `Sections` with the entries that a tab shows, and `AppLibraryConfig`, the user's own choices.
--   Frontend/Filters: the filter drawer, screens/library/filters.rs, and `cycle` of
--     providers/filter.rs.
--   Frontend/Pages, Frontend/Console: screens/library/console.rs, the log of pages of one scope
--     (`ConsoleListing`) and the cache of them (`ConsoleScopes`). The methods of the log that share a
--     name with those of the cache are `apply_page`, `failed_page` and `extend_page`.
--   Frontend/Refresh: app/refresh.rs, with the arms of app/mod.rs that take the catalog and the
--     collections, and screens/library/catalog.rs. An operation returns the reads that it makes.
--   Catalog: `Section` and `FormFactor` of services/hearthdeck-protocol (lib.rs, classification.rs)
--     and the rules of services/hearthdeck-ai/src/categorization/rules.rs.
--   Daemon/Worker: services/hearthdeck-daemon/src/provider_worker.rs, and the health records of
--     state.rs. The task is a step (`work`) from one point where other tasks may run to the next.
--   Daemon/Protocol: the requests, replies and events of services/hearthdeck-protocol/src/lib.rs that
--     sessions use.
--   Daemon/Activity: services/hearthdeck-daemon/src/activity.rs, each method with the rows that its
--     SQL statements write and read, over the tables of database.rs.
--   Daemon/Sessions: services/hearthdeck-daemon/src/sessions.rs, one function for each of `launch`,
--     `stop`, `reconcile` and `finished`.
-- The modules below each of these hold its lemmas and theorems, named for what they are about, and
-- the Tests modules hold runs at concrete inputs.
--
-- State. A method that takes `&mut self` returns the new state. The emitted events are a list, in
-- the order in which the code emits them; an iteration over a hash map takes the order of the list
-- that stands for the map. A fatal error of the broker (`?`) is `none`. What the broker uses of the
-- kernel and of the async runtime is the parameter `Platform`: grabbing and releasing a device,
-- sending on a client's channel, writing to the virtual device; its laws say that a granted grab
-- grabs, a refused one changes nothing, and a granted release releases. Of the database, the seconds
-- between two times, the decoding of JSON and the folding of case are parameters, and whether a
-- statement succeeds is an argument of the operation, as are the replies of the bridge.
--
-- Numbers. `usize`, `u16` and `u64` are natural numbers: the counters of the code
-- (ids, milliseconds, sources of a key) stay far below their ranges, and where the code relies on a
-- subtraction not going below zero the model subtracts on the naturals.
--
-- Loops. `scan_down` of the dashboard runs on as much fuel as there are rails below the cursor,
-- which is how often the loop of `shift_rail` can run. `evict_on` of the cache runs on as much fuel
-- as there are scopes, of which each turn removes one. `digits` prints a number on fuel for the 19
-- digits of an `i64`. All other loops are structural.
--
-- Not modelled: the broker's scan of device files, its event loop, the loop of `poll` that delivers
-- the signals, and the keyboard's child process, all of which are calls of the kernel or of the async
-- runtime around the parts above; the text of failures; rendering, the names in the user's locale,
-- and scrolling, which computes with `f32`; of the daemon the HTTP handlers, the schema and queries
-- of the catalog, the probes of the host, the discovery of sources and the queue of the categorizer;
-- the calls of a language model; the bridge's processes and files; the client library. The orders of
-- `FilterType` and `AppGroup` are left out, as nothing in the parts above sorts by them.
mod Prelude
pub mod Overlay
pub mod Input
pub mod Frontend
pub mod Catalog
pub mod Daemon
