-- ===== src/Frontend.antt =====
-- The frontend's pure state machines: the launch, the input's ownership, and the cursors of the
-- library, the dashboard and the details screen, and what the library shows (services/hearthdeck-frontend/src).
pub mod Launch
pub mod Control
pub mod Grid
pub mod Rails
pub mod Details
pub mod Items
pub mod Facets
pub mod Groups
pub mod Choices
pub mod Filters
pub mod Pages
pub mod Console
pub mod Refresh
mod Tests
