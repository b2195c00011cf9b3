-- ===== src/Daemon.antt =====
-- The daemon (services/hearthdeck-daemon): its refresh workers, the play journal and the sessions
-- that it records, and what it says to the bridge and to its clients.
pub mod Protocol
pub mod Worker
pub mod Activity
pub mod Sessions
