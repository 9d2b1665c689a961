-- ===== src/Server.antt =====
-- The server over its requests: app/api/v1/endpoints/requests.py and workflow_instances.py, and the
-- monitor of app/services/sla_monitor.py.
pub mod Store
pub mod Listing
pub mod Sla
pub mod Protocols
pub mod Deletion
pub mod Kept
pub mod Invariant
pub mod History
pub mod MyTasks
pub mod Races
pub mod Newest
pub mod Ledger
pub mod Stats
pub mod Monitor
pub mod Samples
mod Tests
