-- ===== src/Scheduler.antt =====
-- scheduler/main.go: the process that keeps the jobs of a cluster in step with the formations.
pub mod State
pub mod JobTypes
pub mod JobMap
pub mod HostClients
pub mod Formations
pub mod Method
pub mod Counts
pub mod Induction
pub mod Removing
pub mod Adding
pub mod Converging
pub mod Rectify
pub mod Idle
pub mod Placement
pub mod Tracking
pub mod Context
pub mod Sync
pub mod Extending
pub mod SyncLaws
pub mod Calling
pub mod Following
pub mod Steps
