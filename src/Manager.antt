-- ===== src/Manager.antt =====
-- The task manager of backend/internal/download.
pub mod State
pub mod Persist
pub mod Scheduler
pub mod Failures
pub mod Runs
pub mod Pausing
pub mod Resuming
pub mod Removing
pub mod Creating
pub mod Reports
pub mod Ends
pub mod Retrying
pub mod Deleting
pub mod Closing
pub mod Restoring
pub mod Invariant
pub mod Slots
pub mod System
pub mod Tests
pub mod Destination
pub mod Create
pub mod Stored
pub mod Restore
