-- ===== src/Sandboxes.antt =====
-- internal/sandbox/catalog/store.go: sandbox records, their names and the image usage they stand
-- for, in the shared metadata store.
pub mod Records
pub mod Decode
pub mod Access
pub mod Changes
pub mod Operations
pub mod Saved
pub mod Edits
pub mod Outcomes
pub mod Lifecycle
pub mod Fencing
pub mod Names
pub mod Reservation
pub mod Removal
pub mod Failing
pub mod Reachable
pub mod Usage
pub mod Listing
pub mod Progress
pub mod Refinement
