-- ===== src/Snapshots.antt =====
-- internal/snapshot/catalog/store.go: snapshot records, their optional names and their publication.
pub mod Records
pub mod Operations
pub mod Effects
pub mod Release
pub mod Access
pub mod Listing
