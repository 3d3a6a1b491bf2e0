-- ===== src/Types.antt =====
-- internal/types: the data contracts that the other packages share.
pub mod Ids
pub mod Text
pub mod Network
pub mod Cpu
pub mod Disks
pub mod Sandbox
pub mod Snapshot
