-- ===== src/Tests.antt =====
-- Concrete kernels and containers, and the theorems applied to them.
pub mod Sample
pub mod Sync
pub mod Messages
pub mod Tasks
pub mod Traps
pub mod Containers
pub mod Scheduling
pub mod Lists
pub mod Sets
pub mod Numbers
pub mod Intervals
