-- ===== src/Store.antt =====
-- pkg/provider/sqlite/store.go: the address pool and the A records in a SQL database.
pub mod Tables
pub mod Engine
pub mod Reclaim
pub mod Prepare
pub mod Failures
pub mod Dbstore
pub mod Exact
pub mod Least
pub mod Exclusive
pub mod Release
pub mod Accounted
pub mod Seeded
pub mod Memory
