-- ===== src/Storage.antt =====
-- db/CacheLevelDB.cpp and the databases that are built on it.
pub mod LevelDb
pub mod Shards
pub mod Life
pub mod Writes
pub mod View
pub mod Collect
pub mod Operations
pub mod Refine
pub mod Counting
pub mod Sets
pub mod Complete
pub mod Vectors
pub mod Enough
pub mod Examples
