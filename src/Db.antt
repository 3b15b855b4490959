-- ===== src/Db.antt =====
-- The database of core/: the rows of its four tables, the shards that store them in a pair of
-- files, and the table that chooses the shard of a timestamp.
pub mod Row
pub mod Cache
pub mod Shard
pub mod Table
pub mod Facade
