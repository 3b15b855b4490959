-- ===== src/Tests.antt =====
-- The theorems at concrete data.
mod Values
mod Caches
mod Shards
mod Frames
mod Links
mod Sessions
mod Databases
mod Coordinators
mod Nodes
mod Networks
mod Histories
