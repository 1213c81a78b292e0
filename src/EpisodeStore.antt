-- ===== src/EpisodeStore.antt =====
-- src/copilot/episode-store.mjs: the durable store of clarification episodes.
-- `Input` validates what a caller passes, `Tables` holds the rows and the queries on them, and
-- `Operations` the methods of the class, each in its transaction.
pub mod Input
pub mod Tables
pub mod Operations
pub mod Api
pub mod Rows
pub mod Changes
pub mod Writes
pub mod History
pub mod Valid
pub mod Bodies
pub mod Promises
pub mod Messages
pub mod Locking
pub mod Stale
pub mod Slots
pub mod Reads
pub mod Appends
mod Tests
