-- ===== src/Actions.antt =====
-- src/copilot/first-line-state-store.mjs and first-line-public-action-gate.mjs: the public actions of the first
-- line. `Tables` has the rows and `Queries` the subqueries on them; `Lifecycle`, `Triggers` and `Owners` have
-- what the triggers let through, and `Writes` the statements with their triggers. `Sending`, `Withdrawal`,
-- `Confirmation` and `Ingest` have the methods of the class, and `Gate` the gate over them. `Samples` has
-- concrete data; the other modules have what holds of these.
pub mod Tables
pub mod Queries
pub mod Lifecycle
pub mod Triggers
pub mod Owners
pub mod Writes
pub mod Sending
pub mod Withdrawal
pub mod Confirmation
pub mod Ingest
pub mod Gate
pub mod Steps
pub mod Delivery
pub mod Leases
pub mod Arrivals
pub mod Overtaken
pub mod Sequence
pub mod Barriers
pub mod Claims
pub mod Settled
pub mod Ingested
pub mod Known
pub mod Decision
pub mod Ready
pub mod Evidence
mod Samples
mod Tests
