-- ===== src/Routing.antt =====
-- src/copilot/first-line-routing-planner.mjs: from a snapshot of a conversation's ledger to the open
-- turn of the customer. `Snapshot` has the data, `Planner` the two projections, `Walk` and `OpenTurn`
-- the laws of `projectOpenTurn`, and `Clarified` and `Basis` those of
-- `projectConfirmedClarificationBasis`.
pub mod Snapshot
pub mod Planner
pub mod Walk
pub mod OpenTurn
pub mod Clarified
pub mod Basis
mod Tests
