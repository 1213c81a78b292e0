-- ===== src/Knowledge.antt =====
-- src/copilot/knowledge/store.mjs and publication-policy.mjs: the append-only ledger of knowledge
-- revisions. `Records` has the rows, `Policy` the publication policy, `Ledger` the verification of a
-- whole ledger, `Transitions` the methods that move a revision through its states, and `Authority` the
-- snapshot that is read. The other modules have what holds of them.
pub mod Records
pub mod Policy
pub mod Ledger
pub mod Transitions
pub mod Sealed
pub mod Outcomes
pub mod Approval
pub mod States
pub mod Authority
pub mod Replay
pub mod Tests
