-- ===== src/Access.antt =====
-- src/copilot/knowledge-control/rbac.mjs: who may do what to a revision of the knowledge. `Rbac` has the code,
-- `Allowed` reads the texts of a grant, `Normal` and `Proper` are about the normal form of one, `Decision` about
-- the filter of the grants, and `Authority` about what an authorization rests on.
pub mod Rbac
pub mod Allowed
pub mod Normal
pub mod Proper
pub mod Decision
pub mod Authority
mod Tests
