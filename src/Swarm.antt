-- ===== src/Swarm.antt =====
-- src/swarm/: the gates that a builder's answer passes before it changes a worktree.
pub mod Search
pub mod Apply
pub mod Parse
pub mod Scope
