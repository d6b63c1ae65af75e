-- ===== src/Arbiter.antt =====
-- src/arbiter/: the decision over the candidates of a builder swarm.
pub mod Ratio
pub mod Verifier
pub mod Rubric
pub mod AntiExample
pub mod Inputs
pub mod Gates
pub mod Decision
mod Tests
