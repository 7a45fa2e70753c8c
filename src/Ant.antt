-- ===== src/Ant.antt =====
-- src/ant.h and src/ant.c: ants, the colony they share, and the execution of their rules.
pub mod Types
pub mod Life
pub mod Search
pub mod Placement
pub mod Move
pub mod Execute
pub mod Contest
pub mod Residency
pub mod Torus
pub mod Invariant
pub mod Locals
pub mod Cycle
pub mod Spending
pub mod Quantum
pub mod Observe
