-- ===== src/Tests.antt =====
-- Concrete runs: tests of the definitions, and the theorems at inputs where they apply.
pub mod Samples
mod Machine
mod Universe
mod Scheduling
mod Display
mod Capture
mod Control
mod Lifecycle
mod Micro
mod Pool
