-- ===== src/Scheduler.antt =====
-- src/scheduler.h and src/scheduler.c: the token-gated weighted-fair dispatcher.
pub mod Types
pub mod Tokens
pub mod Select
pub mod Control
pub mod Refill
pub mod Drain
pub mod Rounds
pub mod Choice
pub mod Lease
pub mod Frugal
pub mod Culling
pub mod Observe
