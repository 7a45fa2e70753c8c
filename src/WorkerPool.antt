-- ===== src/WorkerPool.antt =====
-- src/worker_pool.c: the threads that lease, run and return ants, over all enabled universes.
pub mod Types
pub mod Steps
pub mod Inflight
pub mod Suspension
pub mod Detached
pub mod Quiet
