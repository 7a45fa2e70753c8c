-- ===== src/WorkerPool/Steps.antt =====
-- The steps of the pool: one for each stretch that a lock makes atomic, and one for a burst.
use turmite_linux.Prelude.{ℕ, ◌≡◌, ◌<◌, Bool, true, false, List}
use turmite_linux.Scheduler.Types.{LongDouble}
use turmite_linux.WorkerPool.Types.{
  looking, idle, running, ran, returned, System, look, await, run, give_back, uncount, leave,
  worker_pool_enable, suspend_begin, suspend_end, stop_pool,
}

-- A system with `n` threads takes a step.
pub data Step (n : ℕ) (y : System) : System → Type 0 where
  looks :
      (ld : LongDouble) (now i : ℕ)
      → i < n
      → (y.workers i).phase ≡ looking
      → y.pool.stopping ≡ false
      → Step n y (look ld now i y)
  awaits : (i : ℕ) → i < n → (y.workers i).phase ≡ idle → Step n y (await i y)
  runs :
      (fails : ℕ → List Bool) (i slot u tape ant grant : ℕ)
      → i < n
      → (y.workers i).phase ≡ running slot u tape ant grant
      → Step n y (run fails i slot u tape ant grant y)
  gives_back :
      (ld : LongDouble) (now i slot u ant k : ℕ)
      → i < n
      → (y.workers i).phase ≡ ran slot u ant k
      → Step n y (give_back ld now i slot u ant k y)
  uncounts :
      (i slot : ℕ) → i < n → (y.workers i).phase ≡ returned slot → Step n y (uncount i slot y)
  leaves :
      (i : ℕ)
      → i < n
      → (y.workers i).phase ≡ looking
      → y.pool.stopping ≡ true
      → Step n y (leave i y)
  enables : (slot u tape : ℕ) → Step n y (worker_pool_enable slot u tape y)
  begins_suspension : (slot : ℕ) → Step n y (suspend_begin slot y)
  ends_suspension : (slot : ℕ) → y.pool.inflight slot ≡ 0 → Step n y (suspend_end slot y)
  stops : Step n y (stop_pool y)
