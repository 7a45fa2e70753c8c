-- ===== src/Scheduler/Observe.antt =====
-- src/scheduler.c: what other components read of the scheduler.
use turmite_linux.Prelude.{ℕ}
use turmite_linux.Scheduler.Types.{Scheduler}

unfoldable pub scheduler_get_dispatches : Scheduler → ℕ
scheduler_get_dispatches s = s.dispatches

unfoldable pub scheduler_get_empty_scans : Scheduler → ℕ
scheduler_get_empty_scans s = s.empty_scans

unfoldable pub scheduler_get_idle_waits : Scheduler → ℕ
scheduler_get_idle_waits s = s.idle_waits

unfoldable pub scheduler_get_granted_instructions : Scheduler → ℕ
scheduler_get_granted_instructions s = s.granted_instructions

unfoldable pub scheduler_get_token_rate_divisor : Scheduler → ℕ
scheduler_get_token_rate_divisor s = s.token_rate_divisor

unfoldable pub scheduler_get_quantum : Scheduler → ℕ
scheduler_get_quantum s = s.quantum

unfoldable pub scheduler_get_min_service : Scheduler → ℕ
scheduler_get_min_service s = s.min_service
