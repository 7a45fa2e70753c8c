-- ===== src/Scheduler/Types.antt =====
-- src/scheduler.h: the scheduler's state, and the floating-point arithmetic it uses.
use turmite_linux.Prelude.{
  ℕ, ◌+◌, ◌*◌, ◌/◌, Bool, Option, none, some, update, if◌then◌else◌, ltb, ◌==◌, u64,
}
use turmite_linux.Prelude.Int.{ℤ}
use turmite_linux.Ant.Types.{Ant, AntColony}

-- `SchedulerWake`: the mutex and the condition variable have no state of their own.
pub record SchedulerWake : Type 0 where
  pub waiters : ℕ
  pub generation : ℕ

-- `Scheduler`. `wake` is the event that the pointer of that name points to, if it is not null.
-- A `double` of `fair_credit` only ever holds a sum of integers, so it is an integer here.
pub record Scheduler : Type 0 where
  pub colony : AntColony
  pub wake : Option SchedulerWake
  pub next_wake_us : ℕ
  pub collision_mutation : Bool
  pub stopping : Bool
  pub draining : Bool
  pub paused : Bool
  pub dispatches : ℕ
  pub empty_scans : ℕ
  pub idle_waits : ℕ
  pub granted_instructions : ℕ
  pub fair_credit : ℕ → ℤ
  pub last_token_us : ℕ → ℕ
  pub recovery_at_us : ℕ → ℕ
  pub quantum : ℕ
  pub min_service : ℕ
  pub token_rate_scale : ℕ
  pub token_rate_divisor : ℕ

abbrev pub collision_pause_us : ℕ
collision_pause_us = 50000

-- The `long double` arithmetic of the slow paths, rounded as the machine rounds it: what has been
-- earned, from the effective rate, the elapsed time and the divisor, cut to an integer; and the
-- delay until the missing tokens are earned, from these, the divisor and the rate, cut to an
-- integer, with whether something was cut off.
pub record LongDouble : Type 0 where
  pub earned : ℕ → ℕ → ℕ → ℕ
  pub delay : ℕ → ℕ → ℕ → ℕ × Bool

-- Exact arithmetic, an instance of it.
abbrev pub exact_long_double : LongDouble
exact_long_double = record {
  earned = λ rate elapsed divisor. rate * elapsed * 65536 / (1000000 * divisor);
  delay = λ missing divisor rate.
      let n = missing * 1000000 * divisor in let d = rate * 65536 in (n / d, ltb (n / d * d) n);
}

abbrev pub ant_at : Scheduler → ℕ → Ant
ant_at s i = s.colony.ants i

abbrev pub with_colony : Scheduler → AntColony → Scheduler
with_colony s c = record s { colony = c }

abbrev pub store_ant : Scheduler → ℕ → Ant → Scheduler
store_ant s i a = let c = s.colony in record s { colony = record c { ants = update c.ants i a } }

unfoldable pub scheduler_wake_event : SchedulerWake → SchedulerWake
scheduler_wake_event wake =
    if wake.waiters == 0 then wake else record wake { generation = u64 (wake.generation + 1) }

-- The broadcast to the standalone workers changes no state.
unfoldable pub notify_locked : Scheduler → Scheduler
notify_locked s = record s {
  wake = elim s.wake [ none ↦ none | some w ↦ some (scheduler_wake_event w) ];
}
