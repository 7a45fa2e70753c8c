-- ===== src/Tests/Pool.antt =====
-- Runs of the worker pool.
use turmite_linux.Prelude.{◌≡◌, refl, true, false, none, some, arith, []}
use turmite_linux.Prelude.Int.{◌+ℤ◌, ◌-ℤ◌}
use turmite_linux.Prelude.Loops.{for_range}
use turmite_linux.Scheduler.Types.{exact_long_double, scheduler_wake_event}
use turmite_linux.Scheduler.Tokens.{accrue_tokens, earned_fp, runnable}
use turmite_linux.Scheduler.Select.{
  scheduler_acquire_group, group_scan, recenter, lease_member, lease_locked, candidate_locked,
  recover_pass, select_pass, weigh, required_tokens,
}
use turmite_linux.WorkerPool.Types.{
  WorkerPool, looking, running, System, worker_pool_create, worker_pool_enable, look, take_lease,
  run, suspend_begin, member_list, store_members,
}
use turmite_linux.WorkerPool.Steps.{enables, looks, runs}
use turmite_linux.WorkerPool.Inflight.{holds}
use turmite_linux.WorkerPool.Suspension.{Run, start, then_step}
use turmite_linux.WorkerPool.Quiet.{Quiet, still, then_quiet, suspended_slot_lem}
use turmite_linux.Tests.Samples.{small_world, one_scheduler}

abbrev new_pool : WorkerPool
new_pool = record {
  wake = record { waiters = 0; generation = 0 };
  members = λ _. none;
  worlds = λ _. none;
  inflight = λ _. 0;
  count = 2;
  stopping = false;
}

-- Two slots, two threads, nothing enabled.
abbrev new_system : System
new_system = record {
  pool = new_pool;
  schedulers = λ _. one_scheduler;
  tapes = λ _. small_world;
  workers = λ _. record { phase = looking; registered = false; generation = 0 };
}

created : worker_pool_create 2 2 true ≡ some new_pool
unfolding worker_pool_create
created = refl

-- Slot 0 is enabled, and the first thread finds an ant there.
abbrev enabled_system : System
enabled_system = worker_pool_enable 0 0 0 new_system

abbrev leased_system : System
leased_system = look exact_long_double 200 0 enabled_system

steps : Run 2 new_system leased_system
unfolding worker_pool_enable
steps =
    then_step enabled_system leased_system
      (then_step new_system enabled_system start (enables 0 0 0))
      (looks exact_long_double 200 0 (omega arith) refl refl)

leased_first : (leased_system.workers 0).phase ≡ running 0 0 0 0 4
unfolding worker_pool_enable look member_list store_members take_lease scheduler_acquire_group
    group_scan recenter lease_member lease_locked candidate_locked recover_pass select_pass
    accrue_tokens earned_fp runnable weigh for_range required_tokens ◌+ℤ◌ ◌-ℤ◌ scheduler_wake_event
leased_first = refl

slot_1_empty : leased_system.pool.inflight 1 ≡ 0
unfolding worker_pool_enable look member_list store_members take_lease scheduler_acquire_group
    group_scan recenter lease_member lease_locked candidate_locked recover_pass select_pass
    accrue_tokens earned_fp runnable weigh for_range required_tokens ◌+ℤ◌ ◌-ℤ◌ scheduler_wake_event
slot_1_empty = refl

-- No thread has a lease of slot 1 when its suspension begins, so the wait is over at once.
slot_1_free : (suspend_begin 1 leased_system).pool.inflight 1 ≡ 0
unfolding suspend_begin
slot_1_free = slot_1_empty

-- The first thread runs its burst in slot 0 after slot 1 is suspended.
abbrev ran_system : System
ran_system = run (λ _. []) 0 0 0 0 0 4 (suspend_begin 1 leased_system)

still_leased : ((suspend_begin 1 leased_system).workers 0).phase ≡ running 0 0 0 0 4
unfolding suspend_begin worker_pool_enable look member_list store_members take_lease
    scheduler_acquire_group group_scan recenter lease_member lease_locked candidate_locked
    recover_pass select_pass accrue_tokens earned_fp runnable weigh for_range required_tokens ◌+ℤ◌
    ◌-ℤ◌ scheduler_wake_event
still_leased = refl

after : Quiet 2 1 (suspend_begin 1 leased_system) ran_system
after =
    then_quiet (suspend_begin 1 leased_system) ran_system still
      (runs (λ _. []) 0 0 0 0 0 4 (omega arith) still_leased) refl

suspended_slot_lem_example :
    (ran_system.pool.members 1 ≡ none)
    × (ran_system.pool.inflight 1 ≡ 0)
    × (holds (ran_system.workers 0).phase 1 ≡ false)
suspended_slot_lem_example =
    suspended_slot_lem 2 2 0 1 true new_system leased_system (suspend_begin 1 leased_system)
      ran_system created (λ j. refl) steps still slot_1_free after (omega arith)
