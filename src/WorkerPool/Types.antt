-- ===== src/WorkerPool/Types.antt =====
-- src/worker_pool.c: the pool's state and its operations.
use turmite_linux.Prelude.{
  ℕ, zero, suc, ◌+◌, Bool, true, false, ◌||◌, ltb, Option, none, some, List, [], ◌∷◌, ◌==◌,
  if◌then◌else◌, update, u64, u32, sub_u32, sub_u64,
}
use turmite_linux.World.{World}
use turmite_linux.Prelude.Loops.{for_range}
use turmite_linux.Ant.Types.{AntColony}
use turmite_linux.Ant.Execute.{ant_execute_quantum}
use turmite_linux.Scheduler.Types.{
  Scheduler, SchedulerWake, LongDouble, scheduler_wake_event, with_colony,
}
use turmite_linux.Scheduler.Select.{scheduler_acquire_group}
use turmite_linux.Scheduler.Control.{scheduler_release}

-- `WorkerPool`. A pointer to a scheduler or a world is the number of its universe.
pub record WorkerPool : Type 0 where
  pub wake : SchedulerWake
  pub members : ℕ → Option ℕ
  pub worlds : ℕ → Option ℕ
  pub inflight : ℕ → ℕ
  pub count : ℕ
  pub stopping : Bool

-- Where a thread of `run_worker` stands, between two holds of a lock: at the top of its loop,
-- with nothing found, with a lease, with a burst done, with the lease
-- returned, and past the loop.
pub data Phase : Type 0 where
  looking : Phase
  idle : Phase
  running : ℕ → ℕ → ℕ → ℕ → ℕ → Phase
  ran : ℕ → ℕ → ℕ → ℕ → Phase
  returned : ℕ → Phase
  exited : Phase

-- A thread's local variables.
pub record Worker : Type 0 where
  pub phase : Phase
  pub registered : Bool
  pub generation : ℕ

-- The pool, the universes' schedulers and worlds, and the threads. The event is the pool's: the
-- `wake` of a scheduler only says whether the scheduler signals it.
pub record System : Type 0 where
  pub pool : WorkerPool
  pub schedulers : ℕ → Scheduler
  pub tapes : ℕ → World
  pub workers : ℕ → Worker

-- The pool as created, before its threads take a step. `ok` says that the memory, the locks and
-- the threads could be had.
unfoldable pub worker_pool_create : ℕ → ℕ → Bool → Option WorkerPool
worker_pool_create members workers ok =
    if members == 0 || workers == 0 || ltb 8 workers
    then none
    else if ok
    then some (record {
      wake = record { waiters = 0; generation = 0 };
      members = λ _. none;
      worlds = λ _. none;
      inflight = λ _. 0;
      count = members;
      stopping = false;
    })
    else none

abbrev pub set_phase : System → ℕ → Phase → System
set_phase y i p =
    let w = y.workers i in record y { workers = update y.workers i (record w { phase = p }) }

-- `pool->members`, as the group acquisition reads it from slot `k` on.
unfoldable pub member_list : ℕ → ℕ → System → List (Option Scheduler)
member_list zero k y = []
member_list (suc n) k y =
    (elim (y.pool.members k) [ none ↦ none | some u ↦ some (y.schedulers u) ])
    ∷ member_list n (suc k) y

-- A write through a member's pointer.
abbrev pub store_scheduler : Option ℕ → Scheduler → System → System
store_scheduler none s y = y
store_scheduler (some u) s y = record y { schedulers = update y.schedulers u s }

-- A member no longer signals the pool's event.
abbrev pub detach_member : Option ℕ → System → System
detach_member none y = y
detach_member (some u) y =
    let s = y.schedulers u in
    record y { schedulers = update y.schedulers u (record s { wake = none }) }

-- What the acquisition wrote to its members.
unfoldable pub store_members : ℕ → List (Option Scheduler) → System → System
store_members k [] y = y
store_members k (none ∷ ms) y = store_members (suc k) ms y
store_members k (some s ∷ ms) y = store_members (suc k) ms (store_scheduler (y.pool.members k) s y)

-- A lease: the thread leaves the waiters, if it is one, and is counted in flight.
unfoldable pub take_lease : System → ℕ → ℕ → ℕ → ℕ → ℕ → ℕ → System
take_lease y i slot u tape ant grant =
    let p = y.pool in
    let w = y.workers i in
    let left = record p.wake { waiters = sub_u32 p.wake.waiters 1 } in
    record y {
      pool = record p {
        wake = if w.registered then left else p.wake;
        inflight = update p.inflight slot (u64 (p.inflight slot + 1));
      };
      workers =
          update y.workers i
            (record w { phase = running slot u tape ant grant; registered = false });
    }

-- After the group acquisition. A slot that gave an ant has a member and a world.
abbrev pub lease_from : ℕ → ℕ → ℕ → ℕ → System → Option ℕ → Option ℕ → System
lease_from i slot ant grant y none tape = y
lease_from i slot ant grant y (some u) none = y
lease_from i slot ant grant y (some u) (some tape) = take_lease y i slot u tape ant grant

abbrev pub after_acquire : ℕ → System → Option (ℕ × ℕ × ℕ) → System
after_acquire i y none = set_phase y i idle
after_acquire i y (some (slot, ant, grant)) =
    lease_from i slot ant grant y (y.pool.members slot) (y.pool.worlds slot)

-- The thread looks for an ant.
unfoldable pub look : LongDouble → ℕ → ℕ → System → System
look ld now i y =
    let (won, ms) = scheduler_acquire_group ld (member_list y.pool.count 0 y) now in
    after_acquire i (store_members 0 ms y) won

-- With nothing found it registers as a waiter, or, if no event came since, waits for one.
unfoldable pub await : ℕ → System → System
await i y =
    let p = y.pool in
    let w = y.workers i in
    let joined = record p.wake { waiters = u32 (p.wake.waiters + 1) } in
    record y {
      pool = record p { wake = if w.registered then p.wake else joined };
      workers =
          update y.workers i
            (record w { phase = looking; registered = true; generation = p.wake.generation });
    }

-- The burst, with no lock held.
abbrev pub after_burst : ℕ → ℕ → ℕ → ℕ → ℕ → System → Option (ℕ × AntColony × World) → System
after_burst i slot u tape ant y none = y
after_burst i slot u tape ant y (some (n, c, w)) =
    set_phase
      (record y {
        schedulers = update y.schedulers u (with_colony (y.schedulers u) c);
        tapes = update y.tapes tape w;
      })
      i (ran slot u ant n)

unfoldable pub run : (ℕ → List Bool) → ℕ → ℕ → ℕ → ℕ → ℕ → ℕ → System → System
run fails i slot u tape ant grant y =
    after_burst i slot u tape ant y
      (ant_execute_quantum fails (y.schedulers u).colony (y.tapes tape) ant grant)

-- The lease goes back; a scheduler that is enabled signals the pool's event.
unfoldable pub give_back : LongDouble → ℕ → ℕ → ℕ → ℕ → ℕ → ℕ → System → System
give_back ld now i slot u ant n y =
    let p = y.pool in
    let s = y.schedulers u in
    let attached : Option SchedulerWake = elim (s.wake) [ none ↦ none | some w ↦ some p.wake ] in
    let s1 = scheduler_release ld (record s { wake = attached }) ant n now in
    let event : SchedulerWake = elim (s1.wake) [ none ↦ p.wake | some w ↦ w ] in
    set_phase (record y { pool = record p { wake = event }; schedulers = update y.schedulers u s1 })
      i (returned slot)

unfoldable pub uncount : ℕ → ℕ → System → System
uncount i slot y =
    let p = y.pool in
    set_phase
      (record y {
        pool = record p { inflight = update p.inflight slot (sub_u64 (p.inflight slot) 1) };
      })
      i looking

-- A thread that finds the pool stopping leaves the waiters and ends.
unfoldable pub leave : ℕ → System → System
leave i y =
    let p = y.pool in
    let w = y.workers i in
    let left = record p.wake { waiters = sub_u32 p.wake.waiters 1 } in
    set_phase (record y { pool = record p { wake = if w.registered then left else p.wake } }) i
      exited

unfoldable pub worker_pool_enable : ℕ → ℕ → ℕ → System → System
worker_pool_enable slot u tape y =
    let p = y.pool in
    let s = y.schedulers u in
    record y {
      pool = record p {
        worlds = update p.worlds slot (some tape);
        members = update p.members slot (some u);
        wake = scheduler_wake_event p.wake;
      };
      schedulers = update y.schedulers u (record s { wake = some p.wake });
    }

-- `worker_pool_suspend` up to its wait for the leases of the slot.
unfoldable pub suspend_begin : ℕ → System → System
suspend_begin slot y =
    let p = y.pool in
    let y1 = detach_member (p.members slot) y in
    record y1 {
      pool = record p { members = update p.members slot none; wake = scheduler_wake_event p.wake };
    }

-- And what follows when the wait is over.
unfoldable pub suspend_end : ℕ → System → System
suspend_end slot y =
    let p = y.pool in record y { pool = record p { worlds = update p.worlds slot none } }

-- `worker_pool_destroy` up to the joins: every member is detached from the event.
abbrev pub detach : ℕ → System → System
detach k y = detach_member (y.pool.members k) y

unfoldable pub stop_pool : System → System
stop_pool y =
    let detached = for_range 0 y.pool.count detach y in
    let p = y.pool in
    record detached { pool = record p { stopping = true; wake = scheduler_wake_event p.wake } }
