-- ===== src/WorkerPool/Suspension.antt =====
-- The counts of the pool are right in every run.
use turmite_linux.Prelude.{
  ℕ, ◌≤◌, ◌<◌, ◌≡◌, refl, sym, ◌∙◌, ap, Bool, true, false, Option, none, some, arith,
}
use turmite_linux.Prelude.Loops.{for_range_keep}
use turmite_linux.World.{World}
use turmite_linux.Ant.Types.{AntColony}
use turmite_linux.Ant.Execute.{ant_execute_quantum}
use turmite_linux.Scheduler.Types.{LongDouble}
use turmite_linux.Scheduler.Select.{scheduler_acquire_group}
use turmite_linux.WorkerPool.Types.{
  WorkerPool, Phase, looking, idle, running, ran, returned, exited, Worker, System, store_members,
  detach_member, take_lease, lease_from, after_acquire, look, await, worker_pool_create,
  after_burst, run, give_back, uncount, leave, member_list, worker_pool_enable, suspend_begin,
  suspend_end, stop_pool, detach,
}
use turmite_linux.WorkerPool.Steps.{
  Step, looks, awaits, runs, gives_back, uncounts, leaves, enables, begins_suspension,
  ends_suspension, stops,
}
use turmite_linux.WorkerPool.Inflight.{
  holds, Counted, Counted-same, phase_holds, store_frame, one_more, one_less,
}
use turmite_linux.Prelude.Tally.{tally_nobody}

pub detach_workers : (m : Option ℕ) (y : System) → (detach_member m y).workers ≡ y.workers
detach_workers none y = refl
detach_workers (some u) y = refl

module _ (n : ℕ) (few : n ≤ 8) where
  lease_from-Counted :
      (i slot ant grant : ℕ) (y : System) (u tape : Option ℕ)
      → i < n
      → (y.workers i).phase ≡ looking
      → Counted n y
      → Counted n (lease_from i slot ant grant y u tape)
  unfolding take_lease
  lease_from-Counted i slot ant grant y none tape lt at c = c
  lease_from-Counted i slot ant grant y (some u) none lt at c = c
  lease_from-Counted i slot ant grant y (some u) (some tape) lt at c =
      one_more n few y i lt c slot
        (record {
          phase = running slot u tape ant grant;
          registered = false;
          generation = (y.workers i).generation;
        })
        (λ k. ap (λ (p : Phase). holds p k) at) (λ k. refl)

  after_acquire-Counted :
      (i : ℕ) (y : System) (won : Option (ℕ × ℕ × ℕ))
      → i < n
      → (y.workers i).phase ≡ looking
      → Counted n y
      → Counted n (after_acquire i y won)
  after_acquire-Counted i y none lt at c =
      Counted-same n y (after_acquire i y none) refl
        (phase_holds y i idle (y.workers i).registered (y.workers i).generation
          (λ slot. sym (ap (λ (p : Phase). holds p slot) at)))
        c
  after_acquire-Counted i y (some (slot, ant, grant)) lt at c =
      lease_from-Counted i slot ant grant y (y.pool.members slot) (y.pool.worlds slot) lt at c

  look-Counted :
      (ld : LongDouble) (now i : ℕ) (y : System)
      → i < n
      → (y.workers i).phase ≡ looking
      → Counted n y
      → Counted n (look ld now i y)
  unfolding look
  look-Counted ld now i y lt at c =
      let out = scheduler_acquire_group ld (member_list y.pool.count 0 y) now in
      let frame = store_frame 0 out.1 y in
      after_acquire-Counted i (store_members 0 out.1 y) out.0 lt
        (ap (λ (f : ℕ → Worker). (f i).phase) frame.1 ∙ at)
        (Counted-same n y (store_members 0 out.1 y) (ap (λ (p : WorkerPool). p.inflight) frame.0)
          (λ j slot. ap (λ (f : ℕ → Worker). holds (f j).phase slot) frame.1) c)

  burst-Counted :
      (i slot u tape ant grant : ℕ) (y : System) (out : Option (ℕ × AntColony × World))
      → (y.workers i).phase ≡ running slot u tape ant grant
      → Counted n y
      → Counted n (after_burst i slot u tape ant y out)
  burst-Counted i slot u tape ant grant y none at c = c
  burst-Counted i slot u tape ant grant y (some (k, colony, w)) at c =
      Counted-same n y (after_burst i slot u tape ant y (some (k, colony, w))) refl
        (phase_holds y i (ran slot u ant k) (y.workers i).registered (y.workers i).generation
          (λ j. sym (ap (λ (p : Phase). holds p j) at)))
        c

  -- Every step keeps the counts right.
  pub Step-Counted : (y z : System) → Step n y z → Counted n y → Counted n z
  unfolding await run give_back uncount leave worker_pool_enable suspend_begin suspend_end stop_pool
  Step-Counted y _ (looks ld now i lt at going) c = look-Counted ld now i y lt at c
  Step-Counted y _ (awaits i lt at) c =
      Counted-same n y (await i y) refl
        (phase_holds y i looking true y.pool.wake.generation
          (λ slot. sym (ap (λ (p : Phase). holds p slot) at)))
        c
  Step-Counted y _ (runs fails i slot u tape ant grant lt at) c =
      burst-Counted i slot u tape ant grant y
        (ant_execute_quantum fails (y.schedulers u).colony (y.tapes tape) ant grant) at c
  Step-Counted y _ (gives_back ld now i slot u ant k lt at) c =
      Counted-same n y (give_back ld now i slot u ant k y) refl
        (phase_holds y i (returned slot) (y.workers i).registered (y.workers i).generation
          (λ j. sym (ap (λ (p : Phase). holds p j) at)))
        c
  Step-Counted y _ (uncounts i slot lt at) c =
      one_less n few y i lt c slot
        (record {
          phase = looking;
          registered = (y.workers i).registered;
          generation = (y.workers i).generation;
        })
        (λ k. ap (λ (p : Phase). holds p k) at) (λ k. refl)
  Step-Counted y _ (leaves i lt at halt) c =
      Counted-same n y (leave i y) refl
        (phase_holds y i exited (y.workers i).registered (y.workers i).generation
          (λ slot. sym (ap (λ (p : Phase). holds p slot) at)))
        c
  Step-Counted y _ (enables slot u tape) c =
      Counted-same n y (worker_pool_enable slot u tape y) refl (λ j k. refl) c
  Step-Counted y _ (begins_suspension slot) c =
      Counted-same n y (suspend_begin slot y) refl
        (λ j k.
          ap (λ (f : ℕ → Worker). holds (f j).phase k) (detach_workers (y.pool.members slot) y))
        c
  Step-Counted y _ (ends_suspension slot zero_left) c =
      Counted-same n y (suspend_end slot y) refl (λ j k. refl) c
  Step-Counted y _ stops c =
      Counted-same n y (stop_pool y) refl
        (λ j k.
          ap (λ (f : ℕ → Worker). holds (f j).phase k)
            (for_range_keep (λ (t : System). t.workers ≡ y.workers) detach
              (λ m t h. detach_workers (t.pool.members m) t ∙ h) 0 y.pool.count y refl))
        c

-- A sequence of steps.
pub data Run (n : ℕ) (y : System) : System → Type 0 where
  start : Run n y y
  then_step : (z t : System) → Run n y z → Step n z t → Run n y t

pub Run-Counted : (n : ℕ) (y z : System) → n ≤ 8 → Run n y z → Counted n y → Counted n z
Run-Counted n y _ few start c = c
Run-Counted n y _ few (then_step z t before last) c =
    Step-Counted n few z t last (Run-Counted n y z few before c)

pub created_lem :
    (members n slot : ℕ) (ok : Bool) (p : WorkerPool)
    → worker_pool_create members n ok ≡ some p
    → (n ≤ 8) × (p.inflight slot ≡ 0)
unfolding worker_pool_create
created_lem members n slot true p e = ground arith
created_lem members n slot false p e = ground arith

-- A created pool holds no lease, if its threads stand at the top of their loops.
pub created-Counted :
    (n members : ℕ) (ok : Bool) (y : System)
    → worker_pool_create members n ok ≡ some y.pool
    → ((j : ℕ) → (y.workers j).phase ≡ looking)
    → Counted n y
created-Counted n members ok y e at slot =
    (created_lem members n slot ok y.pool e).1
    ∙ sym (
        tally_nobody n (λ j. holds (y.workers j).phase slot)
          (λ j lt. ap (λ (p : Phase). holds p slot) (at j)))
