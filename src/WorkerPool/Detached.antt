-- ===== src/WorkerPool/Detached.antt =====
-- src/worker_pool.c: what the steps do to a slot that has no member, unless they enable it.
use turmite_linux.Prelude.{
  ℕ, ◌<◌, ◌≡◌, refl, sym, ◌∙◌, ap, Bool, false, Option, none, some, arith, ◌==◌, ◌≢◌, update,
  update_both,
}
use turmite_linux.Prelude.Loops.{for_range_keep}
use turmite_linux.World.{World}
use turmite_linux.Ant.Types.{AntColony}
use turmite_linux.Ant.Execute.{ant_execute_quantum}
use turmite_linux.Scheduler.Select.{scheduler_acquire_group}
use turmite_linux.WorkerPool.Types.{
  WorkerPool, Phase, running, Worker, System, store_members, take_lease, lease_from, after_acquire,
  look, await, after_burst, run, give_back, uncount, leave, member_list, worker_pool_enable,
  suspend_begin, suspend_end, stop_pool, detach,
}
use turmite_linux.WorkerPool.Steps.{
  Step, looks, awaits, runs, gives_back, uncounts, leaves, enables, begins_suspension,
  ends_suspension, stops,
}
use turmite_linux.WorkerPool.Inflight.{holds, store_frame}
use turmite_linux.WorkerPool.Suspension.{detach_workers}

-- The step enables the slot.
abbrev pub enables_slot : {n : ℕ} {y z : System} → ℕ → Step n y z → Bool
enables_slot slot (enables k u tape) = k == slot
enables_slot slot s = false

-- The slot has no member.
unfoldable pub Off : ℕ → System → Type 0
Off slot y = y.pool.members slot ≡ none

lease_from-members :
    (i slot ant grant : ℕ) (y : System) (u tape : Option ℕ)
    → (lease_from i slot ant grant y u tape).pool.members ≡ y.pool.members
unfolding take_lease
lease_from-members i slot ant grant y none tape = refl
lease_from-members i slot ant grant y (some u) none = refl
lease_from-members i slot ant grant y (some u) (some tape) = refl

after_acquire-members :
    (i : ℕ) (y : System) (won : Option (ℕ × ℕ × ℕ))
    → (after_acquire i y won).pool.members ≡ y.pool.members
after_acquire-members i y none = refl
after_acquire-members i y (some (slot, ant, grant)) =
    lease_from-members i slot ant grant y (y.pool.members slot) (y.pool.worlds slot)

after_burst-members :
    (i slot u tape ant : ℕ) (y : System) (out : Option (ℕ × AntColony × World))
    → (after_burst i slot u tape ant y out).pool.members ≡ y.pool.members
after_burst-members i slot u tape ant y none = refl
after_burst-members i slot u tape ant y (some (k, c, w)) = refl

pub Step-Off :
    (n slot : ℕ) (y z : System) (s : Step n y z)
    → enables_slot slot s ≡ false
    → Off slot y
    → Off slot z
unfolding Off look await run give_back uncount leave worker_pool_enable suspend_begin suspend_end
    stop_pool
Step-Off n slot y _ (looks ld now i lt at going) e off =
    let out = scheduler_acquire_group ld (member_list y.pool.count 0 y) now in
    let same =
      after_acquire-members i (store_members 0 out.1 y) out.0
      ∙ ap (λ (p : WorkerPool). p.members) (store_frame 0 out.1 y).0 in
    ap (λ (f : ℕ → Option ℕ). f slot) same ∙ off
Step-Off n slot y _ (awaits i lt at) e off = off
Step-Off n slot y _ (runs fails i k u tape ant grant lt at) e off =
    ap (λ (f : ℕ → Option ℕ). f slot)
      (after_burst-members i k u tape ant y
        (ant_execute_quantum fails (y.schedulers u).colony (y.tapes tape) ant grant))
    ∙ off
Step-Off n slot y _ (gives_back ld now i k u ant m lt at) e off = off
Step-Off n slot y _ (uncounts i k lt at) e off = off
Step-Off n slot y _ (leaves i lt at halt) e off = off
Step-Off n slot y _ (enables k u tape) e off = ground (arith, e, off)
Step-Off n slot y _ (begins_suspension k) e off = ground (arith, off)
Step-Off n slot y _ (ends_suspension k empty) e off = off
Step-Off n slot y _ stops e off = off

-- None of the first `n` threads has a lease of the slot.
unfoldable pub Free : ℕ → ℕ → System → Type 0
Free n slot y = (j : ℕ) → j < n → holds (y.workers j).phase slot ≡ false

-- A thread that changes to a phase without a lease of the slot.
set-Free :
    (n slot i : ℕ) (y z : System) (w : Worker)
    → z.workers ≡ update y.workers i w
    → holds w.phase slot ≡ false
    → Free n slot y
    → Free n slot z
unfolding Free
set-Free n slot i y z w set outside free j lt =
    ap (λ (f : ℕ → Worker). holds (f j).phase slot) set
    ∙ update_both (λ (x : Worker). holds x.phase slot ≡ false) y.workers i j w (λ e. outside)
        (λ ne. free j lt)

same-Free : (n slot : ℕ) (y z : System) → z.workers ≡ y.workers → Free n slot y → Free n slot z
unfolding Free
same-Free n slot y z same free j lt =
    ap (λ (f : ℕ → Worker). holds (f j).phase slot) same ∙ free j lt

-- What the phase of a thread says, when it has no lease of the slot.
had :
    (n slot i : ℕ) (y : System) (p : Phase)
    → i < n
    → (y.workers i).phase ≡ p
    → Free n slot y
    → holds p slot ≡ false
unfolding Free
had n slot i y p lt at free = ap (λ (q : Phase). holds q slot) (sym at) ∙ free i lt

lease_from-Free :
    (n slot i k ant grant : ℕ) (y : System) (u tape : Option ℕ)
    → y.pool.members k ≡ u
    → Off slot y
    → Free n slot y
    → Free n slot (lease_from i k ant grant y u tape)
unfolding take_lease Off
lease_from-Free n slot i k ant grant y none tape e off free = free
lease_from-Free n slot i k ant grant y (some u) none e off free = free
lease_from-Free n slot i k ant grant y (some u) (some tape) e off free =
    let apart : k ≢ slot =
      λ at. let both : none ≡ some u = sym off ∙ ap y.pool.members (sym at) ∙ e in absurd cc in
    set-Free n slot i y (lease_from i k ant grant y (some u) (some tape))
      (record {
        phase = running k u tape ant grant;
        registered = false;
        generation = (y.workers i).generation;
      })
      refl (ground (arith, apart)) free

after_acquire-Free :
    (n slot i : ℕ) (y : System) (won : Option (ℕ × ℕ × ℕ))
    → Off slot y
    → Free n slot y
    → Free n slot (after_acquire i y won)
after_acquire-Free n slot i y none off free =
    set-Free n slot i y (after_acquire i y none) _ refl refl free
after_acquire-Free n slot i y (some (k, ant, grant)) off free =
    lease_from-Free n slot i k ant grant y (y.pool.members k) (y.pool.worlds k) refl off free

after_burst-Free :
    (n slot i k u tape ant : ℕ) (y : System) (out : Option (ℕ × AntColony × World))
    → (k == slot) ≡ false
    → Free n slot y
    → Free n slot (after_burst i k u tape ant y out)
after_burst-Free n slot i k u tape ant y none apart free = free
after_burst-Free n slot i k u tape ant y (some (m, c, w)) apart free =
    set-Free n slot i y (after_burst i k u tape ant y (some (m, c, w))) _ refl apart free

pool-Off : (slot : ℕ) (y z : System) → z.pool ≡ y.pool → Off slot y → Off slot z
unfolding Off
pool-Off slot y z same off = ap (λ (p : WorkerPool). p.members slot) same ∙ off

pub Step-Free :
    (n slot : ℕ) (y z : System) → Step n y z → Off slot y → Free n slot y → Free n slot z
unfolding look await run give_back uncount leave worker_pool_enable suspend_begin suspend_end
    stop_pool
Step-Free n slot y _ (looks ld now i lt at going) off free =
    let out = scheduler_acquire_group ld (member_list y.pool.count 0 y) now in
    let frame = store_frame 0 out.1 y in
    after_acquire-Free n slot i (store_members 0 out.1 y) out.0
      (pool-Off slot y (store_members 0 out.1 y) frame.0 off)
      (same-Free n slot y (store_members 0 out.1 y) frame.1 free)
Step-Free n slot y _ (awaits i lt at) off free = set-Free n slot i y (await i y) _ refl refl free
Step-Free n slot y _ (runs fails i k u tape ant grant lt at) off free =
    after_burst-Free n slot i k u tape ant y
      (ant_execute_quantum fails (y.schedulers u).colony (y.tapes tape) ant grant)
      (had n slot i y _ lt at free) free
Step-Free n slot y _ (gives_back ld now i k u ant m lt at) off free =
    set-Free n slot i y (give_back ld now i k u ant m y) _ refl (had n slot i y _ lt at free) free
Step-Free n slot y _ (uncounts i k lt at) off free =
    set-Free n slot i y (uncount i k y) _ refl refl free
Step-Free n slot y _ (leaves i lt at halt) off free =
    set-Free n slot i y (leave i y) _ refl refl free
Step-Free n slot y _ (enables k u tape) off free =
    same-Free n slot y (worker_pool_enable k u tape y) refl free
Step-Free n slot y _ (begins_suspension k) off free =
    same-Free n slot y (suspend_begin k y) (detach_workers (y.pool.members k) y) free
Step-Free n slot y _ (ends_suspension k empty) off free =
    same-Free n slot y (suspend_end k y) refl free
Step-Free n slot y _ stops off free =
    same-Free n slot y (stop_pool y)
      (for_range_keep (λ (t : System). t.workers ≡ y.workers) detach
        (λ m t h. detach_workers (t.pool.members m) t ∙ h) 0 y.pool.count y refl)
      free

pub begin-Off : (slot : ℕ) (y : System) → Off slot (suspend_begin slot y)
unfolding Off suspend_begin
begin-Off slot y = ground arith
