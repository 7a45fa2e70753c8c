-- ===== src/WorkerPool/Quiet.antt =====
-- After `worker_pool_suspend` no thread is at work in the slot, until it is enabled again.
use turmite_linux.Prelude.{ℕ, ◌≤◌, ◌<◌, ◌≡◌, sym, ◌∙◌, Bool, false, none, some}
use turmite_linux.WorkerPool.Types.{looking, System, worker_pool_create, suspend_begin}
use turmite_linux.WorkerPool.Steps.{Step, begins_suspension}
use turmite_linux.WorkerPool.Inflight.{holds, Counted}
use turmite_linux.Prelude.Tally.{tally_zero, tally_nobody}
use turmite_linux.WorkerPool.Suspension.{
  Run, Run-Counted, created_lem, created-Counted, Step-Counted,
}
use turmite_linux.WorkerPool.Detached.{enables_slot, Off, Free, Step-Off, Step-Free, begin-Off}

-- Steps of which none enables the slot.
pub data Quiet (n slot : ℕ) (y : System) : System → Type 0 where
  still : Quiet n slot y y
  then_quiet :
      (z t : System)
      → Quiet n slot y z
      → (s : Step n z t) → enables_slot slot s ≡ false
      → Quiet n slot y t

Quiet-Counted : (n slot : ℕ) (y z : System) → n ≤ 8 → Quiet n slot y z → Counted n y → Counted n z
Quiet-Counted n slot y _ few still c = c
Quiet-Counted n slot y _ few (then_quiet z t before last quiet) c =
    Step-Counted n few z t last (Quiet-Counted n slot y z few before c)

Quiet-Off : (n slot : ℕ) (y z : System) → Quiet n slot y z → Off slot y → Off slot z
Quiet-Off n slot y _ still off = off
Quiet-Off n slot y _ (then_quiet z t before last quiet) off =
    Step-Off n slot z t last quiet (Quiet-Off n slot y z before off)

Quiet-Free :
    (n slot : ℕ) (y z : System) → Quiet n slot y z → Off slot y → Free n slot y → Free n slot z
Quiet-Free n slot y _ still off free = free
Quiet-Free n slot y _ (then_quiet z t before last quiet) off free =
    Step-Free n slot z t last (Quiet-Off n slot y z before off)
      (Quiet-Free n slot y z before off free)

-- A pool that `worker_pool_create` made for `n` threads, all at the top of their loops, takes any
-- steps; then `worker_pool_suspend` begins, and waits through any steps of which none enables the
-- slot, until the count of the slot is zero. From there on, through any further steps of which
-- none enables the slot, it has no member, its count stays zero, and no thread has a lease of it.
pub suspended_slot_lem :
    (n members i slot : ℕ) (ok : Bool) (y z t v : System)
    → worker_pool_create members n ok ≡ some y.pool
    → ((j : ℕ) → (y.workers j).phase ≡ looking)
    → Run n y z
    → Quiet n slot (suspend_begin slot z) t
    → t.pool.inflight slot ≡ 0
    → Quiet n slot t v
    → i < n
    → (v.pool.members slot ≡ none)
      × (v.pool.inflight slot ≡ 0)
      × (holds (v.workers i).phase slot ≡ false)
unfolding Off Free
suspended_slot_lem n members i slot ok y z t v made at steps waits empty after lt =
    let few = (created_lem members n 0 ok y.pool made).0 in
    let begun : Counted n (suspend_begin slot z) =
      Step-Counted n few z (suspend_begin slot z) (begins_suspension slot)
        (Run-Counted n y z few steps (created-Counted n members ok y made at)) in
    let counted = Quiet-Counted n slot (suspend_begin slot z) t few waits begun in
    let off = Quiet-Off n slot (suspend_begin slot z) t waits (begin-Off slot z) in
    let free : Free n slot t = λ j below.
      tally_zero n j (λ j. holds (t.workers j).phase slot) below (sym (counted slot) ∙ empty) in
    let free_after = Quiet-Free n slot t v after off free in
    let counted_after = Quiet-Counted n slot t v few after counted in
    (
      Quiet-Off n slot t v after off,
      counted_after slot ∙ tally_nobody n (λ j. holds (v.workers j).phase slot) free_after,
      free_after i lt,
    )
