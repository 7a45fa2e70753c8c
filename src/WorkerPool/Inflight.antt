-- ===== src/WorkerPool/Inflight.antt =====
-- The pool counts the leases that its threads hold: so a suspended slot has no thread at work.
use turmite_linux.Prelude.{
  ℕ, suc, ◌+◌, ◌≤◌, ◌<◌, ◌≡◌, refl, sym, ◌∙◌, ap, Bool, false, Option, none, some, List, [], ◌∷◌,
  ◌==◌, update, u64, sub_u64, arith, ℕ_discrete, update_self, update_both, ==_iff,
}
use turmite_linux.Scheduler.Types.{Scheduler}
use turmite_linux.WorkerPool.Types.{
  Phase, looking, idle, running, ran, returned, exited, Worker, System, store_members,
  store_scheduler,
}
use turmite_linux.Prelude.Tally.{tally, tally_same, tally-le, tally_add}

-- Whether a thread holds a lease of the slot, or has yet to report its return.
abbrev pub holds : Phase → ℕ → Bool
holds (running k u tape ant grant) slot = k == slot
holds (ran k u ant n) slot = k == slot
holds (returned k) slot = k == slot
holds looking slot = false
holds idle slot = false
holds exited slot = false

-- The pool's count of each slot is that of the threads which hold a lease of it.
abbrev pub Counted : ℕ → System → Type 0
Counted n y = (slot : ℕ) → y.pool.inflight slot ≡ tally n (λ j. holds (y.workers j).phase slot)

-- A step that leaves the counts alone, and what each thread holds.
pub Counted-same :
    (n : ℕ) (y z : System)
    → z.pool.inflight ≡ y.pool.inflight
    → ((j slot : ℕ) → holds (z.workers j).phase slot ≡ holds (y.workers j).phase slot)
    → Counted n y
    → Counted n z
Counted-same n y z same hold c slot =
    ap (λ (f : ℕ → ℕ). f slot) same ∙ c slot ∙ tally_same n _ _ (λ j lt. sym (hold j slot))

-- A change of phase between two that hold the same.
pub phase_holds :
    (y : System) (i : ℕ) (p : Phase) (r : Bool) (g : ℕ)
    → ((slot : ℕ) → holds p slot ≡ holds (y.workers i).phase slot)
    → (j slot : ℕ)
    → let w : Worker = record { phase = p; registered = r; generation = g } in
      holds (update y.workers i w j).phase slot ≡ holds (y.workers j).phase slot
phase_holds y i p r g h j slot = elim (ℕ_discrete i j) [
  | yes e ↦ rw (sym e) (ground (arith, h slot))
  | no ne ↦ ground arith
]

pub store_frame :
    (k : ℕ) (ms : List (Option Scheduler)) (y : System)
    → ((store_members k ms y).pool ≡ y.pool) × ((store_members k ms y).workers ≡ y.workers)
unfolding store_members
store_frame k [] y = (refl, refl)
store_frame k (none ∷ ms) y = store_frame (suc k) ms y
store_frame k (some s ∷ ms) y =
    let rest = store_frame (suc k) ms (store_scheduler (y.pool.members k) s y) in
    let one = scheduler_frame (y.pool.members k) s y in (rest.0 ∙ one.0, rest.1 ∙ one.1)
  where
    scheduler_frame :
        (u : Option ℕ) (s : Scheduler) (y : System)
        → ((store_scheduler u s y).pool ≡ y.pool) × ((store_scheduler u s y).workers ≡ y.workers)
    scheduler_frame none s y = (refl, refl)
    scheduler_frame (some u) s y = (refl, refl)

module _ (n : ℕ) (few : n ≤ 8) (y : System) (i : ℕ) (lt : i < n) (c : Counted n y) where
  -- A thread that held nothing and now holds a lease of one slot.
  pub one_more :
      (slot : ℕ) (w : Worker)
      → ((k : ℕ) → holds (y.workers i).phase k ≡ false)
      → ((k : ℕ) → holds w.phase k ≡ (slot == k))
      → (k : ℕ)
      → update y.pool.inflight slot (u64 (y.pool.inflight slot + 1)) k
        ≡ tally n (λ j. holds (update y.workers i w j).phase k)
  one_more slot w before after k = elim (ℕ_discrete slot k) [
    | yes e ↦
        let more =
          tally_add n i (λ j. holds (y.workers j).phase k)
            (λ j. holds (update y.workers i w j).phase k) lt (before k)
            (ap (λ (x : Worker). holds x.phase k) (update_self y.workers i w)
              ∙ after k
              ∙ (==_iff slot k).1 e)
            (λ j ne. ground arith) in
        let room = tally-le n (λ j. holds (y.workers j).phase k) in
        ground (arith, more, room, c k, c slot, e)
    | no ne ↦
        let apart : (slot == k) ≡ false = ground arith in
        let same =
          tally_same n (λ j. holds (y.workers j).phase k)
            (λ j. holds (update y.workers i w j).phase k)
            (λ j under.
              update_both (λ (x : Worker). holds (y.workers j).phase k ≡ holds x.phase k) y.workers
                i j w
                (λ at.
                  ap (λ (x : ℕ). holds (y.workers x).phase k) (sym at)
                  ∙ before k
                  ∙ sym (after k ∙ apart))
                (λ _. refl)) in
        ground (arith, c k, same)
  ]

  -- A thread that held a lease of one slot and now holds nothing.
  pub one_less :
      (slot : ℕ) (w : Worker)
      → ((k : ℕ) → holds (y.workers i).phase k ≡ (slot == k))
      → ((k : ℕ) → holds w.phase k ≡ false)
      → (k : ℕ)
      → update y.pool.inflight slot (sub_u64 (y.pool.inflight slot) 1) k
        ≡ tally n (λ j. holds (update y.workers i w j).phase k)
  one_less slot w before after k = elim (ℕ_discrete slot k) [
    | yes e ↦
        let more =
          tally_add n i (λ j. holds (update y.workers i w j).phase k)
            (λ j. holds (y.workers j).phase k) lt
            (ap (λ (x : Worker). holds x.phase k) (update_self y.workers i w) ∙ after k)
            (before k ∙ (==_iff slot k).1 e) (λ j ne. ground arith) in
        let room = tally-le n (λ j. holds (y.workers j).phase k) in
        ground (arith, more, room, c k, c slot, e)
    | no ne ↦
        let apart : (slot == k) ≡ false = ground arith in
        let same =
          tally_same n (λ j. holds (y.workers j).phase k)
            (λ j. holds (update y.workers i w j).phase k)
            (λ j under.
              update_both (λ (x : Worker). holds (y.workers j).phase k ≡ holds x.phase k) y.workers
                i j w
                (λ at.
                  ap (λ (x : ℕ). holds (y.workers x).phase k) (sym at)
                  ∙ (before k ∙ apart)
                  ∙ sym (after k))
                (λ _. refl)) in
        ground (arith, c k, same)
  ]
