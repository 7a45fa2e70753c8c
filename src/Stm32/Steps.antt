-- ===== src/Stm32/Steps.antt =====
-- stm32/src/turmite_stm32_shared.c: the calls of the cores, interleaved at every access to the
-- shared memory and to a semaphore.
use turmite_linux.Prelude.{
  ℕ, ◌≡◌, ◌≢◌, ◌⊎◌, Bool, true, false, Option, none, some, List, [], ◌∷◌, ◌++◌, ◌==◌, if◌then◌else◌,
  update,
}
use turmite_linux.Stm32.{
  TurmiteStm32Occupancy, stripe_for_cell, store_cell, refused, turmite_occupancy_empty,
}

-- The hardware semaphores, of which the code uses `HAL_HSEM_FastTake` and `HAL_HSEM_Release`, each
-- called by a core with a semaphore's number. `holder` is the core that a semaphore is locked by.
-- A take succeeds only if no other core holds the semaphore, and then the caller holds it; a take
-- that fails and an access to another semaphore change nothing there.
pub record Hsem : Type 1 where
  pub State : Type 0
  pub fast_take : ℕ → ℕ → State → Bool × State
  pub release : ℕ → ℕ → State → State
  pub holder : State → ℕ → Option ℕ
  pub take_mine :
      (c k : ℕ) (s : State) → (fast_take c k s).0 ≡ true → holder (fast_take c k s).1 k ≡ some c
  pub take_free :
      (c k : ℕ) (s : State)
      → (fast_take c k s).0 ≡ true
      → (holder s k ≡ none) ⊎ (holder s k ≡ some c)
  pub take_busy :
      (c k : ℕ) (s : State)
      → (fast_take c k s).0 ≡ false
      → holder (fast_take c k s).1 k ≡ holder s k
  pub take_other : (c k j : ℕ) (s : State) → k ≢ j → holder (fast_take c k s).1 j ≡ holder s j
  pub release_other : (c k j : ℕ) (s : State) → k ≢ j → holder (release c k s) j ≡ holder s j

-- A call with its arguments.
pub data Operation : Type 0 where
  claim : ℕ → ℕ → Operation
  replace : ℕ → ℕ → ℕ → Operation
  release_cell : ℕ → ℕ → Operation

abbrev pub cell_of : Operation → ℕ
cell_of (claim cell owner) = cell
cell_of (replace cell expected owner) = cell
cell_of (release_cell cell owner) = cell

abbrev pub rejects : Operation → TurmiteStm32Occupancy → Bool
rejects (claim cell owner) o = refused o cell owner
rejects (replace cell expected owner) o = refused o cell owner
rejects (release_cell cell owner) o = refused o cell owner

-- The test on the byte that was loaded, and the store that follows when it passes.
abbrev pub accepts : Operation → ℕ → Bool
accepts (claim cell owner) resident = resident == turmite_occupancy_empty
accepts (replace cell expected owner) resident = resident == expected
accepts (release_cell cell owner) resident = resident == owner

abbrev pub new_owner : Operation → ℕ
new_owner (claim cell owner) = owner
new_owner (replace cell expected owner) = owner
new_owner (release_cell cell owner) = turmite_occupancy_empty

-- What the caller gets through `resident_id`.
abbrev pub reported : Operation → ℕ → Option ℕ
reported (claim cell owner) resident = some resident
reported (replace cell expected owner) resident = none
reported (release_cell cell owner) resident = none

-- Where a core stands: outside, in the loop of `stripe_lock`, behind it, with the byte loaded, and
-- with the store done, if there was one.
pub data Phase : Type 0 where
  outside : Phase
  locking : Operation → Phase
  locked : Operation → Phase
  loaded : Operation → ℕ → Phase
  stored : Operation → Phase

pub record System (h : Hsem) : Type 0 where
  pub sems : h.State
  pub occupancy : TurmiteStm32Occupancy
  pub cores : ℕ → Phase

-- A call that was decided: the core, the operation, its result, and what it reports.
pub record Event : Type 0 where
  pub core : ℕ
  pub operation : Operation
  pub result : Bool
  pub resident : Option ℕ

abbrev pub at_phase : {h : Hsem} → System h → ℕ → Phase → System h
at_phase y i p = record y { cores = update y.cores i p }

abbrev pub take_stripe : {h : Hsem} → System h → ℕ → Operation → System h
take_stripe {h} y i op =
    let (won, s) = h.fast_take i (stripe_for_cell (cell_of op)) y.sems in
    record y { sems = s; cores = update y.cores i (if won then locked op else locking op) }

abbrev pub write_byte : {h : Hsem} → System h → ℕ → Operation → ℕ → System h
write_byte y i op resident =
    let o = y.occupancy in
    record y {
      occupancy = if accepts op resident then store_cell o (cell_of op) (new_owner op) else o;
      cores = update y.cores i (stored op);
    }

abbrev pub unlock_stripe : {h : Hsem} → System h → ℕ → Operation → System h
unlock_stripe {h} y i op = record y {
  sems = h.release i (stripe_for_cell (cell_of op)) y.sems;
  cores = update y.cores i outside;
}

-- A core takes a step. A call is decided when it is refused, and otherwise when it writes.
pub data Step (h : Hsem) (y : System h) : List Event → System h → Type 0 where
  refuses :
      (i : ℕ) (op : Operation)
      → y.cores i ≡ outside
      → rejects op y.occupancy ≡ true
      → Step h y (record { core = i; operation = op; result = false; resident = none } ∷ []) y
  enters :
      (i : ℕ) (op : Operation)
      → y.cores i ≡ outside
      → rejects op y.occupancy ≡ false
      → Step h y [] (at_phase y i (locking op))
  takes : (i : ℕ) (op : Operation) → y.cores i ≡ locking op → Step h y [] (take_stripe y i op)
  loads :
      (i : ℕ) (op : Operation)
      → y.cores i ≡ locked op
      → Step h y [] (at_phase y i (loaded op (y.occupancy.cells (cell_of op))))
  writes :
      (i : ℕ) (op : Operation) (r : ℕ)
      → y.cores i ≡ loaded op r
      → Step h y
          (record { core = i; operation = op; result = accepts op r; resident = reported op r }
            ∷ [])
          (write_byte y i op r)
  unlocks : (i : ℕ) (op : Operation) → y.cores i ≡ stored op → Step h y [] (unlock_stripe y i op)

-- A run, with the calls that were decided, the last one first.
pub data Run (h : Hsem) (start : System h) : List Event → System h → Type 0 where
  begin : Run h start [] start
  next :
      {log events : List Event} {y z : System h}
      → Run h start log y
      → Step h y events z
      → Run h start (events ++ log) z
