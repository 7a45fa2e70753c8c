-- ===== src/Tests/Micro.antt =====
-- Runs of the microcontroller's occupancy.
use turmite_linux.Prelude.{
  ℕ, ◌≡◌, ◌≢◌, ◌⊎◌, refl, Bool, true, false, Option, none, some, List, [], ◌∷◌, arith, ◌==◌, update,
  update_ne,
}
use turmite_linux.Stm32.{TurmiteStm32Occupancy, turmite_stm32_occupancy_init}
use turmite_linux.Stm32.Steps.{
  Hsem, claim, outside, locking, loaded, System, Event, enters, takes, loads, writes, at_phase,
  take_stripe, write_byte, Run, begin, next,
}
use turmite_linux.Stm32.Locks.{Sequential}
use turmite_linux.Stm32.Atomic.{stripe_exclusive, calls_atomic}

-- Semaphores as a table of their holders.
abbrev table_take : ℕ → Option ℕ → (ℕ → Option ℕ) → ℕ → Bool × (ℕ → Option ℕ)
table_take c none s k = (true, update s k (some c))
table_take c (some d) s k = (d == c, s)

module _ (c k : ℕ) (s : ℕ → Option ℕ) where
  mine : (table_take c (s k) s k).0 ≡ true → (table_take c (s k) s k).1 k ≡ some c
  mine e = ground arith

  free : (table_take c (s k) s k).0 ≡ true → (s k ≡ none) ⊎ (s k ≡ some c)
  free e = ground arith

  busy : (table_take c (s k) s k).0 ≡ false → (table_take c (s k) s k).1 k ≡ s k
  busy e = ground arith

  other : (j : ℕ) → k ≢ j → (table_take c (s k) s k).1 j ≡ s j
  other j ne = ground arith

abbrev table : Hsem
table = record {
  State = ℕ → Option ℕ;
  fast_take = λ c k s. table_take c (s k) s k;
  release = λ c k s. update s k none;
  holder = λ s k. s k;
  take_mine = mine;
  take_free = free;
  take_busy = busy;
  take_other = λ c k j s. other c k s j;
  release_other = λ c k j s ne. update_ne s k j none ne;
}

-- Sixty-four empty cells.
abbrev bytes : TurmiteStm32Occupancy
bytes = record { has_cells = true; cells = λ _. 0; cell_count = 64 }

initialised : turmite_stm32_occupancy_init true (λ _. 0) 64 ≡ bytes
unfolding turmite_stm32_occupancy_init
initialised = refl

-- Both cores are outside.
abbrev fresh : System table
fresh = record { sems = λ _. none; occupancy = bytes; cores = λ _. outside }

-- Core 0 claims cell 5 for ant 1 while core 1 waits for the stripe to claim it for ant 2.
abbrev step_1 : System table
step_1 = at_phase fresh 0 (locking (claim 5 1))

abbrev step_2 : System table
step_2 = take_stripe step_1 0 (claim 5 1)

abbrev step_3 : System table
step_3 = at_phase step_2 1 (locking (claim 5 2))

abbrev step_4 : System table
step_4 = take_stripe step_3 1 (claim 5 2)

abbrev step_5 : System table
step_5 = at_phase step_4 0 (loaded (claim 5 1) 0)

abbrev step_6 : System table
step_6 = write_byte step_5 0 (claim 5 1) 0

abbrev contest_log : List Event
contest_log = record { core = 0; operation = claim 5 1; result = true; resident = some 0 } ∷ []

contest : Run table fresh contest_log step_6
contest =
    next
      (next
        (next
          (next (next (next begin (enters 0 (claim 5 1) refl refl)) (takes 0 (claim 5 1) refl))
            (enters 1 (claim 5 2) refl refl))
          (takes 1 (claim 5 2) refl))
        (loads 0 (claim 5 1) refl))
      (writes 0 (claim 5 1) 0 refl)

second_waits : step_6.cores 1 ≡ locking (claim 5 2)
second_waits = refl

calls_atomic_example : Sequential fresh.occupancy contest_log step_6.occupancy
calls_atomic_example = calls_atomic (λ i. refl) contest

stripe_exclusive_example : ◌≡◌ {A = ℕ} 0 0
stripe_exclusive_example = stripe_exclusive (λ i. refl) contest 0 0 5 refl refl
