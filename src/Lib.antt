-- ===== src/Lib.antt =====
-- Verification library for the turmite universe: machines that walk on a shared tape of colors,
-- scheduled over a pool of workers by token buckets and fair credit.
--
-- Parts of the program, and the files that model them:
--   * src/rng.c, src/rng.h: Rng. `lfsr32_advance` is the generator's step; `rng_next` is its
--     compare-and-swap loop, over a list that says what other threads do at each try and which
--     weak swaps fail for no reason. Proofs: Rng/Step, Rng/Shared.
--   * src/colors.h, src/world.c, src/world.h: World, the tape. Proofs: World/Laws.
--   * src/rules.c, src/rules.h: Rules/Types and Rules/Catalogue (the data), Rules (the
--     operations; a rule pointer is a `RuleRef`, and `runtime i` is the private table of ant `i`).
--     Proofs: Rules/WellFormed, Rules/Draws, Rules/Index, Rules/Generate, Rules/Mutate.
--   * src/ant.c, src/ant.h: Ant/Types (the colony), Ant/Life (birth, mutation, rebirth), Ant/Move
--     (headings, residency, contact), Ant/Execute (the instruction cycle),
--     Ant/Observe (what others read of an ant). Proofs: Ant/Contest,
--     Ant/Residency, Ant/Torus, Ant/Invariant, Ant/Locals, Ant/Cycle, Ant/Spending, Ant/Quantum,
--     Ant/Search, Ant/Placement.
--   * src/scheduler.c, src/scheduler.h: Scheduler/Types, Scheduler/Tokens (refill, retirement,
--     recovery), Scheduler/Select (choice, leases, groups), Scheduler/Control (the rest),
--     Scheduler/Observe (the settings and counters that others read).
--     Proofs: Scheduler/Refill, Scheduler/Drain, Scheduler/Rounds, Scheduler/Choice, Scheduler/Lease,
--     Scheduler/Frugal, Scheduler/Culling.
--   * src/worker_pool.c: WorkerPool/Types (the pool and its operations), WorkerPool/Steps (the
--     steps of its threads and callers). Proofs: WorkerPool/Inflight, WorkerPool/Suspension,
--     WorkerPool/Detached, WorkerPool/Quiet.
--   * src/renderer.c, src/renderer.h: Renderer, the conversion of a snapshot for a display, less
--     the generated palettes. Proofs: Renderer/Frames.
--   * src/dump.c, src/dump.h: Dump/Types (the ring of pages, and what is kept of a page), Dump (the
--     captures), Dump/Write (the directories and the files). Proofs: Dump/Slots, Dump/Ring,
--     Dump/Pages, Dump/Export.
--   * src/main.c: Main/Options (the command line), Main/Universe (the state, the keys and the ring of
--     commands), Main/Seed (confetti and the initial ants), Main/Startup (making, making anew and
--     destroying a universe), Main/Draw and Main/Frames (the frames, at once and as steps of two
--     threads), Main/Control (a round of the control loop, and the end of a run), Main/Events (the
--     events of the windows). Proofs: Main/Ranges, Main/Queue, Main/Keys, Main/Showing,
--     Main/Confetti, Main/Census, Main/Populate, Main/Seeded, Main/Fresh, Main/Ready, Main/Opening,
--     Main/Draining, Main/Ending, Main/Stopping, Main/Events.
--   * stm32/src/turmite_stm32_shared.c, stm32/include/turmite_stm32_shared.h: Stm32 (the operations)
--     and Stm32/Steps (the calls of several cores, interleaved). Proofs: Stm32/Locks, Stm32/Atomic.
--   * android/app/src/main/cpp/engine.c: Android, the engine of the port, less its workers' loop.
--     Proofs: Android/Start.
--   * Prelude: Boolean tests, arrays as functions, counted loops, machine words, bit operations,
--     tallies, integers and floating point. Tests: runs of the definitions, and the theorems at concrete
--     inputs.
--
-- How they interact: the scheduler leases an ant to a worker and grants a number of instructions;
-- the worker runs `ant_execute_quantum` on the colony and the world and gives the ant back; an
-- ant that lost a contest or halted is repaired by the scheduler's recovery pass. A universe owns a
-- world, a colony with its scheduler, and a ring of captured pages. Its controller handles the keys
-- that the main thread puts in a ring, captures pages, draws frames, and at the end exports a dump;
-- the main thread routes the events and shows the frames.
--
-- How the code corresponds: an operation with the source's name takes the state and returns it,
-- with the result first. An ant pointer is its index. Arrays are functions of the index. The word
-- `flags` is a record of eight Booleans and `enabled_mask` a Boolean for each bit. A word's
-- wrap-around is written out (u8, u32, u64). A `double` of `fair_credit` only holds sums of
-- integers and is an integer: the two agree below 2 ^ 53. The long double arithmetic of the slow
-- paths is a parameter, `LongDouble`, and so is that of times and of a dump's figures, `Doubles`, of
-- which nothing is assumed but what a theorem says. What malloc, pthread, SDL and the clock return
-- is an argument: `Surroundings`, `Moment`, `Startup` and `Host` collect these. `Files` is the file system,
-- path by path, and says of each file whether closing it leaves all that was printed in it, which the
-- code does not look at; `Flag` is an option as getopt and strtoull leave it. `Hsem` is the semaphore bank of
-- the microcontroller: a take succeeds only if no other core holds the semaphore.
--
-- Steps: an operation of the scheduler is one step, which its lock makes it. A burst is one step
-- of the colony: what other workers do during it is not modelled, save that each weak
-- compare-and-swap may fail. Null handles are not modelled, where the code only checks them.
--
-- Bounds and fuel: there are 32 slots, 4 states, 6 colors, and dimensions of at most 65535. Loops
-- over slots, cells and instructions are structural. The loop of `move_claim` runs on fuel, two
-- rounds more than the spurious failures, and is shown to end; `rng_next` is structural in the
-- list of tries, and `scheduler_acquire` in the list of wake-ups. `universe_apply_commands` runs on
-- fuel, one round more than the keys that wait, and is shown to end; `free_slot` looks at three
-- slots, of which one is always free.
--
-- The pool's threads are interleaved at these steps: a thread looks for an ant, runs the burst,
-- gives the lease back and uncounts it in four steps, between which the others move.
--
-- The control loop is a relation: rounds, and between them keys, requests to close, presentations,
-- and any change of the world and of the scheduler, for the workers. In a round the clock is read
-- once, the two holds of the lock in `universe_render` are one, and the sleeps have no state. A
-- dump's text is the data that is printed, not its characters.
--
-- Not modelled: windows and images (src/renderer_sdl.c, src/png_image.c), the generated palettes of
-- src/renderer.c, the figures of the overlay, `main` behind its configuration, which makes and joins
-- the universes and threads, the JNI bridge and the user interface (android/), the browser page, and the test
-- programs: input, output and glue. Destructors of locks have no model.
pub mod Prelude
pub mod Rng
pub mod Dump
pub mod Stm32
pub mod World
pub mod Rules
pub mod Ant
pub mod Scheduler
pub mod WorkerPool
pub mod Renderer
pub mod Main
pub mod Android
pub mod Tests
