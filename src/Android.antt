-- ===== src/Android.antt =====
-- src/android/app/src/main/cpp/engine.c: the engine of the Android port, a universe of its own with
-- two workers.
pub mod Start
use turmite_linux.Prelude.{
  ℕ, ◌+◌, Bool, true, false, not, ◌||◌, Option, none, some, [], ltb, ◌==◌, if◌then◌else◌, u32, u64,
}
use turmite_linux.Prelude.Int.{ℤ, pos, negsuc, pos_part, ltb_ℤ}
use turmite_linux.Prelude.Loops.{for_range}
use turmite_linux.Rng.{Lfsr32, rng_seed, rng_uniform}
use turmite_linux.World.{World, empty_world, world_init, world_load, world_destroy}
use turmite_linux.Rules.{rules_count, rules_get}
use turmite_linux.Ant.Types.{AntColony, turmite_max_ants, zero_ant, zero_rule}
use turmite_linux.Ant.Observe.{ant_instruction_count}
use turmite_linux.Ant.Life.{ant_colony_init, ant_randomize, ant_colony_destroy}
use turmite_linux.Scheduler.Types.{Scheduler}
use turmite_linux.Scheduler.Control.{
  scheduler_init, scheduler_set_min_service, scheduler_set_token_rate_divisor,
  scheduler_active_population, scheduler_stop,
}
use turmite_linux.Scheduler.Observe.{scheduler_get_token_rate_divisor}
use turmite_linux.Renderer.{Buffer, RenderFrame, render_base_palette, render_argb}
use turmite_linux.Dump.Write.{failed_code}

-- `AndroidEngine`; the colony is the scheduler's. A null `snapshot` does not outlive the creation.
pub record AndroidEngine : Type 0 where
  pub world : World
  pub scheduler : Scheduler
  pub rng : Lfsr32
  pub snapshot : ℕ → ℕ
  pub started : ℕ

-- What the creation asks of its surroundings: memory, locks, threads, the clock and entropy.
pub record Host : Type 0 where
  pub memory_ok : Bool
  pub tape_ok : Bool
  pub occupancy_ok : Bool
  pub scheduler_ok : Bool
  pub snapshot_ok : Bool
  pub threads_ok : Bool
  pub garbage : ℕ → ℕ
  pub now_us : ℕ
  pub entropy : ℕ

-- What `memset` leaves.
abbrev pub zero_colony : AntColony
zero_colony = record {
  ants = λ _. zero_ant;
  instructions = λ _. 0;
  mutations = λ _. 0;
  runtime_rules = λ _. zero_rule;
  positions = λ _. 0;
  enabled_mask = λ _. false;
  occupied = false;
  occupancy = λ _. 0;
  occupancy_cells = 0;
  occupancy_width = 0;
  active_population = 0;
  collisions = 0;
}

abbrev pub zero_scheduler : Scheduler
zero_scheduler = record {
  colony = zero_colony;
  wake = none;
  next_wake_us = 0;
  collision_mutation = false;
  stopping = false;
  draining = false;
  paused = false;
  dispatches = 0;
  empty_scans = 0;
  idle_waits = 0;
  granted_instructions = 0;
  fair_credit = λ _. pos 0;
  last_token_us = λ _. 0;
  recovery_at_us = λ _. 0;
  quantum = 0;
  min_service = 0;
  token_rate_scale = 0;
  token_rate_divisor = 0;
}

-- One of the ants.
unfoldable pub engine_ant : World → ℕ → AntColony × Lfsr32 → AntColony × Lfsr32
engine_ant w i (c, rng) =
    let (k, g) = rng_uniform [] rng (u32 rules_count) in
    let (placed, c', g') = ant_randomize c w g i (rules_get k) in (c', g')

-- The creation from the ants on.
unfoldable pub start_engine : Host → World → AntColony → ℕ → ℕ → ℕ → Option AndroidEngine
start_engine host w c seed ants divisor =
    let rng = rng_seed (record { state = 0 }) (if seed == 0 then host.entropy else seed) in
    let (c', g) = for_range 0 ants (engine_ant w) (c, rng) in
    let (code, s) =
      scheduler_init zero_scheduler (record c' { active_population = ants }) 64 host.now_us
        host.scheduler_ok host.scheduler_ok host.scheduler_ok in
    let tuned = scheduler_set_token_rate_divisor (scheduler_set_min_service s 16) divisor in
    if failed_code code || not host.snapshot_ok || not host.threads_ok
    then none
    else some
        (record { world = w; scheduler = tuned; rng = g; snapshot = host.garbage; started = 2 })

-- The creation from the colony on.
unfoldable pub people_engine : Host → World → ℕ → ℕ → ℕ → Option AndroidEngine
people_engine host w seed ants divisor =
    let (code, c) = ant_colony_init zero_colony w host.occupancy_ok in
    let rest = start_engine host w c seed ants divisor in if failed_code code then none else rest

abbrev pub bad_sides : ℤ → ℤ → Bool
bad_sides width height =
    ltb_ℤ width (pos 16) || ltb_ℤ height (pos 16) || ltb_ℤ (pos 960) width || ltb_ℤ (pos 960) height

abbrev pub bad_numbers : ℤ → ℤ → Bool
bad_numbers ants divisor =
    ltb_ℤ ants (pos 2) || ltb_ℤ (pos 8) ants || ltb_ℤ divisor (pos 1) || ltb_ℤ (pos 100) divisor

-- A failure destroys the engine and gives a null pointer, which is `none`.
unfoldable pub android_engine_create : Host → ℤ → ℤ → ℕ → ℤ → ℤ → Option AndroidEngine
android_engine_create host width height seed ants divisor =
    let (code, w) = world_init empty_world width height host.tape_ok in
    let rest = people_engine host w seed (pos_part ants) (pos_part divisor) in
    if bad_sides width height || bad_numbers ants divisor
    then none
    else if not host.memory_ok || failed_code code
    then none
    else rest

-- The pointer `argb` and the engine are not null.
unfoldable pub android_engine_frame : AndroidEngine → (ℕ → ℕ) → ℕ → Bool × AndroidEngine × Buffer
android_engine_frame engine argb capacity =
    let w = engine.world in
    let snapshot : ℕ → ℕ = λ k. if ltb k w.cells then world_load w k else engine.snapshot k in
    let frame : RenderFrame = record {
      width = w.width;
      height = w.height;
      has_colors = true;
      colors = snapshot;
    } in
    let (drawn, out) = render_argb (some frame) (some render_base_palette) (some argb) capacity in
    if ltb capacity w.cells
    then (false, engine, some argb)
    else (drawn, record engine { snapshot = snapshot }, out)

-- A null engine is `none`.
unfoldable pub android_engine_population : Option AndroidEngine → ℕ
android_engine_population none = 0
android_engine_population (some engine) = scheduler_active_population engine.scheduler

unfoldable pub android_engine_divisor : Option AndroidEngine → ℕ
android_engine_divisor none = 0
android_engine_divisor (some engine) = scheduler_get_token_rate_divisor engine.scheduler

unfoldable pub android_engine_instructions : Option AndroidEngine → ℕ
android_engine_instructions none = 0
android_engine_instructions (some engine) =
    let c = engine.scheduler.colony in
    for_range 0 turmite_max_ants (λ i count. u64 (count + ant_instruction_count c i)) 0

-- The workers have been joined; the memory is freed.
unfoldable pub android_engine_destroy : AndroidEngine → AndroidEngine
android_engine_destroy engine =
    let s = scheduler_stop engine.scheduler in
    record engine {
      scheduler = record s { colony = ant_colony_destroy s.colony };
      world = world_destroy engine.world;
      started = 0;
    }
