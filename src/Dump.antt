-- ===== src/Dump.antt =====
-- src/dump.c: capturing pages into the ring.
pub mod Types
pub mod Slots
pub mod Ring
pub mod Pages
pub mod Write
pub mod Export
use turmite_linux.Dump.Types.{DumpPageMeta, DumpAntMeta, DumpCapture, empty_capture}
use turmite_linux.Prelude.{
  ℕ, ◌+◌, ◌-◌, ◌*◌, ◌%◌, Bool, true, false, not, ◌&&◌, ◌||◌, Option, none, some, ltb, ◌==◌, update,
  if◌then◌else◌, u32, u64, bit_xor, bit_and,
}
use turmite_linux.Prelude.Int.{ℤ, pos, negsuc}
use turmite_linux.Prelude.Doubles.{Doubles}
use turmite_linux.Prelude.Loops.{for_range}
use turmite_linux.Rng.{Lfsr32}
use turmite_linux.World.{World, world_load}
use turmite_linux.Ant.Types.{AntColony, turmite_max_ants}
use turmite_linux.Ant.Observe.{
  ant_rule_index, ant_position_x, ant_position_y, ant_instruction_count, ant_mutation_count,
  ant_tokens, ant_token_rate, ant_token_capacity,
}
use turmite_linux.Scheduler.Types.{Scheduler}
use turmite_linux.Scheduler.Observe.{
  scheduler_get_dispatches, scheduler_get_quantum, scheduler_get_min_service,
}

abbrev pub fnv1a64_round : (ℕ → ℕ) → ℕ → ℕ → ℕ
fnv1a64_round bytes i hash = u64 (bit_xor hash (bytes i) * 1099511628211)

unfoldable pub fnv1a64 : (ℕ → ℕ) → ℕ → ℕ
fnv1a64 bytes n = for_range 0 n (fnv1a64_round bytes) 14695981039346656037

-- A null `b` is `none`.
unfoldable pub count_changed : (ℕ → ℕ) → Option (ℕ → ℕ) → ℕ → ℕ
count_changed a none n = 0
count_changed a (some b) n =
    for_range 0 n (λ i changed. if a i == b i then changed else u32 (changed + 1)) 0

unfoldable pub dump_pages_value_valid : ℕ → Bool
dump_pages_value_valid pages =
    if pages == 0 || ltb 1023 pages then false else bit_and (pages + 1) pages == 0

-- The result is the return code. `calloc_ok` says that the memory was found.
unfoldable pub dump_capture_init :
    (d : Doubles) → DumpCapture d → World → ℕ → ℕ → d.Double → d.Double → Bool → ℤ × DumpCapture d
dump_capture_init d capture world seed requested_pages interval_seconds now calloc_ok =
    if not world.allocated
      || not (dump_pages_value_valid requested_pages)
      || d.at_most interval_seconds (d.of_nat 0)
    then (negsuc 0, capture)
    else if calloc_ok
    then (
      pos 0,
      record (empty_capture d) {
        allocated = true;
        page_capacity = requested_pages;
        cells = world.cells;
        ant_slots = turmite_max_ants;
        interval_seconds = interval_seconds;
        next_capture_at = now;
        seed = seed;
        world_width = world.width;
        world_height = world.height;
      },
    )
    else (negsuc 0, empty_capture d)

unfoldable pub dump_capture_destroy : (d : Doubles) → DumpCapture d → DumpCapture d
dump_capture_destroy d capture = empty_capture d

unfoldable pub dump_capture_reset :
    {d : Doubles} → DumpCapture d → World → ℕ → d.Double → DumpCapture d
dump_capture_reset capture world seed now = record capture {
  output_dir = none;
  png_frames = 0;
  page_count = 0;
  next_page = 0;
  next_capture_at = now;
  seed = seed;
  world_width = world.width;
  world_height = world.height;
}

unfoldable pub colony_instruction_total : AntColony → ℕ
colony_instruction_total colony =
    for_range 0 turmite_max_ants (λ i total. u64 (total + ant_instruction_count colony i)) 0

-- `dst[i] = f(i)` for the first `n` elements of an array that starts at `base`.
abbrev pub fill {ℓ} : {A : Type ℓ} → ℕ → ℕ → (ℕ → A) → (ℕ → A) → ℕ → A
fill base n f xs = for_range 0 n (λ i out. update out (base + i) (f i)) xs

-- What is kept of an ant, read one field after the other.
unfoldable pub observe_ant : (d : Doubles) → Scheduler → AntColony → ℕ → DumpAntMeta d
observe_ant d scheduler colony i =
    let ant = colony.ants i in
    let f = ant.flags in
    record {
      id = u32 i;
      enabled = f.enabled;
      clobbered = f.clobbered;
      expired = f.expired;
      draining = f.draining;
      x = ant_position_x colony i;
      y = ant_position_y colony i;
      heading = ant.heading;
      state = ant.state;
      rule_index = ant_rule_index ant;
      tokens = ant_tokens d ant;
      token_rate = ant_token_rate d ant;
      token_capacity = ant_token_capacity d ant;
      weight = ant.weight;
      fair_credit = d.of_int (scheduler.fair_credit i);
      instructions = ant_instruction_count colony i;
      mutations = ant_mutation_count colony i;
    }

-- What one capture reads. The workers go on meanwhile: `world`, `colony` and `scheduler` are what
-- the loads observed, each at its own time.
pub record Observation (d : Doubles) : Type 0 where
  pub world : World
  pub colony : AntColony
  pub scheduler : Scheduler
  pub rng : Lfsr32
  pub age : d.Double
  pub now : d.Double

unfoldable pub observe_page :
    {d : Doubles} → Observation d → (ℕ → ℕ) → Option (ℕ → ℕ) → ℕ → DumpPageMeta d
observe_page o dst previous cells = record {
  age = o.age;
  collisions = o.colony.collisions;
  dispatches = scheduler_get_dispatches o.scheduler;
  total_instructions = colony_instruction_total o.colony;
  world_hash = fnv1a64 dst cells;
  changed_cells = count_changed dst previous cells;
  rng_state = o.rng.state;
  active_population = u32 o.colony.active_population;
  quantum = u32 (scheduler_get_quantum o.scheduler);
  min_service = u32 (scheduler_get_min_service o.scheduler);
}

-- The bytes of a slot: `world_pages + slot * cells`.
abbrev pub page_bytes : {d : Doubles} → DumpCapture d → (ℕ → ℕ) → ℕ → ℕ → ℕ
page_bytes capture pages slot i = pages (slot * capture.cells + i)

unfoldable pub capture_one : {d : Doubles} → DumpCapture d → Observation d → DumpCapture d
capture_one {d} capture o =
    let slot = capture.next_page in
    let pages =
      fill (slot * capture.cells) capture.cells (world_load o.world) capture.world_pages in
    let previous_slot = (slot + capture.page_capacity - 1) % capture.page_capacity in
    let previous =
      if capture.page_count == 0 then none else some (page_bytes capture pages previous_slot) in
    let meta = observe_page o (page_bytes capture pages slot) previous capture.cells in
    record capture {
      world_pages = pages;
      page_meta = update capture.page_meta slot meta;
      ant_meta =
          fill (slot * capture.ant_slots) capture.ant_slots (observe_ant d o.scheduler o.colony)
            capture.ant_meta;
      next_page = (slot + 1) % capture.page_capacity;
      page_count =
          if ltb capture.page_count capture.page_capacity
          then capture.page_count + 1
          else capture.page_count;
      next_capture_at = d.plus o.now capture.interval_seconds;
    }

unfoldable pub dump_capture_maybe : {d : Doubles} → DumpCapture d → Observation d → DumpCapture d
dump_capture_maybe {d} capture o =
    if d.below o.now capture.next_capture_at then capture else capture_one capture o

unfoldable pub dump_capture_now : {d : Doubles} → DumpCapture d → Observation d → DumpCapture d
unfolding capture_one
dump_capture_now capture o = capture_one capture o

unfoldable pub chronological_slot : {d : Doubles} → DumpCapture d → ℕ → ℕ
chronological_slot capture ordinal =
    let first = if capture.page_count == capture.page_capacity then capture.next_page else 0 in
    (first + ordinal) % capture.page_capacity
