-- ===== src/Ant/Life.antt =====
-- src/ant.c: random phenotypes, placement of a new ant, spawning, mutation and rebirth.
use turmite_linux.Prelude.{
  ℕ, zero, suc, ◌+◌, ◌/◌, ◌%◌, Bool, true, false, ◌||◌, Option, none, some, [], leb, ◌==◌,
  if◌then◌else◌, u8, u16, u32, ◌<<◌, update, min,
}
use turmite_linux.Prelude.Int.{ℤ, pos, negsuc}
use turmite_linux.Prelude.Loops.{for_range}
use turmite_linux.Rng.{Lfsr32, lfsr32_advance, rng_next, rng_uniform}
use turmite_linux.World.{World, turmite_colors}
use turmite_linux.Rules.Types.{rule_index_runtime}
use turmite_linux.Rules.{
  RuleRef, null, runtime, rules_count, rules_get, rules_index_of, rules_mutate, rules_generate,
}
use turmite_linux.Ant.Types.{
  ant_f_enabled, Ant, zero_ant, AntColony, ant_owner_id, occupancy_index, set_occupancy, set_ant,
  set_flags, zero_rule, load_rule, publish_position, turmite_max_ants,
}

unfoldable pub ant_rng_uniform : ℕ → ℕ → ℕ × ℕ
ant_rng_uniform state limit =
    let s = lfsr32_advance state in if leb limit 1 then (0, state) else (s % limit, s)

unfoldable pub random_rate : ℕ → ℕ × ℕ
random_rate state = let (r, s) = ant_rng_uniform state 1950001 in (50000 + r, s)

unfoldable pub random_capacity_fp : ℕ → ℕ × ℕ
random_capacity_fp state = let (r, s) = ant_rng_uniform state 3969 in (u32 ((128 + r) << 16), s)

unfoldable pub random_weight : ℕ → ℕ × ℕ
random_weight state = let (r, s) = ant_rng_uniform state 16 in (1 + r, s)

-- Every caller passes the address of the ant's own `rng_state`.
unfoldable pub reset_schedule : Ant → Ant
reset_schedule ant =
    let (rate, s1) = random_rate ant.rng_state in
    let (cap, s2) = random_capacity_fp s1 in
    let (w, s3) = random_weight s2 in
    record ant {
      token_rate = rate;
      token_capacity_fp = cap;
      tokens_fp = cap;
      weight = w;
      rng_state = s3;
    }

-- What the search for a free cell gives: the coordinates, if there is one, the colony with the
-- cell claimed, and the private stream.
abbrev pub Placement : Type 0
Placement = Option (ℕ × ℕ) × AntColony × ℕ

-- At most `n` random probes; `none` leaves the search to the scan.
unfoldable pub probe_random : ℕ → AntColony → World → ℕ → ℕ → Placement
probe_random zero colony world self_id rng = (none, colony, rng)
probe_random (suc n) colony world self_id rng =
    let (x, rng1) = ant_rng_uniform rng world.width in
    let (y, rng2) = ant_rng_uniform rng1 world.height in
    let cell = occupancy_index colony x y in
    elim (colony.occupancy cell == 0) [
      | true ↦ (some (x, y), set_occupancy colony cell self_id, rng2)
      | false ↦ probe_random n colony world self_id rng2
    ]

-- The exhaustive fallback: `n` cells from `cell` on, going round at the end.
unfoldable pub scan_cells : ℕ → ℕ → AntColony → World → ℕ → Option (ℕ × ℕ) × AntColony
scan_cells zero cell colony world self_id = (none, colony)
scan_cells (suc n) cell colony world self_id = elim (colony.occupancy cell == 0) [
  | true ↦
      (some (u32 (cell % world.width), u32 (cell / world.width)), set_occupancy colony cell self_id)
  | false ↦ scan_cells n (if cell + 1 == world.cells then 0 else cell + 1) colony world self_id
]

unfoldable pub claim_random_empty_position : AntColony → World → ℕ → ℕ → Placement
claim_random_empty_position colony world ant_index rng =
    let self_id = ant_owner_id ant_index in
    let probed = probe_random (min world.cells 32) colony world self_id rng in
    let (cell, rng') = ant_rng_uniform probed.2 (u32 world.cells) in
    let scanned = scan_cells world.cells cell probed.1 world self_id in
    elim probed.0 [ some xy ↦ probed | none ↦ (scanned.0, scanned.1, rng') ]

-- The result is the return code and the colony; `calloc_ok` says that the memory was found.
unfoldable pub ant_colony_init : AntColony → World → Bool → ℤ × AntColony
ant_colony_init colony world calloc_ok =
    let cleared : AntColony = record {
      ants = λ _. zero_ant;
      instructions = λ _. 0;
      mutations = λ _. 0;
      runtime_rules = λ _. zero_rule;
      positions = λ _. 0;
      enabled_mask = λ _. false;
      occupied = calloc_ok;
      occupancy = λ _. 0;
      occupancy_cells = world.cells;
      occupancy_width = world.width;
      active_population = 0;
      collisions = 0;
    } in
    if leb world.width 0 || leb world.height 0
    then (negsuc 0, colony)
    else ((if calloc_ok then pos 0 else negsuc 0), cleared)

abbrev pub reset_slot : ℕ → AntColony → AntColony
reset_slot i c = record c {
  ants = update c.ants i zero_ant;
  positions = update c.positions i 0;
  instructions = update c.instructions i 0;
  mutations = update c.mutations i 0;
}

unfoldable pub ant_colony_reset : AntColony → AntColony
ant_colony_reset colony =
    let slots = for_range 0 turmite_max_ants reset_slot colony in
    let swept = for_range 0 slots.occupancy_cells (λ i c. set_occupancy c i 0) slots in
    let emptied = if slots.occupied then swept else slots in
    record emptied { enabled_mask = λ _. false; active_population = 0; collisions = 0 }

unfoldable pub ant_colony_destroy : AntColony → AntColony
ant_colony_destroy colony = record colony {
  occupied = false;
  occupancy_cells = 0;
  occupancy_width = 0;
}

-- The new phenotype of `ant_randomize`: offset, rule, heading, state and schedule, each drawn from
-- the ant's own stream, seeded from the shared one.
unfoldable pub random_phenotype : Ant → ℕ → RuleRef → ℕ → Ant
random_phenotype ant seed rule states =
    let (offset, s1) = ant_rng_uniform seed turmite_colors in
    let (heading, s2) = ant_rng_uniform s1 4 in
    let (state, s3) = ant_rng_uniform s2 states in
    reset_schedule (record ant {
      rule = rule;
      color_offset = u8 offset;
      rule_index = u16 (rules_index_of rule);
      heading = u8 heading;
      state = u8 state;
      rng_state = s3;
    })

-- `ant_randomize` for the ant at `index`; the result also has the shared generator.
unfoldable pub ant_randomize : AntColony → World → Lfsr32 → ℕ → RuleRef → Bool × AntColony × Lfsr32
ant_randomize colony world rng index rule =
    let (drawn, rng') = rng_next [] rng in
    let seed = if drawn == 0 then u32 (index + 1) else drawn in
    let ant = random_phenotype (colony.ants index) seed rule (load_rule colony rule).states in
    let (place, c, s) =
      claim_random_empty_position (set_ant colony index ant) world index ant.rng_state in
    let born = set_ant c index (record ant { rng_state = s }) in
    elim place [
      | none ↦ (false, born, rng')
      | some (x, y) ↦
          let seated = publish_position born index x y in
          let flagged = set_flags seated index ant_f_enabled in
          (true, record flagged { enabled_mask = update flagged.enabled_mask index true }, rng')
    ]

-- `rules_get` of an index below the count is never null, which `ant_randomize` checks.
unfoldable pub ant_spawn_random : AntColony → World → Lfsr32 → ℕ → Bool × AntColony × Lfsr32
ant_spawn_random colony world rng index =
    let (k, rng') = rng_uniform [] rng (u32 rules_count) in
    elim (rules_get k) [
      | null ↦ (false, colony, rng')
      | rule ↦ ant_randomize colony world rng' index rule
    ]

unfoldable pub ant_mutate_in_place : AntColony → ℕ → AntColony
ant_mutate_in_place colony index =
    let ant = colony.ants index in
    let (rule, s) = rules_mutate (load_rule colony ant.rule) ant.rng_state in
    let stored = record colony { runtime_rules = update colony.runtime_rules index rule } in
    set_ant stored index
      (record ant { rule = runtime index; rule_index = rule_index_runtime; rng_state = s })

unfoldable pub ant_rebirth_random : AntColony → ℕ → AntColony
ant_rebirth_random colony index =
    let ant = colony.ants index in
    let (rule, s0) = rules_generate ant.rng_state in
    let (offset, s1) = ant_rng_uniform s0 turmite_colors in
    let (heading, s2) = ant_rng_uniform s1 4 in
    let (state, s3) = ant_rng_uniform s2 rule.states in
    let stored = record colony { runtime_rules = update colony.runtime_rules index rule } in
    let scheduled = reset_schedule (record ant {
      rule = runtime index;
      rule_index = rule_index_runtime;
      color_offset = u8 offset;
      heading = u8 heading;
      state = u8 state;
      rng_state = s3;
    }) in
    let f = scheduled.flags in
    set_ant stored index
      (record scheduled { flags = record f { draining = false; expired = false } })
