-- ===== src/Tests/Samples.antt =====
-- Small worlds, colonies and schedulers.
use turmite_linux.Prelude.{◌*◌, refl, true, false, none, update, arith}
use turmite_linux.Prelude.Int.{pos}
use turmite_linux.World.{World}
use turmite_linux.World.Laws.{IsValid}
use turmite_linux.Rules.{catalogue}
use turmite_linux.Ant.Types.{Ant, AntColony, ant_f_enabled, zero_ant, zero_rule}
use turmite_linux.Ant.Residency.{IsResident}
use turmite_linux.Ant.Invariant.{ColonyIsValid}
use turmite_linux.Scheduler.Types.{Scheduler}

-- Three columns and two rows of color zero.
abbrev pub small_world : World
small_world = record { width = 3; height = 2; cells = 6; allocated = true; tape = λ _. 0 }

pub small_world-IsValid : IsValid small_world
small_world-IsValid = record {
  width_pos = omega arith;
  height_pos = omega arith;
  width_max = omega arith;
  height_max = omega arith;
  area = refl;
  owned = refl;
  colored = λ i. omega arith;
}

-- A Langton ant with a balance of five tokens.
abbrev pub langton : Ant
langton = record zero_ant {
  rule = catalogue 0;
  flags = ant_f_enabled;
  tokens_fp = 5 * 65536;
  token_rate = 1000;
  token_capacity_fp = 128 * 65536;
  weight = 1;
  rng_state = 1;
}

-- It stands in the corner; the other slots are empty.
abbrev pub one_ant : AntColony
one_ant = record {
  ants = update (λ _. zero_ant) 0 langton;
  instructions = λ _. 0;
  mutations = λ _. 0;
  runtime_rules = λ _. zero_rule;
  positions = λ _. 0;
  enabled_mask = update (λ _. false) 0 true;
  occupied = true;
  occupancy = update (λ _. 0) 0 1;
  occupancy_cells = 6;
  occupancy_width = 3;
  active_population = 1;
  collisions = 0;
}

pub one_ant-IsResident : IsResident one_ant (λ _. 0)
one_ant-IsResident = record { bytes = λ k hk. ground arith; alone = λ k i hk e. ground arith }

pub one_ant-ColonyIsValid : ColonyIsValid one_ant small_world
one_ant-ColonyIsValid = record {
  world = small_world-IsValid;
  width = refl;
  cells = refl;
  inside = λ i. (omega arith, omega arith);
  offsets = λ i. ground arith;
  resident = record { bytes = one_ant-IsResident.bytes; alone = one_ant-IsResident.alone };
}

-- A second ant stands to the right of it, with a balance of one token.
abbrev pub two_ants : AntColony
two_ants = record one_ant {
  ants = update one_ant.ants 1 (record langton { tokens_fp = 65536 });
  positions = update one_ant.positions 1 1;
  enabled_mask = update one_ant.enabled_mask 1 true;
  occupancy = update one_ant.occupancy 1 2;
  active_population = 2;
}

abbrev pub scheduler_of : AntColony → Scheduler
scheduler_of c = record {
  colony = c;
  wake = none;
  next_wake_us = 0;
  collision_mutation = false;
  stopping = false;
  draining = false;
  paused = false;
  dispatches = 0;
  empty_scans = 0;
  idle_waits = 0;
  granted_instructions = 0;
  fair_credit = λ _. pos 0;
  last_token_us = λ _. 100;
  recovery_at_us = λ _. 0;
  quantum = 4;
  min_service = 1;
  token_rate_scale = 1;
  token_rate_divisor = 1;
}

abbrev pub one_scheduler : Scheduler
one_scheduler = scheduler_of one_ant

abbrev pub two_scheduler : Scheduler
two_scheduler = scheduler_of two_ants
