-- ===== src/Tests/Universe.antt =====
-- Runs of the ants.
use turmite_linux.Prelude.{
  ℕ, ◌+◌, ◌*◌, ◌≤◌, ◌<◌, ◌≡◌, ◌≢◌, refl, Bool, true, Option, none, some, List, [], ◌∷◌, arith,
  update, false, ◌⊎◌,
}
use turmite_linux.World.{World, world_store_cell}
use turmite_linux.Prelude.Int.{◌+ℤ◌, ◌-ℤ◌}
use turmite_linux.Rules.Types.{turn_b}
use turmite_linux.Rules.{rule_at}
use turmite_linux.Ant.Types.{AntColony, token_fp_one, load_rule, pack_position, publish_position}
use turmite_linux.Ant.Move.{apply_turn, leave_cell, move_claim, claim_loop, claim_round}
use turmite_linux.Ant.Execute.{
  step_x, step_y, instruction, load_burst, ant_execute_quantum, burst, perform, move_head,
  wrap_coordinate, choose_action, publish_burst,
}
use turmite_linux.Ant.Contest.{contest, move_claim-contest}
use turmite_linux.Ant.Residency.{IsResident, move_claim-IsResident}
use turmite_linux.Ant.Torus.{step_back}
use turmite_linux.Ant.Invariant.{ColonyIsValid}
use turmite_linux.Ant.Quantum.{
  ant_execute_quantum-ColonyIsValid, ant_execute_quantum_balance, ant_execute_quantum_progress,
}
use turmite_linux.Rng.{lfsr32_advance}
use turmite_linux.Ant.Life.{claim_random_empty_position, probe_random, scan_cells, ant_rng_uniform}
use turmite_linux.Ant.Placement.{claim_random_empty_position-none}
use turmite_linux.Tests.Samples.{
  small_world-IsValid, small_world, one_ant, two_ants, one_ant-IsResident, one_ant-ColonyIsValid,
}

no_failures : ℕ → List Bool
no_failures _ = []

ant_execute_quantum-ColonyIsValid_example :
    (n : ℕ) × (c' : AntColony) × (w' : World) × (ant_execute_quantum no_failures one_ant small_world
        0 4
      ≡ some (n, c', w'))
    × ColonyIsValid c' w'
    × (n ≤ 4)
ant_execute_quantum-ColonyIsValid_example =
    ant_execute_quantum-ColonyIsValid no_failures one_ant small_world 0 4 (omega arith)
      one_ant-ColonyIsValid

ant_execute_quantum_balance_example :
    (n : ℕ) × (c' : AntColony) × (w' : World) × (ant_execute_quantum no_failures one_ant small_world
        0 4
      ≡ some (n, c', w'))
    × ((c'.ants 0).tokens_fp + n * token_fp_one ≡ 5 * 65536)
ant_execute_quantum_balance_example =
    ant_execute_quantum_balance no_failures one_ant small_world 0 4 (omega arith)
      one_ant-ColonyIsValid (omega arith) (omega arith)

ant_execute_quantum_progress_example :
    (n : ℕ) × (c' : AntColony) × (w' : World) × (ant_execute_quantum no_failures one_ant small_world
        0 4
      ≡ some (n, c', w'))
    × (0 < n)
ant_execute_quantum_progress_example =
    ant_execute_quantum_progress no_failures one_ant small_world 0 4 (omega arith)
      one_ant-ColonyIsValid (omega arith) refl

-- The richer ant moves onto the other; the first two swaps fail for no reason.
move_claim-contest_example :
    move_claim (true ∷ true ∷ []) two_ants 0 0 1 ≡ some (contest (leave_cell two_ants 0 0 1) 0 1)
move_claim-contest_example =
    move_claim-contest (true ∷ true ∷ []) two_ants 0 0 1 (omega arith) (omega arith)

-- The first swap fails for no reason.
move_claim-IsResident_example :
    (out : Bool × AntColony) × (move_claim (true ∷ []) one_ant 0 0 1 ≡ some out)
    × IsResident out.1 (update (λ _. 0) 0 1)
    × ((out.0 ≡ false) ⊎ (out.1.occupancy 1 ≡ 1))
move_claim-IsResident_example =
    move_claim-IsResident one_ant (λ _. 0) 0 0 1 (omega arith) one_ant-IsResident refl (true ∷ [])
      (omega arith)

step_back_example :
    let x' = step_x 0 3 3 in
    let y' = step_y 1 3 2 in
    let back = apply_turn 3 turn_b in
    (x' < 3) × (y' < 2) × (step_x x' back 3 ≡ 0) × (step_y y' back 2 ≡ 1)
step_back_example =
    step_back 0 1 3 3 2 (omega arith) (omega arith) (omega arith) (omega arith) (omega arith)

-- Four instructions of a Langton ant take four of its five tokens.
four_steps : Option (ℕ × AntColony × World) → ℕ × ℕ × ℕ
four_steps none = (0, 0, 0)
four_steps (some (n, c, w)) = (n, (c.ants 0).tokens_fp, c.positions 0)

four_steps_run :
    four_steps (ant_execute_quantum no_failures one_ant small_world 0 4) ≡ (4, 65536, 0)
unfolding ant_execute_quantum burst load_burst instruction perform move_head move_claim claim_loop
    claim_round leave_cell step_x step_y wrap_coordinate ◌+ℤ◌ ◌-ℤ◌ apply_turn choose_action
    publish_burst publish_position pack_position world_store_cell load_rule rule_at four_steps
    no_failures
four_steps_run = refl

-- A search finds a cell beside the ant, and none on a full tape.
abbrev full_colony : AntColony
full_colony = record one_ant { occupancy = λ _. 1 }

search_hits : (claim_random_empty_position one_ant small_world 1 5).0 ≡ some (2, 1)
unfolding claim_random_empty_position probe_random ant_rng_uniform lfsr32_advance
search_hits = refl

search_misses : (claim_random_empty_position full_colony small_world 1 5).0 ≡ none
unfolding claim_random_empty_position probe_random scan_cells ant_rng_uniform lfsr32_advance
search_misses = refl

claim_random_empty_position-none_example :
    (full_colony.occupancy 4 ≢ 0)
    × ((claim_random_empty_position full_colony small_world 1 5).1 ≡ full_colony)
claim_random_empty_position-none_example =
    claim_random_empty_position-none full_colony small_world 1 5 4 small_world-IsValid refl
      search_misses (omega arith)
