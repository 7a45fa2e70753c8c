-- ===== src/Ant/Observe.antt =====
-- src/ant.c: what other components read of an ant and of the colony.
use turmite_linux.Prelude.{ℕ, leb, if◌then◌else◌}
use turmite_linux.Prelude.Doubles.{Doubles}
use turmite_linux.Ant.Types.{Ant, AntColony, packed_x, packed_y, turmite_max_ants}

unfoldable pub ant_rule_index : Ant → ℕ
ant_rule_index ant = ant.rule_index

unfoldable pub ant_packed_position : AntColony → ℕ → ℕ
ant_packed_position colony ant_index =
    if leb turmite_max_ants ant_index then 0 else colony.positions ant_index

unfoldable pub ant_position_x : AntColony → ℕ → ℕ
unfolding ant_packed_position
ant_position_x colony ant_index = packed_x (ant_packed_position colony ant_index)

unfoldable pub ant_position_y : AntColony → ℕ → ℕ
unfolding ant_packed_position
ant_position_y colony ant_index = packed_y (ant_packed_position colony ant_index)

unfoldable pub ant_instruction_count : AntColony → ℕ → ℕ
ant_instruction_count colony ant_index =
    if leb turmite_max_ants ant_index then 0 else colony.instructions ant_index

unfoldable pub ant_mutation_count : AntColony → ℕ → ℕ
ant_mutation_count colony ant_index =
    if leb turmite_max_ants ant_index then 0 else colony.mutations ant_index

unfoldable pub ant_tokens : (d : Doubles) → Ant → d.Double
ant_tokens d ant = d.fixed ant.tokens_fp

unfoldable pub ant_token_rate : (d : Doubles) → Ant → d.Double
ant_token_rate d ant = d.of_nat ant.token_rate

unfoldable pub ant_token_capacity : (d : Doubles) → Ant → d.Double
ant_token_capacity d ant = d.fixed ant.token_capacity_fp
