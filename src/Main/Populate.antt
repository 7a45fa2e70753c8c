-- ===== src/Main/Populate.antt =====
-- src/main.c: what placing one of the ants of a fresh universe changes in the colony.
use turmite_linux.Prelude.{
  ℕ, ◌+◌, ◌<◌, ◌≡◌, ◌≢◌, true, some, ◌==◌, if◌then◌else◌, arith, update, u32, [],
}
use turmite_linux.Rng.{Lfsr32, rng_next}
use turmite_linux.World.{World, turmite_colors}
use turmite_linux.World.Laws.{IsValid}
use turmite_linux.Rules.{RuleRef}
use turmite_linux.Ant.Types.{
  Ant, AntColony, ant_f_enabled, pack_position, publish_position, set_ant, occupancy_index,
  ant_owner_id, load_rule,
}
use turmite_linux.Ant.Life.{
  ant_randomize, random_phenotype, reset_schedule, claim_random_empty_position, Placement,
}
use turmite_linux.Ant.Search.{uniform-lt}
use turmite_linux.Ant.Placement.{claim_random_empty_position-free}

-- The new ant that is drawn before its place is searched.
abbrev drawn_ant : AntColony → Lfsr32 → ℕ → RuleRef → Ant
drawn_ant c rng i rule =
    let (word, rng') = rng_next [] rng in
    random_phenotype (c.ants i) (if word == 0 then u32 (i + 1) else word) rule
      (load_rule c rule).states

abbrev pub search : AntColony → World → Lfsr32 → ℕ → RuleRef → Placement
search c w rng i rule =
    let ant = drawn_ant c rng i rule in
    claim_random_empty_position (set_ant c i ant) w i ant.rng_state

drawn_offset :
    (a : Ant) (seed : ℕ) (rule : RuleRef) (states : ℕ)
    → (random_phenotype a seed rule states).color_offset < turmite_colors
unfolding random_phenotype reset_schedule
drawn_offset a seed rule states =
    let lt = uniform-lt seed turmite_colors (omega arith) in ground (arith, lt)

-- What the placement at (x, y) makes of the colony.
pub record Placed (c d : AntColony) (w : World) (i x y : ℕ) : Type 0 where
  pub inside_x : x < w.width
  pub inside_y : y < w.height
  pub was_free : c.occupancy (occupancy_index c x y) ≡ 0
  pub occupancy : d.occupancy ≡ update c.occupancy (occupancy_index c x y) (ant_owner_id i)
  pub positions : d.positions ≡ update c.positions i (pack_position x y)
  pub width : d.occupancy_width ≡ c.occupancy_width
  pub cells : d.occupancy_cells ≡ c.occupancy_cells
  pub mask : d.enabled_mask ≡ update c.enabled_mask i true
  pub flags : (d.ants i).flags ≡ ant_f_enabled
  pub offset : (d.ants i).color_offset < turmite_colors
  pub others : (j : ℕ) → i ≢ j → d.ants j ≡ c.ants j

pub randomize-Placed :
    (c : AntColony) (w : World) (rng : Lfsr32) (i x y : ℕ) (rule : RuleRef)
    → IsValid w
    → c.occupancy_width ≡ w.width
    → (search c w rng i rule).0 ≡ some (x, y)
    → Placed c (ant_randomize c w rng i rule).1 w i x y
unfolding ant_randomize publish_position
randomize-Placed c w rng i x y rule valid width found =
    let free = claim_random_empty_position-free _ w i _ x y valid width found in
    let word = (rng_next [] rng).0 in
    let seed = if word == 0 then u32 (i + 1) else word in
    let offset = drawn_offset (c.ants i) seed rule (load_rule c rule).states in
    record {
      inside_x = free.0;
      inside_y = free.1;
      was_free = free.2;
      occupancy = ground (arith, found, free.3);
      positions = ground (arith, found, free.3);
      width = ground (arith, found, free.3);
      cells = ground (arith, found, free.3);
      mask = ground (arith, found, free.3);
      flags = ground (arith, found, free.3);
      offset = ground (arith, found, free.3, offset);
      others = λ j ne. ground (arith, found, free.3, ne);
    }
