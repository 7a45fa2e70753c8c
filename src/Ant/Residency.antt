-- ===== src/Ant/Residency.antt =====
-- Exclusive residency: an ant owns at most the one cell where it stands.
use turmite_linux.Prelude.{
  ℕ, suc, ◌≤◌, ◌<◌, ◌≡◌, ◌≢◌, ◌⊎◌, inl, inr, sym, ◌∙◌, true, update, arith, Bool, List, some, false,
}
use turmite_linux.Ant.Types.{AntColony, turmite_max_ants}
use turmite_linux.Ant.Move.{
  mark_collision_loser, leave_cell, position_cell, ant_release_occupancy, ant_try_reclaim_position,
  move_claim,
}
use turmite_linux.Ant.Contest.{contest, move_claim-contest}

-- `place i` is the cell where ant `i` stands. Every owner byte names an ant, and an ant that is
-- named in a cell stands there: so no ant is named in two cells.
pub record IsResident (c : AntColony) (place : ℕ → ℕ) : Type 0 where
  pub bytes : (k : ℕ) → k < c.occupancy_cells → c.occupancy k ≤ turmite_max_ants
  pub alone : (k i : ℕ) → k < c.occupancy_cells → c.occupancy k ≡ suc i → k ≡ place i

pub IsResident-ext :
    (c : AntColony) (place place' : ℕ → ℕ)
    → ((i : ℕ) → place i ≡ place' i)
    → IsResident c place
    → IsResident c place'
IsResident-ext c place place' same inv = record {
  bytes = inv.bytes;
  alone = λ k i hk e. inv.alone k i hk e ∙ same i;
}

-- A marked loser leaves all but its own flags and the collision count as they were.
mark_frame :
    (c : AntColony) (l : ℕ)
    → let c' = (mark_collision_loser c l).1 in
      (c'.occupancy ≡ c.occupancy)
      × (c'.positions ≡ c.positions)
      × (c'.occupancy_cells ≡ c.occupancy_cells)
      × (c'.occupancy_width ≡ c.occupancy_width)
      × (c'.runtime_rules ≡ c.runtime_rules)
      × (c'.enabled_mask ≡ c.enabled_mask)
      × (c'.active_population ≡ c.active_population)
unfolding mark_collision_loser
mark_frame c l = ground arith

-- The contest writes the new cell, with the mover's byte, or nothing.
contest_occupancy :
    (c : AntColony) (i new k : ℕ)
    → i < turmite_max_ants
    → ((contest c i new).1.occupancy k ≡ c.occupancy k)
      ⊎ ((k ≡ new) × ((contest c i new).1.occupancy k ≡ suc i))
unfolding mark_collision_loser
contest_occupancy c i new k hi = ground arith

pub contest_frame :
    (c : AntColony) (i new : ℕ)
    → let c' = (contest c i new).1 in
      (c'.positions ≡ c.positions)
      × (c'.occupancy_cells ≡ c.occupancy_cells)
      × (c'.occupancy_width ≡ c.occupancy_width)
      × (c'.runtime_rules ≡ c.runtime_rules)
unfolding mark_collision_loser
contest_frame c i new = ground arith

pub leave_frame :
    (c : AntColony) (i old new : ℕ)
    → let c' = leave_cell c i old new in
      (c'.positions ≡ c.positions)
      × (c'.occupancy_cells ≡ c.occupancy_cells)
      × (c'.occupancy_width ≡ c.occupancy_width)
      × (c'.runtime_rules ≡ c.runtime_rules)
      × (c'.ants ≡ c.ants)
unfolding leave_cell
leave_frame c i old new = ground arith

-- A contest that is won leaves the mover's byte in the cell.
contest_outcome :
    (c : AntColony) (i cell : ℕ)
    → i < turmite_max_ants
    → let out = contest c i cell in (out.0 ≡ false) ⊎ (out.1.occupancy cell ≡ suc i)
unfolding mark_collision_loser
contest_outcome c i cell hi = ground arith

module _ (c : AntColony) (place : ℕ → ℕ) (i old new : ℕ) (hi : i < turmite_max_ants)
    (inv : IsResident c place) (here : place i ≡ old) where
  left_cells :
      (k j : ℕ)
      → k < c.occupancy_cells
      → (leave_cell c i old new).occupancy k ≡ suc j
      → k ≡ update place i new j
  unfolding leave_cell
  left_cells k j hk e = ground (arith, inv.alone k j)

  left_bytes : (k : ℕ) → k < c.occupancy_cells → (leave_cell c i old new).occupancy k ≤ 32
  unfolding leave_cell
  left_bytes k hk = ground (arith, inv.bytes k)

  -- With exclusive residency and ant `i` of the 32 at its place `old`, leaving that cell and
  -- contesting any cell `new` keeps residency exclusive, with `new` as the ant's place, whoever
  -- wins the cell.
  pub moved-IsResident : IsResident (contest (leave_cell c i old new) i new).1 (update place i new)
  moved-IsResident =
      let c1 = leave_cell c i old new in
      let cells : (contest c1 i new).1.occupancy_cells ≡ c.occupancy_cells =
        (contest_frame c1 i new).1 ∙ (leave_frame c i old new).1 in
      record {
        bytes = λ k hk. elim (contest_occupancy c1 i new k hi) [
          | inl e ↦ rw e (left_bytes k (omega arith))
          | inr (at, e) ↦ rw e (omega arith)
        ];
        alone = λ k j hk e. elim (contest_occupancy c1 i new k hi) [
          | inl same ↦ left_cells k j (omega arith) (sym same ∙ e)
          | inr (at, mine) ↦ ground arith
        ];
      }

  -- With exclusive residency and ant `i` of the 32 at its place `old`, `move_claim` to any cell `new`
  -- of the tape ends, whichever weak compare-and-swaps fail, and keeps residency exclusive, with
  -- `new` as the ant's place; and either the move fails, or the cell has the ant's byte.
  pub move_claim-IsResident :
      (fails : List Bool)
      → new < c.occupancy_cells
      → (out : Bool × AntColony) × (move_claim fails c i old new ≡ some out)
        × IsResident out.1 (update place i new)
        × ((out.0 ≡ false) ⊎ (out.1.occupancy new ≡ suc i))
  move_claim-IsResident fails lt =
      let byte = inv.bytes new lt in
      let c1 = leave_cell c i old new in
      (
        contest c1 i new,
        move_claim-contest fails c i old new hi (omega arith),
        moved-IsResident,
        contest_outcome c1 i new hi,
      )

-- A release keeps residency exclusive.
released-IsResident :
    (c : AntColony) (place : ℕ → ℕ) (i : ℕ)
    → IsResident c place
    → IsResident (ant_release_occupancy c i) place
unfolding ant_release_occupancy
released-IsResident c place i inv = record {
  bytes = λ k hk. ground (arith, inv.bytes k);
  alone = λ k j hk e. ground (arith, inv.alone k j);
}

-- If the place of one of the 32 ants is its published position, reclaiming that position keeps
-- residency exclusive.
pub reclaimed-IsResident :
    (c : AntColony) (place : ℕ → ℕ) (i : ℕ)
    → i < turmite_max_ants
    → place i ≡ position_cell c i
    → IsResident c place
    → IsResident (ant_try_reclaim_position c i).1 place
unfolding ant_try_reclaim_position
reclaimed-IsResident c place i hi here inv = record {
  bytes = λ k hk. ground (arith, inv.bytes k);
  alone = λ k j hk e. ground (arith, inv.alone k j);
}

-- With exclusive residency, an occupancy array, and the place of one of the 32 ants being its
-- published position, a release leaves the ant's byte in no cell of the array.
pub released_nowhere :
    (c : AntColony) (place : ℕ → ℕ) (i k : ℕ)
    → i < turmite_max_ants
    → c.occupied ≡ true
    → place i ≡ position_cell c i
    → IsResident c place
    → k < c.occupancy_cells
    → (ant_release_occupancy c i).occupancy k ≢ suc i
unfolding ant_release_occupancy
released_nowhere c place i k hi own here inv hk = ground (arith, inv.alone k i)
