-- ===== src/Ant/Contest.antt =====
-- What the compare-and-swap loop of `move_claim` comes to: one decision about the new cell.
use mathlib.Core.Path.{fun_ext}
use turmite_linux.Prelude.{
  ℕ, zero, suc, ◌+◌, ◌≤◌, ◌<◌, ◌≡◌, sym, ap, Bool, true, false, ◌||◌, some, List, [], ◌∷◌, leb,
  ◌==◌, if◌then◌else◌, length, update, sub_u32, arith, ◌∙◌, dec_lt,
}
use turmite_linux.Ant.Types.{AntColony, ant_owner_id, set_occupancy, turmite_max_ants}
use turmite_linux.Ant.Move.{
  mark_collision_loser, self_wins, claim_round, claim_loop, leave_cell, move_claim,
}

-- The one-shot decision, with no retries: an empty cell, the mover's own cell and a cell with a
-- meaningless byte are taken; another ant's cell goes to the healthier of the two, and the loser
-- is marked.
abbrev pub contest : AntColony → ℕ → ℕ → Bool × AntColony
contest c self_index new_cell =
    let self_id = ant_owner_id self_index in
    let owner = c.occupancy new_cell in
    let other_index = sub_u32 owner 1 in
    let taken = set_occupancy c new_cell self_id in
    if owner == self_id
    then (true, c)
    else if owner == 0 || leb turmite_max_ants other_index
    then (true, taken)
    else if self_wins c self_index other_index
    then (true, (mark_collision_loser taken other_index).1)
    else (false, (mark_collision_loser c self_index).1)

claim_loop_valid :
    (fuel : ℕ) (fails : List Bool) (c : AntColony) (i cell : ℕ)
    → c.occupancy cell ≤ 32
    → length fails < fuel
    → claim_loop fuel fails c i cell ≡ some (contest c i cell)
unfolding claim_loop claim_round
claim_loop_valid zero fails c i cell v h = absurd (omega arith)
claim_loop_valid (suc fuel) [] c i cell v h = ground arith
claim_loop_valid (suc fuel) (b ∷ []) c i cell v h =
    ground (arith, claim_loop_valid fuel [] c i cell)
claim_loop_valid (suc fuel) (b ∷ b' ∷ bs) c i cell v h =
    ground (arith, claim_loop_valid fuel (b' ∷ bs) c i cell, claim_loop_valid fuel bs c i cell)

update_twice : (f : ℕ → ℕ) (i v w : ℕ) → update (update f i v) i w ≡ update f i w
update_twice f i v w = fun_ext (λ j. ground arith)

-- A meaningless byte is taken at once.
contest_stale :
    (c : AntColony) (i cell : ℕ)
    → i < 32
    → 32 < c.occupancy cell
    → c.occupancy cell < 256
    → contest c i cell ≡ (true, set_occupancy c cell (ant_owner_id i))
contest_stale c i cell hi lo hi' = ground arith

-- Clearing it first makes no difference.
contest_cleared :
    (c : AntColony) (i cell : ℕ)
    → i < 32
    → contest (set_occupancy c cell 0) i cell ≡ (true, set_occupancy c cell (ant_owner_id i))
contest_cleared c i cell hi =
    let e = update_twice c.occupancy cell 0 (ant_owner_id i) in ground (arith, e)

claim_loop_stale :
    (fuel : ℕ) (fails : List Bool) (c : AntColony) (i cell : ℕ)
    → i < 32
    → 32 < c.occupancy cell
    → c.occupancy cell < 256
    → suc (length fails) < fuel
    → claim_loop fuel fails c i cell ≡ some (true, set_occupancy c cell (ant_owner_id i))
unfolding claim_loop claim_round
claim_loop_stale zero fails c i cell hi lo hi' h = absurd (omega arith)
claim_loop_stale (suc fuel) [] c i cell hi lo hi' h =
    ground
      (arith, claim_loop_valid fuel [] (set_occupancy c cell 0) i cell, contest_cleared c i cell)
claim_loop_stale (suc fuel) (b ∷ []) c i cell hi lo hi' h =
    ground
      (arith, claim_loop_valid fuel [] (set_occupancy c cell 0) i cell, contest_cleared c i cell)
claim_loop_stale (suc fuel) (b ∷ b' ∷ bs) c i cell hi lo hi' h = ground (
  arith,
  claim_loop_valid fuel bs (set_occupancy c cell 0) i cell,
  contest_cleared c i cell,
  claim_loop_stale fuel bs c i cell,
)

leave_cell_new :
    (c : AntColony) (i old new : ℕ) → (leave_cell c i old new).occupancy new ≡ c.occupancy new
unfolding leave_cell
leave_cell_new c i old new = ground arith

-- For one of the 32 ants and a byte in the new cell, `move_claim` ends, however many of its weak
-- compare-and-swaps fail for no reason, with the decision that `contest` makes once the old cell
-- is left.
pub move_claim-contest :
    (fails : List Bool) (c : AntColony) (i old new : ℕ)
    → i < turmite_max_ants
    → c.occupancy new < 256
    → move_claim fails c i old new ≡ some (contest (leave_cell c i old new) i new)
unfolding move_claim
move_claim-contest fails c i old new hi byte =
    let c' = leave_cell c i old new in
    let same = leave_cell_new c i old new in
    elim (dec_lt 32 (c.occupancy new)) [
      | yes stale ↦
          claim_loop_stale (2 + length fails) fails c' i new hi (omega arith) (omega arith)
            (omega arith)
          ∙ ap some (sym (contest_stale c' i new hi (omega arith) (omega arith)))
      | no valid ↦ claim_loop_valid (2 + length fails) fails c' i new (omega arith) (omega arith)
    ]
