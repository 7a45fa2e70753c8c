-- ===== src/Ant/Move.antt =====
-- src/ant.c: headings, read-head residency and the resolution of contact.
use turmite_linux.Prelude.{
  ℕ, zero, suc, ◌+◌, Bool, true, false, ◌||◌, ◌&&◌, not, Option, none, some, List, [], ◌∷◌, leb,
  ltb, ◌==◌, if◌then◌else◌, get_or, length, sub_u32, u64,
}
use turmite_linux.Rules.Types.{turn_w}
use turmite_linux.Ant.Types.{
  AntColony, ant_owner_id, occupancy_index, set_occupancy, set_flags, packed_x, packed_y,
  turmite_max_ants,
}

abbrev headings : List (List ℕ)
headings =
    (0 ∷ 1 ∷ 2 ∷ 3 ∷ [])
    ∷ (1 ∷ 2 ∷ 3 ∷ 0 ∷ [])
    ∷ (3 ∷ 0 ∷ 1 ∷ 2 ∷ [])
    ∷ (2 ∷ 3 ∷ 0 ∷ 1 ∷ [])
    ∷ (0 ∷ 1 ∷ 2 ∷ 3 ∷ [])
    ∷ (0 ∷ 0 ∷ 0 ∷ 0 ∷ [])
    ∷ (1 ∷ 1 ∷ 1 ∷ 1 ∷ [])
    ∷ (2 ∷ 2 ∷ 2 ∷ 2 ∷ [])
    ∷ (3 ∷ 3 ∷ 3 ∷ 3 ∷ [])
    ∷ []

unfoldable pub apply_turn : ℕ → ℕ → ℕ
apply_turn heading turn =
    if leb turn turn_w then get_or (get_or headings turn []) heading 0 else heading

unfoldable pub ant_occupant_at : AntColony → ℕ → ℕ → ℕ
ant_occupant_at colony x y =
    let cell = occupancy_index colony x y in
    if not colony.occupied || leb colony.occupancy_width x
    then 0
    else if leb colony.occupancy_cells cell
    then 0
    else colony.occupancy cell

-- The cell of an ant's published position.
abbrev pub position_cell : AntColony → ℕ → ℕ
position_cell colony index =
    let p = colony.positions index in occupancy_index colony (packed_x p) (packed_y p)

-- A strong compare-and-swap from `from` to `to`.
abbrev pub cas_occupancy : AntColony → ℕ → ℕ → ℕ → AntColony
cas_occupancy c cell from to = if c.occupancy cell == from then set_occupancy c cell to else c

unfoldable pub ant_release_occupancy : AntColony → ℕ → AntColony
ant_release_occupancy colony index =
    let cell = position_cell colony index in
    if not colony.occupied
    then colony
    else if leb colony.occupancy_cells cell
    then colony
    else cas_occupancy colony cell (ant_owner_id index) 0

unfoldable pub ant_try_reclaim_position : AntColony → ℕ → Bool × AntColony
ant_try_reclaim_position colony index =
    let cell = position_cell colony index in
    let owner = colony.occupancy cell in
    if not colony.occupied
    then (false, colony)
    else if leb colony.occupancy_cells cell
    then (false, colony)
    else if owner == ant_owner_id index
    then (true, colony)
    else if not (owner == 0)
    then (false, colony)
    else (true, set_occupancy colony cell (ant_owner_id index))

-- The first collision of a burst is counted.
unfoldable pub mark_collision_loser : AntColony → ℕ → Bool × AntColony
mark_collision_loser colony loser =
    let f = (colony.ants loser).flags in
    let marked = set_flags colony loser (record f { clobbered = true; displaced = true }) in
    if f.clobbered
    then (false, marked)
    else (true, record marked { collisions = u64 (marked.collisions + 1) })

-- Health is the token balance; the lower index wins a tie.
unfoldable pub self_wins : AntColony → ℕ → ℕ → Bool
self_wins c self_index other_index =
    let self_health = (c.ants self_index).tokens_fp in
    let other_health = (c.ants other_index).tokens_fp in
    ltb other_health self_health || (self_health == other_health && ltb self_index other_index)

-- A weak compare-and-swap may fail for no reason. `fails` says which of the coming ones do; when
-- it is used up none does.
abbrev pub spurious : List Bool → Bool
spurious [] = false
spurious (b ∷ bs) = b

abbrev pub later : List Bool → List Bool
later [] = []
later (b ∷ bs) = bs

-- One round of the loop of `move_claim`: a result, or another round.
pub data Round : Type 0 where
  done : Bool → AntColony → Round
  again : List Bool → AntColony → Round

unfoldable pub claim_round : List Bool → AntColony → ℕ → ℕ → Round
claim_round fails c self_index new_cell =
    let self_id = ant_owner_id self_index in
    let owner = c.occupancy new_cell in
    let other_index = sub_u32 owner 1 in
    let rest = later fails in
    if owner == 0 && not (spurious fails)
    then done true (set_occupancy c new_cell self_id)
    else if owner == self_id
    then done true c
    else if owner == 0
    then again rest c
    else if leb turmite_max_ants other_index
    then again (later rest) (if spurious rest then c else set_occupancy c new_cell 0)
    else if not (self_wins c self_index other_index)
    then done false (mark_collision_loser c self_index).1
    else if spurious rest
    then again (later rest) c
    else done true (mark_collision_loser (set_occupancy c new_cell self_id) other_index).1

-- The `for (;;)` loop; `none` means that the fuel ran out.
unfoldable pub claim_loop : ℕ → List Bool → AntColony → ℕ → ℕ → Option (Bool × AntColony)
claim_loop zero fails c self_index new_cell = none
claim_loop (suc fuel) fails c self_index new_cell = elim (claim_round fails c self_index new_cell) [
  | done r c' ↦ some (r, c')
  | again fails' c' ↦ claim_loop fuel fails' c' self_index new_cell
]

-- Leaving the old cell.
unfoldable pub leave_cell : AntColony → ℕ → ℕ → ℕ → AntColony
leave_cell c self_index old_cell new_cell =
    if not (old_cell == new_cell) && ltb old_cell c.occupancy_cells
    then cas_occupancy c old_cell (ant_owner_id self_index) 0
    else c

unfoldable pub move_claim : List Bool → AntColony → ℕ → ℕ → ℕ → Option (Bool × AntColony)
move_claim fails c self_index old_cell new_cell =
    claim_loop (2 + length fails) fails (leave_cell c self_index old_cell new_cell) self_index
      new_cell
