-- ===== src/Stm32.antt =====
-- stm32/src/turmite_stm32_shared.c and stm32/include/turmite_stm32_shared.h: the occupancy bytes
-- that the two cores of the microcontroller share, under striped hardware semaphores.
pub mod Steps
pub mod Locks
pub mod Atomic
use turmite_linux.Prelude.{
  ℕ, ◌%◌, Bool, true, false, not, ◌||◌, Option, none, some, leb, ◌==◌, if◌then◌else◌, update,
}

abbrev pub turmite_stm32_hsem_stripes : ℕ
turmite_stm32_hsem_stripes = 16

abbrev pub turmite_occupancy_empty : ℕ
turmite_occupancy_empty = 0

-- `TurmiteStm32Occupancy`. `has_cells` says that the pointer `cells` is not null.
pub record TurmiteStm32Occupancy : Type 0 where
  pub has_cells : Bool
  pub cells : ℕ → ℕ
  pub cell_count : ℕ

-- `cell & 15` is the remainder by 16.
abbrev pub stripe_for_cell : ℕ → ℕ
stripe_for_cell cell = cell % turmite_stm32_hsem_stripes

unfoldable pub turmite_stm32_occupancy_init : Bool → (ℕ → ℕ) → ℕ → TurmiteStm32Occupancy
turmite_stm32_occupancy_init has_cells cells cell_count = record {
  has_cells = has_cells;
  cells = cells;
  cell_count = cell_count;
}

abbrev pub store_cell : TurmiteStm32Occupancy → ℕ → ℕ → TurmiteStm32Occupancy
store_cell o cell value = record o { cells = update o.cells cell value }

-- What each of the three operations refuses at once.
abbrev pub refused : TurmiteStm32Occupancy → ℕ → ℕ → Bool
refused o cell owner = not o.has_cells || leb o.cell_count cell || owner == 0

-- The result, what is written to `resident_id`, if anything, and the occupancy.
unfoldable pub turmite_stm32_occupancy_claim :
    TurmiteStm32Occupancy → ℕ → ℕ → Bool × Option ℕ × TurmiteStm32Occupancy
turmite_stm32_occupancy_claim o cell owner_id =
    let resident = o.cells cell in
    let claimed = resident == turmite_occupancy_empty in
    if refused o cell owner_id
    then (false, none, o)
    else (claimed, some resident, if claimed then store_cell o cell owner_id else o)

unfoldable pub turmite_stm32_occupancy_replace :
    TurmiteStm32Occupancy → ℕ → ℕ → ℕ → Bool × TurmiteStm32Occupancy
turmite_stm32_occupancy_replace o cell expected_owner new_owner =
    let replaced = o.cells cell == expected_owner in
    if refused o cell new_owner
    then (false, o)
    else (replaced, if replaced then store_cell o cell new_owner else o)

unfoldable pub turmite_stm32_occupancy_release :
    TurmiteStm32Occupancy → ℕ → ℕ → Bool × TurmiteStm32Occupancy
turmite_stm32_occupancy_release o cell owner_id =
    let released = o.cells cell == owner_id in
    if refused o cell owner_id
    then (false, o)
    else (released, if released then store_cell o cell turmite_occupancy_empty else o)

unfoldable pub turmite_stm32_occupancy_load : TurmiteStm32Occupancy → ℕ → ℕ
turmite_stm32_occupancy_load o cell =
    if not o.has_cells || leb o.cell_count cell then turmite_occupancy_empty else o.cells cell
