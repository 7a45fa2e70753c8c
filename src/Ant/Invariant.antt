-- ===== src/Ant/Invariant.antt =====
-- What holds of a colony over its world between two bursts, and of a burst between two
-- instructions.
use turmite_linux.Prelude.{ℕ, ◌+◌, ◌*◌, ◌<◌, ◌≡◌, update, arith}
use turmite_linux.World.{World, turmite_colors}
use turmite_linux.World.Laws.{IsValid}
use turmite_linux.Ant.Types.{AntColony, packed_x, packed_y}
use turmite_linux.Ant.Move.{position_cell}
use turmite_linux.Ant.Execute.{Burst, Running}
use turmite_linux.Ant.Residency.{IsResident}

-- The colony has the world's dimensions, every position lies inside it, color offsets are
-- colors, and residency is exclusive.
pub record ColonyIsValid (c : AntColony) (w : World) : Type 0 where
  pub world : IsValid w
  pub width : c.occupancy_width ≡ w.width
  pub cells : c.occupancy_cells ≡ w.cells
  pub inside :
      (i : ℕ) → (packed_x (c.positions i) < w.width) × (packed_y (c.positions i) < w.height)
  pub offsets : (i : ℕ) → (c.ants i).color_offset < turmite_colors
  pub resident : IsResident c (position_cell c)

-- The same while ant `index` runs: its position is the one in the burst.
pub record BurstIsValid (index : ℕ) (b : Burst) (c : AntColony) (w : World) : Type 0 where
  pub world : IsValid w
  pub width : c.occupancy_width ≡ w.width
  pub cells : c.occupancy_cells ≡ w.cells
  pub inside :
      (i : ℕ) → (packed_x (c.positions i) < w.width) × (packed_y (c.positions i) < w.height)
  pub offsets : (i : ℕ) → (c.ants i).color_offset < turmite_colors
  pub x_inside : b.x < w.width
  pub y_inside : b.y < w.height
  pub at : b.cell ≡ b.y * w.width + b.x
  pub heads : b.heading < 4
  pub offset : b.offset < turmite_colors
  pub resident : IsResident c (update (position_cell c) index b.cell)

abbrev pub RunningIsValid : ℕ → Running → Type 0
RunningIsValid index (b, c, w) = BurstIsValid index b c w

-- Every cell that a burst reads or writes is one of the tape.
cell-lt :
    (index : ℕ) (b : Burst) (c : AntColony) (w : World)
    → BurstIsValid index b c w
    → b.cell < w.cells
cell-lt index b c w v = rw (v.at, v.world.area) (grind arith)

pub index-lt : (x y w h : ℕ) → x < w → y < h → y * w + x < w * h
index-lt x y w h hx hy = grind arith
