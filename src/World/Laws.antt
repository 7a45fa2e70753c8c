-- ===== src/World/Laws.antt =====
-- The tape: well-formedness, and loads after stores.
use turmite_linux.Prelude.{
  ℕ, ◌*◌, ◌%◌, ◌≤◌, ◌<◌, ◌≡◌, refl, Bool, true, false, ltb, ◌==◌, if◌then◌else◌, update, arith,
  ◌&&◌,
}
use turmite_linux.Prelude.Int.{ℤ, pos, negsuc}
use turmite_linux.Prelude.Loops.{for_range_inv}
use turmite_linux.World.{turmite_colors, World, world_init, world_clear, world_load, world_store}

-- The dimensions are those of `cells`, both fit 16 bits, and every cell holds a color.
pub record IsValid (w : World) : Type 0 where
  pub width_pos : 0 < w.width
  pub height_pos : 0 < w.height
  pub width_max : w.width ≤ 65535
  pub height_max : w.height ≤ 65535
  pub area : w.cells ≡ w.width * w.height
  pub owned : w.allocated ≡ true
  pub colored : (i : ℕ) → w.tape i < turmite_colors

-- A successful `world_init` leaves a valid world whose every cell is zero, of the size asked for.
pub world_init-IsValid :
    (world : World) (width height : ℤ) (calloc_ok : Bool)
    → (world_init world width height calloc_ok).0 ≡ pos 0
    → let w = (world_init world width height calloc_ok).1 in
      IsValid w × (pos w.width ≡ width) × (pos w.height ≡ height) × ((i : ℕ) → world_load w i ≡ 0)
unfolding world_init world_load
world_init-IsValid world (negsuc a) height calloc_ok h = absurd (ground arith)
world_init-IsValid world (pos a) (negsuc b) calloc_ok h = absurd (ground arith)
world_init-IsValid world (pos a) (pos b) false h = absurd (ground arith)
world_init-IsValid world (pos a) (pos b) true h = (
  record {
    width_pos = ground arith;
    height_pos = ground arith;
    width_max = ground arith;
    height_max = ground arith;
    area = ground arith;
    owned = ground arith;
    colored = λ i. ground arith;
  },
  ground arith,
  ground arith,
  λ i. ground arith,
)

-- Stores keep a world valid, with no condition on the index or on the value.
world_store-IsValid : (w : World) (i v : ℕ) → IsValid w → IsValid (world_store w i v)
unfolding world_store
world_store-IsValid w i v h = record {
  width_pos = ground arith;
  height_pos = ground arith;
  width_max = ground arith;
  height_max = ground arith;
  area = ground arith;
  owned = ground arith;
  colored = λ j. ground (arith, h.colored j);
}

-- A load after a store: the stored color reduced to the palette at a cell in range, and the old
-- contents anywhere else. A store out of range is a load away from changing nothing.
pub world_load-store :
    (w : World) (i v j : ℕ)
    → world_load (world_store w i v) j
      ≡ (if i == j && ltb i w.cells then v % turmite_colors else world_load w j)
unfolding world_load world_store
world_load-store w i v j = ground arith

-- After `i` rounds of the clearing loop the first `i` cells are zero.
abbrev Cleared : World → ℕ → World → Type 0
Cleared w i t =
    (t.cells ≡ w.cells)
    × (t.width ≡ w.width)
    × (t.height ≡ w.height)
    × ((j : ℕ) → j < i → t.tape j ≡ 0)

world_clear-Cleared : (w : World) → w.allocated ≡ true → Cleared w w.cells (world_clear w)
unfolding world_clear
world_clear-Cleared w h = simp h (
    for_range_inv (Cleared w) (λ i (t : World). record t { tape = update t.tape i 0 }) w.cells
      (λ i t lt inv. (inv.0, inv.1, inv.2, λ j below. ground (arith, inv.3 j))) 0 w.cells w
      (omega arith) (refl, refl, refl, λ j below. absurd (omega arith)))

-- `world_clear` on an allocated world keeps the dimensions and makes every load give zero.
pub world_clear_lem :
    (w : World) (j : ℕ)
    → w.allocated ≡ true
    → (world_load (world_clear w) j ≡ 0)
      × ((world_clear w).cells ≡ w.cells)
      × ((world_clear w).width ≡ w.width)
      × ((world_clear w).height ≡ w.height)
unfolding world_load
world_clear_lem w j h = let c = world_clear-Cleared w h in (ground (arith, c.3 j), c.0, c.1, c.2)
