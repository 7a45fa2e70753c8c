-- ===== src/World.antt =====
-- src/colors.h, src/world.h and src/world.c: the shared tape of logical colors, one byte a cell.
pub mod Laws
use turmite_linux.Prelude.{
  ℕ, ◌*◌, ◌%◌, Bool, true, false, ◌||◌, leb, ltb, if◌then◌else◌, u8, update,
}
use turmite_linux.Prelude.Int.{ℤ, pos, negsuc, pos_part, ltb_ℤ}
use turmite_linux.Prelude.Loops.{for_range}

abbrev pub turmite_colors : ℕ
turmite_colors = 6

-- `allocated` says that the pointer `data` is not null; `tape` is what it points to.
pub record World : Type 0 where
  pub width : ℕ
  pub height : ℕ
  pub cells : ℕ
  pub allocated : Bool
  pub tape : ℕ → ℕ

abbrev pub empty_world : World
empty_world = record { width = 0; height = 0; cells = 0; allocated = false; tape = λ _. 0 }

-- `value % TURMITE_COLORS`, one byte.
unfoldable pub world_store_cell : World → ℕ → ℕ → World
world_store_cell world index value = record world {
  tape = update world.tape index (u8 (value % turmite_colors));
}

-- `calloc_ok` says that `calloc` found the memory. The result is the return code, 0 or -1.
unfoldable pub world_init : World → ℤ → ℤ → Bool → ℤ × World
world_init world width height calloc_ok =
    if ltb_ℤ width (pos 1)
      || ltb_ℤ height (pos 1)
      || ltb_ℤ (pos 65535) width
      || ltb_ℤ (pos 65535) height
    then (negsuc 0, world)
    else (if calloc_ok
        then (
          pos 0,
          record {
            width = pos_part width;
            height = pos_part height;
            cells = pos_part width * pos_part height;
            allocated = true;
            tape = λ _. 0;
          },
        )
        else (negsuc 0, empty_world))

unfoldable pub world_destroy : World → World
world_destroy world = empty_world

unfoldable pub world_clear : World → World
world_clear world =
    let cleared =
      for_range 0 world.cells (λ i (t : World). record t { tape = update t.tape i 0 }) world in
    if world.allocated then cleared else world

unfoldable pub world_load : World → ℕ → ℕ
world_load world index = if leb world.cells index then 0 else world.tape index

unfoldable pub world_store : World → ℕ → ℕ → World
unfolding world_store_cell
world_store world index value =
    if leb world.cells index then world else world_store_cell world index value
