-- ===== src/Ant/Locals.antt =====
-- What keeps a burst valid: stores to the ant and the tape, and changes of the locals.
use turmite_linux.Prelude.{ℕ, ◌<◌, ◌≡◌, refl, sym, ◌∙◌, update_both, arith}
use turmite_linux.World.{World, turmite_colors, world_store_cell}
use turmite_linux.World.Laws.{IsValid}
use turmite_linux.Ant.Types.{Ant, AntColony, set_ant}
use turmite_linux.Ant.Move.{mark_collision_loser}
use turmite_linux.Ant.Contest.{contest}
use turmite_linux.Ant.Execute.{Burst}
use turmite_linux.Ant.Invariant.{BurstIsValid}

pub contest_offset :
    (c : AntColony) (i new j : ℕ)
    → ((contest c i new).1.ants j).color_offset ≡ (c.ants j).color_offset
unfolding mark_collision_loser
contest_offset c i new j = ground arith

-- A store to the running ant that keeps its color offset.
pub set_ant-BurstIsValid :
    (index : ℕ) (b : Burst) (c : AntColony) (w : World) (a : Ant)
    → a.color_offset ≡ (c.ants index).color_offset
    → BurstIsValid index b c w
    → BurstIsValid index b (set_ant c index a) w
set_ant-BurstIsValid index b c w a same v = record {
  world = v.world;
  width = v.width;
  cells = v.cells;
  inside = v.inside;
  offsets = λ j.
      update_both (λ (x : Ant). x.color_offset < turmite_colors) c.ants index j a
        (λ _. rw same (v.offsets index)) (λ _. v.offsets j);
  x_inside = v.x_inside;
  y_inside = v.y_inside;
  at = v.at;
  heads = v.heads;
  offset = v.offset;
  resident = record { bytes = v.resident.bytes; alone = v.resident.alone };
}

store_cell-IsValid : (w : World) (i v : ℕ) → IsValid w → IsValid (world_store_cell w i v)
unfolding world_store_cell
store_cell-IsValid w i v h = record {
  width_pos = h.width_pos;
  height_pos = h.height_pos;
  width_max = h.width_max;
  height_max = h.height_max;
  area = h.area;
  owned = h.owned;
  colored = λ j. ground (arith, h.colored j);
}

pub store_frame :
    (w : World) (i v : ℕ)
    → let w' = world_store_cell w i v in
      (w'.width ≡ w.width) × (w'.height ≡ w.height) × (w'.cells ≡ w.cells)
unfolding world_store_cell
store_frame w i v = (refl, refl, refl)

-- The write of the cycle, and a change of the locals that keeps them in range.
pub written-BurstIsValid :
    (index cell color : ℕ) (b : Burst) (c : AntColony) (w : World)
    → BurstIsValid index b c w
    → BurstIsValid index b c (world_store_cell w cell color)
written-BurstIsValid index cell color b c w v =
    let frame = store_frame w cell color in
    record {
      world = store_cell-IsValid w cell color v.world;
      width = v.width ∙ sym frame.0;
      cells = v.cells ∙ sym frame.2;
      inside = λ i. rw (frame.0, frame.1) (v.inside i);
      offsets = v.offsets;
      x_inside = rw frame.0 v.x_inside;
      y_inside = rw frame.1 v.y_inside;
      at = rw frame.0 v.at;
      heads = v.heads;
      offset = v.offset;
      resident = v.resident;
    }

pub turned-BurstIsValid :
    (index state heading tokens executed : ℕ) (b : Burst) (c : AntColony) (w : World)
    → heading < 4
    → BurstIsValid index b c w
    → BurstIsValid index
        (record b { state = state; heading = heading; tokens = tokens; executed = executed })
        c
        w
turned-BurstIsValid index state heading tokens executed b c w h v = record {
  world = v.world;
  width = v.width;
  cells = v.cells;
  inside = v.inside;
  offsets = v.offsets;
  x_inside = v.x_inside;
  y_inside = v.y_inside;
  at = v.at;
  heads = h;
  offset = v.offset;
  resident = v.resident;
}
