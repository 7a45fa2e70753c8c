-- ===== src/Main/Confetti.antt =====
-- src/main.c: clearing the tape and strewing confetti keep it valid.
use turmite_linux.Prelude.{
  ℕ, ◌%◌, ◌<◌, ◌≡◌, refl, ◌∙◌, true, false, if◌then◌else◌, arith, u8, update, update_both, Bool,
}
use turmite_linux.Prelude.Loops.{for_range_keep}
use turmite_linux.Rng.{Lfsr32}
use turmite_linux.World.{World, turmite_colors, world_store_cell, world_clear}
use turmite_linux.World.Laws.{IsValid}
use turmite_linux.Main.Seed.{draw_shard, shard_round, universe_glitter}

-- A valid tape of the dimensions of another.
pub record Like (w t : World) : Type 0 where
  pub valid : IsValid t
  pub width : t.width ≡ w.width
  pub height : t.height ≡ w.height
  pub cells : t.cells ≡ w.cells

put-IsValid :
    (t : World) (i v : ℕ)
    → v < turmite_colors
    → IsValid t
    → IsValid (record t { tape = update t.tape i v })
put-IsValid t i v lt valid = record {
  width_pos = valid.width_pos;
  height_pos = valid.height_pos;
  width_max = valid.width_max;
  height_max = valid.height_max;
  area = valid.area;
  owned = valid.owned;
  colored =
      λ j. update_both (λ n. n < turmite_colors) t.tape i j v (λ e. lt) (λ ne. valid.colored j);
}

store-Like : (w t : World) (i v : ℕ) → Like w t → Like w (world_store_cell t i v)
unfolding world_store_cell
store-Like w t i v like = record {
  valid = put-IsValid t i (u8 (v % turmite_colors)) (omega arith) like.valid;
  width = like.width;
  height = like.height;
  cells = like.cells;
}

if-Like : (b : Bool) (w x y : World) → Like w x → Like w y → Like w (if b then x else y)
if-Like true w x y on off = on
if-Like false w x y on off = off

world_clear-Like : (w : World) → IsValid w → Like w (world_clear w)
unfolding world_clear
world_clear-Like w valid =
    let itself : Like w w = record { valid = valid; width = refl; height = refl; cells = refl } in
    if-Like w.allocated w _ w
      (for_range_keep (Like w) (λ i (t : World). record t { tape = update t.tape i 0 })
        (λ i t like. record {
          valid = put-IsValid t i 0 (omega arith) like.valid;
          width = like.width;
          height = like.height;
          cells = like.cells;
        })
        0 w.cells w itself)
      itself

shard-Like :
    (w t : World) (x y : ℕ) (vertical : Bool) (length width color : ℕ)
    → Like w t
    → Like w (draw_shard x y vertical length width color t)
unfolding draw_shard
shard-Like w t x y vertical length width color like =
    for_range_keep (Like w) _
      (λ a v k. for_range_keep (Like w) _ (λ b s l. store-Like w s _ color l) 0 width v k) 0 length
      t like

glitter-Like : (w : World) (seed density : ℕ) → IsValid w → Like w (universe_glitter seed density w)
unfolding universe_glitter
glitter-Like w seed density valid =
    for_range_keep (λ (s : World × Lfsr32). Like w s.0) shard_round
      (λ i s like. shard-Like w s.0 _ _ _ _ _ _ like) 0 _ (w, _)
      (record { valid = valid; width = refl; height = refl; cells = refl })

-- The fresh tape.
pub fresh-Like :
    (w : World) (seed density : ℕ)
    → IsValid w
    → Like w (universe_glitter seed density (world_clear w))
fresh-Like w seed density valid =
    let c = world_clear-Like w valid in
    let g = glitter-Like (world_clear w) seed density c.valid in
    record {
      valid = g.valid;
      width = g.width ∙ c.width;
      height = g.height ∙ c.height;
      cells = g.cells ∙ c.cells;
    }
