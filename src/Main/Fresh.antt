-- ===== src/Main/Fresh.antt =====
-- src/main.c: the colony after `universe_seed`.
use mathlib.Core.Path.{subst}
use turmite_linux.Prelude.{
  ℕ, ◌≤◌, ◌<◌, ◌≡◌, refl, sym, ap, ◌∙◌, Bool, true, false, if◌then◌else◌, arith, update_both, ltb,
  suc,
}
use turmite_linux.Prelude.Loops.{for_range, for_range_inv, for_range_keep}
use turmite_linux.Rng.{Lfsr32, rng_seed}
use turmite_linux.World.{World, turmite_colors, world_clear}
use turmite_linux.World.Laws.{IsValid}
use turmite_linux.Ant.Types.{
  AntColony, ant_f_enabled, turmite_max_ants, packed_x, packed_y, set_occupancy, zero_ant, Ant,
}
use turmite_linux.Ant.Life.{ant_colony_reset, reset_slot}
use turmite_linux.Ant.Invariant.{ColonyIsValid}
use turmite_linux.Main.Census.{occupied_none}
use turmite_linux.Main.Seed.{seed_ant, seed_colony}
use turmite_linux.Main.Seeded.{Seeded, seed_ant-Seeded}
use turmite_linux.Main.Universe.{Universe}
use turmite_linux.Main.Seed.{universe_glitter, universe_seed}
use turmite_linux.Main.Confetti.{Like, fresh-Like}
use turmite_linux.Main.Options.{RenderPaletteMode}
use turmite_linux.Prelude.Doubles.{Doubles}
use turmite_linux.Ant.Move.{position_cell}

-- The sweep over the cells has emptied those below the index.
swept_empty :
    (m : ℕ) (c : AntColony) (k : ℕ)
    → k < m
    → (for_range 0 m (λ i d. set_occupancy d i 0) c).occupancy k ≡ 0
swept_empty m c k lt =
    for_range_inv (λ i (d : AntColony). (k : ℕ) → k < i → d.occupancy k ≡ 0)
      (λ i d. set_occupancy d i 0) m
      (λ i d below h j lt.
        update_both (λ (b : ℕ). b ≡ 0) d.occupancy i j 0 (λ e. refl) (λ ne. h j (omega arith)))
      0 m c (omega arith) (λ j lt. absurd (omega arith)) k lt

-- What the reset leaves as it is, or sets to zero.
record Usable (w : World) (c : AntColony) : Type 0 where
  width : c.occupancy_width ≡ w.width
  cells : c.occupancy_cells ≡ w.cells
  owned : c.occupied ≡ true
  inside : (i : ℕ) → (packed_x (c.positions i) < w.width) × (packed_y (c.positions i) < w.height)
  offsets : (i : ℕ) → (c.ants i).color_offset < turmite_colors

reset_slot-Usable :
    (w : World) (i : ℕ) (c : AntColony) → IsValid w → Usable w c → Usable w (reset_slot i c)
reset_slot-Usable w i c valid u = record {
  width = u.width;
  cells = u.cells;
  owned = u.owned;
  inside = λ j.
      update_both (λ (q : ℕ). (packed_x q < w.width) × (packed_y q < w.height)) c.positions i j 0
        (λ e. (valid.width_pos, valid.height_pos)) (λ ne. u.inside j);
  offsets = λ j.
      update_both (λ (a : Ant). a.color_offset < turmite_colors) c.ants i j zero_ant
        (λ e. omega arith) (λ ne. u.offsets j);
}

reset_slots : AntColony → AntColony
reset_slots c = for_range 0 turmite_max_ants reset_slot c

swept_slots : AntColony → AntColony
swept_slots c =
    let slots = reset_slots c in
    for_range 0 slots.occupancy_cells (λ i d. set_occupancy d i 0) slots

module _ (w : World) (c : AntColony) (valid : IsValid w) (u : Usable w c) where
  slots-Usable : Usable w (reset_slots c)
  unfolding reset_slots
  slots-Usable =
      for_range_keep (Usable w) reset_slot (λ i d h. reset_slot-Usable w i d valid h) 0
        turmite_max_ants c u

  swept-Usable : Usable w (swept_slots c)
  unfolding swept_slots
  swept-Usable =
      for_range_keep (Usable w) (λ i d. set_occupancy d i 0)
        (λ i d h. record {
          width = h.width;
          cells = h.cells;
          owned = h.owned;
          inside = h.inside;
          offsets = h.offsets;
        })
        0 _ _ slots-Usable

  reset_sweeps :
      ant_colony_reset c
      ≡ record (swept_slots c) { enabled_mask = λ _. false; active_population = 0; collisions = 0 }
  unfolding ant_colony_reset swept_slots reset_slots
  reset_sweeps =
      ap
        (λ (b : Bool). record (if b then swept_slots c else reset_slots c) {
          enabled_mask = λ _. false;
          active_population = 0;
          collisions = 0;
        })
        slots-Usable.owned

  reset_empty : (k : ℕ) → k < w.cells → (swept_slots c).occupancy k ≡ 0
  unfolding swept_slots
  reset_empty k lt = swept_empty _ (reset_slots c) k (rw slots-Usable.cells lt)

  reset-Seeded : Seeded w 0 (ant_colony_reset c)
  reset-Seeded = subst (Seeded w 0) (sym reset_sweeps) (record {
    width = swept-Usable.width;
    cells = swept-Usable.cells;
    inside = swept-Usable.inside;
    offsets = swept-Usable.offsets;
    bytes = λ k lt. rw (reset_empty k lt) (omega arith);
    alone = λ k i lt e. let empty = reset_empty k lt in absurd (omega arith);
    placed = λ i lt. absurd (omega arith);
    counted = rw (occupied_none w.cells _ reset_empty) (omega arith);
    mask = λ i. ground arith;
    flags = λ i lt. absurd (omega arith);
  })

-- The whole loop, from a colony that has been reset.
loop-Seeded :
    (w : World) (c : AntColony) (g : Lfsr32) (n : ℕ)
    → IsValid w
    → Usable w c
    → n ≤ turmite_max_ants
    → n ≤ w.cells
    → Seeded w n (for_range 0 n (seed_ant w) (ant_colony_reset c, g)).0
loop-Seeded w c g n valid u few fits =
    for_range_inv (λ i (s : AntColony × Lfsr32). Seeded w i s.0) (seed_ant w) n
      (λ i s lt h. seed_ant-Seeded w i s.0 s.1 valid (omega arith) (omega arith) h) 0 n
      (ant_colony_reset c, g) (omega arith) (reset-Seeded w c valid u)

seed_colony-Seeded :
    (w : World) (c : AntColony) (g : Lfsr32) (n : ℕ)
    → IsValid w
    → Usable w c
    → n ≤ turmite_max_ants
    → n ≤ w.cells
    → let d = (seed_colony n w c g).0 in Seeded w n d × (d.active_population ≡ n)
unfolding seed_colony
seed_colony-Seeded w c g n valid u few fits =
    let h = loop-Seeded w c g n valid u few fits in
    (
      record {
        width = h.width;
        cells = h.cells;
        inside = h.inside;
        offsets = h.offsets;
        bytes = h.bytes;
        alone = h.alone;
        placed = h.placed;
        counted = h.counted;
        mask = h.mask;
        flags = h.flags;
      },
      refl,
    )

pub Seeded-ColonyIsValid :
    (w : World) (c : AntColony) (n : ℕ)
    → IsValid w
    → n ≤ turmite_max_ants
    → Seeded w n c
    → ColonyIsValid c w
Seeded-ColonyIsValid w c n valid few s = record {
  world = valid;
  width = s.width;
  cells = s.cells;
  inside = s.inside;
  offsets = s.offsets;
  resident = record {
    bytes = λ k lt. let below = s.bytes k (rw (sym s.cells) lt) in omega arith;
    alone = λ k i lt e. s.alone k i (rw (sym s.cells) lt) e;
  };
}

colony-Usable :
    (w t : World) (c : AntColony) → Like w t → c.occupied ≡ true → ColonyIsValid c w → Usable t c
colony-Usable w t c like owned v = record {
  width = v.width ∙ sym like.width;
  cells = v.cells ∙ sym like.cells;
  owned = owned;
  inside = λ i. rw (like.width, like.height) (v.inside i);
  offsets = v.offsets;
}

module _ {d : Doubles} where
  -- Seeding a universe whose colony is valid over its world, and has its occupancy, leaves the
  -- colony valid over the fresh tape: with no more initial ants than slots and than cells, each of
  -- them is placed, so it is enabled and has a cell of its own; no other slot is in the mask, and
  -- the population is the number asked for.
  pub universe_seed_lem :
      (palette_of : RenderPaletteMode → ℕ → ℕ → ℕ) (now : d.Double) (u : Universe d)
      → ColonyIsValid u.scheduler.colony u.world
      → u.scheduler.colony.occupied ≡ true
      → u.initial_ants ≤ turmite_max_ants
      → u.initial_ants ≤ u.world.cells
      → let v = universe_seed palette_of now u in
        let c = v.scheduler.colony in
        ColonyIsValid c v.world
        × ((i : ℕ) → c.enabled_mask i ≡ ltb i u.initial_ants)
        × ((i : ℕ) → i < u.initial_ants → (c.ants i).flags ≡ ant_f_enabled)
        × ((i : ℕ) → i < u.initial_ants → c.occupancy (position_cell c i) ≡ suc i)
        × (c.active_population ≡ u.initial_ants)
  unfolding universe_seed
  universe_seed_lem palette_of now u v owned few fits =
      let like = fresh-Like u.world u.seed u.glitter_density v.world in
      let w = universe_glitter u.seed u.glitter_density (world_clear u.world) in
      let g = rng_seed u.rng u.seed in
      let usable = colony-Usable u.world w u.scheduler.colony like owned v in
      let (s, count) =
        seed_colony-Seeded w u.scheduler.colony g u.initial_ants like.valid usable few
          (rw like.cells fits) in
      (Seeded-ColonyIsValid w _ u.initial_ants like.valid few s, s.mask, s.flags, s.placed, count)
