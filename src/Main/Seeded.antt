-- ===== src/Main/Seeded.antt =====
-- src/main.c: what the loop over the initial ants keeps.
use turmite_linux.Prelude.{
  ℕ, suc, ◌≤◌, ◌<◌, ◌≡◌, ◌≢◌, refl, sym, ap, ◌∙◌, inl, inr, some, arith, Option-cases, update_both,
  update_self, update_ne, ℕ_discrete, u32, [], ltb,
}
use turmite_linux.Rng.{Lfsr32, rng_uniform}
use turmite_linux.World.{World, turmite_colors}
use turmite_linux.World.Laws.{IsValid}
use turmite_linux.Rules.{RuleRef, rules_count, rules_pick}
use turmite_linux.Ant.Types.{
  AntColony, ant_f_enabled, turmite_max_ants, packed_x, packed_y, pack_position, occupancy_index,
  ant_owner_id,
}
use turmite_linux.Ant.Move.{position_cell}
use turmite_linux.Ant.Placement.{claim_random_empty_position-none}
use turmite_linux.Ant.Quantum.{pack_position_lem}
use turmite_linux.Main.Census.{occupied_cells, occupied-update, free_cell}
use turmite_linux.Main.Seed.{seed_ant}
use turmite_linux.Main.Populate.{search, Placed, randomize-Placed}
use turmite_linux.Ant.Life.{ant_randomize}

-- The first `n` ants are placed, and nobody else.
pub record Seeded (w : World) (n : ℕ) (c : AntColony) : Type 0 where
  pub width : c.occupancy_width ≡ w.width
  pub cells : c.occupancy_cells ≡ w.cells
  pub inside :
      (i : ℕ) → (packed_x (c.positions i) < w.width) × (packed_y (c.positions i) < w.height)
  pub offsets : (i : ℕ) → (c.ants i).color_offset < turmite_colors
  pub bytes : (k : ℕ) → k < w.cells → c.occupancy k ≤ n
  pub alone : (k i : ℕ) → k < w.cells → c.occupancy k ≡ suc i → k ≡ position_cell c i
  pub placed : (i : ℕ) → i < n → c.occupancy (position_cell c i) ≡ suc i
  pub counted : occupied_cells w.cells c.occupancy ≤ n
  pub mask : (i : ℕ) → c.enabled_mask i ≡ ltb i n
  pub flags : (i : ℕ) → i < n → (c.ants i).flags ≡ ant_f_enabled

-- There is a place for the next ant.
place_exists :
    (c : AntColony) (w : World) (g : Lfsr32) (n : ℕ) (rule : RuleRef)
    → IsValid w
    → Seeded w n c
    → n < w.cells
    → (x : ℕ) × (y : ℕ) × ((search c w g n rule).0 ≡ some (x, y))
place_exists c w g n rule valid s lt = elim (Option-cases (search c w g n rule).0) [
  | inl e ↦
      let (k, below, free) = free_cell w.cells c.occupancy (omega (arith, s.counted)) in
      let taken = claim_random_empty_position-none _ w n _ k valid s.width e below in
      absurd (taken.0 free)
  | inr (xy, e) ↦ (xy.0, xy.1, e)
]

module _ (c d : AntColony) (w : World) (n x y : ℕ) (valid : IsValid w)
    (small : n < turmite_max_ants) (s : Seeded w n c) (p : Placed c d w n x y) where
  packed : (packed_x (pack_position x y) ≡ x) × (packed_y (pack_position x y) ≡ y)
  packed =
      pack_position_lem x y (omega (arith, p.inside_x, valid.width_max))
        (omega (arith, p.inside_y, valid.height_max))

  place_inside :
      (i : ℕ) → (packed_x (d.positions i) < w.width) × (packed_y (d.positions i) < w.height)
  place_inside i = rw p.positions (
      update_both (λ (q : ℕ). (packed_x q < w.width) × (packed_y q < w.height)) c.positions n i _
        (λ e. rw (packed.0, packed.1) (p.inside_x, p.inside_y)) (λ ne. s.inside i))

  place_offsets : (i : ℕ) → (d.ants i).color_offset < turmite_colors
  place_offsets i = elim (ℕ_discrete n i) [
    | yes e ↦ rw (sym e) p.offset
    | no ne ↦ rw (p.others i ne) (s.offsets i)
  ]

  place_bytes : (k : ℕ) → k < w.cells → d.occupancy k ≤ suc n
  place_bytes k lt = rw p.occupancy (
      update_both (λ (b : ℕ). b ≤ suc n) c.occupancy _ k _ (omega arith)
        (let old = s.bytes k lt in omega arith))

  seated_owner : (k : ℕ) → occupancy_index c x y ≡ k → d.occupancy k ≡ suc n
  seated_owner k at = rw (p.occupancy, sym at) (ground arith)

  old_owner : (k : ℕ) → occupancy_index c x y ≢ k → d.occupancy k ≡ c.occupancy k
  old_owner k ne = rw p.occupancy (update_ne c.occupancy _ k _ ne)

  new_cell : position_cell d n ≡ occupancy_index c x y
  new_cell =
      rw (p.positions, p.width, update_self c.positions n (pack_position x y), packed.0, packed.1)
        refl

  old_cell : (i : ℕ) → n ≢ i → position_cell d i ≡ position_cell c i
  old_cell i ne = rw (p.positions, p.width, update_ne c.positions n i (pack_position x y) ne) refl

  place_alone : (k i : ℕ) → k < w.cells → d.occupancy k ≡ suc i → k ≡ position_cell d i
  place_alone k i lt e = elim (ℕ_discrete (occupancy_index c x y) k) [
    | yes at ↦
        let owner : suc n ≡ suc i = sym (seated_owner k at) ∙ e in
        let same : n ≡ i = omega arith in sym at ∙ sym new_cell ∙ ap (position_cell d) same
    | no ne ↦
        let old : c.occupancy k ≡ suc i = sym (old_owner k ne) ∙ e in
        let few = s.bytes k lt in s.alone k i lt old ∙ sym (old_cell i (omega arith))
  ]

  place_owner : (i : ℕ) → i < suc n → d.occupancy (position_cell d i) ≡ suc i
  place_owner i lt = elim (ℕ_discrete n i) [
    | yes e ↦
        ap (λ (j : ℕ). d.occupancy (position_cell d j)) (sym e)
        ∙ seated_owner (position_cell d n) (sym new_cell)
        ∙ ap suc e
    | no ne ↦
        let old = s.placed i (omega arith) in
        let kept = old_owner (position_cell c i) (λ at.
          let free = ap c.occupancy at in let was_free = p.was_free in absurd (omega arith)) in
        ap d.occupancy (old_cell i ne) ∙ kept ∙ old
  ]

  place_counted : occupied_cells w.cells d.occupancy ≤ suc n
  place_counted =
      let grown = occupied-update w.cells c.occupancy (occupancy_index c x y) (ant_owner_id n) in
      rw p.occupancy (omega (arith, grown, s.counted))

  place_mask : (i : ℕ) → d.enabled_mask i ≡ ltb i (suc n)
  place_mask i = let old = s.mask i in rw p.mask (ground (arith, old))

  place_flags : (i : ℕ) → i < suc n → (d.ants i).flags ≡ ant_f_enabled
  place_flags i lt = elim (ℕ_discrete n i) [
    | yes e ↦ rw (sym e) p.flags
    | no ne ↦ rw (p.others i ne) (s.flags i (omega arith))
  ]

  place-Seeded : Seeded w (suc n) d
  place-Seeded = record {
    width = p.width ∙ s.width;
    cells = p.cells ∙ s.cells;
    inside = place_inside;
    offsets = place_offsets;
    bytes = place_bytes;
    alone = place_alone;
    placed = place_owner;
    counted = place_counted;
    mask = place_mask;
    flags = place_flags;
  }

-- Placing the next ant, with any rule.
pub ant_randomize-Seeded :
    (w : World) (n : ℕ) (c : AntColony) (g : Lfsr32) (rule : RuleRef)
    → IsValid w
    → n < turmite_max_ants
    → n < w.cells
    → Seeded w n c
    → Seeded w (suc n) (ant_randomize c w g n rule).1
ant_randomize-Seeded w n c g rule valid small lt s =
    let (x, y, found) = place_exists c w g n rule valid s lt in
    place-Seeded c _ w n x y valid small s (randomize-Placed c w g n x y rule valid s.width found)

-- One round of the loop.
pub seed_ant-Seeded :
    (w : World) (n : ℕ) (c : AntColony) (g : Lfsr32)
    → IsValid w
    → n < turmite_max_ants
    → n < w.cells
    → Seeded w n c
    → Seeded w (suc n) (seed_ant w n (c, g)).0
unfolding seed_ant
seed_ant-Seeded w n c g valid small lt s =
    let (k, g') = rng_uniform [] g (u32 rules_count) in
    ant_randomize-Seeded w n c g' (rules_pick k) valid small lt s
