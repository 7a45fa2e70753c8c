-- ===== src/Main/Seed.antt =====
-- src/main.c: confetti, and the tape and the ants of a fresh universe.
use turmite_linux.Prelude.{
  ℕ, ◌+◌, ◌*◌, ◌/◌, ◌%◌, Bool, not, [], ◌==◌, if◌then◌else◌, u8, u32, u64, bit_xor, ◌-◌,
}
use turmite_linux.Prelude.Doubles.{Doubles}
use turmite_linux.Prelude.Loops.{for_range}
use turmite_linux.Rng.{Lfsr32, rng_seed, rng_uniform}
use turmite_linux.World.{World, turmite_colors, world_store_cell, world_clear}
use turmite_linux.Rules.{rules_count, rules_pick}
use turmite_linux.Ant.Types.{AntColony}
use turmite_linux.Ant.Life.{ant_colony_reset, ant_randomize}
use turmite_linux.Scheduler.Types.{with_colony}
use turmite_linux.Main.Options.{RenderPaletteMode}
use turmite_linux.Main.Universe.{Universe}

-- The cells of a shard: `length` by `width` from the corner on, turned if it is vertical.
abbrev pub shard_cell : ℕ → ℕ → Bool → ℕ → ℕ → ℕ → World → World
shard_cell x y vertical color a b w =
    let px = u32 (x + (if vertical then b else a)) % w.width in
    let py = u32 (y + (if vertical then a else b)) % w.height in
    world_store_cell w (py * w.width + px) color

unfoldable pub draw_shard : ℕ → ℕ → Bool → ℕ → ℕ → ℕ → World → World
draw_shard x y vertical length width color w =
    for_range 0 length (λ a v. for_range 0 width (λ b t. shard_cell x y vertical color a b t) v) w

-- The stream of a universe's confetti; nobody else draws from it.
abbrev pub shard_round : ℕ → World × Lfsr32 → World × Lfsr32
shard_round i (w, rng) =
    let (l, g1) = rng_uniform [] rng 5 in
    let (b, g2) = rng_uniform [] g1 3 in
    let (v, g3) = rng_uniform [] g2 2 in
    let (x, g4) = rng_uniform [] g3 (u32 w.width) in
    let (y, g5) = rng_uniform [] g4 (u32 w.height) in
    let (c, g6) = rng_uniform [] g5 (turmite_colors - 1) in
    (draw_shard x y (not (v == 0)) (3 + l) (1 + b) (u8 (1 + c)) w, g6)

unfoldable pub universe_glitter : ℕ → ℕ → World → World
universe_glitter seed glitter_density w =
    let rng = rng_seed (record { state = 0 }) (bit_xor seed 0x676c6974) in
    let shards = u64 (w.cells * glitter_density + 999) / 1000 in
    (for_range 0 shards shard_round (w, rng)).0

-- One of the initial ants.
unfoldable pub seed_ant : World → ℕ → AntColony × Lfsr32 → AntColony × Lfsr32
seed_ant w i (c, rng) =
    let (k, g) = rng_uniform [] rng (u32 rules_count) in
    let (placed, c', g') = ant_randomize c w g i (rules_pick k) in (c', g')

-- The colony and the generator of a fresh universe.
unfoldable pub seed_colony : ℕ → World → AntColony → Lfsr32 → AntColony × Lfsr32
seed_colony ants w c rng =
    let (c', g) = for_range 0 ants (seed_ant w) (ant_colony_reset c, rng) in
    (record c' { active_population = ants }, g)

-- `palette_of` is what `render_palette_init` gives for a mode and a seed, and `now` the clock.
unfoldable pub universe_seed :
    {d : Doubles} → (RenderPaletteMode → ℕ → ℕ → ℕ) → d.Double → Universe d → Universe d
universe_seed palette_of now u =
    let w = universe_glitter u.seed u.glitter_density (world_clear u.world) in
    let s = u.scheduler in
    let (c, g) = seed_colony u.initial_ants w s.colony (rng_seed u.rng u.seed) in
    record u {
      world = w;
      scheduler = with_colony s c;
      rng = g;
      palette = palette_of u.palette_mode u.seed;
      started_at = now;
    }
