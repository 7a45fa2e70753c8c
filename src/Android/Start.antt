-- ===== src/Android/Start.antt =====
-- src/android/app/src/main/cpp/engine.c: an engine that was created is ready to run.
use turmite_linux.Prelude.{
  ℕ, ◌*◌, ◌≡◌, ◌≤◌, refl, Bool, true, false, not, ◌||◌, Option, none, some, [], if◌then◌else◌,
  arith, u32, ◌==◌,
}
use native.Mathlib.Nat.{mul-le-mul}
use turmite_linux.Prelude.Int.{ℤ, pos, negsuc, pos_part}
use turmite_linux.Prelude.Loops.{for_range, for_range_inv}
use turmite_linux.Rng.{Lfsr32, rng_seed, rng_uniform}
use turmite_linux.World.{World, empty_world, world_init}
use turmite_linux.World.Laws.{IsValid, world_init-IsValid}
use turmite_linux.Rules.{rules_count, rules_get}
use turmite_linux.Ant.Types.{AntColony, turmite_max_ants}
use turmite_linux.Ant.Life.{ant_colony_init}
use turmite_linux.Scheduler.Types.{notify_locked}
use turmite_linux.Scheduler.Control.{
  scheduler_init, scheduler_set_min_service, scheduler_set_token_rate_divisor, scheduler_wake_all,
}
use turmite_linux.Dump.Write.{failed_code}
use turmite_linux.Main.Census.{occupied_none}
use turmite_linux.Main.Seeded.{Seeded, ant_randomize-Seeded}
use turmite_linux.Main.Ending.{zero_code, or_false}
use turmite_linux.Main.Ready.{Peopled, Seeded-Peopled}
use turmite_linux.Android.{
  AndroidEngine, Host, zero_colony, engine_ant, start_engine, people_engine, android_engine_create,
  bad_sides, bad_numbers,
}

-- A new colony has nobody in it.
init-Seeded :
    (w : World) (ok : Bool)
    → IsValid w
    → failed_code (ant_colony_init zero_colony w ok).0 ≡ false
    → Seeded w 0 (ant_colony_init zero_colony w ok).1
unfolding ant_colony_init
init-Seeded w ok v e =
    let across = v.width_pos in
    let down = v.height_pos in
    let empty : (k : ℕ) → (ant_colony_init zero_colony w ok).1.occupancy k ≡ 0 =
      λ k. ground (arith, across, down, e) in
    record {
      width = ground (arith, across, down, e);
      cells = ground (arith, across, down, e);
      inside = λ i. (ground (arith, across, down, e), ground (arith, across, down, e));
      offsets = λ i. ground (arith, across, down, e);
      bytes = λ k lt. rw (empty k) (omega arith);
      alone = λ k i lt e'. let none_there = empty k in absurd (omega arith);
      placed = λ i lt. absurd (omega arith);
      counted = rw (occupied_none w.cells _ (λ k lt. empty k)) (omega arith);
      mask = λ i. ground (arith, across, down, e);
      flags = λ i lt. absurd (omega arith);
    }

-- The loop over the ants.
engine_ants-Seeded :
    (w : World) (c : AntColony) (g : Lfsr32) (n : ℕ)
    → IsValid w
    → Seeded w 0 c
    → n ≤ turmite_max_ants
    → n ≤ w.cells
    → Seeded w n (for_range 0 n (engine_ant w) (c, g)).0
unfolding engine_ant
engine_ants-Seeded w c g n valid empty few fits =
    for_range_inv (λ i (s : AntColony × Lfsr32). Seeded w i s.0) (engine_ant w) n
      (λ i s lt h.
        let (k, g') = rng_uniform [] s.1 (u32 rules_count) in
        ant_randomize-Seeded w i s.0 g' (rules_get k) valid (omega arith) (omega arith) h)
      0 n (c, g) (omega arith) empty

-- What a creation that succeeds gives.
pub record Works (ants divisor : ℕ) (e : AndroidEngine) : Type 0 where
  pub peopled : Peopled e.scheduler.colony e.world ants
  pub several : 2 ≤ ants
  pub few : ants ≤ 8
  pub pace : e.scheduler.token_rate_divisor ≡ divisor
  pub draining : e.scheduler.draining ≡ false
  pub paused : e.scheduler.paused ≡ false
  pub stopping : e.scheduler.stopping ≡ false
  pub workers : e.started ≡ 2

start_engine-Works :
    (host : Host) (w : World) (c : AntColony) (seed ants divisor : ℕ) (e : AndroidEngine)
    → IsValid w
    → Seeded w 0 c
    → 2 ≤ ants
    → ants ≤ 8
    → 1 ≤ divisor
    → ants ≤ w.cells
    → start_engine host w c seed ants divisor ≡ some e
    → Works ants divisor e
unfolding start_engine scheduler_init scheduler_set_min_service scheduler_set_token_rate_divisor
    scheduler_wake_all notify_locked
start_engine-Works host w c seed ants divisor e valid empty several few rate fits made =
    let g = rng_seed (record { state = 0 }) (if seed == 0 then host.entropy else seed) in
    let s = engine_ants-Seeded w c g ants valid empty (omega arith) fits in
    let placed = (for_range 0 ants (engine_ant w) (c, g)).0 in
    let colony : e.scheduler.colony ≡ record placed { active_population = ants } =
      ground (arith, made) in
    let world : e.world ≡ w = ground (arith, made) in
    record {
      peopled = rw (colony, world) (Seeded-Peopled w placed ants valid (omega arith) s);
      several = several;
      few = few;
      pace = ground (arith, made);
      draining = ground (arith, made);
      paused = ground (arith, made);
      stopping = ground (arith, made);
      workers = ground (arith, made);
    }

or_last : (a b : Bool) → a || b ≡ false → b ≡ false
or_last true b e = absurd cc
or_last false b e = e

-- A guard of a creation that succeeds did not fail.
past :
    {A : Type 0} (b : Bool) (o : Option A) (a : A)
    → (if b then none else o) ≡ some a
    → (b ≡ false) × (o ≡ some a)
past true o a made = absurd cc
past false o a made = (refl, made)

numbers_in_range :
    (ants divisor : ℤ)
    → bad_numbers ants divisor ≡ false
    → (2 ≤ pos_part ants) × (pos_part ants ≤ 8) × (1 ≤ pos_part divisor)
numbers_in_range (pos n) (pos m) e = (ground (arith, e), ground (arith, e), ground (arith, e))
numbers_in_range (pos n) (negsuc m) e = absurd (ground (arith, e))
numbers_in_range (negsuc n) divisor e = absurd (ground (arith, e))

many_cells :
    (width height : ℤ) (ok : Bool)
    → bad_sides width height ≡ false
    → let (code, w) = world_init empty_world width height ok in code ≡ pos 0 → 256 ≤ w.cells
many_cells (pos a) (pos b) ok e made =
    let (valid, across, down, clear) = world_init-IsValid empty_world (pos a) (pos b) ok made in
    let sides : (16 ≤ a) × (16 ≤ b) = (ground (arith, e), ground (arith, e)) in
    let area : 16 * 16 ≤ a * b = mul-le-mul sides.0 sides.1 in
    let w = (world_init empty_world (pos a) (pos b) ok).1 in
    let wide : w.width ≡ a = cc in let high : w.height ≡ b = cc in rw (valid.area, wide, high) area
many_cells (pos a) (negsuc b) ok e made = absurd (ground (arith, e))
many_cells (negsuc a) height ok e made = absurd (ground (arith, e))

-- An engine that was created has the asked number of ants, which is from 2 to 8, over a valid tape:
-- each of them is enabled and has its byte in the cell where it stands, and no other slot is in
-- the mask. Its scheduler gives out leases at the asked divisor, and its two workers run.
pub android_engine_create_lem :
    (host : Host) (width height : ℤ) (seed : ℕ) (ants divisor : ℤ) (e : AndroidEngine)
    → android_engine_create host width height seed ants divisor ≡ some e
    → Works (pos_part ants) (pos_part divisor) e
unfolding android_engine_create people_engine
android_engine_create_lem host width height seed ants divisor e made =
    let w = (world_init empty_world width height host.tape_ok).1 in
    let code = (world_init empty_world width height host.tape_ok).0 in
    let c = (ant_colony_init zero_colony w host.occupancy_ok).1 in
    let n = pos_part ants in
    let m = pos_part divisor in
    let no_colony = failed_code (ant_colony_init zero_colony w host.occupancy_ok).0 in
    let started = start_engine host w c seed n m in
    let peopled : Option AndroidEngine = if no_colony then none else started in
    let tested : Option AndroidEngine =
      if not host.memory_ok || failed_code code then none else peopled in
    let (asked, made1) = past (bad_sides width height || bad_numbers ants divisor) tested e made in
    let (laid, made2) = past (not host.memory_ok || failed_code code) peopled e made1 in
    let (settled, made3) = past no_colony started e made2 in
    let fine = zero_code code (or_last (not host.memory_ok) (failed_code code) laid) in
    let valid = (world_init-IsValid empty_world width height host.tape_ok fine).0 in
    let (several, few, rate) =
      numbers_in_range ants divisor (or_last (bad_sides width height) _ asked) in
    let room =
      many_cells width height host.tape_ok (or_false _ (bad_numbers ants divisor) asked) fine in
    start_engine-Works host w c seed n m e valid (init-Seeded w host.occupancy_ok valid settled)
      several few rate (omega arith) made3
