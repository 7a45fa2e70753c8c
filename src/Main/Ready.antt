-- ===== src/Main/Ready.antt =====
-- src/main.c: a universe that is made anew is ready to run.
use turmite_linux.Prelude.{
  ℕ, ◌≡◌, ◌<◌, ◌≤◌, refl, sym, Bool, true, false, ltb, if◌then◌else◌, arith, suc, ◌||◌, ◌&&◌,
}
use mathlib.Core.Path.{subst}
use turmite_linux.Prelude.Doubles.{Doubles}
use turmite_linux.World.{World}
use turmite_linux.Ant.Types.{AntColony, turmite_max_ants, ant_f_enabled}
use turmite_linux.Ant.Invariant.{ColonyIsValid}
use turmite_linux.Scheduler.Types.{Scheduler, notify_locked}
use turmite_linux.Scheduler.Control.{
  scheduler_init, scheduler_set_min_service, scheduler_set_token_rate_divisor, scheduler_wake_all,
}
use turmite_linux.Dump.Write.{failed_code}
use turmite_linux.Main.Universe.{Universe}
use turmite_linux.Main.Seed.{universe_seed}
use turmite_linux.Main.Fresh.{universe_seed_lem, Seeded-ColonyIsValid}
use turmite_linux.Main.Startup.{Startup, start_scheduler, restart_universe}
use turmite_linux.Main.Seeded.{Seeded}
use turmite_linux.World.Laws.{IsValid}
use turmite_linux.Ant.Move.{position_cell}

-- A colony of which the first `n` ants, and nobody else, are placed on a valid tape: each has its
-- byte in the cell where it stands, and no other cell of the tape has it.
pub record Peopled (c : AntColony) (w : World) (n : ℕ) : Type 0 where
  pub valid : ColonyIsValid c w
  pub mask : (i : ℕ) → c.enabled_mask i ≡ ltb i n
  pub flags : (i : ℕ) → i < n → (c.ants i).flags ≡ ant_f_enabled
  pub placed : (i : ℕ) → i < n → c.occupancy (position_cell c i) ≡ suc i
  pub population : c.active_population ≡ n

pub Seeded-Peopled :
    (w : World) (c : AntColony) (n : ℕ)
    → IsValid w
    → n ≤ turmite_max_ants
    → Seeded w n c
    → Peopled (record c { active_population = n }) w n
Seeded-Peopled w c n valid few s =
    let counted : Seeded w n (record c { active_population = n }) = record {
      width = s.width;
      cells = s.cells;
      inside = s.inside;
      offsets = s.offsets;
      bytes = s.bytes;
      alone = s.alone;
      placed = s.placed;
      counted = s.counted;
      mask = s.mask;
      flags = s.flags;
    } in
    record {
      valid = Seeded-ColonyIsValid w _ n valid few counted;
      mask = s.mask;
      flags = s.flags;
      placed = s.placed;
      population = refl;
    }

-- A universe whose initial ants are placed, and whose scheduler gives out leases.
pub record IsReady {d : Doubles} (v : Universe d) : Type 0 where
  pub peopled : Peopled v.scheduler.colony v.world v.initial_ants
  pub draining : v.scheduler.draining ≡ false
  pub paused : v.scheduler.paused ≡ false
  pub stopping : v.scheduler.stopping ≡ false

module _ {d : Doubles} where
  -- The scheduler starts over the colony as it is.
  record Started (u : Universe d) (s : Scheduler) : Type 0 where
    colony : s.colony ≡ u.scheduler.colony
    draining : s.draining ≡ false
    paused : s.paused ≡ false
    stopping : s.stopping ≡ false

  start_scheduler-Started : (st : Startup d) (u : Universe d) → Started u (start_scheduler st u).1
  unfolding start_scheduler scheduler_init scheduler_set_min_service
      scheduler_set_token_rate_divisor scheduler_wake_all notify_locked
  start_scheduler-Started st u = record {
    colony = ground arith;
    draining = ground arith;
    paused = ground arith;
    stopping = ground arith;
  }

  pub ready :
      (st : Startup d) (u : Universe d)
      → ColonyIsValid u.scheduler.colony u.world
      → u.scheduler.colony.occupied ≡ true
      → u.initial_ants ≤ turmite_max_ants
      → u.initial_ants ≤ u.world.cells
      → let w = universe_seed st.palette_of st.now u in
        IsReady (record w { scheduler = (start_scheduler st w).1 })
  unfolding universe_seed
  ready st u v owned few fits =
      let w = universe_seed st.palette_of st.now u in
      let (valid, mask, flags, placed, population) =
        universe_seed_lem st.palette_of st.now u v owned few fits in
      let s = start_scheduler-Started st w in
      record {
        peopled =
            subst (λ (c : AntColony). Peopled c w.world u.initial_ants) (sym s.colony)
              (record {
                valid = valid;
                mask = mask;
                flags = flags;
                placed = placed;
                population = population;
              });
        draining = s.draining;
        paused = s.paused;
        stopping = s.stopping;
      }

  -- How a restart leaves the universe: ready to run, or, if the loop does not go on, with a request
  -- to close or a failure.
  abbrev pub Restarted : Bool → Universe d → Type 0
  Restarted true v = IsReady v
  Restarted false v = v.quit || v.failed ≡ true

  -- The two guards of a restart, one after the other.
  guarded-Restarted :
      (quit failed : Bool) (x y z : Universe d)
      → x.quit ≡ quit
      → y.failed ≡ true
      → IsReady z
      → let out : Bool × Universe d =
          if quit then (false, x) else if failed then (false, y) else (true, z) in
        Restarted out.0 out.1 × (out.0 && quit ≡ false)
  guarded-Restarted true failed x y z asked e r = (ground (arith, asked), refl)
  guarded-Restarted false true x y z asked e r = (ground (arith, e), refl)
  guarded-Restarted false false x y z asked e r = (r, refl)

  -- What the universes of the three ends have in common, the end has.
  guarded_keeps :
      (P : Universe d → Type 0) (quit failed : Bool) (x y z : Universe d)
      → P x
      → P y
      → P z
      → let out : Bool × Universe d =
          if quit then (false, x) else if failed then (false, y) else (true, z) in
        P out.1
  guarded_keeps P true failed x y z hx hy hz = hx
  guarded_keeps P false true x y z hx hy hz = hy
  guarded_keeps P false false x y z hx hy hz = hz

  -- A restart, of a universe with no more initial ants than slots and than cells, and a colony that
  -- was valid over its world and has its occupancy: the loop goes on with a universe that is ready
  -- to run, or ends with a request to close or a failure. It does not go on against a request to
  -- close, such a request is neither made nor forgotten, and neither a restart nor a dump stays
  -- asked for.
  pub restart_universe_lem :
      (st : Startup d) (seed : ℕ) (u : Universe d)
      → ColonyIsValid u.scheduler.colony u.world
      → u.scheduler.colony.occupied ≡ true
      → u.initial_ants ≤ turmite_max_ants
      → u.initial_ants ≤ u.world.cells
      → let (goes_on, v) = restart_universe st seed u in
        Restarted goes_on v
        × (goes_on && u.quit ≡ false)
        × (v.quit ≡ u.quit)
        × (v.restart ≡ false)
        × (v.debug_dump ≡ false)
  unfolding restart_universe universe_seed
  restart_universe_lem st seed u v owned few fits =
      let asked = record u { seed = seed; restart = false; debug_dump = false; paused = false } in
      let w = universe_seed st.palette_of st.now asked in
      let end = record w { scheduler = (start_scheduler st w).1 } in
      let broken = failed_code (start_scheduler st w).0 in
      let P : Universe d → Type 0 =
        λ t. (t.quit ≡ u.quit) × (t.restart ≡ false) × (t.debug_dump ≡ false) in
      let (left, open_only) =
        guarded-Restarted u.quit broken asked (record end { failed = true }) end refl refl
          (ready st asked v owned few fits) in
      let kept =
        guarded_keeps P u.quit broken asked (record end { failed = true }) end (refl, refl, refl)
          (refl, refl, refl) (refl, refl, refl) in
      (left, open_only, kept.0, kept.1, kept.2)
