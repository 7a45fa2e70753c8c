-- ===== src/Main/Startup.antt =====
-- src/main.c: a universe is made, made anew, and destroyed.
use turmite_linux.Prelude.{ℕ, ◌/◌, Bool, true, false, not, ◌||◌, none, some, ltb, if◌then◌else◌}
use turmite_linux.Prelude.Int.{ℤ, pos, negsuc}
use turmite_linux.Prelude.Doubles.{Doubles}
use turmite_linux.World.{world_init, world_destroy}
use turmite_linux.Ant.Life.{ant_colony_init, ant_colony_destroy}
use turmite_linux.Scheduler.Types.{Scheduler, with_colony}
use turmite_linux.Scheduler.Control.{
  scheduler_init, scheduler_set_min_service, scheduler_set_token_rate_divisor,
}
use turmite_linux.Dump.{dump_capture_init, dump_capture_destroy}
use turmite_linux.Dump.Write.{failed_code}
use turmite_linux.Main.Options.{RenderPaletteMode}
use turmite_linux.Main.Universe.{Universe}
use turmite_linux.Main.Seed.{universe_seed}

-- What the start of a universe asks of its surroundings: whether the lock, the tape, the occupancy,
-- the scheduler's lock and condition, the pages, the window and the two kinds of buffers can be
-- made, what a new buffer holds, the palette of a mode and a seed, and the two clocks.
pub record Startup (d : Doubles) : Type 0 where
  pub lock_ok : Bool
  pub tape_ok : Bool
  pub occupancy_ok : Bool
  pub scheduler_ok : Bool
  pub pages_ok : Bool
  pub window_ok : Bool
  pub cells_ok : Bool
  pub pixels_ok : Bool
  pub garbage : ℕ → ℕ
  pub palette_of : RenderPaletteMode → ℕ → ℕ → ℕ
  pub now : d.Double
  pub now_us : ℕ

module _ {d : Doubles} where
  -- The buffers of the frames are freed, too; the window and the pool's slot are not part of the
  -- state.
  unfoldable pub universe_destroy : Universe d → Universe d
  universe_destroy u = record u {
    display_cells = none;
    dump = dump_capture_destroy d u.dump;
    scheduler = with_colony u.scheduler (ant_colony_destroy u.scheduler.colony);
    world = world_destroy u.world;
  }

  -- The scheduler of a universe over its colony.
  unfoldable pub start_scheduler : Startup d → Universe d → ℤ × Scheduler
  start_scheduler st u =
      let (code, s) =
        scheduler_init u.scheduler u.scheduler.colony u.quantum st.now_us st.scheduler_ok
          st.scheduler_ok st.scheduler_ok in
      let tuned =
        scheduler_set_token_rate_divisor
          (scheduler_set_min_service (record s { collision_mutation = u.collision_mutation })
            u.min_service)
          u.token_rate_divisor in
      (code, if failed_code code then s else tuned)

  abbrev pub give_up : Universe d → ℤ × Universe d
  give_up u = (negsuc 0, universe_destroy u)

  -- The part for a display: the window and the buffers.
  abbrev pub open_display : Startup d → Universe d → ℤ × Universe d
  open_display st u =
      let shown = record u { display_cells = some st.garbage } in
      if not st.window_ok || not st.cells_ok
      then give_up u
      else if not st.pixels_ok
      then give_up shown
      else (pos 0, shown)

  -- `universe_init` from each of its checks on: the buffers, the pages, the scheduler, the colony
  -- and the tape.
  abbrev pub init_buffers : Startup d → Universe d → ℤ × Universe d
  init_buffers st u = if u.headless then (pos 0, u) else open_display st u

  unfoldable pub init_pages : Startup d → Universe d → ℤ × Universe d
  init_pages st u =
      let (code, dump) =
        dump_capture_init d u.dump u.world u.seed u.dump_pages u.dump_interval u.started_at
          st.pages_ok in
      let v = record u { dump = dump } in if failed_code code then give_up v else init_buffers st v

  unfoldable pub init_scheduler : Startup d → Universe d → ℤ × Universe d
  init_scheduler st u =
      let (code, s) = start_scheduler st u in
      let v = record u { scheduler = s } in if failed_code code then give_up v else init_pages st v

  unfoldable pub init_colony : Startup d → Universe d → ℤ × Universe d
  init_colony st u =
      let (code, c) = ant_colony_init u.scheduler.colony u.world st.occupancy_ok in
      let v = record u { scheduler = with_colony u.scheduler c } in
      if failed_code code
      then give_up v
      else init_scheduler st (universe_seed st.palette_of st.now v)

  unfoldable pub init_tape : Startup d → Universe d → ℤ × Universe d
  init_tape st u =
      let (code, w) =
        world_init u.world (pos (u.width / u.cell_size)) (pos (u.height / u.cell_size))
          st.tape_ok in
      let v = record u { world = w } in if failed_code code then give_up v else init_colony st v

  unfoldable pub universe_init : Startup d → Universe d → ℕ → ℤ × Universe d
  universe_init st u seed =
      let v = record u { seed = seed } in
      let opened = record v { ready_frame = none; displayed_frame = none } in
      if ltb u.cell_size 1 || ltb 10 u.cell_size
      then give_up v
      else if not st.lock_ok
      then give_up opened
      else init_tape st opened

  -- The body of the loop of `universe_control`: a fresh universe, unless it is to be closed; the
  -- result says that the loop goes on. `seed` is the fresh entropy.
  unfoldable pub restart_universe : Startup d → ℕ → Universe d → Bool × Universe d
  restart_universe st seed u =
      let v = record u { seed = seed; restart = false; debug_dump = false; paused = false } in
      let w = universe_seed st.palette_of st.now v in
      let (code, s) = start_scheduler st w in
      if v.quit
      then (false, v)
      else if failed_code code
      then (false, record w { scheduler = s; failed = true })
      else (true, record w { scheduler = s })
