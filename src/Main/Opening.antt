-- ===== src/Main/Opening.antt =====
-- src/main.c: a universe that is made is ready to run.
use turmite_linux.Prelude.{
  ℕ, ◌/◌, ◌≡◌, ◌≤◌, refl, Bool, true, false, not, ◌||◌, none, some, ltb, if◌then◌else◌, arith,
}
use turmite_linux.Prelude.Int.{ℤ, pos}
use turmite_linux.Prelude.Doubles.{Doubles}
use turmite_linux.World.{World, world_init}
use turmite_linux.World.Laws.{IsValid, world_init-IsValid}
use turmite_linux.Ant.Types.{AntColony, turmite_max_ants}
use turmite_linux.Ant.Invariant.{ColonyIsValid}
use turmite_linux.Ant.Life.{ant_colony_init}
use turmite_linux.Scheduler.Types.{with_colony}
use turmite_linux.Dump.Write.{failed_code}
use turmite_linux.Main.Universe.{Universe}
use turmite_linux.Main.Seed.{universe_seed}
use turmite_linux.Main.Startup.{
  Startup, start_scheduler, give_up, universe_init, init_buffers, init_pages, init_scheduler,
  init_colony, init_tape,
}
use turmite_linux.Main.Ranges.{world_init-fits}
use turmite_linux.Main.Options.{bad_dimensions}
use turmite_linux.Dump.{dump_capture_init}
use turmite_linux.Main.Ending.{zero_code}
use turmite_linux.Main.Ready.{IsReady, ready}

-- A tape that was made has room for 192 ants.
tape_room :
    (width height cell_size : ℕ) (world : World) (ok : Bool)
    → bad_dimensions width height ≡ false
    → 1 ≤ cell_size
    → cell_size ≤ 10
    → let (code, w) = world_init world (pos (width / cell_size)) (pos (height / cell_size)) ok in
      code ≡ pos 0 → 192 ≤ w.cells
unfolding world_init
tape_room width height cell_size world true fine low high e =
    (world_init-fits width height cell_size world fine low high).1
tape_room width height cell_size world false fine low high e = absurd (ground (arith, e))

-- A new colony is valid over a valid tape, and has its occupancy.
init-ColonyIsValid :
    (c : AntColony) (w : World) (ok : Bool)
    → IsValid w
    → failed_code (ant_colony_init c w ok).0 ≡ false
    → let new = (ant_colony_init c w ok).1 in ColonyIsValid new w × (new.occupied ≡ true)
unfolding ant_colony_init
init-ColonyIsValid c w ok v e =
    let across = v.width_pos in
    let down = v.height_pos in
    (
      record {
        world = v;
        width = ground (arith, across, down, e);
        cells = ground (arith, across, down, e);
        inside = λ i. (ground (arith, across, down, e), ground (arith, across, down, e));
        offsets = λ i. ground (arith, across, down, e);
        resident = record {
          bytes = λ k lt. ground (arith, across, down, e);
          alone = λ k i lt e'. absurd (ground (arith, across, down, e, e'));
        };
      },
      ground (arith, across, down, e),
    )

module _ {d : Doubles} where
  like-IsReady :
      (u v : Universe d)
      → v.scheduler ≡ u.scheduler
      → v.world ≡ u.world
      → v.initial_ants ≡ u.initial_ants
      → IsReady u
      → IsReady v
  like-IsReady u v e1 e2 e3 r = record {
    peopled = rw (e1, e2, e3) r.peopled;
    draining = rw e1 r.draining;
    paused = rw e1 r.paused;
    stopping = rw e1 r.stopping;
  }

  -- If the call succeeds, its universe is ready.
  Gives : ℤ × Universe d → Type 0
  Gives (code, v) = code ≡ pos 0 → IsReady v

  give_up-Gives : (u : Universe d) → Gives (give_up u)
  unfolding Gives
  give_up-Gives u e = absurd cc

  if-Gives :
      (b : Bool) (x y : ℤ × Universe d)
      → Gives x
      → (b ≡ false → Gives y)
      → Gives (if b then x else y)
  if-Gives true x y gx gy = gx
  if-Gives false x y gx gy = gy refl

  pos-Gives : (u : Universe d) → IsReady u → Gives (pos 0, u)
  unfolding Gives
  pos-Gives u r e = r

  init_buffers-Gives : (st : Startup d) (u : Universe d) → IsReady u → Gives (init_buffers st u)
  init_buffers-Gives st u r =
      let shown = record u { display_cells = some st.garbage } in
      if-Gives u.headless _ _ (pos-Gives u r) (λ e.
        if-Gives (not st.window_ok || not st.cells_ok) _ _ (give_up-Gives u) (λ e'.
          if-Gives (not st.pixels_ok) _ _ (give_up-Gives shown)
            (λ e''. pos-Gives shown (like-IsReady u shown refl refl refl r))))

  init_pages-Gives : (st : Startup d) (u : Universe d) → IsReady u → Gives (init_pages st u)
  unfolding init_pages
  init_pages-Gives st u r =
      let (code, dump) =
        dump_capture_init d u.dump u.world u.seed u.dump_pages u.dump_interval u.started_at
          st.pages_ok in
      let v = record u { dump = dump } in
      if-Gives (failed_code code) (give_up v) (init_buffers st v) (give_up-Gives v)
        (λ made. init_buffers-Gives st v (like-IsReady u v refl refl refl r))

  init_scheduler-Gives :
      (st : Startup d) (u : Universe d)
      → IsReady (record u { scheduler = (start_scheduler st u).1 })
      → Gives (init_scheduler st u)
  unfolding init_scheduler
  init_scheduler-Gives st u r =
      let (code, s) = start_scheduler st u in
      let v = record u { scheduler = s } in
      if-Gives (failed_code code) (give_up v) (init_pages st v) (give_up-Gives v)
        (λ scheduled. init_pages-Gives st v r)

  init_colony-Gives :
      (st : Startup d) (u : Universe d)
      → IsValid u.world
      → u.initial_ants ≤ turmite_max_ants
      → u.initial_ants ≤ u.world.cells
      → Gives (init_colony st u)
  unfolding init_colony
  init_colony-Gives st u valid few fits =
      let (code, c) = ant_colony_init u.scheduler.colony u.world st.occupancy_ok in
      let v = record u { scheduler = with_colony u.scheduler c } in
      if-Gives (failed_code code) (give_up v)
        (init_scheduler st (universe_seed st.palette_of st.now v)) (give_up-Gives v)
        (λ settled.
          let (fresh, owned) =
            init-ColonyIsValid u.scheduler.colony u.world st.occupancy_ok valid settled in
          init_scheduler-Gives st _ (ready st v fresh owned few fits))

  init_tape-Gives :
      (st : Startup d) (u : Universe d)
      → bad_dimensions u.width u.height ≡ false
      → 1 ≤ u.cell_size
      → u.cell_size ≤ 10
      → u.initial_ants ≤ turmite_max_ants
      → Gives (init_tape st u)
  unfolding init_tape
  init_tape-Gives st u dims low high few =
      let (code, w) =
        world_init u.world (pos (u.width / u.cell_size)) (pos (u.height / u.cell_size))
          st.tape_ok in
      let v = record u { world = w } in
      if-Gives (failed_code code) (give_up v) (init_colony st v) (give_up-Gives v) (λ laid.
        let valid =
          (world_init-IsValid u.world (pos (u.width / u.cell_size)) (pos (u.height / u.cell_size))
            st.tape_ok (zero_code code laid)).0 in
        let room =
          tape_room u.width u.height u.cell_size u.world st.tape_ok dims low high
            (zero_code code laid) in
        init_colony-Gives st v valid few (omega (arith, room, few)))

  universe_init-Gives :
      (st : Startup d) (u : Universe d) (seed : ℕ)
      → bad_dimensions u.width u.height ≡ false
      → u.initial_ants ≤ turmite_max_ants
      → Gives (universe_init st u seed)
  unfolding universe_init
  universe_init-Gives st u seed dims few =
      let v = record u { seed = seed } in
      let opened = record v { ready_frame = none; displayed_frame = none } in
      if-Gives (ltb u.cell_size 1 || ltb 10 u.cell_size) (give_up v) _ (give_up-Gives v) (λ sized.
        if-Gives (not st.lock_ok) (give_up opened) (init_tape st opened) (give_up-Gives opened)
          (λ locked.
            init_tape-Gives st opened dims (ground (arith, sized)) (ground (arith, sized)) few))

  -- On a canvas that is not refused, with no more initial ants than slots, a start that returns zero
  -- leaves the universe ready to run, whatever it was before: on a valid tape exactly the initial
  -- ants are in the mask, each enabled and with its byte in the cell where it stands, and the
  -- scheduler is neither draining nor paused nor stopping.
  pub universe_init_lem :
      (st : Startup d) (u : Universe d) (seed : ℕ)
      → bad_dimensions u.width u.height ≡ false
      → u.initial_ants ≤ turmite_max_ants
      → (universe_init st u seed).0 ≡ pos 0
      → IsReady (universe_init st u seed).1
  unfolding Gives
  universe_init_lem = universe_init-Gives
