-- ===== src/Tests/Lifecycle.antt =====
-- The start, the control loop, the end, and the events of universes.
use turmite_linux.Prelude.{
  ℕ, ◌≡◌, refl, true, false, some, [], ◌∷◌, arith, List, get_elem?, zero, suc, sym, ◌+◌, ◌*◌, ◌==◌,
  Option, none, ◌&&◌, ◌<◌,
}
use turmite_linux.Prelude.Int.{pos}
use turmite_linux.Prelude.Doubles.{coarse}
use turmite_linux.World.{world_init, world_clear}
use turmite_linux.Main.Universe.{Universe, r, universe_apply_commands, take_command}
use turmite_linux.Main.Frames.{choose_slot, publish}
use turmite_linux.Tests.Samples.{one_ant-ColonyIsValid, one_scheduler, small_world}
use turmite_linux.Tests.Capture.{good_files}
use turmite_linux.Main.Seed.{universe_seed, universe_glitter}
use turmite_linux.Main.Control.{
  Moment, Input, silent, control_round, ends, finish_run, export_run, headless_poll_input,
  apply_waiting,
}
use turmite_linux.Main.Draining.{ended, meanwhile, window_closed}
use turmite_linux.Main.Ending.{drained_run_lem, export_run_lem}
use turmite_linux.Tests.Control.{surroundings, running_universe, draining_universe}
use turmite_linux.Main.Startup.{
  Startup, restart_universe, universe_init, init_tape, init_colony, init_scheduler, init_pages,
  start_scheduler,
}
use turmite_linux.Main.Ready.{IsReady, restart_universe_lem, Restarted}
use turmite_linux.Main.Opening.{universe_init_lem}
use turmite_linux.Main.Events.{Seat, Apart, route_event, answer, key_down, route_event_lem, owns}
use turmite_linux.Dump.Export.{complete_dump}
use turmite_linux.Dump.Write.{
  dump_write_frame, dump_write, prepare_output, make_dir_if_missing, write_pages, write_image,
}
use turmite_linux.Dump.{dump_capture_now, dump_capture_init, dump_pages_value_valid}
use turmite_linux.Scheduler.Observe.{scheduler_get_quantum}
use turmite_linux.Scheduler.Control.{scheduler_init, scheduler_drain_complete}
use turmite_linux.Main.Draw.{universe_render, frame_to_file}
use turmite_linux.Prelude.Loops.{for_range}
use turmite_linux.Ant.Life.{ant_colony_init}
use turmite_linux.Android.{Host, AndroidEngine, android_engine_create, people_engine, start_engine}
use turmite_linux.Android.Start.{Works, android_engine_create_lem}
use turmite_linux.Tests.Scheduling.{empty}
use turmite_linux.Main.Stopping.{control_round_ends}
use turmite_linux.Scheduler.Tokens.{retire_draining}
use turmite_linux.Ant.Move.{ant_release_occupancy}

abbrev input_of : Input → Moment coarse
input_of input = record { env = surroundings; input = input; now = 65536 }

-- The dump is asked for, the scheduler has nothing enabled, and the first round ends the loop.
abbrev idle_universe : Universe coarse
idle_universe = record draining_universe { quit = true }

idle_ends : control_round (input_of silent) idle_universe ≡ ends false idle_universe
unfolding control_round
idle_ends = refl

drained_run_lem_example :
    let m = input_of silent in
    (false ≡ false)
    × ((finish_run m false idle_universe).0 ≡ false)
    × ((finish_run m false idle_universe).1 ≡ (export_run m idle_universe).0)
drained_run_lem_example =
    drained_run_lem draining_universe idle_universe false (input_of silent)
      (record { dumping = refl; staying = refl })
      (meanwhile window_closed (ended (input_of silent) idle_ends))

exported : (export_run (input_of silent) idle_universe).0.failed ≡ false
unfolding export_run universe_render frame_to_file dump_write_frame dump_write dump_capture_now
    prepare_output make_dir_if_missing write_pages write_image choose_slot publish
exported = refl

export_run_lem_example :
    let (v, files) = export_run (input_of silent) idle_universe in
    (files
      ≡ complete_dump good_files v.dump v.scheduler v.workers
          (scheduler_get_quantum v.scheduler)
          v.lifetime_minutes
          v.palette)
    × (0 < v.dump.page_count)
export_run_lem_example = export_run_lem (input_of silent) idle_universe exported

abbrev fortunate : Startup coarse
fortunate = record {
  lock_ok = true;
  tape_ok = true;
  occupancy_ok = true;
  scheduler_ok = true;
  pages_ok = true;
  window_ok = true;
  cells_ok = true;
  pixels_ok = true;
  garbage = λ _. 0;
  palette_of = λ mode seed color. 0;
  now = 65536;
  now_us = 5;
}

goes_on_again : (restart_universe fortunate 11 running_universe).0 ≡ true
unfolding restart_universe start_scheduler scheduler_init
goes_on_again = refl

restart_universe_lem_example :
    let (goes_on, v) = restart_universe fortunate 11 running_universe in
    Restarted goes_on v
    × (goes_on && running_universe.quit ≡ false)
    × (v.quit ≡ false)
    × (v.restart ≡ false)
    × (v.debug_dump ≡ false)
restart_universe_lem_example =
    restart_universe_lem fortunate 11 running_universe one_ant-ColonyIsValid refl (omega arith)
      (omega arith)

-- A canvas of 160 by 120 pixels, and cells of ten pixels.
abbrev small_canvas : Universe coarse
small_canvas = record running_universe { width = 160; height = 120; cell_size = 10 }

opens : (universe_init fortunate small_canvas 11).0 ≡ pos 0
unfolding universe_init init_tape init_colony init_scheduler init_pages start_scheduler
    scheduler_init world_init ant_colony_init dump_capture_init dump_pages_value_valid universe_seed
    universe_glitter world_clear for_range
opens = refl

universe_init_lem_example : IsReady (universe_init fortunate small_canvas 11).1
universe_init_lem_example = universe_init_lem fortunate small_canvas 11 refl (omega arith) opens

-- Two universes, in windows 4 and 7.
abbrev seat : ℕ → Seat coarse
seat id = record { window = some id; universe = running_universe }

abbrev two_seats : List (Seat coarse)
two_seats = seat 4 ∷ seat 7 ∷ []

seat_window :
    (i id : ℕ) (s : Seat coarse)
    → get_elem? two_seats i ≡ some s
    → owns id s ≡ true
    → id ≡ 4 + 3 * i
seat_window zero id s at own =
    let same : seat 4 ≡ s = cc in
    let number : 4 == id ≡ true = rw (sym same) at own in ground (arith, number)
seat_window (suc zero) id s at own =
    let same : seat 7 ≡ s = cc in
    let number : 7 == id ≡ true = rw (sym same) at own in ground (arith, number)
seat_window (suc (suc i)) id s at own = absurd cc

two_seats-Apart : Apart two_seats
unfolding Apart
two_seats-Apart i j id s t at at' own own' =
    let first = seat_window i id s at own in let second = seat_window j id t at' own' in omega arith

route_event_lem_example :
    get_elem? (route_event two_seats (key_down 7 false r)) 1
    ≡ some (answer (key_down 7 false r) (seat 7))
route_event_lem_example =
    route_event_lem two_seats (key_down 7 false r) 1 (seat 7) two_seats-Apart refl

abbrev phone : Host
phone = record {
  memory_ok = true;
  tape_ok = true;
  occupancy_ok = true;
  scheduler_ok = true;
  snapshot_ok = true;
  threads_ok = true;
  garbage = λ _. 0;
  now_us = 5;
  entropy = 3;
}

-- The engine that the creation is to give, for sixteen cells by sixteen, two ants and a divisor of 1.
abbrev created : Option AndroidEngine → AndroidEngine
created none = record {
  world = small_world;
  scheduler = one_scheduler;
  rng = record { state = 1 };
  snapshot = λ _. 0;
  started = 0;
}
created (some e) = e

abbrev two_ants_engine : Option AndroidEngine
two_ants_engine = android_engine_create phone (pos 16) (pos 16) 7 (pos 2) (pos 1)

creates : two_ants_engine ≡ some (created two_ants_engine)
unfolding android_engine_create people_engine start_engine world_init ant_colony_init scheduler_init
creates = refl

android_engine_create_lem_example : Works 2 1 (created two_ants_engine)
android_engine_create_lem_example =
    android_engine_create_lem phone (pos 16) (pos 16) 7 (pos 2) (pos 1) (created two_ants_engine)
      creates

-- Its scheduler has nothing enabled, so its drain is complete.
abbrev drained_universe : Universe coarse
drained_universe = record draining_universe { scheduler = empty }

drain_complete :
    let w = headless_poll_input surroundings silent (apply_waiting surroundings drained_universe) in
    (scheduler_drain_complete w.scheduler).0 ≡ true
unfolding scheduler_drain_complete for_range retire_draining ant_release_occupancy
    headless_poll_input apply_waiting universe_apply_commands take_command
drain_complete = refl

control_round_ends_example :
    (v : Universe coarse) × (control_round (input_of silent) drained_universe ≡ ends false v)
control_round_ends_example =
    control_round_ends (input_of silent) drained_universe
      (record { dumping = refl; staying = refl }) drain_complete
