-- ===== src/Tests/Control.antt =====
-- The command line, the keys and the frames.
use turmite_linux.Prelude.{
  ℕ, ◌≡◌, ◌≢◌, refl, true, false, none, some, [], ◌∷◌, ◌++◌, ltb, if◌then◌else◌, arith, length,
}
use turmite_linux.Prelude.Int.{pos}
use turmite_linux.Prelude.Doubles.{coarse}
use turmite_linux.Renderer.{render_base_palette}
use turmite_linux.Main.Options.{
  Config, Flag, exit, Number, palette_default, take_option, take_options, configure, parse_uint,
  valid_population, display_seed,
}
use turmite_linux.Main.Universe.{
  Universe, q, r, space, right_bracket, Surroundings, universe_enqueue, universe_apply_commands,
}
use turmite_linux.Main.Queue.{
  pending, QueueIsValid, handled, universe_enqueue_lem, universe_apply_commands_lem,
}
use turmite_linux.Main.Frames.{
  Studio, opened, begin_drawing, end_drawing, begin_showing, draws, publishes, shows, drawing, Run,
  start, then_step, choose_slot, publish, take_frame,
}
use turmite_linux.Main.Showing.{shown_slot_lem}
use turmite_linux.Tests.Samples.{small_world, one_scheduler}
use turmite_linux.Tests.Capture.{good_files, three_pages}

abbrev number : ℕ → Number ℕ
number n = record { value = n; errno = false; whole = true }

too_many_ants : (configure coarse (Flag.ants (number 33) ∷ []) false (pos 1)).0 ≡ exit 2
unfolding configure take_options take_option parse_uint valid_population
too_many_ants = refl

-- The configuration of `--ants 5 --seed 7 --headless`.
abbrev chosen : Config coarse
chosen = record {
  ants = 5;
  quantum = 320;
  min_service = 512;
  token_rate_divisor = 1;
  workers = 2;
  cell_size = 2;
  width = 1024;
  height = 768;
  display_index = 0;
  all_displays = false;
  fullscreen = false;
  minutes = 72089;
  dump_pages = 127;
  dump_interval = 65536;
  dump_root = "turmite-dumps";
  hud = false;
  collision_mutation = false;
  palette_mode = palette_default;
  explicit_seed = 7;
  has_seed = true;
  headless = true;
  glitter_density = 0;
}

display_seeds : display_seed 7 0 ≡ 7
unfolding display_seed
display_seeds = refl

abbrev pub surroundings : Surroundings
surroundings = record {
  files = good_files;
  stamp = "noon";
  malloc_ok = true;
  garbage = λ _. 0;
  now_us = 5;
}

-- A universe that runs, with the last slot of its ring the next to be read.
abbrev pub running_universe : Universe coarse
running_universe = record {
  world = small_world;
  scheduler = one_scheduler;
  palette_mode = palette_default;
  palette = render_base_palette;
  display_cells = none;
  ready_frame = none;
  displayed_frame = none;
  frame_pixels = λ _ _. 0;
  commands = λ _. space;
  command_read = 63;
  command_count = 0;
  done = false;
  failed = false;
  dump = three_pages;
  rng = record { state = 1 };
  seed = 9;
  width = 6;
  height = 4;
  cell_size = 2;
  glitter_density = 0;
  workers = 2;
  initial_ants = 2;
  quantum = 4;
  min_service = 1;
  token_rate_divisor = 1;
  lifetime_minutes = 65536;
  dump_pages = 3;
  dump_interval = 65536;
  dump_root = "turmite-dumps";
  hud_visible = false;
  collision_mutation = false;
  quit = false;
  restart = false;
  debug_dump = false;
  paused = false;
  headless = true;
  stdin_eof = false;
  started_at = 0;
}

abbrev two_keys : Universe coarse
two_keys = (universe_enqueue (universe_enqueue running_universe right_bracket).1 r).1

wraps : pending two_keys ≡ right_bracket ∷ r ∷ []
unfolding universe_enqueue
wraps = refl

running-QueueIsValid : QueueIsValid running_universe
running-QueueIsValid = record { read = omega arith; count = omega arith }

universe_enqueue_lem_example :
    let (room, u') = universe_enqueue running_universe q in
    (room ≡ ltb (length (pending running_universe)) 64)
    × (pending u' ≡ (if room then pending running_universe ++ q ∷ [] else pending running_universe))
    × QueueIsValid u'
universe_enqueue_lem_example = universe_enqueue_lem running_universe q running-QueueIsValid

two_keys-QueueIsValid : QueueIsValid two_keys
unfolding universe_enqueue
two_keys-QueueIsValid = record { read = omega arith; count = omega arith }

two_waiting : two_keys.command_count ≡ 2
unfolding universe_enqueue
two_waiting = refl

universe_apply_commands_lem_example :
    (universe_apply_commands 3 surroundings two_keys
      ≡ some (handled surroundings two_keys (pending two_keys)))
    × ((handled surroundings two_keys (pending two_keys)).command_count ≡ 0)
universe_apply_commands_lem_example =
    universe_apply_commands_lem surroundings 3 2 two_keys two_keys-QueueIsValid two_waiting
      (omega arith)

abbrev pub draining_universe : Universe coarse
draining_universe = record running_universe { debug_dump = true }

-- The controller draws slot 0, the main thread shows it, and the controller draws slot 1.
abbrev first_drawn : Studio
first_drawn = end_drawing 0 (begin_drawing 0 opened)

abbrev both_busy : Studio
both_busy = begin_drawing 1 (begin_showing 0 first_drawn)

busy : Run both_busy
unfolding publish take_frame choose_slot
busy =
    then_step
      (then_step (then_step (then_step start (draws 0 refl refl)) (publishes 0 refl))
        (shows 0 refl refl))
      (draws 1 refl refl)

shown_slot_lem_example : (both_busy.complete 0 ≡ true) × (both_busy.artist ≢ drawing 0)
shown_slot_lem_example = shown_slot_lem both_busy 0 busy refl
