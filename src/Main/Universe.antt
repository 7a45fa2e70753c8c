-- ===== src/Main/Universe.antt =====
-- src/main.c: the state of a universe, its keys, and the queue between the main thread and the
-- controller.
use turmite_linux.Prelude.{
  ℕ, zero, suc, ◌+◌, ◌*◌, ◌/◌, ◌%◌, Bool, true, false, not, Option, none, some, ltb, ◌==◌,
  if◌then◌else◌, update, u64, sub_u64, String,
}
use turmite_linux.Prelude.Doubles.{Doubles}
use turmite_linux.Rng.{Lfsr32}
use turmite_linux.World.{World}
use turmite_linux.Ant.Types.{turmite_max_ants}
use turmite_linux.Scheduler.Types.{Scheduler}
use turmite_linux.Scheduler.Control.{
  scheduler_begin_drain, scheduler_set_paused, scheduler_set_quantum, scheduler_spawn_ant,
  scheduler_begin_culling, scheduler_active_population,
}
use turmite_linux.Scheduler.Observe.{scheduler_get_quantum}
use turmite_linux.Dump.Types.{DumpCapture}
use turmite_linux.Dump.Write.{Files, failed_code, dump_begin_frames}
use turmite_linux.Main.Options.{min_quantum, max_quantum, RenderPaletteMode}

abbrev pub control_queue_size : ℕ
control_queue_size = 64

-- The keys that the code names, and any other.
pub data Key : Type 0 where
  escape : Key
  q : Key
  space : Key
  h : Key
  left_bracket : Key
  right_bracket : Key
  r : Key
  equals : Key
  plus : Key
  kp_plus : Key
  minus : Key
  kp_minus : Key
  other : ℕ → Key

-- `Universe`, less the window, the locks and the threads. A null `display_cells` is `none`, and so
-- is a frame of -1. The colony is the scheduler's.
pub record Universe (d : Doubles) : Type 0 where
  pub world : World
  pub scheduler : Scheduler
  pub palette_mode : RenderPaletteMode
  pub palette : ℕ → ℕ
  pub display_cells : Option (ℕ → ℕ)
  pub ready_frame : Option ℕ
  pub displayed_frame : Option ℕ
  pub frame_pixels : ℕ → ℕ → ℕ
  pub commands : ℕ → Key
  pub command_read : ℕ
  pub command_count : ℕ
  pub done : Bool
  pub failed : Bool
  pub dump : DumpCapture d
  pub rng : Lfsr32
  pub seed : ℕ
  pub width : ℕ
  pub height : ℕ
  pub cell_size : ℕ
  pub glitter_density : ℕ
  pub workers : ℕ
  pub initial_ants : ℕ
  pub quantum : ℕ
  pub min_service : ℕ
  pub token_rate_divisor : ℕ
  pub lifetime_minutes : d.Double
  pub dump_pages : ℕ
  pub dump_interval : d.Double
  pub dump_root : String
  pub hud_visible : Bool
  pub collision_mutation : Bool
  pub quit : Bool
  pub restart : Bool
  pub debug_dump : Bool
  pub paused : Bool
  pub headless : Bool
  pub stdin_eof : Bool
  pub started_at : d.Double

-- What a key's handling asks of its surroundings: the file system, the time stamp of a directory,
-- whether `malloc` succeeds and what the memory holds, and the clock.
pub record Surroundings : Type 0 where
  pub files : Files
  pub stamp : String
  pub malloc_ok : Bool
  pub garbage : ℕ → ℕ
  pub now_us : ℕ

abbrev pub clamp_quantum : ℕ → ℕ
clamp_quantum n =
    if ltb n min_quantum then min_quantum else if ltb max_quantum n then max_quantum else n

-- The quantum that a bracket key sets.
abbrev pub smaller_quantum : ℕ → ℕ
smaller_quantum n = clamp_quantum (if ltb min_quantum n then n / 2 else 1)

abbrev pub larger_quantum : ℕ → ℕ
larger_quantum n = clamp_quantum (if ltb n max_quantum then u64 (n * 2) else max_quantum)

module _ {d : Doubles} where
  -- `display_cells` after the allocation, if it is needed.
  abbrev pub allocated_cells : Surroundings → Universe d → Option (ℕ → ℕ)
  allocated_cells env u = elim u.display_cells [
    | some cells ↦ some cells
    | none ↦ if env.malloc_ok then some env.garbage else none
  ]

  -- The frames' directory is only made if there is memory for a frame.
  abbrev pub begin_frames : Surroundings → Option (ℕ → ℕ) → Universe d → Universe d
  begin_frames env none u = record u { failed = true; quit = true }
  begin_frames env (some cells) u =
      let (code, dump) = dump_begin_frames env.files env.stamp u.dump (some u.dump_root) in
      if failed_code code
      then record u { dump = dump; failed = true; quit = true }
      else record u { dump = dump }

  unfoldable pub universe_begin_debug_drain : Surroundings → Universe d → Universe d
  universe_begin_debug_drain env u =
      let cells = allocated_cells env u in
      let draining = record u {
        debug_dump = true;
        paused = false;
        restart = false;
        scheduler = scheduler_begin_drain u.scheduler;
        display_cells = cells;
      } in
      if u.debug_dump then u else begin_frames env cells draining

  abbrev pub set_quantum : Universe d → ℕ → Universe d
  set_quantum u n = record u { scheduler = scheduler_set_quantum u.scheduler n }

  abbrev pub add_ant : Surroundings → Universe d → Universe d
  add_ant env u =
      let (added, s, g) = scheduler_spawn_ant u.scheduler u.world u.rng env.now_us in
      if ltb (scheduler_active_population u.scheduler) turmite_max_ants
      then record u { scheduler = s; rng = g }
      else u

  abbrev pub cull : Universe d → Universe d
  cull u =
      let current = scheduler_active_population u.scheduler in
      if ltb 2 current
      then record u { scheduler = (scheduler_begin_culling u.scheduler (current / 2)).1 }
      else u

  -- The keys that a draining universe ignores.
  abbrev pub handle_live_key : Surroundings → Universe d → Key → Universe d
  handle_live_key env u escape = u
  handle_live_key env u q = u
  handle_live_key env u space =
      let paused = not u.paused in
      record u { paused = paused; scheduler = scheduler_set_paused u.scheduler paused }
  handle_live_key env u h = record u { hud_visible = not u.hud_visible }
  handle_live_key env u left_bracket =
      set_quantum u (smaller_quantum (scheduler_get_quantum u.scheduler))
  handle_live_key env u right_bracket =
      set_quantum u (larger_quantum (scheduler_get_quantum u.scheduler))
  handle_live_key env u r = record u { restart = true }
  handle_live_key env u equals = add_ant env u
  handle_live_key env u plus = add_ant env u
  handle_live_key env u kp_plus = add_ant env u
  handle_live_key env u minus = cull u
  handle_live_key env u kp_minus = cull u
  handle_live_key env u (other code) = u

  unfoldable pub handle_key : Surroundings → Universe d → Key → Universe d
  handle_key env u escape = record u { quit = true }
  handle_key env u q = universe_begin_debug_drain env u
  handle_key env u key = if u.debug_dump then u else handle_live_key env u key

  -- The result says that there was room.
  unfoldable pub universe_enqueue : Universe d → Key → Bool × Universe d
  universe_enqueue u key =
      if ltb u.command_count control_queue_size
      then (
        true,
        record u {
          commands =
              update u.commands ((u.command_read + u.command_count) % control_queue_size) key;
          command_count = u.command_count + 1;
        },
      )
      else (false, u)

  -- One hold of the lock in `universe_apply_commands`: the next key, if there is one.
  unfoldable pub take_command : Universe d → Option Key × Universe d
  take_command u = if u.command_count == 0 then (none, u) else (
    some (u.commands u.command_read),
    record u {
      command_read = (u.command_read + 1) % control_queue_size;
      command_count = sub_u64 u.command_count 1;
    },
  )

  -- A round of the loop ends it if no key was there.
  abbrev pub after_take :
      (Key → Option (Universe d)) → Universe d → Option Key → Option (Universe d)
  after_take rest u none = some u
  after_take rest u (some key) = rest key

  -- The loop of `universe_apply_commands`, on fuel; `none` means that the fuel ran out.
  unfoldable pub universe_apply_commands : ℕ → Surroundings → Universe d → Option (Universe d)
  universe_apply_commands zero env u = none
  universe_apply_commands (suc fuel) env u =
      let (key, u') = take_command u in
      after_take (λ k. universe_apply_commands fuel env (handle_key env u' k)) u' key
