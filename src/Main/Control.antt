-- ===== src/Main/Control.antt =====
-- src/main.c: a round of the control loop, and the end of a run.
use turmite_linux.Prelude.{
  ℕ, ◌+◌, Bool, true, false, not, ◌&&◌, ◌||◌, none, some, List, [], ◌∷◌, if◌then◌else◌, ◌==◌,
}
use turmite_linux.Prelude.Doubles.{Doubles}
use turmite_linux.Scheduler.Control.{scheduler_drain_complete}
use turmite_linux.Scheduler.Observe.{scheduler_get_quantum}
use turmite_linux.Dump.{Observation, dump_capture_reset, dump_capture_maybe, dump_capture_now}
use turmite_linux.Dump.Write.{Written, failed_code, dump_write}
use turmite_linux.Main.Universe.{
  Universe, Surroundings, universe_begin_debug_drain, universe_apply_commands,
}
use turmite_linux.Main.Draw.{universe_render}

-- What `poll` and `read` give on the standard input: nothing to read, an error of the descriptor,
-- the end of the file, an error of `read` that is one of the three that pass or is not, or bytes.
pub data Input : Type 0 where
  silent : Input
  broken : Input
  closed : Input
  interrupted : Input
  unreadable : Input
  bytes : List ℕ → Input

-- One of the bytes is `q` or `Q`.
unfoldable pub asks_to_quit : List ℕ → Bool
asks_to_quit [] = false
asks_to_quit (c ∷ cs) = c == 113 || c == 81 || asks_to_quit cs

-- What a round meets: the surroundings of the keys, the input, and the clock.
pub record Moment (d : Doubles) : Type 0 where
  pub env : Surroundings
  pub input : Input
  pub now : d.Double

-- A round ends the loop, by the time that is over or otherwise, or does not.
pub data Outcome (d : Doubles) : Type 0 where
  goes_on : Universe d → Outcome d
  ends : Bool → Universe d → Outcome d

module _ {d : Doubles} where
  abbrev pub take_input : Surroundings → Input → Universe d → Universe d
  take_input env silent u = u
  take_input env broken u = record u { stdin_eof = true }
  take_input env closed u = record u { stdin_eof = true }
  take_input env interrupted u = u
  take_input env unreadable u = record u { stdin_eof = true }
  take_input env (bytes cs) u = if asks_to_quit cs then universe_begin_debug_drain env u else u

  unfoldable pub headless_poll_input : Surroundings → Input → Universe d → Universe d
  headless_poll_input env input u =
      if not u.headless || u.stdin_eof then u else take_input env input u

  abbrev pub observation : Moment d → Universe d → Observation d
  observation m u = record {
    world = u.world;
    colony = u.scheduler.colony;
    scheduler = u.scheduler;
    rng = u.rng;
    age = d.minus m.now u.started_at;
    now = m.now;
  }

  -- The fuel is one more than the keys that wait.
  unfoldable pub apply_waiting : Surroundings → Universe d → Universe d
  apply_waiting env u = elim (universe_apply_commands (u.command_count + 1) env u) [
    | none ↦ u
    | some v ↦ v
  ]

  -- A round from the frame on.
  unfoldable pub draw_round : Moment d → Universe d → Outcome d
  draw_round m u =
      let v = (universe_render m.env.files u).0 in
      let (complete, s) = scheduler_drain_complete v.scheduler in
      if not v.debug_dump
      then goes_on v
      else if complete
      then ends false (record v { scheduler = s; quit = true })
      else goes_on (record v { scheduler = s })

  abbrev pub capture_round : Moment d → Universe d → Universe d
  capture_round m u = record u { dump = dump_capture_maybe u.dump (observation m u) }

  abbrev pub lifetime_over : Moment d → Universe d → Bool
  lifetime_over m u =
      d.at_most (d.times u.lifetime_minutes (d.of_nat 60)) (d.minus m.now u.started_at)

  -- A round behind the commands and the input.
  unfoldable pub timed_round : Moment d → Universe d → Outcome d
  timed_round m u =
      let v = capture_round m u in
      if u.quit || u.restart
      then ends false u
      else if not u.debug_dump && lifetime_over m u
      then ends true u
      else if not v.headless || v.debug_dump
      then draw_round m v
      else goes_on v

  -- The loop of `run_universe`, one round with its condition. The clock is read once; the sleeps
  -- have no state.
  unfoldable pub control_round : Moment d → Universe d → Outcome d
  control_round m u =
      let rest = timed_round m (headless_poll_input m.env m.input (apply_waiting m.env u)) in
      if u.quit || u.restart then ends false u else rest

  -- `run_universe` before its loop, less the pool.
  unfoldable pub begin_run : Moment d → Universe d → Universe d
  begin_run m u =
      let reset = dump_capture_reset u.dump u.world u.seed u.started_at in
      let first = record (observation m u) { age = d.of_nat 0 } in
      record u { dump = dump_capture_now reset first }

  -- The export after a drain, with the files of `dump_write`.
  unfoldable pub export_run : Moment d → Universe d → Universe d × List (Written d)
  export_run m u =
      let r = if u.failed then u else (universe_render m.env.files u).0 in
      let captured = dump_capture_now r.dump (observation m r) in
      let (code, dump, files) =
        dump_write m.env.files m.env.stamp captured r.scheduler r.workers
          (scheduler_get_quantum r.scheduler) r.lifetime_minutes (some r.dump_root) r.palette in
      (record r { dump = dump; failed = failed_code code || r.failed }, files)

  -- `run_universe` behind its loop; the result says that the universe starts anew.
  unfoldable pub finish_run : Moment d → Bool → Universe d → Bool × Universe d
  finish_run m timed_out u =
      let a = if u.debug_dump then (export_run m u).0 else u in
      let b = if timed_out then record a { restart = true } else a in
      let c = if not b.headless && not b.debug_dump then (universe_render m.env.files b).0 else b in
      (not c.quit && (c.restart || timed_out), c)
