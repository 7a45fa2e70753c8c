-- ===== src/Main/Draining.antt =====
-- src/main.c: what keeps a universe that drains for a dump draining.
use mathlib.Core.Path.{subst}
use turmite_linux.Prelude.{
  zero, suc, ℕ, ◌+◌, ◌≡◌, refl, sym, Bool, true, false, not, ◌||◌, Option, none, some,
  if◌then◌else◌, arith,
}
use turmite_linux.Prelude.Doubles.{Doubles}
use turmite_linux.World.{World}
use turmite_linux.Scheduler.Types.{Scheduler}
use turmite_linux.Dump.Write.{Files}
use turmite_linux.Main.Universe.{
  Universe, Key, Surroundings, q, handle_key, universe_enqueue, take_command, after_take,
  universe_apply_commands, universe_begin_debug_drain,
}
use turmite_linux.Main.Keys.{handle_key_draining, closes}
use turmite_linux.Main.Frames.{choose_slot}
use turmite_linux.Main.Draw.{
  view_of, copy_cells, frame_to_file, draw_in, universe_render, universe_present,
}
use turmite_linux.Main.Control.{
  Input, silent, broken, closed, interrupted, unreadable, bytes, take_input, headless_poll_input,
  apply_waiting, Moment, goes_on, ends, control_round, asks_to_quit,
}

module _ {d : Doubles} where
  -- What the main thread and the workers do between two rounds.
  pub data Between (u : Universe d) : Universe d → Type 0 where
    enqueued : (key : Key) → Between u (universe_enqueue u key).1
    window_closed : Between u (record u { quit = true })
    presented : Between u (universe_present u).1
    worked : (s : Scheduler) (w : World) → Between u (record u { scheduler = s; world = w })

  -- The control loop from a state to its end, and how it ended.
  pub data Runs : Universe d → Bool → Universe d → Type 0 where
    ended :
        {u v : Universe d} {timed_out : Bool} (m : Moment d)
        → control_round m u ≡ ends timed_out v
        → Runs u timed_out v
    next :
        {u t v : Universe d} {timed_out : Bool} (m : Moment d)
        → control_round m u ≡ goes_on t
        → Runs t timed_out v
        → Runs u timed_out v
    meanwhile :
        {u t v : Universe d} {timed_out : Bool}
        → Between u t
        → Runs t timed_out v
        → Runs u timed_out v

  -- A dump is asked for, and no restart.
  pub record Drains (u : Universe d) : Type 0 where
    pub dumping : u.debug_dump ≡ true
    pub staying : u.restart ≡ false

  if-Drains : (b : Bool) (x y : Universe d) → Drains x → Drains y → Drains (if b then x else y)
  if-Drains true x y vx vy = vx
  if-Drains false x y vx vy = vy

  -- What drawing leaves: the two flags, and a request to close.
  pub record Follows (u v : Universe d) : Type 0 where
    pub dumping : v.debug_dump ≡ u.debug_dump
    pub staying : v.restart ≡ u.restart
    pub quitting : u.quit ≡ true → v.quit ≡ true
    pub scheduler : v.scheduler ≡ u.scheduler

  itself : (u : Universe d) → Follows u u
  itself u = record { dumping = refl; staying = refl; quitting = λ e. e; scheduler = refl }

  frame_to_file-Follows : (fs : Files) (u : Universe d) → Follows u (frame_to_file fs u).0
  unfolding frame_to_file
  frame_to_file-Follows fs u = record {
    dumping = ground arith;
    staying = ground arith;
    quitting = λ e. ground (arith, e);
    scheduler = ground arith;
  }

  draw_in-Follows : (slot : Option ℕ) (u : Universe d) → Follows u (draw_in slot u).0
  draw_in-Follows none u = itself u
  draw_in-Follows (some slot) u = record {
    dumping = refl;
    staying = refl;
    quitting = λ e. e;
    scheduler = refl;
  }

  pub universe_render-Follows : (fs : Files) (u : Universe d) → Follows u (universe_render fs u).0
  unfolding universe_render
  universe_render-Follows fs u =
      let v = (frame_to_file fs (copy_cells u)).0 in
      let f = frame_to_file-Follows fs (copy_cells u) in
      let g = draw_in-Follows (choose_slot (view_of v)) v in
      record {
        dumping = ground (arith, f.dumping, g.dumping);
        staying = ground (arith, f.staying, g.staying);
        quitting = λ e. ground (arith, f.quitting e, g.quitting);
        scheduler = ground (arith, f.scheduler, g.scheduler);
      }

  pub begin_drain-Drains :
      (env : Surroundings) (u : Universe d) → Drains u → Drains (universe_begin_debug_drain env u)
  unfolding handle_key
  begin_drain-Drains env u v = subst Drains (sym (handle_key_draining env u q v.dumping)) v

  handle_key-Drains :
      (env : Surroundings) (u : Universe d) (key : Key) → Drains u → Drains (handle_key env u key)
  handle_key-Drains env u key v =
      subst Drains (sym (handle_key_draining env u key v.dumping))
        (if-Drains (closes key) _ u (record { dumping = v.dumping; staying = v.staying }) v)

  take_command-Drains : (u : Universe d) → Drains u → Drains (take_command u).1
  unfolding take_command
  take_command-Drains u v = record {
    dumping = ground (arith, v.dumping);
    staying = ground (arith, v.staying);
  }

  after_take-Drains :
      (rest : Key → Option (Universe d)) (u : Universe d) (key : Option Key) (v : Universe d)
      → Drains u
      → ((k : Key) → rest k ≡ some v → Drains v)
      → after_take rest u key ≡ some v
      → Drains v
  after_take-Drains rest u none v dr all e = let same : u ≡ v = cc in rw same at dr
  after_take-Drains rest u (some k) v dr all e = all k e

  -- A result of the loop over the commands, if there is one.
  commands-Drains :
      (fuel : ℕ) (env : Surroundings) (u v : Universe d)
      → Drains u
      → universe_apply_commands fuel env u ≡ some v
      → Drains v
  unfolding universe_apply_commands
  commands-Drains zero env u v dr e = absurd cc
  commands-Drains (suc fuel) env u v dr e =
      let rest : Key → Option (Universe d) =
        λ k. universe_apply_commands fuel env (handle_key env (take_command u).1 k) in
      let dr' = take_command-Drains u dr in
      after_take-Drains rest (take_command u).1 (take_command u).0 v dr'
        (λ k e'. commands-Drains fuel env _ v (handle_key-Drains env _ k dr') e') e

  or_unchanged-Drains :
      (o : Option (Universe d)) (u : Universe d)
      → Drains u
      → ((v : Universe d) → o ≡ some v → Drains v)
      → Drains (elim o [ none ↦ u | some v ↦ v ])
  or_unchanged-Drains none u dr all = dr
  or_unchanged-Drains (some v) u dr all = all v refl

  pub apply_waiting-Drains :
      (env : Surroundings) (u : Universe d) → Drains u → Drains (apply_waiting env u)
  unfolding apply_waiting
  apply_waiting-Drains env u dr =
      or_unchanged-Drains (universe_apply_commands (u.command_count + 1) env u) u dr
        (λ v e. commands-Drains (u.command_count + 1) env u v dr e)

  pub take_input-Drains :
      (env : Surroundings) (input : Input) (u : Universe d)
      → Drains u
      → Drains (take_input env input u)
  take_input-Drains env silent u dr = dr
  take_input-Drains env broken u dr = record { dumping = dr.dumping; staying = dr.staying }
  take_input-Drains env closed u dr = record { dumping = dr.dumping; staying = dr.staying }
  take_input-Drains env interrupted u dr = dr
  take_input-Drains env unreadable u dr = record { dumping = dr.dumping; staying = dr.staying }
  take_input-Drains env (bytes cs) u dr =
      if-Drains (asks_to_quit cs) _ u (begin_drain-Drains env u dr) dr

  pub poll-Drains :
      (env : Surroundings) (input : Input) (u : Universe d)
      → Drains u
      → Drains (headless_poll_input env input u)
  unfolding headless_poll_input
  poll-Drains env input u dr =
      if-Drains (not u.headless || u.stdin_eof) u _ dr (take_input-Drains env input u dr)

  pub Between-Drains : (u v : Universe d) → Between u v → Drains u → Drains v
  unfolding universe_enqueue universe_present
  Between-Drains u v (enqueued key) dr = record {
    dumping = ground (arith, dr.dumping);
    staying = ground (arith, dr.staying);
  }
  Between-Drains u v window_closed dr = record { dumping = dr.dumping; staying = dr.staying }
  Between-Drains u v presented dr = record { dumping = dr.dumping; staying = dr.staying }
  Between-Drains u v (worked s w) dr = record { dumping = dr.dumping; staying = dr.staying }
