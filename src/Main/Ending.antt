-- ===== src/Main/Ending.antt =====
-- src/main.c: a run whose dump is asked for ends for good, with its dump.
use mathlib.Core.Path.{subst}
use turmite_linux.Prelude.{
  ◌≡◌, refl, ◌∙◌, Bool, true, false, not, ◌&&◌, ◌||◌, some, if◌then◌else◌, arith, ◌<◌,
}
use turmite_linux.Prelude.Int.{ℤ, pos, negsuc}
use turmite_linux.Prelude.Doubles.{Doubles}
use turmite_linux.Scheduler.Control.{scheduler_drain_complete}
use turmite_linux.Dump.Write.{failed_code, dump_write}
use turmite_linux.Dump.Export.{complete_dump, dump_write_complete}
use turmite_linux.Main.Universe.{Universe}
use turmite_linux.Main.Draw.{universe_render}
use turmite_linux.Main.Control.{
  headless_poll_input, apply_waiting, Moment, Outcome, goes_on, ends, draw_round, timed_round,
  control_round, capture_round, lifetime_over, finish_run, export_run, observation,
}
use turmite_linux.Main.Draining.{
  Runs, ended, next, meanwhile, Drains, Follows, universe_render-Follows, apply_waiting-Drains,
  poll-Drains, Between-Drains,
}
use turmite_linux.Scheduler.Observe.{scheduler_get_quantum}
use turmite_linux.Dump.{dump_capture_now}

pub zero_code : (z : ℤ) → failed_code z ≡ false → z ≡ pos 0
zero_code (pos n) e = ground (arith, e)
zero_code (negsuc n) e = absurd cc

pub or_false : (a b : Bool) → a || b ≡ false → a ≡ false
or_false true b e = absurd cc
or_false false b e = refl

module _ {d : Doubles} where
  -- A round of a universe that drains ends the loop only with a request to close, and never by
  -- the time.
  Settled : Outcome d → Type 0
  Settled (goes_on v) = Drains v
  Settled (ends timed_out v) = (timed_out ≡ false) × (v.quit ≡ true) × Drains v

  if-Settled :
      (b : Bool) (x y : Outcome d)
      → (b ≡ true → Settled x)
      → (b ≡ false → Settled y)
      → Settled (if b then x else y)
  if-Settled true x y fx fy = fx refl
  if-Settled false x y fx fy = fy refl

  draw_round-Settled : (m : Moment d) (u : Universe d) → Drains u → Settled (draw_round m u)
  unfolding draw_round Settled
  draw_round-Settled m u dr =
      let v = (universe_render m.env.files u).0 in
      let f = universe_render-Follows m.env.files u in
      let on : v.debug_dump ≡ true = f.dumping ∙ dr.dumping in
      let off : v.restart ≡ false = f.staying ∙ dr.staying in
      if-Settled (not v.debug_dump) _ _ (λ e. record { dumping = on; staying = off })
        (λ e.
          if-Settled (scheduler_drain_complete v.scheduler).0 _ _
            (λ e'. (refl, refl, record { dumping = on; staying = off }))
            (λ e'. record { dumping = on; staying = off }))

  quits : (u : Universe d) → Drains u → u.quit || u.restart ≡ true → u.quit ≡ true
  quits u dr e = ground (arith, dr.staying, e)

  timed_round-Settled : (m : Moment d) (u : Universe d) → Drains u → Settled (timed_round m u)
  unfolding timed_round Settled
  timed_round-Settled m u dr =
      let v = capture_round m u in
      let dv : Drains v = record { dumping = dr.dumping; staying = dr.staying } in
      if-Settled (u.quit || u.restart) _ _ (λ e. (refl, quits u dr e, dr))
        (λ e.
          if-Settled (not u.debug_dump && lifetime_over m u) _ _
            (λ over. absurd (ground (arith, over, dr.dumping)))
            (λ over.
              if-Settled (not v.headless || v.debug_dump) _ _ (λ e'. draw_round-Settled m v dv)
                (λ e'. dv)))

  control_round-Settled : (m : Moment d) (u : Universe d) → Drains u → Settled (control_round m u)
  unfolding control_round Settled
  control_round-Settled m u dr =
      let w = headless_poll_input m.env m.input (apply_waiting m.env u) in
      if-Settled (u.quit || u.restart) _ _ (λ e. (refl, quits u dr e, dr))
        (λ e.
          timed_round-Settled m w (poll-Drains m.env m.input _ (apply_waiting-Drains m.env u dr)))

  Runs-Settled : (u v : Universe d) (t : Bool) → Runs u t v → Drains u → Settled (ends t v)
  unfolding Settled
  Runs-Settled u v t (ended m e) dr = subst Settled e (control_round-Settled m u dr)
  Runs-Settled u v t (next {t = w} m e rest) dr =
      Runs-Settled w v t rest (subst Settled e (control_round-Settled m u dr))
  Runs-Settled u v t (meanwhile {t = w} b rest) dr =
      Runs-Settled w v t rest (Between-Drains u w b dr)

  export_run-Follows : (m : Moment d) (u : Universe d) → Follows u (export_run m u).0
  unfolding export_run
  export_run-Follows m u =
      let f = universe_render-Follows m.env.files u in
      record {
        dumping = ground (arith, f.dumping);
        staying = ground (arith, f.staying);
        quitting = λ e. ground (arith, e, f.quitting e);
        scheduler = ground (arith, f.scheduler);
      }

  finished :
      (m : Moment d) (v : Universe d)
      → v.quit ≡ true
      → Drains v
      → ((finish_run m false v).0 ≡ false) × ((finish_run m false v).1 ≡ (export_run m v).0)
  unfolding finish_run
  finished m v closing dr =
      let f = export_run-Follows m v in
      let on = f.dumping ∙ dr.dumping in
      let shut = f.quitting closing in
      (ground (arith, dr.dumping, on, shut), ground (arith, dr.dumping, on))

  -- Once a dump is asked for and no restart, whatever the main thread and the workers do between the
  -- rounds: if the control loop ends, it is not by the time, and the run ends with the export and
  -- without a new start.
  pub drained_run_lem :
      (u v : Universe d) (timed_out : Bool) (m : Moment d)
      → Drains u
      → Runs u timed_out v
      → (timed_out ≡ false)
        × ((finish_run m timed_out v).0 ≡ false)
        × ((finish_run m timed_out v).1 ≡ (export_run m v).0)
  unfolding Settled
  drained_run_lem u v t m dr runs =
      let (in_time, closing, dv) = Runs-Settled u v t runs dr in
      let (over, exported) = finished m v closing dv in rw in_time (refl, over, exported)

  -- An export after which the universe has not failed has printed the manifest, given every byte of
  -- every captured page, in the order of capture, to `fwrite`, which took them all, and written the
  -- image of the last page, for the universe that it returns. Whether what was printed or
  -- buffered is in the files after they are closed is left to the file system: the code does not
  -- look at it. The explanation may be missing. There is at least one page.
  pub export_run_lem :
      (m : Moment d) (u : Universe d)
      → let (v, files) = export_run m u in
        v.failed ≡ false
        → (files
            ≡ complete_dump m.env.files v.dump v.scheduler v.workers
                (scheduler_get_quantum v.scheduler)
                v.lifetime_minutes
                v.palette)
          × (0 < v.dump.page_count)
  unfolding export_run
  export_run_lem m u fine =
      let r : Universe d = if u.failed then u else (universe_render m.env.files u).0 in
      let captured = dump_capture_now r.dump (observation m r) in
      let quantum = scheduler_get_quantum r.scheduler in
      let code =
        (dump_write m.env.files m.env.stamp captured r.scheduler r.workers quantum
          r.lifetime_minutes (some r.dump_root) r.palette).0 in
      dump_write_complete m.env.files m.env.stamp captured r.scheduler r.workers quantum
        r.lifetime_minutes (some r.dump_root) r.palette
        (zero_code code (or_false (failed_code code) r.failed fine))
