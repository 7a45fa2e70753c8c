-- ===== src/Main/Stopping.antt =====
-- src/main.c: the control loop of a universe that drains ends when the drain is complete.
use turmite_linux.Prelude.{
  ◌≡◌, refl, ◌∙◌, Bool, true, false, not, ◌&&◌, ◌||◌, if◌then◌else◌, arith, ap,
}
use turmite_linux.Prelude.Doubles.{Doubles}
use turmite_linux.Scheduler.Control.{scheduler_drain_complete}
use turmite_linux.Main.Universe.{Universe}
use turmite_linux.Main.Draw.{universe_render}
use turmite_linux.Main.Control.{
  headless_poll_input, apply_waiting, Moment, Outcome, ends, draw_round, timed_round, control_round,
  capture_round, lifetime_over,
}
use turmite_linux.Main.Draining.{Drains, universe_render-Follows, apply_waiting-Drains, poll-Drains}
use turmite_linux.Scheduler.Types.{Scheduler}

module _ {d : Doubles} where
  -- An outcome that ends the loop, and not by the time.
  Ends : Outcome d → Type 0
  Ends o = (v : Universe d) × (o ≡ ends false v)

  if-Ends :
      (b : Bool) (x y : Outcome d)
      → (b ≡ true → Ends x)
      → (b ≡ false → Ends y)
      → Ends (if b then x else y)
  if-Ends true x y fx fy = fx refl
  if-Ends false x y fx fy = fy refl

  ends-Ends : (v : Universe d) → Ends (ends false v)
  unfolding Ends
  ends-Ends v = (v, refl)

  draw_round-Ends :
      (m : Moment d) (u : Universe d)
      → Drains u
      → (scheduler_drain_complete u.scheduler).0 ≡ true
      → Ends (draw_round m u)
  unfolding draw_round
  draw_round-Ends m u dr complete =
      let r = (universe_render m.env.files u).0 in
      let f = universe_render-Follows m.env.files u in
      let on : r.debug_dump ≡ true = f.dumping ∙ dr.dumping in
      let done : (scheduler_drain_complete r.scheduler).0 ≡ true =
        ap (λ (s : Scheduler). (scheduler_drain_complete s).0) f.scheduler ∙ complete in
      if-Ends (not r.debug_dump) _ _ (λ e. absurd (ground (arith, e, on)))
        (λ e.
          if-Ends (scheduler_drain_complete r.scheduler).0 _ _ (λ e'. ends-Ends _)
            (λ e'. absurd (ground (arith, e', done))))

  timed_round-Ends :
      (m : Moment d) (u : Universe d)
      → Drains u
      → (scheduler_drain_complete u.scheduler).0 ≡ true
      → Ends (timed_round m u)
  unfolding timed_round
  timed_round-Ends m u dr complete =
      let v = capture_round m u in
      let dv : Drains v = record { dumping = dr.dumping; staying = dr.staying } in
      if-Ends (u.quit || u.restart) _ _ (λ e. ends-Ends u)
        (λ e.
          if-Ends (not u.debug_dump && lifetime_over m u) _ _
            (λ over. absurd (ground (arith, over, dr.dumping)))
            (λ over.
              if-Ends (not v.headless || v.debug_dump) _ _ (λ e'. draw_round-Ends m v dv complete)
                (λ e'. absurd (ground (arith, e', dr.dumping)))))

  round-Ends :
      (m : Moment d) (u : Universe d)
      → Drains u
      → let w = headless_poll_input m.env m.input (apply_waiting m.env u) in
        (scheduler_drain_complete w.scheduler).0 ≡ true → Ends (control_round m u)
  unfolding control_round
  round-Ends m u dr complete =
      let dw = poll-Drains m.env m.input _ (apply_waiting-Drains m.env u dr) in
      if-Ends (u.quit || u.restart) _ _ (λ e. ends-Ends u) (λ e. timed_round-Ends m _ dw complete)

  -- A round of a universe that drains for a dump ends the loop, and not by the time, if the
  -- scheduler's drain is complete after the waiting keys and the input.
  pub control_round_ends :
      (m : Moment d) (u : Universe d)
      → Drains u
      → let w = headless_poll_input m.env m.input (apply_waiting m.env u) in
        (scheduler_drain_complete w.scheduler).0 ≡ true
        → (v : Universe d) × (control_round m u ≡ ends false v)
  unfolding Ends
  control_round_ends = round-Ends
