-- ===== src/Tests/Scheduling.antt =====
-- Runs of the scheduler.
use turmite_linux.Prelude.{
  ◌+◌, ◌-◌, ◌*◌, ◌/◌, ◌≤◌, ◌<◌, ◌≡◌, ◌⊎◌, refl, true, false, none, some, arith, min, update,
}
use turmite_linux.Prelude.Int.{pos, ◌+ℤ◌, ◌≤ℤ◌, ◌<ℤ◌}
use turmite_linux.Prelude.Loops.{for_range}
use turmite_linux.Ant.Types.{ant_f_enabled, turmite_max_ants, token_fp_one}
use turmite_linux.Ant.Move.{ant_release_occupancy}
use turmite_linux.Scheduler.Types.{Scheduler, exact_long_double, ant_at}
use turmite_linux.Scheduler.Tokens.{earned_fp, accrue_tokens, runnable, retire_draining}
use turmite_linux.Scheduler.Select.{
  leased, acquire_round, candidate_locked, lease_locked, recover_pass, select_pass, weigh,
  deadline_pass, required_tokens, token_deadline, earlier_deadline,
}
use turmite_linux.Scheduler.Control.{weakest, scheduler_begin_culling, scheduler_drain_complete}
use turmite_linux.Scheduler.Refill.{BucketIsValid, accrue_tokens-min}
use turmite_linux.Scheduler.Drain.{scheduler_drain_complete_sound}
use turmite_linux.Scheduler.Rounds.{ready}
use turmite_linux.Scheduler.Lease.{
  candidate_locked_best, candidate_locked-none, Granted, acquire_round_lem, Leasable,
}
use turmite_linux.Scheduler.Frugal.{candidate_locked_draining}
use turmite_linux.Scheduler.Culling.{
  cullable, weakest_lem, scheduler_begin_culling_lem, draining_ants,
}
use turmite_linux.Tests.Samples.{one_ant, one_scheduler, two_scheduler}

-- Both ants get the credit one; the lower index is picked.
picks_first : (candidate_locked exact_long_double two_scheduler 200).0 ≡ some (0, pos 1)
unfolding candidate_locked recover_pass select_pass accrue_tokens earned_fp runnable weigh for_range
    required_tokens ◌+ℤ◌
picks_first = refl

second_ready : ready (candidate_locked exact_long_double two_scheduler 200).1 1 ≡ true
unfolding candidate_locked recover_pass select_pass accrue_tokens earned_fp runnable weigh for_range
    required_tokens ◌+ℤ◌ ready
second_ready = refl

candidate_locked_best_example :
    let t = (candidate_locked exact_long_double two_scheduler 200).1 in
    (0 < turmite_max_ants)
    × (true ≡ true)
    × (ready t 0 ≡ true)
    × (t.fair_credit 0 ≡ pos 1)
    × ((t.fair_credit 1 <ℤ pos 1) ⊎ ((t.fair_credit 1 ≤ℤ pos 1) × (0 ≤ 1)))
candidate_locked_best_example =
    candidate_locked_best exact_long_double two_scheduler 200 0 1 (pos 1) picks_first (omega arith)
      refl second_ready

-- An ant without tokens earns none in 100 microseconds, and is not picked.
abbrev poor : Scheduler
poor = record one_scheduler {
  colony = record one_ant {
    ants = update one_ant.ants 0 (record (one_ant.ants 0) { tokens_fp = 0 });
  };
}

picks_none : (candidate_locked exact_long_double poor 200).0 ≡ none
unfolding candidate_locked recover_pass select_pass accrue_tokens earned_fp runnable weigh for_range
    required_tokens
picks_none = refl

not_paused : (candidate_locked exact_long_double poor 200).1.paused ≡ false
unfolding candidate_locked recover_pass select_pass accrue_tokens earned_fp runnable weigh for_range
    required_tokens deadline_pass token_deadline earlier_deadline
not_paused = refl

candidate_locked-none_example : ready (candidate_locked exact_long_double poor 200).1 0 ≡ false
candidate_locked-none_example =
    candidate_locked-none exact_long_double poor 200 0 picks_none refl not_paused (omega arith) refl

leases_first : (acquire_round exact_long_double two_scheduler 200 300).0 ≡ leased 0 4
unfolding acquire_round lease_locked candidate_locked recover_pass select_pass accrue_tokens
    earned_fp runnable weigh for_range required_tokens ◌+ℤ◌
leases_first = refl

acquire_round_lem_example :
    (two_scheduler.stopping ≡ false)
    × (0 < turmite_max_ants)
    × (two_scheduler.colony.enabled_mask 0 ≡ true)
    × Leasable (candidate_locked exact_long_double two_scheduler 200).1 0
    × Granted 0 4 (acquire_round exact_long_double two_scheduler 200 300).1
acquire_round_lem_example =
    acquire_round_lem exact_long_double two_scheduler 200 300 0 4 leases_first

bucket : BucketIsValid (ant_at one_scheduler 0)
bucket = record { bounded = omega arith; word = omega arith }

-- A thousand microseconds at a thousand tokens a second earn one token.
accrue_tokens-min_example :
    (ant_at (accrue_tokens exact_long_double one_scheduler 0 1100) 0).tokens_fp
    ≡ min (128 * 65536) (5 * 65536 + 1000 * 1 * (1100 - 100) * token_fp_one / (1000000 * 1))
accrue_tokens-min_example =
    accrue_tokens-min exact_long_double one_scheduler 0 1100 bucket refl (omega arith) (omega arith)
      (omega arith) (omega arith) (omega arith)

-- An ant without tokens that drains: it is retired.
abbrev pub empty : Scheduler
empty = record poor {
  draining = true;
  colony = record one_ant {
    ants = update one_ant.ants 0 (record (one_ant.ants 0) {
      tokens_fp = 0;
      flags = record ant_f_enabled { draining = true };
    });
  };
}

drained : (scheduler_drain_complete empty).0 ≡ true
unfolding scheduler_drain_complete for_range retire_draining ant_release_occupancy
drained = refl

scheduler_drain_complete_sound_example :
    let t = (scheduler_drain_complete empty).1 in
    (empty.draining ≡ true)
    × ((ant_at t 3).flags.leased ≡ false)
    × ((ant_at t 3).flags.enabled ≡ false)
scheduler_drain_complete_sound_example =
    scheduler_drain_complete_sound empty 3 drained (omega arith)

candidate_locked_draining_example :
    let t = (candidate_locked exact_long_double (record two_scheduler { draining = true }) 200).1 in
    (t.draining ≡ true) × ((ant_at t 1).tokens_fp ≡ 65536)
candidate_locked_draining_example =
    candidate_locked_draining exact_long_double (record two_scheduler { draining = true }) 200 1
      refl

weakest_second : weakest two_scheduler ≡ some (1, 65536)
unfolding weakest for_range
weakest_second = refl

weakest_lem_example :
    (1 < turmite_max_ants)
    × (cullable two_scheduler 1 ≡ true)
    × (65536 ≡ (ant_at two_scheduler 1).tokens_fp)
    × ((65536 < (ant_at two_scheduler 0).tokens_fp)
        ⊎ ((65536 ≤ (ant_at two_scheduler 0).tokens_fp) × (1 ≤ 0)))
weakest_lem_example = weakest_lem two_scheduler 1 65536 0 weakest_second (omega arith) refl

scheduler_begin_culling_lem_example :
    let out = scheduler_begin_culling two_scheduler 1 in
    let excess = two_scheduler.colony.active_population - 1 in
    (draining_ants out.1 ≡ draining_ants two_scheduler + out.0)
    × (out.0 ≤ excess)
    × ((out.0 ≡ excess) ⊎ (cullable out.1 0 ≡ false))
scheduler_begin_culling_lem_example = scheduler_begin_culling_lem two_scheduler 1 0 (omega arith)
