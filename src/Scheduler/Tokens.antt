-- ===== src/Scheduler/Tokens.antt =====
-- src/scheduler.c: token refill, retirement and recovery of one ant.
use turmite_linux.Prelude.{
  ℕ, ◌+◌, ◌-◌, ◌*◌, ◌/◌, Bool, true, false, ◌&&◌, ◌||◌, not, xor, ltb, leb, ◌==◌, if◌then◌else◌,
  u32, u64, sub_u64, uint32_max, uint16_max, update,
}
use turmite_linux.Prelude.Int.{pos}
use turmite_linux.Ant.Types.{Flags, Ant, AntColony, set_flags, token_fp_one}
use turmite_linux.Ant.Move.{ant_release_occupancy, ant_try_reclaim_position}
use turmite_linux.Ant.Life.{ant_rebirth_random, ant_mutate_in_place}
use turmite_linux.Scheduler.Types.{
  Scheduler, LongDouble, ant_at, with_colony, store_ant, collision_pause_us,
}

abbrev pub or_one : ℕ → ℕ
or_one n = if n == 0 then 1 else n

-- The tokens earned, in Q16, bounded by `room` on the slow path only.
unfoldable pub earned_fp : LongDouble → ℕ → ℕ → ℕ → ℕ → ℕ
earned_fp ld rate elapsed divisor room =
    let slow = ld.earned rate elapsed divisor in
    if leb rate uint32_max && leb elapsed uint16_max
    then u64 (u64 (rate * elapsed) * token_fp_one) / u64 (1000000 * divisor)
    else if leb room slow
    then room
    else slow

unfoldable pub accrue_tokens : LongDouble → Scheduler → ℕ → ℕ → Scheduler
accrue_tokens ld s index now_us =
    let last_us = s.last_token_us index in
    let ant = ant_at s index in
    let effective_rate = u64 (ant.token_rate * or_one s.token_rate_scale) in
    let cap_fp = ant.token_capacity_fp in
    let current_fp = ant.tokens_fp in
    let stamped = record s { last_token_us = update s.last_token_us index now_us } in
    let room_fp = cap_fp - current_fp in
    let add_fp =
      earned_fp ld effective_rate (now_us - last_us) (or_one s.token_rate_divisor) room_fp in
    let filled = if leb room_fp add_fp then cap_fp else u32 (current_fp + u32 add_fp) in
    if s.draining
    then s
    else if leb now_us last_us
    then s
    else if effective_rate == 0 || leb cap_fp current_fp
    then stamped
    else store_ant (if add_fp == 0 then s else stamped) index (record ant { tokens_fp = filled })

unfoldable pub retire_draining : AntColony → ℕ → AntColony
retire_draining c index =
    let ant = c.ants index in
    let f = ant.flags in
    let retired =
      set_flags c index (record f { expired = true; enabled = false; draining = false }) in
    let freed = ant_release_occupancy retired index in
    if f.draining && f.enabled && ltb ant.tokens_fp token_fp_one
    then record freed {
      enabled_mask = update freed.enabled_mask index false;
      active_population = sub_u64 freed.active_population 1;
    }
    else c

unfoldable pub runnable : Ant → Bool
runnable ant =
    let f = ant.flags in
    f.enabled && not (f.leased || f.clobbered || f.expired || f.halted || f.displaced || f.waiting)

abbrev pub flags_eq : Flags → Flags → Bool
flags_eq f g =
    not (xor f.enabled g.enabled)
    && not (xor f.leased g.leased)
    && not (xor f.clobbered g.clobbered)
    && not (xor f.expired g.expired)
    && not (xor f.draining g.draining)
    && not (xor f.halted g.halted)
    && not (xor f.displaced g.displaced)
    && not (xor f.waiting g.waiting)

-- Rebirth of a halted ant: while the universe drains, it keeps its balance and earns nothing.
unfoldable pub reborn : Scheduler → ℕ → ℕ → Scheduler
reborn s index now_us =
    let remaining = (ant_at s index).tokens_fp in
    let s1 = with_colony s (ant_rebirth_random s.colony index) in
    let a = ant_at s1 index in
    let f = a.flags in
    let kept =
      store_ant s1 index (record a {
        tokens_fp = remaining;
        token_rate = 0;
        flags = record f { draining = true };
      }) in
    let s2 = if s1.draining then kept else s1 in
    record s2 {
      last_token_us = update s2.last_token_us index now_us;
      fair_credit = update s2.fair_credit index (pos 0);
    }

unfoldable pub mutated : Scheduler → ℕ → Scheduler
mutated s index =
    let c = ant_mutate_in_place s.colony index in
    with_colony s (record c { mutations = update c.mutations index (u64 (c.mutations index + 1)) })

-- What follows the compare-and-swap of the flags.
unfoldable pub settle : Scheduler → Flags → ℕ → ℕ → Scheduler
settle s f index now_us =
    let cleared =
      with_colony (record s { recovery_at_us = update s.recovery_at_us index 0 })
        (ant_release_occupancy
          (set_flags s.colony index
            (record f { clobbered = false; halted = false; displaced = false; waiting = true }))
          index) in
    if f.halted
    then reborn cleared index now_us
    else if s.collision_mutation
    then mutated cleared index
    else cleared

-- The last step: an ant that waits takes its cell back if it can.
unfoldable pub readmit : Scheduler → ℕ → Scheduler
readmit s index =
    let f = (ant_at s index).flags in
    let (claimed, c) = ant_try_reclaim_position s.colony index in
    let g = (c.ants index).flags in
    if f.waiting && not (f.clobbered || f.halted)
    then with_colony s (if claimed then set_flags c index (record g { waiting = false }) else c)
    else s

-- `recover_ant`, with the flags `f` that it loaded first. Another thread may have changed them
-- since: then the compare-and-swap fails, and nothing is done.
unfoldable pub recover_ant_from : Scheduler → Flags → ℕ → ℕ → Scheduler
recover_ant_from s f index now_us =
    let due = s.recovery_at_us index in
    let pausing = record s {
      recovery_at_us = update s.recovery_at_us index (u64 (now_us + collision_pause_us));
    } in
    if not f.enabled || f.leased
    then s
    else if f.clobbered || f.halted
    then (if not f.halted && due == 0
        then pausing
        else if not f.halted && ltb now_us due
        then s
        else if not (flags_eq f (ant_at s index).flags)
        then s
        else readmit (settle s f index now_us) index)
    else readmit s index

unfoldable pub recover_ant : Scheduler → ℕ → ℕ → Scheduler
recover_ant s index now_us = recover_ant_from s (ant_at s index).flags index now_us
