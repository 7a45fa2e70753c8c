-- ===== src/Scheduler/Control.antt =====
-- src/scheduler.c: release, settings, spawning, culling and draining.
use turmite_linux.Prelude.{
  ℕ, zero, suc, ◌+◌, ◌-◌, Bool, true, false, ◌&&◌, ◌||◌, not, Option, none, some, ltb, leb,
  if◌then◌else◌, u64, uint64_max, update,
}
use turmite_linux.Prelude.Int.{ℤ, pos, negsuc, ◌-ℤ◌}
use turmite_linux.Prelude.Loops.{for_range}
use turmite_linux.Rng.{Lfsr32}
use turmite_linux.World.{World}
use turmite_linux.Ant.Types.{AntColony, set_flags, turmite_max_ants}
use turmite_linux.Ant.Life.{ant_spawn_random}
use turmite_linux.Scheduler.Types.{
  Scheduler, LongDouble, ant_at, with_colony, store_ant, notify_locked,
}
use turmite_linux.Scheduler.Tokens.{or_one, accrue_tokens, retire_draining}

unfoldable pub scheduler_release : LongDouble → Scheduler → ℕ → ℕ → ℕ → Scheduler
scheduler_release ld s idx executed now_us =
    let c = s.colony in
    let f = (c.ants idx).flags in
    let counted = record (set_flags c idx (record f { leased = false })) {
      instructions = update c.instructions idx (u64 (c.instructions idx + executed));
    } in
    let charged = record s {
      colony = counted;
      fair_credit = update s.fair_credit idx (s.fair_credit idx -ℤ pos executed);
    } in
    notify_locked (accrue_tokens ld charged idx now_us)

unfoldable pub scheduler_set_paused : Scheduler → Bool → Scheduler
scheduler_set_paused s paused = notify_locked (record s { paused = paused && not s.draining })

unfoldable pub scheduler_wake_all : Scheduler → Scheduler
scheduler_wake_all s = notify_locked s

unfoldable pub scheduler_set_token_rate_scale : Scheduler → ℕ → Scheduler
scheduler_set_token_rate_scale s scale =
    scheduler_wake_all (record s { token_rate_scale = or_one scale })

unfoldable pub scheduler_set_token_rate_divisor : Scheduler → ℕ → Scheduler
scheduler_set_token_rate_divisor s divisor =
    scheduler_wake_all (record s { token_rate_divisor = or_one divisor })

unfoldable pub scheduler_set_quantum : Scheduler → ℕ → Scheduler
scheduler_set_quantum s quantum = scheduler_wake_all (record s { quantum = or_one quantum })

unfoldable pub scheduler_set_min_service : Scheduler → ℕ → Scheduler
scheduler_set_min_service s min_service =
    scheduler_wake_all (record s { min_service = or_one min_service })

unfoldable pub scheduler_stop : Scheduler → Scheduler
scheduler_stop s = notify_locked (record s { stopping = true; paused = false })

-- The result is the return code; the flags say that the mutex, the attribute and the condition
-- variable could be made.
unfoldable pub scheduler_init : Scheduler → AntColony → ℕ → ℕ → Bool → Bool → Bool → ℤ × Scheduler
scheduler_init s colony quantum now_us mutex_ok attr_ok cond_ok = (
  (if mutex_ok && attr_ok && cond_ok then pos 0 else negsuc 0),
  record {
    colony = colony;
    wake = none;
    next_wake_us = uint64_max;
    collision_mutation = false;
    stopping = false;
    draining = false;
    paused = false;
    dispatches = 0;
    empty_scans = 0;
    idle_waits = 0;
    granted_instructions = 0;
    fair_credit = λ i. if ltb i turmite_max_ants then pos 0 else s.fair_credit i;
    last_token_us = λ i. if ltb i turmite_max_ants then now_us else s.last_token_us i;
    recovery_at_us = λ i. if ltb i turmite_max_ants then 0 else s.recovery_at_us i;
    quantum = or_one quantum;
    min_service = 1;
    token_rate_scale = 1;
    token_rate_divisor = 1;
  },
)

-- `__builtin_ctz(~enabled)`: the lowest clear bit among the `n` from `i` on; `none` is the mask
-- `UINT32_MAX`.
unfoldable pub first_clear : ℕ → ℕ → (ℕ → Bool) → Option ℕ
first_clear zero i mask = none
first_clear (suc n) i mask =
    let rest = first_clear n (suc i) mask in if mask i then rest else some i

unfoldable pub after_spawn : Scheduler → ℕ → ℕ → Scheduler
after_spawn s slot now_us =
    let c = s.colony in
    notify_locked (record s {
      last_token_us = update s.last_token_us slot now_us;
      recovery_at_us = update s.recovery_at_us slot 0;
      fair_credit = update s.fair_credit slot (pos 0);
      colony = record c {
        instructions = update c.instructions slot 0;
        mutations = update c.mutations slot 0;
        active_population = u64 (c.active_population + 1);
      };
    })

unfoldable pub scheduler_spawn_ant : Scheduler → World → Lfsr32 → ℕ → ℕ × Scheduler × Lfsr32
scheduler_spawn_ant s world rng now_us =
    if s.stopping || s.draining
    then (0, s, rng)
    else elim (first_clear turmite_max_ants 0 s.colony.enabled_mask) [
      | none ↦ (0, s, rng)
      | some slot ↦
          let (added, c, rng') = ant_spawn_random s.colony world rng slot in
          let s1 = with_colony s c in
          if added then (1, after_spawn s1 slot now_us, rng') else (0, s1, rng')
    ]

-- The weakest ant that may be culled so far, with its balance.
abbrev pub weaker : Scheduler → ℕ → Option (ℕ × ℕ) → Option (ℕ × ℕ)
weaker s i v =
    let ant = ant_at s i in
    let f = ant.flags in
    let this = some (i, ant.tokens_fp) in
    if not f.enabled || f.leased || f.draining
    then v
    else elim v [ none ↦ this | some (j, t) ↦ if ltb ant.tokens_fp t then this else some (j, t) ]

unfoldable pub weakest : Scheduler → Option (ℕ × ℕ)
weakest s = for_range 0 turmite_max_ants (weaker s) none

unfoldable pub mark_draining : Scheduler → ℕ → Scheduler
mark_draining s i =
    let a = ant_at s i in
    let f = a.flags in
    store_ant s i (record a { flags = record f { draining = true }; token_rate = 0 })

-- The loop of the culling; `n` more victims are wanted.
unfoldable pub cull_loop : ℕ → ℕ → Scheduler → ℕ × Scheduler
cull_loop zero marked s = (marked, s)
cull_loop (suc n) marked s = elim (weakest s) [
  | none ↦ (marked, s)
  | some (i, t) ↦ cull_loop n (suc marked) (mark_draining s i)
]

unfoldable pub scheduler_begin_culling : Scheduler → ℕ → ℕ × Scheduler
scheduler_begin_culling s target_population =
    let current = s.colony.active_population in
    let (marked, s1) = cull_loop (current - target_population) 0 s in
    if leb current target_population then (0, s) else (marked, notify_locked s1)

abbrev pub drain_slot : ℕ → Scheduler → Scheduler
drain_slot i s = if (ant_at s i).flags.enabled then mark_draining s i else s

unfoldable pub scheduler_begin_drain : Scheduler → Scheduler
scheduler_begin_drain s =
    notify_locked
      (for_range 0 turmite_max_ants drain_slot (record s { draining = true; paused = false }))

-- One round of the loop of `scheduler_drain_complete`.
abbrev pub drain_check : ℕ → Bool × Scheduler → Bool × Scheduler
drain_check i (complete, s) =
    let s1 = if s.draining then with_colony s (retire_draining s.colony i) else s in
    if (ant_at s i).flags.leased
    then (false, s)
    else if (ant_at s1 i).flags.enabled
    then (false, s1)
    else (complete, s1)

unfoldable pub scheduler_drain_complete : Scheduler → Bool × Scheduler
scheduler_drain_complete s = for_range 0 turmite_max_ants drain_check (s.draining, s)

unfoldable pub scheduler_active_population : Scheduler → ℕ
scheduler_active_population s = s.colony.active_population
