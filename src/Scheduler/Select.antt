-- ===== src/Scheduler/Select.antt =====
-- src/scheduler.c: deadlines, the choice of the next ant, and leases.
use turmite_linux.Prelude.{
  ℕ, zero, suc, ◌+◌, ◌-◌, ◌*◌, Bool, true, ◌||◌, not, Option, none, some, List, [], ◌∷◌, ltb, leb,
  ◌==◌, if◌then◌else◌, u64, sub_u64, uint64_max, update, ◌>>◌, min,
}
use turmite_linux.Prelude.Int.{ℤ, pos, ◌+ℤ◌, ◌-ℤ◌, ltb_ℤ}
use turmite_linux.Prelude.Loops.{for_range}
use turmite_linux.Ant.Types.{Ant, token_fp_one, turmite_max_ants}
use turmite_linux.Scheduler.Types.{Scheduler, LongDouble, ant_at, with_colony, store_ant}
use turmite_linux.Scheduler.Tokens.{or_one, accrue_tokens, retire_draining, runnable, recover_ant}

unfoldable pub earlier_deadline : Scheduler → ℕ → Scheduler
earlier_deadline s deadline =
    if ltb deadline s.next_wake_us then record s { next_wake_us = deadline } else s

unfoldable pub token_deadline : LongDouble → Scheduler → ℕ → ℕ → ℕ → Scheduler
token_deadline ld s index tokens required =
    let rate = u64 ((ant_at s index).token_rate * s.token_rate_scale) in
    let (us, cut) =
      ld.delay (sub_u64 (u64 (required * token_fp_one)) tokens) s.token_rate_divisor rate in
    let last = s.last_token_us index in
    if rate == 0 || s.draining
    then s
    else if leb (uint64_max - last) us
    then s
    else earlier_deadline s (u64 (last + (if cut then us + 1 else us)))

-- The loops over the bits of `enabled`, as read at the start.
abbrev pub for_bits {ℓ} : {S : Type ℓ} → (ℕ → Bool) → (ℕ → S → S) → S → S
for_bits enabled body = for_range 0 turmite_max_ants (λ i s. if enabled i then body i s else s)

-- First pass: retire and recover.
unfoldable pub recover_pass : ℕ → ℕ → Scheduler → Scheduler
recover_pass now_us i s =
    let f = (ant_at s i).flags in
    let s1 = if s.draining then with_colony s (retire_draining s.colony i) else s in
    let s2 = if f.clobbered || f.halted || f.waiting then recover_ant s1 i now_us else s1 in
    let g = (ant_at s2 i).flags in
    if f.leased
    then s
    else if ltb now_us (s2.recovery_at_us i)
    then earlier_deadline s2 (s2.recovery_at_us i)
    else if g.waiting || g.clobbered || g.halted
    then earlier_deadline s2 (u64 (now_us + 1000))
    else s2

-- The service threshold: at least one, at most the quantum.
abbrev pub service_minimum : Scheduler → ℕ
service_minimum s = min (or_one s.min_service) (or_one s.quantum)

unfoldable pub required_tokens : ℕ → Ant → Bool → ℕ
required_tokens minimum ant draining =
    let capacity = ant.token_capacity_fp >> 16 in
    let required = min minimum capacity in if draining || required == 0 then 1 else required

-- The best ant so far, with its credit. The first candidate beats `-DBL_MAX`.
abbrev pub Best : Type 0
Best = Option (ℕ × ℤ)

abbrev pub better : Best → ℕ → ℤ → Best
better none i credit = some (i, credit)
better (some (j, best)) i credit = if ltb_ℤ best credit then some (i, credit) else some (j, best)

-- The end of a round of the second pass: the credit rises by the weight, if the ant may run.
unfoldable pub weigh : ℕ → Bool → Best × Scheduler → Best × Scheduler
weigh i draining (best, s) =
    let ant = ant_at s i in
    let whole = ant.tokens_fp >> 16 in
    let credit = s.fair_credit i +ℤ pos (or_one ant.weight) in
    let weighed = record s { fair_credit = update s.fair_credit i credit } in
    if not (runnable ant)
    then (best, s)
    else if ltb whole (required_tokens (service_minimum s) ant draining)
    then (best, s)
    else (better best i credit, weighed)

-- Second pass: refill, retire, and weigh what may run.
unfoldable pub select_pass : LongDouble → ℕ → ℕ → Best × Scheduler → Best × Scheduler
select_pass ld now_us i (best, s) =
    let f = (ant_at s i).flags in
    let s1 = accrue_tokens ld s i now_us in
    let s2 = if f.draining then with_colony s1 (retire_draining s1.colony i) else s1 in
    if not f.enabled || (f.leased || f.clobbered || f.expired || f.displaced)
    then (best, s)
    else weigh i f.draining (best, s2)

-- Third pass, on the idle path: the earliest refill.
unfoldable pub deadline_pass : LongDouble → ℕ → Scheduler → Scheduler
deadline_pass ld i s =
    let ant = ant_at s i in
    let required = required_tokens (service_minimum s) ant ant.flags.draining in
    if not (runnable ant)
    then s
    else if ltb (ant.tokens_fp >> 16) required
    then token_deadline ld s i ant.tokens_fp required
    else s

-- With no ant to run the deadlines are computed.
abbrev pub or_deadlines : LongDouble → (ℕ → Bool) → Best × Scheduler → Best × Scheduler
or_deadlines ld enabled (none, s) = (none, for_bits enabled (deadline_pass ld) s)
or_deadlines ld enabled (some best, s) = (some best, s)

unfoldable pub candidate_locked : LongDouble → Scheduler → ℕ → Best × Scheduler
candidate_locked ld s now_us =
    let fresh = record s { next_wake_us = uint64_max } in
    let enabled = s.colony.enabled_mask in
    let recovered = for_bits enabled (recover_pass now_us) fresh in
    let chosen = for_bits enabled (select_pass ld now_us) (none, recovered) in
    if s.stopping
    then (none, fresh)
    else if recovered.paused
    then (none, record recovered { next_wake_us = uint64_max })
    else or_deadlines ld enabled chosen

-- The lease of ant `i`, with the grant.
unfoldable pub lease_locked : Scheduler → ℕ → ℕ × Scheduler
lease_locked s i =
    let a = ant_at s i in
    let f = a.flags in
    let grant = min (or_one s.quantum) (a.tokens_fp >> 16) in
    let s1 = store_ant s i (record a { flags = record f { leased = true } }) in
    (
      grant,
      record s1 {
        dispatches = u64 (s1.dispatches + 1);
        granted_instructions = u64 (s1.granted_instructions + grant);
      },
    )

-- How `scheduler_acquire` ends, or what it waits for: a signal, or a signal or a time.
pub data Acquired : Type 0 where
  leased : ℕ → ℕ → Acquired
  stopped : Acquired
  waiting : Option ℕ → Acquired

-- A lease of the best ant, or a wait.
abbrev pub take_or_wait : Scheduler → Scheduler → Option ℕ → Best → Acquired × Scheduler
take_or_wait s idle deadline none = (waiting deadline, idle)
take_or_wait s idle deadline (some (i, credit)) =
    let (grant, s2) = lease_locked s i in (leased i grant, s2)

-- One round of its loop; `clock` is the time read before a timed wait.
unfoldable pub acquire_round : LongDouble → Scheduler → ℕ → ℕ → Acquired × Scheduler
acquire_round ld s now_us clock =
    let (best, s1) = candidate_locked ld s now_us in
    let idle = record s1 {
      empty_scans = u64 (s1.empty_scans + 1);
      idle_waits = u64 (s1.idle_waits + 1);
    } in
    let earliest = u64 (clock + 1000) in
    let deadline = if ltb s1.next_wake_us earliest then earliest else s1.next_wake_us in
    if s.stopping
    then (stopped, s)
    else take_or_wait s1 idle (if s1.next_wake_us == uint64_max then none else some deadline) best

-- A wake-up: what the other threads did to the scheduler while this one waited, and the clock
-- before and after.
pub record WakeUp : Type 0 where
  pub others : Scheduler → Scheduler
  pub now_us : ℕ
  pub clock : ℕ

-- `waiting` if the worker still waits after the last wake-up.
unfoldable pub scheduler_acquire :
    LongDouble → List WakeUp → Scheduler → ℕ → ℕ → Acquired × Scheduler
scheduler_acquire ld [] s now_us clock = acquire_round ld s now_us clock
scheduler_acquire ld (w ∷ ws) s now_us clock =
    let (out, s1) = acquire_round ld s now_us clock in
    elim out [
      | waiting d ↦ scheduler_acquire ld ws (w.others s1) w.now_us w.clock
      | leased i grant ↦ (leased i grant, s1)
      | stopped ↦ (stopped, s1)
    ]

-- The winner of a group so far: the member, its ant and the score.
abbrev pub Winner : Type 0
Winner = Option (ℕ × ℕ × ℤ)

abbrev pub group_better : Winner → ℕ → Best → Winner
group_better w i none = w
group_better none i (some (ant, score)) = some (i, ant, score)
group_better (some (k, a, best)) i (some (ant, score)) =
    if ltb_ℤ best score then some (i, ant, score) else some (k, a, best)

-- Every member offers its candidate; a null member is skipped.
unfoldable pub group_scan :
    LongDouble → ℕ → ℕ → List (Option Scheduler) → Winner → Winner × List (Option Scheduler)
group_scan ld now_us i [] w = (w, [])
group_scan ld now_us i (none ∷ ms) w =
    let (w', ms') = group_scan ld now_us (suc i) ms w in (w', none ∷ ms')
group_scan ld now_us i (some s ∷ ms) w =
    let (best, s') = candidate_locked ld s now_us in
    let (w', ms') = group_scan ld now_us (suc i) ms (group_better w i best) in (w', some s' ∷ ms')

unfoldable pub recenter : ℤ → Scheduler → Scheduler
recenter best s = if s.paused || s.stopping then s else record s {
  fair_credit = λ j. if ltb j turmite_max_ants then s.fair_credit j -ℤ best else s.fair_credit j;
}

abbrev pub map_members : (Scheduler → Scheduler) → List (Option Scheduler) → List (Option Scheduler)
map_members f [] = []
map_members f (none ∷ ms) = none ∷ map_members f ms
map_members f (some s ∷ ms) = some (f s) ∷ map_members f ms

-- The lease at a member's index, with the grant.
unfoldable pub lease_member : ℕ → ℕ → List (Option Scheduler) → ℕ × List (Option Scheduler)
lease_member k ant [] = (0, [])
lease_member zero ant (none ∷ ms) = (0, none ∷ ms)
lease_member zero ant (some s ∷ ms) = let (grant, s') = lease_locked s ant in (grant, some s' ∷ ms)
lease_member (suc k) ant (m ∷ ms) = let (grant, ms') = lease_member k ant ms in (grant, m ∷ ms')

abbrev pub count_idle : Scheduler → Scheduler
count_idle s = record s {
  empty_scans = u64 (s.empty_scans + 1);
  idle_waits = u64 (s.idle_waits + 1);
}

-- The result is the member, the ant and the grant, if an ant was leased.
unfoldable pub scheduler_acquire_group :
    LongDouble → List (Option Scheduler) → ℕ → Option (ℕ × ℕ × ℕ) × List (Option Scheduler)
scheduler_acquire_group ld members now_us =
    let (w, scanned) = group_scan ld now_us 0 members none in
    elim w [
      | none ↦ (none, map_members count_idle scanned)
      | some (k, ant, score) ↦
          let (grant, leased_members) = lease_member k ant (map_members (recenter score) scanned) in
          (some (k, ant, grant), leased_members)
    ]
