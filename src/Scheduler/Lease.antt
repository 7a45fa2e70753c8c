-- ===== src/Scheduler/Lease.antt =====
-- What the scheduler hands to a worker.
use turmite_linux.Prelude.{
  ℕ, ◌*◌, ◌≤◌, ◌<◌, ◌≡◌, refl, sym, ◌∙◌, Bool, true, false, if◌then◌else◌, arith, Bool-cases, inl,
  inr, ◌⊎◌, Option, none, some, ◌>>◌, uint64_max, dec_lt, ◌||◌,
}
use mathlib.Core.Path.{subst}
use mathlib.Core.Bool.{false≢true}
use turmite_linux.Prelude.Int.{ℤ, ◌≤ℤ◌, ◌<ℤ◌}
use turmite_linux.Prelude.Loops.{for_range_keep}
use turmite_linux.Ant.Types.{Ant, token_fp_one, turmite_max_ants}
use turmite_linux.Ant.Quantum.{idle_flags}
use turmite_linux.Scheduler.Types.{Scheduler, LongDouble, ant_at}
use turmite_linux.Scheduler.Tokens.{or_one, runnable}
use turmite_linux.Scheduler.Select.{
  Best, required_tokens, service_minimum, earlier_deadline, token_deadline, deadline_pass,
  or_deadlines, take_or_wait, candidate_locked, for_bits, recover_pass, select_pass, lease_locked,
  acquire_round, leased, stopped,
}
use turmite_linux.Scheduler.Rounds.{ready}
use turmite_linux.Scheduler.Choice.{Beats, Stands, Leads, all-Leads}

-- Deadlines are only written to `next_wake_us`.
abbrev Timed : Scheduler → Scheduler → Type 0
Timed s t = (t.colony ≡ s.colony) × (t.quantum ≡ s.quantum) × (t.min_service ≡ s.min_service)

deadline_pass-Timed : (ld : LongDouble) (i : ℕ) (s : Scheduler) → Timed s (deadline_pass ld i s)
unfolding deadline_pass token_deadline earlier_deadline
deadline_pass-Timed ld i s = ground arith

deadlines-Timed :
    (ld : LongDouble) (enabled : ℕ → Bool) (s : Scheduler)
    → Timed s (for_bits enabled (deadline_pass ld) s)
deadlines-Timed ld enabled s =
    for_range_keep (Timed s) _
      (λ i t h. elim (Bool-cases (enabled i)) [
        | inl on ↦ rw on (let d = deadline_pass-Timed ld i t in (d.0 ∙ h.0, d.1 ∙ h.1, d.2 ∙ h.2))
        | inr off ↦ rw off h
      ])
      0 turmite_max_ants s (refl, refl, refl)

ready-Timed : (s t : Scheduler) (k : ℕ) → Timed s t → ready t k ≡ ready s k
unfolding ready
ready-Timed s t k e = rw (e.0, e.1, e.2)

-- What a choice means: a ready ant whose credit no ready ant beats, or no ant, because the
-- scheduler stops or is paused or no enabled ant is ready.
abbrev Chosen : Scheduler → Best → Scheduler → Type 0
Chosen s none t =
    (s.stopping ≡ true)
    ⊎ (t.paused ≡ true)
    ⊎ ((k : ℕ) → k < turmite_max_ants → s.colony.enabled_mask k ≡ true → ready t k ≡ false)
Chosen s (some (j, credit)) t =
    Stands s.colony.enabled_mask turmite_max_ants (some (j, credit)) t
    × ((k : ℕ)
        → k < turmite_max_ants
        → s.colony.enabled_mask k ≡ true
        → ready t k ≡ true
        → Beats (some (j, credit)) k (t.fair_credit k))

or_deadlines-Chosen :
    (ld : LongDouble) (s : Scheduler) (best : Best) (t : Scheduler)
    → Leads s.colony.enabled_mask turmite_max_ants (best, t)
    → let out = or_deadlines ld s.colony.enabled_mask (best, t) in Chosen s out.0 out.1
or_deadlines-Chosen ld s none t l =
    let d = deadlines-Timed ld s.colony.enabled_mask t in
    inr (
      inr λ k lt on. elim (Bool-cases (ready t k)) [
        | inl r ↦ absurd (l.beats k lt on r)
        | inr e ↦ ready-Timed t _ k d ∙ e
      ])
or_deadlines-Chosen ld s (some (j, credit)) t l = (l.stands, l.beats)

decision-Chosen :
    (s : Scheduler) (st pa : Bool) (x y z : Best × Scheduler)
    → (st ≡ true → Chosen s x.0 x.1)
    → (pa ≡ true → Chosen s y.0 y.1)
    → Chosen s z.0 z.1
    → let out = if st then x else if pa then y else z in Chosen s out.0 out.1
decision-Chosen s true pa x y z hx hy hz = hx refl
decision-Chosen s false true x y z hx hy hz = hy refl
decision-Chosen s false false x y z hx hy hz = hz

candidate_locked-Chosen :
    (ld : LongDouble) (s : Scheduler) (now : ℕ)
    → let out = candidate_locked ld s now in Chosen s out.0 out.1
unfolding candidate_locked
candidate_locked-Chosen ld s now =
    let enabled = s.colony.enabled_mask in
    let fresh = record s { next_wake_us = uint64_max } in
    let recovered = for_bits enabled (recover_pass now) fresh in
    decision-Chosen s s.stopping recovered.paused (none, fresh)
      (none, record recovered { next_wake_us = uint64_max })
      (or_deadlines ld enabled (for_bits enabled (select_pass ld now) (none, recovered)))
      (λ e. inl e) (λ e. inr (inl e))
      (or_deadlines-Chosen ld s (for_bits enabled (select_pass ld now) (none, recovered)).0
        (for_bits enabled (select_pass ld now) (none, recovered)).1
        (all-Leads ld now enabled recovered))

-- When `candidate_locked` picks an ant, and `k` is any ant of the mask that is ready after its
-- refill, recovery and retirement: the pick is a slot of the mask, is ready too, and has the
-- credit reported; and against `k` its credit is greater, or no less with an index that is no
-- higher.
pub candidate_locked_best :
    (ld : LongDouble) (s : Scheduler) (now j k : ℕ) (credit : ℤ)
    → let out = candidate_locked ld s now in
      out.0 ≡ some (j, credit)
      → k < turmite_max_ants
      → s.colony.enabled_mask k ≡ true
      → ready out.1 k ≡ true
      → (j < turmite_max_ants)
        × (s.colony.enabled_mask j ≡ true)
        × (ready out.1 j ≡ true)
        × (out.1.fair_credit j ≡ credit)
        × ((out.1.fair_credit k <ℤ credit) ⊎ ((out.1.fair_credit k ≤ℤ credit) × (j ≤ k)))
candidate_locked_best ld s now j k credit e lt on r =
    let h : Chosen s (some (j, credit)) (candidate_locked ld s now).1 =
      subst (λ (b : Best). Chosen s b (candidate_locked ld s now).1) e
        (candidate_locked-Chosen ld s now) in
    let b = h.1 k lt on r in
    (
      h.0.0,
      h.0.1,
      h.0.2,
      h.0.3,
      elim (dec_lt k j) [ yes below ↦ inl (b.1 below) | no above ↦ inr (b.0, omega arith) ],
    )

-- No ready ant is passed over: if `candidate_locked` picks none and the scheduler neither stops
-- nor is paused, then no ant of the mask is ready.
pub candidate_locked-none :
    (ld : LongDouble) (s : Scheduler) (now k : ℕ)
    → let out = candidate_locked ld s now in
      out.0 ≡ none
      → s.stopping ≡ false
      → out.1.paused ≡ false
      → k < turmite_max_ants
      → s.colony.enabled_mask k ≡ true
      → ready out.1 k ≡ false
candidate_locked-none ld s now k e running awake lt on =
    let h : Chosen s none (candidate_locked ld s now).1 =
      subst (λ (b : Best). Chosen s b (candidate_locked ld s now).1) e
        (candidate_locked-Chosen ld s now) in
    elim h [
      | inl stop ↦ absurd (false≢true (sym running ∙ stop))
      | inr (inl pause) ↦ absurd (false≢true (sym awake ∙ pause))
      | inr (inr all) ↦ all k lt on
    ]

-- A lease of a ready ant grants at least one instruction, no more than the quantum and no more
-- than the balance pays for; the ant may run, and no other ant is touched.
abbrev pub Granted : ℕ → ℕ → Scheduler → Type 0
Granted i grant s =
    (1 ≤ grant)
    × (grant ≤ or_one s.quantum)
    × (grant * token_fp_one ≤ (ant_at s i).tokens_fp)
    × ((ant_at s i).flags.leased ≡ true)
    × (idle_flags (ant_at s i).flags ≡ false)

required-pos : (m : ℕ) (a : Ant) (d : Bool) → 1 ≤ required_tokens m a d
unfolding required_tokens
required-pos m a d = ground arith

lease_locked-Granted :
    (s : Scheduler) (i : ℕ)
    → ready s i ≡ true
    → let (grant, t) = lease_locked s i in Granted i grant t
unfolding lease_locked ready runnable
lease_locked-Granted s i r =
    let a = ant_at s i in
    let p = required-pos (service_minimum s) a a.flags.draining in
    let one : 1 ≤ or_one s.quantum = ground arith in
    let whole : 1 ≤ a.tokens_fp >> 16 = ground (arith, p) in
    (ground (arith, one, whole), ground arith, ground arith, ground arith, ground arith)

-- An ant that is ready for a lease: it is enabled, nobody has it, nothing stops it, and its whole
-- tokens reach the service threshold.
pub record Leasable (s : Scheduler) (i : ℕ) : Type 0 where
  pub enabled : (ant_at s i).flags.enabled ≡ true
  pub free : (ant_at s i).flags.leased ≡ false
  pub unhurt : (ant_at s i).flags.clobbered || (ant_at s i).flags.displaced ≡ false
  pub going : (ant_at s i).flags.halted || (ant_at s i).flags.expired ≡ false
  pub awake : (ant_at s i).flags.waiting ≡ false
  pub funded :
      let a = ant_at s i in
      required_tokens (service_minimum s) a a.flags.draining * token_fp_one ≤ a.tokens_fp

ready-Leasable : (s : Scheduler) (i : ℕ) → ready s i ≡ true → Leasable s i
unfolding ready runnable
ready-Leasable s i r = record {
  enabled = ground (arith, r);
  free = ground (arith, r);
  unhurt = ground (arith, r);
  going = ground (arith, r);
  awake = ground (arith, r);
  funded = ground (arith, r);
}

take_or_wait-Granted :
    (s idle : Scheduler) (d : Option ℕ) (best : Best) (enabled : ℕ → Bool) (i grant : ℕ)
    → Stands enabled turmite_max_ants best s
    → (take_or_wait s idle d best).0 ≡ leased i grant
    → (i < turmite_max_ants)
      × (enabled i ≡ true)
      × Leasable s i
      × Granted i grant (take_or_wait s idle d best).1
take_or_wait-Granted s idle d none enabled i grant h e = absurd (ground arith)
take_or_wait-Granted s idle d (some (j, credit)) enabled i grant (lt, on, r, c) e =
    let at : j ≡ i = cc in
    let same : (lease_locked s j).0 ≡ grant = cc in
    rw (sym at, sym same) (lt, on, ready-Leasable s j r, lease_locked-Granted s j r)

acquire_grants :
    (s s1 idle : Scheduler) (d : Option ℕ) (best : Best) (stop : Bool) (i grant : ℕ)
    → Chosen s best s1
    → let out = if stop then (stopped, s) else take_or_wait s1 idle d best in
      out.0 ≡ leased i grant
      → (stop ≡ false)
        × (i < turmite_max_ants)
        × (s.colony.enabled_mask i ≡ true)
        × Leasable s1 i
        × Granted i grant out.1
acquire_grants s s1 idle d none true i grant h e = absurd (ground arith)
acquire_grants s s1 idle d none false i grant h e = absurd (ground arith)
acquire_grants s s1 idle d (some (j, credit)) true i grant h e = absurd (ground arith)
acquire_grants s s1 idle d (some (j, credit)) false i grant h e =
    let r = take_or_wait-Granted s1 idle d (some (j, credit)) s.colony.enabled_mask i grant h.0 e in
    (refl, r.0, r.1, r.2, r.3)

-- A round of `scheduler_acquire` that ends in a lease: the scheduler was not stopping, and the ant
-- is one of the 32 slots and in the mask. After refill, recovery and retirement it was enabled,
-- leased to nobody, stopped by nothing, and its balance covered the service threshold. The grant
-- is at least one instruction, at most the quantum, and paid for by the balance; the ant has the
-- leased flag, and no flag that keeps a burst from running it.
pub acquire_round_lem :
    (ld : LongDouble) (s : Scheduler) (now clock i grant : ℕ)
    → (acquire_round ld s now clock).0 ≡ leased i grant
    → (s.stopping ≡ false)
      × (i < turmite_max_ants)
      × (s.colony.enabled_mask i ≡ true)
      × Leasable (candidate_locked ld s now).1 i
      × Granted i grant (acquire_round ld s now clock).1
unfolding acquire_round
acquire_round_lem ld s now clock i grant e =
    acquire_grants s (candidate_locked ld s now).1 _ _ (candidate_locked ld s now).0 s.stopping i
      grant (candidate_locked-Chosen ld s now) e
