-- ===== src/Scheduler/Frugal.antt =====
-- While a universe drains, choosing an ant creates no tokens.
use turmite_linux.Prelude.{
  ℕ, ◌+◌, ◌≡◌, ◌≢◌, refl, sym, ◌∙◌, Bool, true, false, ◌||◌, not, none, some, ltb, ◌==◌,
  if◌then◌else◌, arith, ◌&&◌, update, uint64_max, u64, ℕ_discrete,
}
use mathlib.Core.Path.{subst}
use turmite_linux.Prelude.Loops.{for_range_keep}
use turmite_linux.Ant.Types.{Flags, AntColony, turmite_max_ants, set_flags}
use turmite_linux.Ant.Life.{ant_mutate_in_place, ant_rebirth_random}
use turmite_linux.Ant.Move.{ant_release_occupancy, ant_try_reclaim_position}
use turmite_linux.Scheduler.Types.{Scheduler, LongDouble, ant_at, with_colony}
use turmite_linux.Scheduler.Tokens.{
  accrue_tokens, retire_draining, recover_ant, recover_ant_from, settle, readmit, reborn, mutated,
  flags_eq,
}
use turmite_linux.Scheduler.Select.{
  Best, for_bits, recover_pass, select_pass, weigh, deadline_pass, or_deadlines, candidate_locked,
  earlier_deadline, token_deadline,
}
use turmite_linux.Scheduler.Drain.{retire_tokens, release_frame}

-- The scheduler `t` still drains, and every balance is that of `s`.
abbrev Saved : Scheduler → Scheduler → Type 0
Saved s t = (t.draining ≡ true) × ((i : ℕ) → (ant_at t i).tokens_fp ≡ (ant_at s i).tokens_fp)

accrue-Saved :
    (ld : LongDouble) (i now : ℕ) (s t : Scheduler) → Saved s t → accrue_tokens ld t i now ≡ t
unfolding accrue_tokens
accrue-Saved ld i now s t h = ground (arith, h.0)

retired-Saved :
    (i : ℕ) (s t : Scheduler) → Saved s t → Saved s (with_colony t (retire_draining t.colony i))
retired-Saved i s t h = (h.0, λ j. retire_tokens t.colony i j ∙ h.1 j)

earlier-Saved : (d : ℕ) (s t : Scheduler) → Saved s t → Saved s (earlier_deadline t d)
unfolding earlier_deadline
earlier-Saved d s t h = (ground (arith, h.0), λ j. ground (arith, h.1 j))

readmit-Saved : (i : ℕ) (s t : Scheduler) → Saved s t → Saved s (readmit t i)
unfolding readmit ant_try_reclaim_position
readmit-Saved i s t h = (ground (arith, h.0), λ j. ground (arith, h.1 j))

mutated-Saved : (i : ℕ) (s t : Scheduler) → Saved s t → Saved s (mutated t i)
unfolding mutated ant_mutate_in_place
mutated-Saved i s t h = (h.0, λ j. ground (arith, h.1 j))

rebirth_other : (c : AntColony) (i j : ℕ) → i ≢ j → (ant_rebirth_random c i).ants j ≡ c.ants j
unfolding ant_rebirth_random
rebirth_other c i j ne = ground arith

reborn-Saved : (i now : ℕ) (s t : Scheduler) → Saved s t → Saved s (reborn t i now)
unfolding reborn
reborn-Saved i now s t h = (
  ground (arith, h.0),
  λ j. elim (ℕ_discrete i j) [
    | yes e ↦ ground (arith, h.0, h.1 j)
    | no ne ↦ ground (arith, h.0, h.1 j, rebirth_other t.colony i j ne)
  ],
)

if-Saved : (s x y : Scheduler) (b : Bool) → Saved s x → Saved s y → Saved s (if b then x else y)
if-Saved s x y true hx hy = hx
if-Saved s x y false hx hy = hy

pair-Saved :
    (s : Scheduler) (x y : Best × Scheduler) (b : Bool)
    → Saved s x.1
    → Saved s y.1
    → Saved s (if b then x else y).1
pair-Saved s x y true hx hy = hx
pair-Saved s x y false hx hy = hy

settle-Saved : (f : Flags) (i now : ℕ) (s t : Scheduler) → Saved s t → Saved s (settle t f i now)
unfolding settle
settle-Saved f i now s t h =
    let flagged =
      set_flags t.colony i
        (record f { clobbered = false; halted = false; displaced = false; waiting = true }) in
    let cleared : Scheduler =
      with_colony (record t { recovery_at_us = update t.recovery_at_us i 0 })
        (ant_release_occupancy flagged i) in
    let held : Saved s cleared = (h.0, λ j. ground (arith, h.1 j, (release_frame flagged i).0)) in
    if-Saved s (reborn cleared i now) (if t.collision_mutation then mutated cleared i else cleared)
      f.halted (reborn-Saved i now s cleared held)
      (if-Saved s (mutated cleared i) cleared t.collision_mutation (mutated-Saved i s cleared held)
        held)

recover-Saved : (i now : ℕ) (s t : Scheduler) → Saved s t → Saved s (recover_ant t i now)
unfolding recover_ant recover_ant_from
recover-Saved i now s t h =
    let f = (ant_at t i).flags in
    let paused : Saved s
        (record t { recovery_at_us = update t.recovery_at_us i (u64 (now + 50000)) }) =
      (h.0, h.1) in
    let again = readmit-Saved i s t h in
    let mended = readmit-Saved i s (settle t f i now) (settle-Saved f i now s t h) in
    if-Saved s _ _ (not f.enabled || f.leased) h (
      if-Saved s _ _ (f.clobbered || f.halted)
        (if-Saved s _ _ (not f.halted && t.recovery_at_us i == 0) paused (
          if-Saved s _ _ (not f.halted && ltb now (t.recovery_at_us i)) h
            (if-Saved s _ _ (not (flags_eq f f)) h mended)))
        again)

recover_pass-Saved : (now i : ℕ) (s t : Scheduler) → Saved s t → Saved s (recover_pass now i t)
unfolding recover_pass
recover_pass-Saved now i s t h =
    let f = (ant_at t i).flags in
    let t1 = if t.draining then with_colony t (retire_draining t.colony i) else t in
    let h1 : Saved s t1 = if-Saved s _ _ t.draining (retired-Saved i s t h) h in
    let t2 = if f.clobbered || f.halted || f.waiting then recover_ant t1 i now else t1 in
    let h2 : Saved s t2 =
      if-Saved s _ _ (f.clobbered || f.halted || f.waiting) (recover-Saved i now s t1 h1) h1 in
    let g = (ant_at t2 i).flags in
    if-Saved s _ _ f.leased h (
      if-Saved s _ _ (ltb now (t2.recovery_at_us i)) (earlier-Saved (t2.recovery_at_us i) s t2 h2) (
        if-Saved s _ _ (g.waiting || g.clobbered || g.halted)
          (earlier-Saved (u64 (now + 1000)) s t2 h2) h2))

weigh-Saved :
    (i : ℕ) (draining : Bool) (best : Best) (s t : Scheduler)
    → Saved s t
    → Saved s (weigh i draining (best, t)).1
unfolding weigh
weigh-Saved i draining best s t h = (ground (arith, h.0), λ j. ground (arith, h.1 j))

select_pass-Saved :
    (ld : LongDouble) (now i : ℕ) (best : Best) (s t : Scheduler)
    → Saved s t
    → Saved s (select_pass ld now i (best, t)).1
unfolding select_pass
select_pass-Saved ld now i best s t h =
    let f = (ant_at t i).flags in
    let t1 = accrue_tokens ld t i now in
    let h1 : Saved s t1 = subst (Saved s) (sym (accrue-Saved ld i now s t h)) h in
    let t2 = if f.draining then with_colony t1 (retire_draining t1.colony i) else t1 in
    let h2 : Saved s t2 = if-Saved s _ _ f.draining (retired-Saved i s t1 h1) h1 in
    pair-Saved s (best, t) (weigh i f.draining (best, t2))
      (not f.enabled || (f.leased || f.clobbered || f.expired || f.displaced)) h
      (weigh-Saved i f.draining best s t2 h2)

deadline_pass-Saved :
    (ld : LongDouble) (i : ℕ) (s t : Scheduler) → Saved s t → Saved s (deadline_pass ld i t)
unfolding deadline_pass token_deadline earlier_deadline
deadline_pass-Saved ld i s t h = (ground (arith, h.0), λ j. ground (arith, h.1 j))

or_deadlines-Saved :
    (ld : LongDouble) (enabled : ℕ → Bool) (s : Scheduler) (best : Best) (t : Scheduler)
    → Saved s t
    → Saved s (or_deadlines ld enabled (best, t)).1
or_deadlines-Saved ld enabled s none t h =
    for_range_keep (Saved s) _
      (λ i u hu. if-Saved s _ _ (enabled i) (deadline_pass-Saved ld i s u hu) hu) 0 turmite_max_ants
      t h
or_deadlines-Saved ld enabled s (some best) t h = h

-- While the universe drains, `candidate_locked` changes no balance, whatever it retires, recovers
-- or picks: no token is created, and none is lost.
pub candidate_locked_draining :
    (ld : LongDouble) (s : Scheduler) (now i : ℕ)
    → s.draining ≡ true
    → let t = (candidate_locked ld s now).1 in
      (t.draining ≡ true) × ((ant_at t i).tokens_fp ≡ (ant_at s i).tokens_fp)
unfolding candidate_locked
candidate_locked_draining ld s now i d =
    let enabled = s.colony.enabled_mask in
    let fresh = record s { next_wake_us = uint64_max } in
    let recovered = for_bits enabled (recover_pass now) fresh in
    let hr : Saved s recovered =
      for_range_keep (Saved s) _
        (λ j u hu. if-Saved s _ _ (enabled j) (recover_pass-Saved now j s u hu) hu) 0
        turmite_max_ants fresh (d, λ j. refl) in
    let chosen = for_bits enabled (select_pass ld now) (none, recovered) in
    let hc : Saved s chosen.1 =
      for_range_keep (λ (out : Best × Scheduler). Saved s out.1) _
        (λ j out hu. pair-Saved s _ _ (enabled j) (select_pass-Saved ld now j out.0 s out.1 hu) hu)
        0 turmite_max_ants (none, recovered) hr in
    let all =
      pair-Saved s (none, fresh) _ s.stopping (d, λ j. refl)
        (pair-Saved s (none, record recovered { next_wake_us = uint64_max }) _ recovered.paused
          (hr.0, hr.1) (or_deadlines-Saved ld enabled s chosen.0 chosen.1 hc)) in
    (all.0, all.1 i)
