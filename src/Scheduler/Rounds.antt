-- ===== src/Scheduler/Rounds.antt =====
-- A round of the selection: what it does to the best ant so far, and what it leaves alone.
use turmite_linux.Prelude.{
  ℕ, ◌≡◌, ◌≢◌, refl, ◌∙◌, ap, Bool, true, false, ◌||◌, leb, if◌then◌else◌, arith, Bool-cases, inl,
  inr, ◌&&◌, not, ◌⊎◌, ◌>>◌,
}
use turmite_linux.Prelude.Int.{ℤ}
use turmite_linux.Ant.Types.{Ant, AntColony}
use turmite_linux.Ant.Move.{ant_release_occupancy}
use turmite_linux.Scheduler.Types.{Scheduler, LongDouble, ant_at, with_colony}
use turmite_linux.Scheduler.Tokens.{runnable, accrue_tokens, retire_draining}
use turmite_linux.Scheduler.Select.{
  Best, better, service_minimum, required_tokens, weigh, select_pass,
}
use turmite_linux.Scheduler.Refill.{accrue_frame, accrue_self, accrue_other}
use turmite_linux.Scheduler.Drain.{retire_other}

-- An ant that may be leased: it is runnable, and its whole tokens reach the service threshold.
unfoldable pub ready : Scheduler → ℕ → Bool
ready s i =
    let a = ant_at s i in
    runnable a && leb (required_tokens (service_minimum s) a a.flags.draining) (a.tokens_fp >> 16)

retire_self :
    (c : AntColony) (i : ℕ)
    → (retire_draining c i ≡ c) ⊎ (((retire_draining c i).ants i).flags.enabled ≡ false)
unfolding retire_draining ant_release_occupancy
retire_self c i = ground arith

-- What a round does to the best ant: nothing, if the ant is not ready afterwards, or it weighs it.
abbrev pub Weighed : ℕ → Best → Best × Scheduler → Type 0
Weighed i best out =
    ((out.0 ≡ best) × (ready out.1 i ≡ false))
    ⊎ ((out.0 ≡ better best i (out.1.fair_credit i)) × (ready out.1 i ≡ true))

pub stopped : (a : Ant) → a.flags.enabled ≡ false → runnable a ≡ false
unfolding runnable
stopped a off = ground arith

weigh-Weighed :
    (i : ℕ) (draining : Bool) (best : Best) (s : Scheduler)
    → (draining ≡ (ant_at s i).flags.draining) ⊎ ((ant_at s i).flags.enabled ≡ false)
    → Weighed i best (weigh i draining (best, s))
unfolding weigh ready
weigh-Weighed i draining best s (inl e) = ground arith
weigh-Weighed i draining best s (inr off) = ground (arith, stopped (ant_at s i) off)

pub skipped :
    (s : Scheduler) (i : ℕ)
    → let f = (ant_at s i).flags in
      (not f.enabled || (f.leased || f.clobbered || f.expired || f.displaced)) ≡ true
      → ready s i ≡ false
unfolding ready runnable
skipped s i h = ground arith

-- A retirement either does nothing or disables the ant.
retired_flags :
    (s t : Scheduler) (i : ℕ) (draining : Bool)
    → draining ≡ (ant_at t i).flags.draining
    → let r = if draining then with_colony t (retire_draining t.colony i) else t in
      (draining ≡ (ant_at r i).flags.draining) ⊎ ((ant_at r i).flags.enabled ≡ false)
retired_flags s t i true e = elim (retire_self t.colony i) [
  | inl same ↦ inl (rw same e)
  | inr off ↦ inr off
]
retired_flags s t i false e = inl e

pub select_pass-Weighed :
    (ld : LongDouble) (now i : ℕ) (best : Best) (s : Scheduler)
    → Weighed i best (select_pass ld now i (best, s))
unfolding select_pass
select_pass-Weighed ld now i best s =
    let f = (ant_at s i).flags in
    let skip = not f.enabled || (f.leased || f.clobbered || f.expired || f.displaced) in
    elim (Bool-cases skip) [
      | inl e ↦ rw e (inl (refl, skipped s i e))
      | inr e ↦ rw e (
          weigh-Weighed i f.draining best _ (
            retired_flags s (accrue_tokens ld s i now) i f.draining
              (ground (arith, accrue_self ld s i now))))
    ]

retire_keeps :
    (s t : Scheduler) (i j : ℕ) (draining : Bool)
    → i ≢ j
    → ant_at t j ≡ ant_at s j
    → let r = if draining then with_colony t (retire_draining t.colony i) else t in
      (ant_at r j ≡ ant_at s j)
      × (r.fair_credit ≡ t.fair_credit)
      × (r.quantum ≡ t.quantum)
      × (r.min_service ≡ t.min_service)
retire_keeps s t i j true ne e = (retire_other t.colony i j ne ∙ e, refl, refl, refl)
retire_keeps s t i j false ne e = (e, refl, refl, refl)

-- What a round says of another ant: its record, its credit and the settings are as before.
abbrev pub Kept : ℕ → Scheduler → Scheduler → Type 0
Kept j s t =
    (ant_at t j ≡ ant_at s j)
    × (t.fair_credit j ≡ s.fair_credit j)
    × (t.quantum ≡ s.quantum)
    × (t.min_service ≡ s.min_service)

weigh-Kept :
    (i j : ℕ) (draining : Bool) (best : Best) (s : Scheduler)
    → i ≢ j
    → Kept j s (weigh i draining (best, s)).1
unfolding weigh
weigh-Kept i j draining best s ne = ground arith

pub select_pass-Kept :
    (ld : LongDouble) (now i j : ℕ) (best : Best) (s : Scheduler)
    → i ≢ j
    → Kept j s (select_pass ld now i (best, s)).1
unfolding select_pass
select_pass-Kept ld now i j best s ne =
    let f = (ant_at s i).flags in
    let t = accrue_tokens ld s i now in
    let r = if f.draining then with_colony t (retire_draining t.colony i) else t in
    let kr = retire_keeps s t i j f.draining ne (accrue_other ld s i j now ne) in
    let fr = accrue_frame ld s i now in
    let kw = weigh-Kept i j f.draining best r ne in
    let skip = not f.enabled || (f.leased || f.clobbered || f.expired || f.displaced) in
    elim (Bool-cases skip) [
      | inl e ↦ rw e (refl, refl, refl, refl)
      | inr e ↦ rw e (
        kw.0 ∙ kr.0,
        kw.1 ∙ ap (λ (g : ℕ → ℤ). g j) (kr.1 ∙ fr.8),
        kw.2 ∙ kr.2 ∙ fr.6,
        kw.3 ∙ kr.3 ∙ fr.7,
      )
    ]

pub ready-Kept : (j : ℕ) (s t : Scheduler) → Kept j s t → ready t j ≡ ready s j
unfolding ready
ready-Kept j s t k = rw (k.0, k.2, k.3)
