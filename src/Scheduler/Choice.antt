-- ===== src/Scheduler/Choice.antt =====
-- Which ant `candidate_locked` picks.
use turmite_linux.Prelude.{
  ℕ, suc, ◌<◌, ◌≡◌, refl, sym, ◌∙◌, ap, Bool, true, if◌then◌else◌, arith, Bool-cases, inl, inr,
  dec_lt, none, some,
}
use mathlib.Core.Bool.{false≢true}
use turmite_linux.Prelude.Int.{ℤ, ◌≤ℤ◌, ◌<ℤ◌, ltb_ℤ}
use turmite_linux.Prelude.Loops.{for_range, for_range_inv}
use turmite_linux.Ant.Types.{turmite_max_ants}
use turmite_linux.Scheduler.Types.{Scheduler, LongDouble}
use turmite_linux.Scheduler.Select.{Best, better, select_pass}
use turmite_linux.Scheduler.Rounds.{ready, select_pass-Weighed, Kept, select_pass-Kept, ready-Kept}

-- The best so far beats a credit: it is no smaller, and larger than that of a lower index.
abbrev pub Beats : Best → ℕ → ℤ → Type 0
Beats none k credit = ⊥
Beats (some (j, best)) k credit = (credit ≤ℤ best) × (k < j → credit <ℤ best)

-- The best so far is a ready ant below `i` with its credit.
abbrev pub Stands : (ℕ → Bool) → ℕ → Best → Scheduler → Type 0
Stands enabled i none s = Unit
Stands enabled i (some (j, best)) s =
    (j < i) × (enabled j ≡ true) × (ready s j ≡ true) × (s.fair_credit j ≡ best)

pub record Leads (enabled : ℕ → Bool) (i : ℕ) (out : Best × Scheduler) : Type 0 where
  pub stands : Stands enabled i out.0 out.1
  pub beats :
      (k : ℕ)
      → k < i
      → enabled k ≡ true
      → ready out.1 k ≡ true
      → Beats out.0 k (out.1.fair_credit k)

Stands-Kept :
    (enabled : ℕ → Bool) (i : ℕ) (best : Best) (s t : Scheduler)
    → ((j : ℕ) → j < i → Kept j s t)
    → Stands enabled i best s
    → Stands enabled (suc i) best t
Stands-Kept enabled i none s t keep h = tt
Stands-Kept enabled i (some (j, b)) s t keep (lt, on, r, c) =
    let k = keep j lt in (omega arith, on, ready-Kept j s t k ∙ r, k.1 ∙ c)

better-Stands :
    (enabled : ℕ → Bool) (i : ℕ) (best : Best) (t : Scheduler)
    → enabled i ≡ true
    → ready t i ≡ true
    → Stands enabled (suc i) best t
    → Stands enabled (suc i) (better best i (t.fair_credit i)) t
better-Stands enabled i none t on r h = (omega arith, on, r, refl)
better-Stands enabled i (some (j, b)) t on r h = elim (Bool-cases (ltb_ℤ b (t.fair_credit i))) [
  | inl e ↦ rw e (omega arith, on, r, refl)
  | inr e ↦ rw e h
]

better-Beats_self :
    (i : ℕ) (best : Best) (credit : ℤ)
    → ((j : ℕ) (b : ℤ) → best ≡ some (j, b) → j < i)
    → Beats (better best i credit) i credit
better-Beats_self i none credit h = (omega arith, λ lt. absurd (omega arith))
better-Beats_self i (some (j, b)) credit h =
    let lt = h j b refl in
    elim (Bool-cases (ltb_ℤ b credit)) [
      | inl e ↦ rw e (omega arith, λ below. absurd (omega arith))
      | inr e ↦ rw e (ground arith, λ below. absurd (omega arith))
    ]

better-Beats :
    (i k : ℕ) (best : Best) (credit old : ℤ)
    → k < i
    → Beats best k old
    → Beats (better best i credit) k old
better-Beats i k none credit old lt h = absurd h
better-Beats i k (some (j, b)) credit old lt h = elim (Bool-cases (ltb_ℤ b credit)) [
  | inl e ↦ rw e (ground arith, λ below. ground arith)
  | inr e ↦ rw e h
]

Stands-below :
    (enabled : ℕ → Bool) (i : ℕ) (best : Best) (s : Scheduler)
    → Stands enabled i best s
    → (j : ℕ) (b : ℤ) → best ≡ some (j, b)
    → j < i
Stands-below enabled i none s h j b e = cc
Stands-below enabled i (some (k, c)) s h j b e = ground arith

module _ (ld : LongDouble) (now : ℕ) (enabled : ℕ → Bool) where
  abbrev pub one_round : ℕ → Best × Scheduler → Best × Scheduler
  one_round i out = if enabled i then select_pass ld now i out else out

  round-Leads :
      (i : ℕ) (out : Best × Scheduler)
      → Leads enabled i out
      → Leads enabled (suc i) (one_round i out)
  round-Leads i (best, s) l = elim (Bool-cases (enabled i)) [
    | inr off ↦ rw off (record {
      stands = Stands-Kept enabled i best s s (λ j lt. (refl, refl, refl, refl)) l.stands;
      beats = λ k lt on r. elim (dec_lt k i) [
        | yes below ↦ l.beats k below on r
        | no at ↦ let e : k ≡ i = omega arith in absurd (ground (arith, ap enabled e))
      ];
    })
    | inl on ↦ rw on (weighed_round on)
  ]
    where
      t : Scheduler
      t = (select_pass ld now i (best, s)).1

      keep : (j : ℕ) → j < i → Kept j s t
      keep j lt = select_pass-Kept ld now i j best s (omega arith)

      older : (k : ℕ) → k < i → enabled k ≡ true → ready t k ≡ true → Beats best k (t.fair_credit k)
      older k lt on r =
          let kept = keep k lt in rw kept.1 (l.beats k lt on (sym (ready-Kept k s t kept) ∙ r))

      weighed_round : enabled i ≡ true → Leads enabled (suc i) (select_pass ld now i (best, s))
      weighed_round on = elim (select_pass-Weighed ld now i best s) [
        | inl (same, unready) ↦ record {
          stands = rw same (Stands-Kept enabled i best s t keep l.stands);
          beats = λ k lt on' r. elim (dec_lt k i) [
            | yes below ↦ rw same (older k below on' r)
            | no at ↦ let e : k ≡ i = omega arith in absurd (false≢true (sym unready ∙ (rw e at r)))
          ];
        }
        | inr (chosen, is_ready) ↦ record {
          stands = rw chosen (
              better-Stands enabled i best t on is_ready
                (Stands-Kept enabled i best s t keep l.stands));
          beats = λ k lt on' r. elim (dec_lt k i) [
            | yes below ↦ rw chosen (
                better-Beats i k best (t.fair_credit i) (t.fair_credit k) below
                  (older k below on' r))
            | no at ↦
                let e : k ≡ i = omega arith in
                rw (chosen, e)
                  (better-Beats_self i best (t.fair_credit i)
                    (Stands-below enabled i best s l.stands))
          ];
        }
      ]

  pub all-Leads :
      (s : Scheduler)
      → Leads enabled turmite_max_ants (for_range 0 turmite_max_ants one_round (none, s))
  all-Leads s =
      for_range_inv (Leads enabled) one_round turmite_max_ants (λ i out lt h. round-Leads i out h) 0
        turmite_max_ants (none, s) (omega arith)
        (record { stands = tt; beats = λ k lt. absurd (omega arith) })
