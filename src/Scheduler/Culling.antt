-- ===== src/Scheduler/Culling.antt =====
-- Culling: which ant goes first, and how many go.
use turmite_linux.Prelude.{
  ℕ, zero, suc, ◌+◌, ◌-◌, ◌≤◌, ◌<◌, ◌≡◌, refl, sym, ◌∙◌, ap, Bool, true, false, ◌||◌, not, Option,
  none, some, ltb, leb, if◌then◌else◌, arith, Bool-cases, inl, inr, ◌&&◌, ◌⊎◌, dec_lt, Option-cases,
}
use mathlib.Core.Path.{subst}
use mathlib.Core.Bool.{false≢true}
use turmite_linux.Prelude.Loops.{for_range_inv}
use turmite_linux.Ant.Types.{turmite_max_ants}
use turmite_linux.Scheduler.Types.{Scheduler, ant_at, notify_locked}
use turmite_linux.Scheduler.Control.{
  weaker, weakest, mark_draining, cull_loop, scheduler_begin_culling,
}
use turmite_linux.Prelude.Tally.{tally, tally_add}

-- An ant that culling may mark.
abbrev pub cullable : Scheduler → ℕ → Bool
cullable s i = let f = (ant_at s i).flags in f.enabled && not (f.leased || f.draining)

-- The weakest so far of the ants below `i`.
Weakest : Scheduler → ℕ → Option (ℕ × ℕ) → Type 0
Weakest s i none = (k : ℕ) → k < i → cullable s k ≡ false
Weakest s i (some (j, t)) =
    (j < i)
    × (cullable s j ≡ true)
    × (t ≡ (ant_at s j).tokens_fp)
    × ((k : ℕ)
        → k < i
        → cullable s k ≡ true
        → (t < (ant_at s k).tokens_fp) ⊎ ((t ≤ (ant_at s k).tokens_fp) × (j ≤ k)))

skipped : (s : Scheduler) (i : ℕ) (v : Option (ℕ × ℕ)) → cullable s i ≡ false → weaker s i v ≡ v
skipped s i v e = ground arith

first :
    (s : Scheduler) (i : ℕ)
    → cullable s i ≡ true
    → weaker s i none ≡ some (i, (ant_at s i).tokens_fp)
first s i e = ground arith

lighter :
    (s : Scheduler) (i j t : ℕ)
    → cullable s i ≡ true
    → weaker s i (some (j, t))
      ≡ (if ltb (ant_at s i).tokens_fp t then some (i, (ant_at s i).tokens_fp) else some (j, t))
lighter s i j t e = ground arith

-- An ant that may not be marked changes nothing.
skip-Weakest :
    (s : Scheduler) (i : ℕ) (v : Option (ℕ × ℕ))
    → cullable s i ≡ false
    → Weakest s i v
    → Weakest s (suc i) v
unfolding Weakest
skip-Weakest s i none e h = λ k lt. elim (dec_lt k i) [
  | yes below ↦ h k below
  | no above ↦ let at : k ≡ i = omega arith in ap (cullable s) at ∙ e
]
skip-Weakest s i (some (j, t)) e (lt, c, same, all) = (
  omega arith,
  c,
  same,
  λ k below on. elim (dec_lt k i) [
    | yes under ↦ all k under on
    | no above ↦
        let at : k ≡ i = omega arith in absurd (false≢true (sym e ∙ ap (cullable s) (sym at) ∙ on))
  ],
)

-- An ant lighter than all before it takes over.
take-Weakest :
    (s : Scheduler) (i : ℕ)
    → cullable s i ≡ true
    → ((k : ℕ) → k < i → cullable s k ≡ true → (ant_at s i).tokens_fp < (ant_at s k).tokens_fp)
    → Weakest s (suc i) (some (i, (ant_at s i).tokens_fp))
unfolding Weakest
take-Weakest s i e all = (
  omega arith,
  e,
  refl,
  λ k below on. elim (dec_lt k i) [
    | yes under ↦ inl (all k under on)
    | no above ↦ let at : k ≡ i = omega arith in inr (rw at (omega arith))
  ],
)

weaker-Weakest :
    (s : Scheduler) (i : ℕ) (v : Option (ℕ × ℕ)) → Weakest s i v → Weakest s (suc i) (weaker s i v)
unfolding Weakest
weaker-Weakest s i none h = elim (Bool-cases (cullable s i)) [
  | inl e ↦
      subst (Weakest s (suc i)) (sym (first s i e))
        (take-Weakest s i e (λ k below on. absurd (false≢true (sym (h k below) ∙ on))))
  | inr e ↦ subst (Weakest s (suc i)) (sym (skipped s i none e)) (skip-Weakest s i none e h)
]
weaker-Weakest s i (some (j, t)) h = elim (Bool-cases (cullable s i)) [
  | inl e ↦
      subst (Weakest s (suc i)) (sym (lighter s i j t e))
        (elim (Bool-cases (ltb (ant_at s i).tokens_fp t)) [
          | inl less ↦ rw less (take-Weakest s i e (λ k below on. ground (arith, h.3 k below on)))
          | inr more ↦ rw more (
            omega (arith, h.0),
            h.1,
            h.2,
            λ k below on. elim (dec_lt k i) [
              | yes under ↦ h.3 k under on
              | no above ↦
                  let at : k ≡ i = omega arith in rw at (inr (ground arith, omega (arith, h.0)))
            ],
          )
        ])
  | inr e ↦
      subst (Weakest s (suc i)) (sym (skipped s i (some (j, t)) e))
        (skip-Weakest s i (some (j, t)) e h)
]

weakest-Weakest : (s : Scheduler) → Weakest s turmite_max_ants (weakest s)
unfolding weakest Weakest
weakest-Weakest s =
    for_range_inv (Weakest s) (weaker s) turmite_max_ants (λ i v lt h. weaker-Weakest s i v h) 0
      turmite_max_ants none (omega arith) nothing
  where
    nothing : Weakest s 0 none
    nothing = λ k lt. absurd (omega arith)

-- When `weakest` finds an ant, and `k` is any slot that may be culled: the ant found may be
-- culled, and its balance is the one reported; the balance of `k` is greater, or no less with an
-- index that is no lower.
pub weakest_lem :
    (s : Scheduler) (i t k : ℕ)
    → weakest s ≡ some (i, t)
    → k < turmite_max_ants
    → cullable s k ≡ true
    → (i < turmite_max_ants)
      × (cullable s i ≡ true)
      × (t ≡ (ant_at s i).tokens_fp)
      × ((t < (ant_at s k).tokens_fp) ⊎ ((t ≤ (ant_at s k).tokens_fp) × (i ≤ k)))
unfolding Weakest
weakest_lem s i t k e lt on =
    let h : Weakest s turmite_max_ants (some (i, t)) =
      subst (Weakest s turmite_max_ants) e (weakest-Weakest s) in
    (h.0, h.1, h.2, h.3 k lt on)

-- How a round goes on from the victim it has found.
abbrev after_search : ℕ → ℕ → Scheduler → Option (ℕ × ℕ) → ℕ × Scheduler
after_search n marked s none = (marked, s)
after_search n marked s (some (i, t)) = cull_loop n (suc marked) (mark_draining s i)

cull_round :
    (n marked : ℕ) (s : Scheduler) (v : Option (ℕ × ℕ))
    → weakest s ≡ v
    → cull_loop (suc n) marked s ≡ after_search n marked s v
unfolding cull_loop
cull_round n marked s v e = ap (after_search n marked s) e

-- How many of the 32 ants drain.
abbrev pub draining_ants : Scheduler → ℕ
draining_ants s = tally turmite_max_ants (λ i. (ant_at s i).flags.draining)

-- Each victim is one more ant that drains.
mark_draining_ants :
    (s : Scheduler) (i t : ℕ)
    → weakest s ≡ some (i, t)
    → draining_ants (mark_draining s i) ≡ suc (draining_ants s)
unfolding Weakest mark_draining
mark_draining_ants s i t e =
    let h : Weakest s turmite_max_ants (some (i, t)) =
      subst (Weakest s turmite_max_ants) e (weakest-Weakest s) in
    let on = h.1 in
    tally_add turmite_max_ants i (λ k. (ant_at s k).flags.draining)
      (λ k. (ant_at (mark_draining s i) k).flags.draining) h.0 (ground (arith, on)) (ground arith)
      (λ k ne. ground arith)

-- After the loop either all wanted victims are marked or none is left to mark, and each of those
-- counted is one more ant that drains.
abbrev Ended : ℕ → ℕ → Scheduler → ℕ × Scheduler → Type 0
Ended n marked s out =
    (marked ≤ out.0)
    × (out.0 ≤ marked + n)
    × ((out.0 ≡ marked + n) ⊎ (weakest out.1 ≡ none))
    × (draining_ants out.1 + marked ≡ draining_ants s + out.0)

cull_loop-Ended : (n marked : ℕ) (s : Scheduler) → Ended n marked s (cull_loop n marked s)
unfolding cull_loop
cull_loop-Ended zero marked s = (omega arith, omega arith, inl (omega arith), refl)
cull_loop-Ended (suc n) marked s = elim (Option-cases (weakest s)) [
  | inl e ↦
      subst (Ended (suc n) marked s) (sym (cull_round n marked s none e))
        (omega arith, omega arith, inr e, refl)
  | inr (v, e) ↦ subst (Ended (suc n) marked s) (sym (cull_round n marked s (some v) e)) (
      let rest = cull_loop-Ended n (suc marked) (mark_draining s v.0) in
      let one = mark_draining_ants s v.0 v.1 e in
      (
        omega (arith, rest.0),
        omega (arith, rest.1),
        elim rest.2 [ inl all ↦ inl (omega (arith, all)) | inr empty ↦ inr empty ],
        omega (arith, rest.3, one),
      ))
]

notify_draining : (s : Scheduler) → draining_ants (notify_locked s) ≡ draining_ants s
unfolding notify_locked
notify_draining s = refl

notify_cullable : (s : Scheduler) (k : ℕ) → cullable (notify_locked s) k ≡ cullable s k
unfolding notify_locked
notify_cullable s k = refl

none_left : (s : Scheduler) (k : ℕ) → weakest s ≡ none → k < turmite_max_ants → cullable s k ≡ false
unfolding Weakest
none_left s k e lt =
    let h : Weakest s turmite_max_ants none =
      subst (Weakest s turmite_max_ants) e (weakest-Weakest s) in
    h k lt

-- `scheduler_begin_culling` makes exactly as many more of the 32 ants drain as it reports, which is
-- never more than the population exceeds the target, and if it is fewer, no ant is left that may
-- be culled.
pub scheduler_begin_culling_lem :
    (s : Scheduler) (target k : ℕ)
    → k < turmite_max_ants
    → let out = scheduler_begin_culling s target in
      let excess = s.colony.active_population - target in
      (draining_ants out.1 ≡ draining_ants s + out.0)
      × (out.0 ≤ excess)
      × ((out.0 ≡ excess) ⊎ (cullable out.1 k ≡ false))
unfolding scheduler_begin_culling
scheduler_begin_culling_lem s target k lt =
    let excess = s.colony.active_population - target in
    let out = cull_loop excess 0 s in
    let ended = cull_loop-Ended excess 0 s in
    let told = notify_draining out.1 in
    elim (Bool-cases (leb s.colony.active_population target)) [
      | inl e ↦ rw e (omega arith, omega arith, inl (ground arith))
      | inr e ↦ rw e (
        omega (arith, ended.3, told),
        omega (arith, ended.1),
        elim ended.2 [
          | inl all ↦ inl (omega (arith, all))
          | inr empty ↦ inr (notify_cullable out.1 k ∙ none_left out.1 k empty lt)
        ],
      )
    ]
