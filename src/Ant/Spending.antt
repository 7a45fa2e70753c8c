-- ===== src/Ant/Spending.antt =====
-- The loop of a burst: it ends, and what it counts and spends.
use turmite_linux.Prelude.{
  ℕ, zero, suc, ◌+◌, ◌*◌, ◌^◌, ◌≤◌, ◌<◌, ◌≡◌, refl, inl, inr, Bool, true, false, arith, List,
  Option, some, ◌||◌,
}
use turmite_linux.World.{World}
use turmite_linux.Ant.Types.{AntColony, turmite_max_ants, token_fp_one}
use turmite_linux.Ant.Execute.{Burst, Running, continue, burst}
use turmite_linux.Ant.Invariant.{BurstIsValid, RunningIsValid}
use turmite_linux.Ant.Cycle.{Charged, instruction-Continues}

-- After at most `n` rounds: `k` instructions more, and, if the balance covers `n` instructions,
-- `k` tokens less. At least one instruction runs unless there is no round or a flag stops it.
pub record Spent (n index : ℕ) (b : Burst) (c : AntColony) (s : Running) : Type 0 where
  pub k : ℕ
  pub few : k ≤ n
  pub counted : s.0.executed ≡ b.executed + k
  pub paid :
      n * token_fp_one ≤ b.tokens → b.tokens < 2 ^ 32 → s.0.tokens + k * token_fp_one ≡ b.tokens
  pub published : (c.ants index).tokens_fp ≡ b.tokens → (s.1.ants index).tokens_fp ≡ s.0.tokens
  pub progress :
      0 < n → ((c.ants index).flags.clobbered || (c.ants index).flags.halted) ≡ false → 0 < k

abbrev pub Ran : ℕ → ℕ → Burst → AntColony → Option Running → Type 0
Ran n index b c out = (s : Running) × (out ≡ some s) × RunningIsValid index s × Spent n index b c s

-- A round, then at most `n` more.
Spent-suc :
    (n index : ℕ) (b : Burst) (c : AntColony) (s t : Running)
    → Charged index b c true s
    → Spent n index s.0 s.1 t
    → Spent (suc n) index b c t
Spent-suc n index b c s t (inl stop) r = absurd (ground arith)
Spent-suc n index b c s t (inr go) r = record {
  k = suc r.k;
  few = omega (arith, r.few);
  counted = omega (arith, r.counted);
  paid = λ enough word. omega (arith, r.paid (omega arith) (omega arith));
  published = λ same. r.published go.2;
  progress = λ some flags. omega arith;
}

-- A round that ends the burst.
Spent-stop :
    (n index : ℕ) (b : Burst) (c : AntColony) (s : Running)
    → Charged index b c false s
    → Spent (suc n) index b c s
Spent-stop n index b c s (inl stop) = record {
  k = 0;
  few = omega arith;
  counted = omega arith;
  paid = λ enough word. omega arith;
  published = λ same. omega arith;
  progress = λ some flags. absurd (ground arith);
}
Spent-stop n index b c s (inr go) = record {
  k = 1;
  few = omega arith;
  counted = omega arith;
  paid = λ enough word. omega arith;
  published = λ same. go.2;
  progress = λ some flags. omega arith;
}

continue-Ran :
    (n index : ℕ) (b : Burst) (c : AntColony) (next : Running → Option Running) (go : Bool)
    (s : Running)
    → RunningIsValid index s
    → Charged index b c go s
    → Ran n index s.0 s.1 (next s)
    → Ran (suc n) index b c (continue next (some (go, s)))
continue-Ran n index b c next true s v charged (t, e, valid, spent) =
    (t, e, valid, Spent-suc n index b c s t charged spent)
continue-Ran n index b c next false s v charged r = (s, refl, v, Spent-stop n index b c s charged)

pub burst-Ran :
    (n : ℕ) (fails : ℕ → List Bool) (index : ℕ) (b : Burst) (c : AntColony) (w : World)
    → index < turmite_max_ants
    → BurstIsValid index b c w
    → Ran n index b c (burst n fails index (b, c, w))
unfolding burst
burst-Ran zero fails index b c w hi v = (
  (b, c, w),
  refl,
  v,
  record {
    k = 0;
    few = omega arith;
    counted = omega arith;
    paid = λ p q. omega arith;
    published = λ p. p;
    progress = λ p q. absurd (omega arith);
  },
)
burst-Ran (suc n) fails index b c w hi v =
    let (go, s, e, valid, charged) = instruction-Continues (fails n) index b c w hi v in
    rw e (
      continue-Ran n index b c (burst n fails index) go s valid charged
        (burst-Ran n fails index s.0 s.1 s.2 hi valid))
