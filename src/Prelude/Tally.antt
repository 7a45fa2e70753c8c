-- ===== src/Prelude/Tally.antt =====
-- How many numbers below a bound pass a test.
use Prim.Native.Nat.{ℕ, zero, suc, ◌+◌, ◌≤◌, ◌<◌}
use mathlib.Core.Path.{◌≡◌, refl, sym, ap, ◌∙◌}
use mathlib.Core.Logic.{◌≢◌}
use mathlib.Core.Bool.{Bool, true, false}
use native.Mathlib.Omega.{arith}
use native.Mathlib.Decide.{ℕ_discrete}
use turmite_linux.Prelude.Tests.{if◌then◌else◌}

-- How many of the first `n` numbers pass a test.
unfoldable pub tally : ℕ → (ℕ → Bool) → ℕ
tally zero f = 0
tally (suc n) f = (if f n then 1 else 0) + tally n f

pub tally_same : (n : ℕ) (f g : ℕ → Bool) → ((j : ℕ) → j < n → f j ≡ g j) → tally n f ≡ tally n g
unfolding tally
tally_same zero f g h = refl
tally_same (suc n) f g h = rw (h n (omega arith), tally_same n f g (λ j lt. h j (omega arith)))

pub tally-le : (n : ℕ) (f : ℕ → Bool) → tally n f ≤ n
unfolding tally
tally-le zero f = omega arith
tally-le (suc n) f = ground (arith, tally-le n f)

pub tally_add :
    (n i : ℕ) (f g : ℕ → Bool)
    → i < n
    → f i ≡ false
    → g i ≡ true
    → ((j : ℕ) → i ≢ j → f j ≡ g j)
    → tally n g ≡ suc (tally n f)
unfolding tally
tally_add zero i f g lt off on h = absurd (omega arith)
tally_add (suc n) i f g lt off on h = elim (ℕ_discrete i n) [
  | yes e ↦
      let below = tally_same n f g (λ j under. h j (omega arith)) in
      ground (arith, below, sym (ap f e) ∙ off, sym (ap g e) ∙ on)
  | no ne ↦ ground (arith, h n ne, tally_add n i f g (omega arith) off on h)
]

pub tally_zero : (n i : ℕ) (f : ℕ → Bool) → i < n → tally n f ≡ 0 → f i ≡ false
unfolding tally
tally_zero zero i f lt e = absurd (omega arith)
tally_zero (suc n) i f lt e = elim (ℕ_discrete i n) [
  | yes at ↦ rw at (ground arith)
  | no ne ↦ tally_zero n i f (omega arith) (ground arith)
]

pub tally_nobody : (n : ℕ) (f : ℕ → Bool) → ((j : ℕ) → j < n → f j ≡ false) → tally n f ≡ 0
unfolding tally
tally_nobody zero f h = refl
tally_nobody (suc n) f h = rw (h n (omega arith), tally_nobody n f (λ j lt. h j (omega arith))) refl
