-- ===== src/Prelude/Loops.antt =====
-- `for (i = start; i < start + n; ++i)` over an explicit state, with its invariant rules.
use Prim.Native.Nat.{ℕ, zero, suc, ◌+◌, ◌<◌}
use mathlib.Core.Path.{◌≡◌, refl, ap, ◌∙◌}
use mathlib.Core.Bool.{Bool, true, ◌&&◌}
use native.Mathlib.Omega.{arith}
use native.Mathlib.Decide.{ℕ_discrete}

unfoldable pub for_range {ℓ} : {S : Type ℓ} → ℕ → ℕ → (ℕ → S → S) → S → S
for_range i zero body s = s
for_range i (suc n) body s = for_range (suc i) n body (body i s)

-- What every round keeps, the loop keeps.
pub for_range_keep {ℓ κ} :
    {S : Type ℓ} (P : S → Type κ) (body : ℕ → S → S)
    → ((i : ℕ) (s : S) → P s → P (body i s))
    → (i n : ℕ) (s : S) → P s
    → P (for_range i n body s)
unfolding for_range
for_range_keep P body keep i zero s h = h
for_range_keep P body keep i (suc n) s h =
    for_range_keep P body keep (suc i) n (body i s) (keep i s h)

-- The same where the invariant speaks of the index and the index is bounded.
pub for_range_inv {ℓ κ} :
    {S : Type ℓ} (P : ℕ → S → Type κ) (body : ℕ → S → S) (m : ℕ)
    → ((i : ℕ) (s : S) → i < m → P i s → P (suc i) (body i s))
    → (i n : ℕ) (s : S) → i + n ≡ m
    → P i s
    → P m (for_range i n body s)
unfolding for_range
for_range_inv P body m keep i zero s e h = let e' : i ≡ m = omega arith in rw e' at h
for_range_inv P body m keep i (suc n) s e h =
    for_range_inv P body m keep (suc i) n (body i s) (omega arith) (keep i s (omega arith) h)

-- Two bodies that agree on the rounds that are run give the same result.
pub for_range_ext {ℓ} :
    {S : Type ℓ} (f g : ℕ → S → S) (m : ℕ)
    → ((i : ℕ) (s : S) → i < m → f i s ≡ g i s)
    → (i n : ℕ) (s : S) → i + n ≡ m
    → for_range i n f s ≡ for_range i n g s
unfolding for_range
for_range_ext f g m same i zero s e = refl
for_range_ext f g m same i (suc n) s e =
    ap (for_range (suc i) n f) (same i s (omega arith))
    ∙ for_range_ext f g m same (suc i) n (g i s) (omega arith)

-- A finite check: the test passes at every number below the bound.
unfoldable pub all_below : (ℕ → Bool) → ℕ → Bool
all_below test zero = true
all_below test (suc bound) = all_below test bound && test bound

pub all_below_sound :
    (test : ℕ → Bool) (bound i : ℕ) → i < bound → all_below test bound ≡ true → test i ≡ true
unfolding all_below
all_below_sound test zero i lt passed = absurd (omega arith)
all_below_sound test (suc bound) i lt passed = elim (ℕ_discrete i bound) [
  | yes at ↦ rw at (ground arith)
  | no below ↦ all_below_sound test bound i (omega arith) (ground arith)
]
