-- ===== src/Main/Census.antt =====
-- src/main.c: with fewer ants than cells there is a free cell.
use turmite_linux.Prelude.{
  ℕ, zero, suc, ◌+◌, ◌≤◌, ◌<◌, ◌≡◌, refl, ◌==◌, if◌then◌else◌, arith, update, ℕ_discrete,
}

-- The number of the first `n` cells that have an owner.
pub occupied_cells : ℕ → (ℕ → ℕ) → ℕ
occupied_cells zero occupancy = 0
occupied_cells (suc n) occupancy = occupied_cells n occupancy + (if occupancy n == 0 then 0 else 1)

pub occupied_none : (n : ℕ) (o : ℕ → ℕ) → ((k : ℕ) → k < n → o k ≡ 0) → occupied_cells n o ≡ 0
unfolding occupied_cells
occupied_none zero o all = refl
occupied_none (suc n) o all =
    let rest = occupied_none n o (λ k lt. all k (omega arith)) in
    let last = all n (omega arith) in ground (arith, rest, last)

occupied_above :
    (n : ℕ) (o : ℕ → ℕ) (k v : ℕ) → n ≤ k → occupied_cells n (update o k v) ≡ occupied_cells n o
unfolding occupied_cells
occupied_above zero o k v le = refl
occupied_above (suc n) o k v le =
    let rest = occupied_above n o k v (omega arith) in ground (arith, rest)

-- One write adds at most one.
pub occupied-update :
    (n : ℕ) (o : ℕ → ℕ) (k v : ℕ) → occupied_cells n (update o k v) ≤ occupied_cells n o + 1
unfolding occupied_cells
occupied-update zero o k v = omega arith
occupied-update (suc n) o k v = elim (ℕ_discrete k n) [
  | yes e ↦ let rest = occupied_above n o k v (omega arith) in ground (arith, rest)
  | no ne ↦ let rest = occupied-update n o k v in ground (arith, rest)
]

pub free_cell : (n : ℕ) (o : ℕ → ℕ) → occupied_cells n o < n → (k : ℕ) × (k < n) × (o k ≡ 0)
unfolding occupied_cells
free_cell zero o lt = absurd (omega arith)
free_cell (suc n) o lt = elim (ℕ_discrete (o n) 0) [
  | yes e ↦ (n, omega arith, e)
  | no ne ↦ let (k, below, e) = free_cell n o (ground arith) in (k, omega arith, e)
]
