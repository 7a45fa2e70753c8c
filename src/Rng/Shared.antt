-- ===== src/Rng/Shared.antt =====
-- The shared generator: no thread's step is lost, and no seed is zero.
use turmite_linux.Prelude.{
  ℕ, zero, suc, ◌+◌, ◌<◌, ◌≡◌, refl, ◌∙◌, Option, List, [], ◌∷◌, arith, Bool-cases, inl, inr, ◌==◌,
  not, ◌&&◌, ◌++◌, length, ◌⊎◌, sym, ap,
}
use turmite_linux.Rng.{
  lfsr32_advance, Lfsr32, rng_seed, advance_by, Attempt, rng_next_loop, rng_next, rng_entropy_seed,
}

-- The steps that other threads make while the loop is retried.
abbrev pub contention : List Attempt → ℕ
contention [] = 0
contention (a ∷ as') = a.others + contention as'

advance_by-suc : (n s : ℕ) → advance_by (suc n) s ≡ lfsr32_advance (advance_by n s)
advance_by-suc zero s = refl
advance_by-suc (suc n) s = advance_by-suc n (lfsr32_advance s)

advance_by-add : (m n s : ℕ) → advance_by n (advance_by m s) ≡ advance_by (m + n) s
advance_by-add zero n s = let e : 0 + n ≡ n = omega arith in rw e
advance_by-add (suc m) n s =
    let e : suc m + n ≡ suc (m + n) = omega arith in rw e (advance_by-add m n (lfsr32_advance s))

-- The tries that were used up are the first ones, at least one if there is one; and the outcome is
-- that of all the steps that other threads made during these, then one step of its own.
abbrev pub Linear : List Attempt → Lfsr32 → ℕ × Lfsr32 → Type 0
Linear attempts rng out =
    (used : List Attempt) × (left : List Attempt) × (attempts ≡ used ++ left)
    × ((0 < length used) ⊎ (attempts ≡ []))
    × (out.0 ≡ advance_by (suc (contention used)) rng.state)
    × (out.1.state ≡ advance_by (suc (contention used)) rng.state)

rng_next_loop-Linear :
    (attempts : List Attempt) (rng : Lfsr32)
    → Linear attempts rng (rng_next_loop rng.state attempts rng)
unfolding rng_next_loop
rng_next_loop-Linear [] rng = ([], [], refl, inr refl, ground arith, ground arith)
rng_next_loop-Linear (a ∷ as') rng =
    let now = advance_by a.others rng.state in
    let won = now == rng.state && not a.spurious in
    elim (Bool-cases won) [
      | inl e ↦
          let once : advance_by (suc (a.others + 0)) rng.state ≡ lfsr32_advance now = shift 0 in
          (
            a ∷ [],
            as',
            refl,
            inl (omega arith),
            rw (e, once) (ground (arith, e)),
            rw (e, once) (ground (arith, e)),
          )
      | inr e ↦
          let (used, left, split, all, val, st) =
            rng_next_loop-Linear as' (record rng { state = now }) in
          (
            a ∷ used,
            left,
            ap (◌∷◌ a) split,
            inl (omega arith),
            rw e (val ∙ sym (shift (contention used))),
            rw e (st ∙ sym (shift (contention used))),
          )
    ]
  where
    shift :
        (k : ℕ)
        → advance_by (suc (a.others + k)) rng.state
          ≡ advance_by (suc k) (advance_by a.others rng.state)
    shift k =
        let e : a.others + suc k ≡ suc (a.others + k) = omega arith in
        rw (sym e) (sym (advance_by-add a.others (suc k) rng.state))

-- Under any contention `rng_next` returns the state that it leaves, and that is one step after all
-- the steps that other threads made from its load on, up to the swap that succeeds: the tries up
-- to that one are the used ones, at least one unless no try was foreseen.
pub rng_next_linear :
    (attempts : List Attempt) (rng : Lfsr32)
    → (used : List Attempt) × (left : List Attempt) × (attempts ≡ used ++ left)
      × ((0 < length used) ⊎ (attempts ≡ []))
      × ((rng_next attempts rng).0 ≡ advance_by (suc (contention used)) rng.state)
      × ((rng_next attempts rng).1.state ≡ advance_by (suc (contention used)) rng.state)
unfolding rng_next
rng_next_linear attempts rng = rng_next_loop-Linear attempts rng

-- Neither seeding route gives the absorbing state: `rng_seed` replaces zero, and so does the
-- entropy seed on each of its branches.
seeds_nonzero :
    (rng : Lfsr32) (seed : ℕ) (urandom : Option ℕ) (t c p : ℕ)
    → (0 < (rng_seed rng seed).state) × (0 < rng_entropy_seed urandom t c p)
unfolding rng_seed rng_entropy_seed
seeds_nonzero rng seed urandom t c p = ground arith
