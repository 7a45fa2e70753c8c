-- ===== src/Dump/Slots.antt =====
-- src/dump.c: the slots of the ring, and what the two digests of a page read.
use native.Mathlib.Nat.{mod-eq_of_lt, mod-eq-sub-mod}
use turmite_linux.Prelude.{
  ℕ, suc, ◌+◌, ◌-◌, ◌*◌, ◌%◌, ◌≤◌, ◌<◌, ◌≡◌, ◌≢◌, refl, ap, ◌∙◌, ◌⊎◌, inl, inr, ◌&&◌, some, ltb,
  leb, ◌==◌, if◌then◌else◌, arith, update, Bool-cases, dec_lt, u64, bit_xor,
}
use turmite_linux.Prelude.Loops.{for_range_inv, for_range_ext, for_range_keep}
use turmite_linux.Dump.{fill, fnv1a64, fnv1a64_round, count_changed}

-- One subtraction reduces an index that is at most twice the capacity.
pub mod_once : (x n : ℕ) → x < n + n → x % n ≡ (if ltb x n then x else x - n)
mod_once x n h = elim (Bool-cases (ltb x n)) [
  | inl e ↦ rw e (mod-eq_of_lt (ground arith))
  | inr e ↦ rw e (mod-eq-sub-mod (ground arith) ∙ mod-eq_of_lt (ground arith))
]

module _ {A : Type 0} (f xs : ℕ → A) where
  fill_lem :
      (base n m : ℕ)
      → fill base n f xs m ≡ (if leb base m && ltb m (base + n) then f (m - base) else xs m)
  fill_lem base n m =
      for_range_inv
        (λ i (out : ℕ → A). out m ≡ (if leb base m && ltb m (base + i) then f (m - base) else xs m))
        (λ i out. update out (base + i) (f i)) n (λ i out lt h. ground (arith, h)) 0 n xs
        (omega arith) (ground arith)

  pub fill_in : (base n i : ℕ) → i < n → fill base n f xs (base + i) ≡ f i
  fill_in base n i h =
      let back : base + i - base ≡ i = omega arith in
      fill_lem base n (base + i) ∙ ground (arith, ap f back)

  pub fill_out : (base n m : ℕ) → (m < base) ⊎ (base + n ≤ m) → fill base n f xs m ≡ xs m
  fill_out base n m (inl h) = fill_lem base n m ∙ ground arith
  fill_out base n m (inr h) = fill_lem base n m ∙ ground arith

pub slot_apart : (a b n i : ℕ) → a ≢ b → i < n → (a * n + i < b * n) ⊎ (b * n + n ≤ a * n + i)
slot_apart a b n i ne h = elim (dec_lt a b) [
  | yes lt ↦ inl (grind arith)
  | no le ↦ inr (grind arith)
]

-- The fingerprint and the count of changes read the first `n` bytes only.
pub fnv1a64-ext : (a b : ℕ → ℕ) (n : ℕ) → ((i : ℕ) → i < n → a i ≡ b i) → fnv1a64 a n ≡ fnv1a64 b n
unfolding fnv1a64
fnv1a64-ext a b n same =
    for_range_ext (fnv1a64_round a) (fnv1a64_round b) n
      (λ i s h. ap (λ byte. u64 (bit_xor s byte * 1099511628211)) (same i h)) 0 n _ (omega arith)

pub count_changed-ext :
    (a b x y : ℕ → ℕ) (n : ℕ)
    → ((i : ℕ) → i < n → a i ≡ b i)
    → ((i : ℕ) → i < n → x i ≡ y i)
    → count_changed a (some x) n ≡ count_changed b (some y) n
unfolding count_changed
count_changed-ext a b x y n same_a same_x =
    for_range_ext _ _ n (λ i s h. rw (same_a i h, same_x i h) refl) 0 n 0 (omega arith)

pub count_changed_self : (a : ℕ → ℕ) (n : ℕ) → count_changed a (some a) n ≡ 0
unfolding count_changed
count_changed_self a n = for_range_keep (λ s. s ≡ 0) _ (λ i s h. ground (arith, h)) 0 n 0 refl

-- The slot of the page captured `k` captures before the latest.
abbrev pub back_slot : ℕ → ℕ → ℕ → ℕ
back_slot next capacity k = if ltb k next then next - 1 - k else next + capacity - 1 - k

pub next-lem : (next n : ℕ) → next < n → (next + 1) % n ≡ (if next + 1 == n then 0 else next + 1)
next-lem next n h = mod_once (next + 1) n (omega arith) ∙ ground arith

pub previous-lem : (next n : ℕ) → next < n → (next + n - 1) % n ≡ back_slot next n 0
previous-lem next n h = mod_once (next + n - 1) n (omega arith) ∙ ground arith

pub back_latest : (next n : ℕ) → next < n → back_slot ((next + 1) % n) n 0 ≡ next
back_latest next n h = rw (next-lem next n h) (ground arith)

pub back_older :
    (next n k : ℕ)
    → next < n
    → suc k < n
    → back_slot ((next + 1) % n) n (suc k) ≡ back_slot next n k
back_older next n k h lt = rw (next-lem next n h) (ground arith)

pub back_elsewhere : (next n k : ℕ) → next < n → suc k < n → back_slot next n k ≢ next
back_elsewhere next n k h lt e = ground (arith, e)
