-- ===== src/Prelude/Bits.antt =====
-- `bit_xor` at variables, from the digit recursion that the native operation stands for.
use Prim.Native.Nat.{ℕ, zero, suc, ◌+◌, ◌*◌, ◌/◌, ◌%◌, ◌^◌, ◌≤◌, ◌<◌}
use Prim.Native.Nat.{bit_xor, bit_or, digits, differ, bit_xor-bitwise, bit_or-bitwise, max}
use mathlib.Core.Path.{◌≡◌, refl, sym, ◌∙◌, ap}
use native.Mathlib.Nat.{le_refl, pow-suc}
use native.Mathlib.Omega.{arith}

-- Fuel that is left when the first number is used up does not matter.
digits_idle : (f : ℕ → ℕ → ℕ) (fuel y : ℕ) → digits (λ z. z) f fuel 0 y ≡ y
digits_idle f zero y = refl
digits_idle f (suc fuel) y = refl

-- So two amounts of fuel that both reach the end of it give the same digits.
digits_enough :
    (f : ℕ → ℕ → ℕ) (x y fuel fuel' : ℕ)
    → x ≤ fuel
    → x ≤ fuel'
    → digits (λ z. z) f fuel x y ≡ digits (λ z. z) f fuel' x y
digits_enough f zero y fuel fuel' le le' = digits_idle f fuel y ∙ sym (digits_idle f fuel' y)
digits_enough f (suc x) y zero fuel' le le' = absurd (omega arith)
digits_enough f (suc x) y (suc fuel) zero le le' = absurd (omega arith)
digits_enough f (suc x) y (suc fuel) (suc fuel') le le' =
    ap (λ rest. rest * 2 + f (suc x % 2) (y % 2))
      (digits_enough f (suc x / 2) (y / 2) fuel fuel' (omega arith) (omega arith))

-- The exclusive or of the lowest digits, and of the rest.
bit_xor_step : (x y : ℕ) → bit_xor x y ≡ differ (x % 2) (y % 2) + 2 * bit_xor (x / 2) (y / 2)
bit_xor_step zero y =
    omega (arith, bit_xor-bitwise 0 y, bit_xor-bitwise 0 (y / 2), digits_idle differ 0 y)
bit_xor_step (suc x) y =
    let same = digits_enough differ (suc x / 2) (y / 2) x (suc x / 2) (omega arith) (le_refl _) in
    simp bit_xor-bitwise (omega (arith, same))

differ-lt : (p q : ℕ) → p < 2 → q < 2 → differ p q < 2
differ-lt zero q hp hq = hq
differ-lt (suc zero) zero hp hq = omega arith
differ-lt (suc zero) (suc zero) hp hq = omega arith
differ-lt (suc zero) (suc (suc q)) hp hq = absurd (omega arith)
differ-lt (suc (suc p)) q hp hq = absurd (omega arith)

differ_cancel : (p q : ℕ) → p < 2 → q < 2 → differ (differ p q) q ≡ p
differ_cancel zero zero hp hq = refl
differ_cancel zero (suc zero) hp hq = refl
differ_cancel zero (suc (suc q)) hp hq = absurd (omega arith)
differ_cancel (suc zero) zero hp hq = refl
differ_cancel (suc zero) (suc zero) hp hq = refl
differ_cancel (suc zero) (suc (suc q)) hp hq = absurd (omega arith)
differ_cancel (suc (suc p)) q hp hq = absurd (omega arith)

zero-of-lt_one : (a : ℕ) → a < 2 ^ 0 → a ≡ 0
zero-of-lt_one a h = omega arith

pub bit_xor-lt : (k a b : ℕ) → a < 2 ^ k → b < 2 ^ k → bit_xor a b < 2 ^ k
bit_xor-lt zero a b ha hb = rw (zero-of-lt_one a ha, zero-of-lt_one b hb) (omega arith)
bit_xor-lt (suc k) a b ha hb = omega (
  arith,
  pow-suc 2 k,
  bit_xor_step a b,
  differ-lt (a % 2) (b % 2) (omega arith) (omega arith),
  bit_xor-lt k (a / 2) (b / 2) (omega (arith, pow-suc 2 k)) (omega (arith, pow-suc 2 k)),
)

half_top : (k r : ℕ) → ((2 ^ suc k + r) / 2 ≡ 2 ^ k + r / 2) × ((2 ^ suc k + r) % 2 ≡ r % 2)
half_top k r = omega (arith, pow-suc 2 k)

-- A top digit that only the second number has stands in the result.
pub bit_xor_top : (k a r : ℕ) → a < 2 ^ k → r < 2 ^ k → bit_xor a (2 ^ k + r) ≡ 2 ^ k + bit_xor a r
bit_xor_top zero a r ha hr = rw (zero-of-lt_one a ha, zero-of-lt_one r hr)
bit_xor_top (suc k) a r ha hr =
    bit_xor_step a (2 ^ suc k + r)
    ∙ rw ((half_top k r).0, (half_top k r).1)
        (omega (
          arith,
          pow-suc 2 k,
          bit_xor_step a r,
          bit_xor_top k (a / 2) (r / 2) (omega (arith, pow-suc 2 k)) (omega (arith, pow-suc 2 k)),
        ))

join_digits : (p q : ℕ) → q < 2 → ((q + 2 * p) / 2 ≡ p) × ((q + 2 * p) % 2 ≡ q)
join_digits p q h = omega arith

-- Exclusive or with the same number undoes itself.
pub bit_xor_cancel : (k a b : ℕ) → a < 2 ^ k → b < 2 ^ k → bit_xor (bit_xor a b) b ≡ a
bit_xor_cancel zero a b ha hb = rw (zero-of-lt_one a ha, zero-of-lt_one b hb)
bit_xor_cancel (suc k) a b ha hb =
    let low = differ-lt (a % 2) (b % 2) (omega arith) (omega arith) in
    let parts = join_digits (bit_xor (a / 2) (b / 2)) (differ (a % 2) (b % 2)) low in
    bit_xor_step (bit_xor a b) b
    ∙ rw (bit_xor_step a b) (
        rw (parts.0, parts.1, differ_cancel (a % 2) (b % 2) (omega arith) (omega arith))
          (omega (
            arith,
            bit_xor_cancel k (a / 2) (b / 2) (omega (arith, pow-suc 2 k))
                (omega (arith, pow-suc 2 k)),
          )))

zero-bit_or : (y : ℕ) → bit_or 0 y ≡ y
zero-bit_or y = bit_or-bitwise 0 y

bit_or_step : (x y : ℕ) → bit_or x y ≡ max (x % 2) (y % 2) + 2 * bit_or (x / 2) (y / 2)
bit_or_step zero y = omega (arith, zero-bit_or y, zero-bit_or (y / 2))
bit_or_step (suc x) y =
    let same = digits_enough max (suc x / 2) (y / 2) x (suc x / 2) (omega arith) (le_refl _) in
    simp bit_or-bitwise (omega (arith, same))

bit_or-zero : (k a : ℕ) → a < 2 ^ k → bit_or a 0 ≡ a
bit_or-zero zero a h = rw (zero-of-lt_one a h)
bit_or-zero (suc k) a h =
    omega (arith, pow-suc 2 k, bit_or_step a 0, bit_or-zero k (a / 2) (omega (arith, pow-suc 2 k)))

half_shift : (k q : ℕ) → (q * 2 ^ suc k / 2 ≡ q * 2 ^ k) × (q * 2 ^ suc k % 2 ≡ 0)
half_shift k q =
    let e : q * 2 ^ suc k ≡ 2 * (q * 2 ^ k) = omega (arith, ap (λ (t : ℕ). q * t) (pow-suc 2 k)) in
    rw e (omega arith)

-- Two fields that do not overlap are joined by a sum.
pub bit_or_fields : (m k q r : ℕ) → q < 2 ^ m → r < 2 ^ k → bit_or (q * 2 ^ k) r ≡ q * 2 ^ k + r
bit_or_fields m zero q r hq hr =
    rw (zero-of-lt_one r hr) (omega (arith, bit_or-zero m q hq, ap (λ t. bit_or t 0) (one_shift q)))
  where
    one_shift : (x : ℕ) → x * 2 ^ 0 ≡ x
    one_shift x = omega arith
bit_or_fields m (suc k) q r hq hr =
    bit_or_step (q * 2 ^ suc k) r
    ∙ rw ((half_shift k q).0, (half_shift k q).1)
        (omega (
          arith,
          pow-suc 2 k,
          bit_or_fields m k q (r / 2) hq (omega (arith, pow-suc 2 k)),
          ap (λ (t : ℕ). q * t) (pow-suc 2 k),
        ))
