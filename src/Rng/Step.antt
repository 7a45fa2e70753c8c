-- ===== src/Rng/Step.antt =====
-- One step of the generator: its range, and that no two states share a successor.
use native.Mathlib.Decide.{dec_lt}
use turmite_linux.Prelude.{
  ℕ, zero, suc, ◌/◌, ◌%◌, ◌^◌, ◌<◌, ◌≡◌, refl, sym, ◌∙◌, ◌≢◌, ap, bit_xor, arith,
}
use turmite_linux.Prelude.Bits.{bit_xor-lt, bit_xor_top, bit_xor_cancel}
use turmite_linux.Rng.{taps, lfsr32_advance, advance_by}

-- The taps set the top bit, which the shift has cleared.
taps_top : (h : ℕ) → h < 2 ^ 31 → (2 ^ 31 < suc (bit_xor h taps)) × (bit_xor h taps < 2 ^ 32)
taps_top h lt =
    omega
      (arith, bit_xor_top 31 h 0x200003 lt (omega arith), bit_xor-lt 31 h 0x200003 lt (omega arith))

-- The three cases of a step: from zero, from an even state, from an odd one.
lfsr32_even : (s : ℕ) → s ≢ 0 → s % 2 ≡ 0 → lfsr32_advance s ≡ s / 2
unfolding lfsr32_advance
lfsr32_even s h e = ground arith

lfsr32_odd : (s : ℕ) → s % 2 ≡ 1 → lfsr32_advance s ≡ bit_xor (s / 2) taps
unfolding lfsr32_advance
lfsr32_odd s e = ground arith

lfsr32_zero : lfsr32_advance 0 ≡ taps
unfolding lfsr32_advance
lfsr32_zero = refl

-- A step from any 32-bit word gives a 32-bit word that is not the absorbing state zero.
pub lfsr32_advance_range :
    (s : ℕ) → s < 2 ^ 32 → (0 < lfsr32_advance s) × (lfsr32_advance s < 2 ^ 32)
lfsr32_advance_range s h = elim (dec_lt 0 s) [
  | no z ↦ let e : s ≡ 0 = omega arith in rw (e, lfsr32_zero) (omega arith)
  | yes p ↦ elim (dec_lt 0 (s % 2)) [
    | yes odd ↦ rw (lfsr32_odd s (omega arith)) (omega (arith, taps_top (s / 2) (omega arith)))
    | no even ↦ rw (lfsr32_even s (omega arith) (omega arith)) (omega arith)
  ]
]

-- An odd state is told from an even one by the top bit of its successor, so a step can be undone.
lfsr32_advance_injective :
    (s t : ℕ)
    → 0 < s
    → 0 < t
    → s < 2 ^ 32
    → t < 2 ^ 32
    → lfsr32_advance s ≡ lfsr32_advance t
    → s ≡ t
lfsr32_advance_injective s t ps pt hs ht e = elim (dec_lt 0 (s % 2)) [
  | yes so ↦ elim (dec_lt 0 (t % 2)) [
    | yes to ↦ omega (
      arith,
      bit_xor_cancel 32 (s / 2) taps (omega arith) (omega arith),
      bit_xor_cancel 32 (t / 2) taps (omega arith) (omega arith),
      ap (λ (x : ℕ). bit_xor x taps)
          (sym (lfsr32_odd s (omega arith)) ∙ e ∙ lfsr32_odd t (omega arith)),
    )
    | no te ↦ absurd (
        omega (
          arith,
          lfsr32_odd s (omega arith),
          lfsr32_even t (omega arith) (omega arith),
          taps_top (s / 2) (omega arith),
        ))
  ]
  | no se ↦ elim (dec_lt 0 (t % 2)) [
    | yes to ↦ absurd (
        omega (
          arith,
          lfsr32_odd t (omega arith),
          lfsr32_even s (omega arith) (omega arith),
          taps_top (t / 2) (omega arith),
        ))
    | no te ↦ omega (
      arith,
      lfsr32_even s (omega arith) (omega arith),
      lfsr32_even t (omega arith) (omega arith),
    )
  ]
]

advance_by_range : (n s : ℕ) → 0 < s → s < 2 ^ 32 → (0 < advance_by n s) × (advance_by n s < 2 ^ 32)
advance_by_range zero s p h = omega arith
advance_by_range (suc n) s p h =
    let r = lfsr32_advance_range s h in advance_by_range n (lfsr32_advance s) r.0 r.1

-- Streams from two seeds, words that are not zero, never merge: if they agree after any number
-- of steps, the seeds were equal.
pub advance_by_injective :
    (n s t : ℕ) → 0 < s → 0 < t → s < 2 ^ 32 → t < 2 ^ 32 → advance_by n s ≡ advance_by n t → s ≡ t
advance_by_injective zero s t ps pt hs ht e = e
advance_by_injective (suc n) s t ps pt hs ht e =
    let rs = lfsr32_advance_range s hs in
    let rt = lfsr32_advance_range t ht in
    lfsr32_advance_injective s t ps pt hs ht
      (advance_by_injective n (lfsr32_advance s) (lfsr32_advance t) rs.0 rt.0 rs.1 rt.1 e)
