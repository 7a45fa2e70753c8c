-- ===== src/Rng.antt =====
-- src/rng.h and src/rng.c: the Galois LFSR that every random stream steps, and the shared
-- generator whose state is advanced by a compare-and-swap loop.
pub mod Step
pub mod Shared
use turmite_linux.Prelude.{
  ℕ, zero, suc, ◌+◌, ◌%◌, ◌≡◌, Bool, true, false, not, ◌&&◌, Option, none, some, List, [], ◌∷◌,
  bit_xor, ◌==◌, if◌then◌else◌, u32, ◌<<◌, ◌>>◌,
}

-- The tap polynomial.
abbrev pub taps : ℕ
taps = 0x80200003

-- `state & 1` is the remainder by 2.
unfoldable pub lfsr32_advance : ℕ → ℕ
lfsr32_advance state =
    let s = if state == 0 then 1 else state in
    let lsb = s % 2 in let shifted = s >> 1 in if lsb == 0 then shifted else bit_xor shifted taps

-- `Lfsr32`: the atomic word is a number below 2 ^ 32.
pub record Lfsr32 : Type 0 where
  pub state : ℕ

unfoldable pub rng_seed : Lfsr32 → ℕ → Lfsr32
rng_seed rng seed = record rng { state = if seed == 0 then 1 else seed }

-- `n` steps of the generator.
abbrev pub advance_by : ℕ → ℕ → ℕ
advance_by zero s = s
advance_by (suc n) s = advance_by n (lfsr32_advance s)

-- What happens between the load and one weak compare-and-swap: other threads advance the word
-- some number of times, and the instruction may fail for no reason.
pub record Attempt : Type 0 where
  pub others : ℕ
  pub spurious : Bool

-- The loop of `rng_next`; `old` is the last value loaded. When the contention is over the next
-- compare-and-swap succeeds at the latest at the second try.
unfoldable pub rng_next_loop : ℕ → List Attempt → Lfsr32 → ℕ × Lfsr32
rng_next_loop old [] rng =
    let next = if rng.state == old then lfsr32_advance old else lfsr32_advance rng.state in
    (next, record rng { state = next })
rng_next_loop old (a ∷ as') rng =
    let now = advance_by a.others rng.state in
    let next = lfsr32_advance old in
    let retry = rng_next_loop now as' (record rng { state = now }) in
    if now == old && not a.spurious then (next, record rng { state = next }) else retry

unfoldable pub rng_next : List Attempt → Lfsr32 → ℕ × Lfsr32
unfolding rng_next_loop
rng_next attempts rng = rng_next_loop rng.state attempts rng

unfoldable pub rng_uniform : List Attempt → Lfsr32 → ℕ → ℕ × Lfsr32
unfolding rng_next
rng_uniform attempts rng upper_exclusive =
    let (value, rng') = rng_next attempts rng in
    if upper_exclusive == 0 then (0, rng) else (value % upper_exclusive, rng')

-- `urandom` is the word that a read of all four bytes gave, if it did; `t`, `c` and `p` are the
-- time, the processor clock and the process number.
unfoldable pub rng_entropy_seed : Option ℕ → ℕ → ℕ → ℕ → ℕ
rng_entropy_seed urandom t c p =
    let mixed = u32 (bit_xor (bit_xor (bit_xor t (t >> 32)) c) (p << 16)) in
    let fallback = if mixed == 0 then 1 else mixed in
    elim urandom [ none ↦ fallback | some seed ↦ if seed == 0 then fallback else seed ]
