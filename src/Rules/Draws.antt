-- ===== src/Rules/Draws.antt =====
-- A bounded draw, and the sampling of a rule's dimensions: simpler machines are likelier.
use turmite_linux.Prelude.{
  ℕ, zero, suc, ◌+◌, ◌-◌, ◌^◌, ◌≤◌, ◌<◌, ◌≡◌, refl, Bool, true, false, ◌&&◌, ltb, leb, ◌||◌, u32,
  ◌<<◌, arith,
}
use turmite_linux.Prelude.Loops.{all_below, all_below_sound}
use turmite_linux.Rules.{complexity_loop, rule_random, rules_random_complexity}
use turmite_linux.World.{turmite_colors}

pub rule_random-lt : (rng limit : ℕ) → 0 < limit → (rule_random rng limit).0 < limit
unfolding rule_random
rule_random-lt rng limit h = omega arith

-- The draws that give the value `v`: `2 ^ (maximum - v)` of them, after those of smaller values.
abbrev bracket : ℕ → ℕ → ℕ → Bool
bracket maximum draw v =
    leb 1 v
    && leb v maximum
    && leb (2 ^ maximum - 2 ^ (maximum + 1 - v)) draw
    && ltb draw (2 ^ maximum - 2 ^ (maximum - v))

draw_test : ℕ → ℕ → Bool
unfolding complexity_loop
draw_test m draw =
    leb (2 ^ suc m - 1) draw || bracket (suc m) draw (complexity_loop (suc m) draw 1 m)

draws_pass : all_below (λ m. all_below (draw_test m) 63) 6 ≡ true
unfolding all_below draw_test
draws_pass = refl

draw_bracket :
    (m draw : ℕ)
    → m < 6
    → draw < 2 ^ suc m - 1
    → draw < 63
    → bracket (suc m) draw (complexity_loop (suc m) draw 1 m) ≡ true
unfolding draw_test
draw_bracket m draw hm hd h63 = ground (
  arith,
  all_below_sound (draw_test m) 63 draw h63
      (all_below_sound (λ k. all_below (draw_test k) 63) 6 m hm draws_pass),
)

two_pow_bounds : (m : ℕ) → m < 6 → (1 < 2 ^ suc m) × (2 ^ suc m - 1 ≤ 63)
two_pow_bounds zero h = omega arith
two_pow_bounds (suc zero) h = omega arith
two_pow_bounds (suc (suc zero)) h = omega arith
two_pow_bounds (suc (suc (suc zero))) h = omega arith
two_pow_bounds (suc (suc (suc (suc zero)))) h = omega arith
two_pow_bounds (suc (suc (suc (suc (suc zero))))) h = omega arith
two_pow_bounds (suc (suc (suc (suc (suc (suc m)))))) h = absurd (omega arith)

word_shift : (m : ℕ) → m < 6 → u32 (1 << suc m) ≡ 2 ^ suc m
word_shift zero h = refl
word_shift (suc zero) h = refl
word_shift (suc (suc zero)) h = refl
word_shift (suc (suc (suc zero))) h = refl
word_shift (suc (suc (suc (suc zero)))) h = refl
word_shift (suc (suc (suc (suc (suc zero))))) h = refl
word_shift (suc (suc (suc (suc (suc (suc m)))))) h = absurd (omega arith)

-- On a maximum in range the guard lets the draw through.
rules_random_complexity_in_range :
    (rng m : ℕ)
    → m < 6
    → (rules_random_complexity rng (suc m)).0
      ≡ complexity_loop (suc m) (rule_random rng (2 ^ suc m - 1)).0 1 m
unfolding rules_random_complexity
rules_random_complexity_in_range rng m h =
    let e : suc m - 1 ≡ m = omega arith in
    let over : ltb 6 (suc m) ≡ false = ground arith in
    let under : ltb (suc m) 1 ≡ false = ground arith in rw (word_shift m h, under, over, e)

-- Inverse-CDF sampling: for a maximum from 1 to 6 the value lies between 1 and the maximum, and
-- the value `v` is returned for the draws of an interval of length `2 ^ (maximum - v)`: each
-- added unit halves the weight.
pub rules_random_complexity_lem :
    (rng m : ℕ)
    → m < turmite_colors
    → let v = (rules_random_complexity rng (suc m)).0 in
      let draw = (rule_random rng (2 ^ suc m - 1)).0 in
      (1 ≤ v)
      × (v ≤ suc m)
      × (2 ^ suc m - 2 ^ (suc m + 1 - v) ≤ draw)
      × (draw < 2 ^ suc m - 2 ^ (suc m - v))
rules_random_complexity_lem rng m h =
    let p = two_pow_bounds m h in
    let r = rule_random-lt rng (2 ^ suc m - 1) (omega arith) in
    rw (rules_random_complexity_in_range rng m h)
      (ground (arith, draw_bracket m (rule_random rng (2 ^ suc m - 1)).0 h r))
