-- ===== src/Scheduler/Refill.antt =====
-- Token refill: what it may change, and by how much.
use turmite_linux.Prelude.{
  min, ap, ◌∙◌, ℕ, ◌+◌, ◌-◌, ◌*◌, ◌/◌, ◌^◌, ◌≤◌, ◌<◌, ◌≡◌, ◌≢◌, true, false, leb, if◌then◌else◌,
  u32, u64, arith, uint32_max, uint16_max,
}
use turmite_linux.Ant.Types.{Ant, token_fp_one}
use turmite_linux.Scheduler.Types.{Scheduler, LongDouble, ant_at}
use turmite_linux.Scheduler.Tokens.{or_one, earned_fp, accrue_tokens}

-- An ant's balance fits its bucket, and the bucket fits a word.
pub record BucketIsValid (a : Ant) : Type 0 where
  pub bounded : a.tokens_fp ≤ a.token_capacity_fp
  pub word : a.token_capacity_fp < 2 ^ 32

-- A product of bounded numbers is bounded.
product_bound : (r e : ℕ) → r ≤ 4294967295 → e ≤ 65535 → r * e ≤ 4294967295 * 65535
product_bound r e hr he = grind arith

-- On the integer path nothing wraps: the tokens earned are the true quotient.
earned_fp_fast :
    (ld : LongDouble) (rate elapsed divisor room : ℕ)
    → rate ≤ uint32_max
    → elapsed ≤ uint16_max
    → divisor < 2 ^ 32
    → earned_fp ld rate elapsed divisor room ≡ rate * elapsed * token_fp_one / (1000000 * divisor)
unfolding earned_fp
earned_fp_fast ld rate elapsed divisor room hr he hd =
    let p = product_bound rate elapsed hr he in
    let w1 : u64 (rate * elapsed) ≡ rate * elapsed = omega arith in
    let w2 : u64 (rate * elapsed * token_fp_one) ≡ rate * elapsed * token_fp_one = omega arith in
    let w3 : u64 (1000000 * divisor) ≡ 1000000 * divisor = omega arith in
    let t1 : leb rate uint32_max ≡ true = ground arith in
    let t2 : leb elapsed uint16_max ≡ true = ground arith in rw (t1, t2, w1, w2, w3)

-- What a refill leaves alone.
pub accrue_frame :
    (ld : LongDouble) (s : Scheduler) (i now : ℕ)
    → let s' = accrue_tokens ld s i now in
      (s'.colony.occupancy ≡ s.colony.occupancy)
      × (s'.colony.positions ≡ s.colony.positions)
      × (s'.colony.enabled_mask ≡ s.colony.enabled_mask)
      × (s'.draining ≡ s.draining)
      × (s'.paused ≡ s.paused)
      × (s'.stopping ≡ s.stopping)
      × (s'.quantum ≡ s.quantum)
      × (s'.min_service ≡ s.min_service)
      × (s'.fair_credit ≡ s.fair_credit)
      × (s'.colony.active_population ≡ s.colony.active_population)
unfolding accrue_tokens
accrue_frame ld s i now = ground arith

pub accrue_other :
    (ld : LongDouble) (s : Scheduler) (i j now : ℕ)
    → i ≢ j
    → ant_at (accrue_tokens ld s i now) j ≡ ant_at s j
unfolding accrue_tokens
accrue_other ld s i j now ne = ground arith

-- A refill changes one field of one ant: its balance.
pub accrue_self :
    (ld : LongDouble) (s : Scheduler) (i now : ℕ)
    → let a = ant_at (accrue_tokens ld s i now) i in
      let b = ant_at s i in
      (a.flags ≡ b.flags)
      × (a.token_capacity_fp ≡ b.token_capacity_fp)
      × (a.weight ≡ b.weight)
      × (a.color_offset ≡ b.color_offset)
unfolding accrue_tokens
accrue_self ld s i now = ground arith

filled_bounds :
    (current cap add : ℕ)
    → current ≤ cap
    → cap < 2 ^ 32
    → let filled = if leb (cap - current) add then cap else u32 (current + u32 add) in
      (current ≤ filled) × (filled ≤ cap)
filled_bounds current cap add h w = ground arith

-- Whatever the floating-point path computes, a refill of a balance within a bucket of 32 bits
-- keeps it so and never lowers the balance, and the refill time never goes back.
pub accrue_tokens-BucketIsValid :
    (ld : LongDouble) (s : Scheduler) (i now : ℕ)
    → BucketIsValid (ant_at s i)
    → let s' = accrue_tokens ld s i now in
      BucketIsValid (ant_at s' i)
      × ((ant_at s i).tokens_fp ≤ (ant_at s' i).tokens_fp)
      × (s.last_token_us i ≤ s'.last_token_us i)
unfolding accrue_tokens
accrue_tokens-BucketIsValid ld s i now v =
    let a = ant_at s i in
    let add =
      earned_fp ld (u64 (a.token_rate * or_one s.token_rate_scale)) (now - s.last_token_us i)
        (or_one s.token_rate_divisor) (a.token_capacity_fp - a.tokens_fp) in
    let f = filled_bounds a.tokens_fp a.token_capacity_fp add v.bounded v.word in
    (ground (arith, f), ground (arith, f), ground (arith, f))

filled_min :
    (current cap add : ℕ)
    → current ≤ cap
    → cap < 2 ^ 32
    → (if leb (cap - current) add then cap else u32 (current + u32 add)) ≡ min cap (current + add)
filled_min current cap add h w = ground arith

accrue_tokens_earned :
    (ld : LongDouble) (s : Scheduler) (i now : ℕ)
    → BucketIsValid (ant_at s i)
    → s.draining ≡ false
    → s.last_token_us i < now
    → let a = ant_at s i in
      let rate = u64 (a.token_rate * or_one s.token_rate_scale) in
      let room = a.token_capacity_fp - a.tokens_fp in
      0 < rate
      → (ant_at (accrue_tokens ld s i now) i).tokens_fp
        ≡ min a.token_capacity_fp (
            a.tokens_fp
            + earned_fp ld rate (now - s.last_token_us i) (or_one s.token_rate_divisor) room)
unfolding accrue_tokens
accrue_tokens_earned ld s i now v active since some_rate =
    let a = ant_at s i in
    let add =
      earned_fp ld (u64 (a.token_rate * or_one s.token_rate_scale)) (now - s.last_token_us i)
        (or_one s.token_rate_divisor) (a.token_capacity_fp - a.tokens_fp) in
    let f = filled_min a.tokens_fp a.token_capacity_fp add v.bounded v.word in
    ground (arith, f, v.bounded)

-- A refill on the integer path: the balance is within a bucket of 32 bits, the universe does not
-- drain, time has passed since the last refill, at most 65535 microseconds, the scaled rate is
-- positive and a 32-bit word, and so is the divisor. Then the ant's balance becomes the smaller
-- of its capacity and the old balance plus the tokens earned, rounded down, and no product on
-- the way wraps around.
pub accrue_tokens-min :
    (ld : LongDouble) (s : Scheduler) (i now : ℕ)
    → BucketIsValid (ant_at s i)
    → s.draining ≡ false
    → s.last_token_us i < now
    → now - s.last_token_us i ≤ uint16_max
    → 0 < (ant_at s i).token_rate * or_one s.token_rate_scale
    → (ant_at s i).token_rate * or_one s.token_rate_scale ≤ uint32_max
    → or_one s.token_rate_divisor < 2 ^ 32
    → let a = ant_at s i in
      (ant_at (accrue_tokens ld s i now) i).tokens_fp
      ≡ min a.token_capacity_fp (
          a.tokens_fp
          + a.token_rate
            * or_one s.token_rate_scale
            * (now - s.last_token_us i)
            * token_fp_one
            / (1000000 * or_one s.token_rate_divisor))
accrue_tokens-min ld s i now v active since soon some_rate small divisor =
    let a = ant_at s i in
    let rate = a.token_rate * or_one s.token_rate_scale in
    let word : u64 rate ≡ rate = omega arith in
    accrue_tokens_earned ld s i now v active since (omega arith)
    ∙ ap (λ (x : ℕ). min a.token_capacity_fp (a.tokens_fp + x))
        (rw word (
          earned_fp_fast ld rate (now - s.last_token_us i) (or_one s.token_rate_divisor)
            (a.token_capacity_fp - a.tokens_fp) small soon divisor))
