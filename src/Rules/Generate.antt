-- ===== src/Rules/Generate.antt =====
-- Random rules are well formed.
use turmite_linux.Prelude.{
  ℕ, suc, ◌≤◌, ◌<◌, ◌≡◌, refl, update, update_self, update_both, arith, dec_lt,
}
use turmite_linux.Prelude.Loops.{for_range, for_range_inv}
use turmite_linux.Rules.Types.{RuleAction, TurmiteRule, turmite_max_states}
use turmite_linux.Rules.{
  rule_random, random_action, generate_cell, generate_row, rules_generate, rules_random_complexity,
}
use turmite_linux.Rules.WellFormed.{ActionFits, IsWellFormed}
use turmite_linux.Rules.Draws.{rules_random_complexity_lem}
use turmite_linux.World.{turmite_colors}

random_action-ActionFits :
    (colors states rng : ℕ)
    → 0 < colors
    → colors ≤ 6
    → 0 < states
    → states ≤ 4
    → ActionFits states colors (random_action colors states rng).0
unfolding random_action rule_random
random_action-ActionFits colors states rng c c' s s' = record {
  color = ground arith;
  turns = ground arith;
  next = ground arith;
}

module _ (states colors : ℕ) (c0 : 0 < colors) (c1 : colors ≤ 6) (s0 : 0 < states)
    (s1 : states ≤ 4) where
  -- The rows below `s`, and of row `s` the cells below `c`, are filled.
  record Filled (s c : ℕ) (out : TurmiteRule × ℕ) : Type 0 where
    rows : out.0.states ≡ states
    columns : out.0.colors ≡ colors
    above : (i j : ℕ) → i < s → j < colors → ActionFits states colors (out.0.table i j)
    left : (j : ℕ) → j < c → ActionFits states colors (out.0.table s j)

  drawn :
      (rule : TurmiteRule) (rng : ℕ)
      → rule.states ≡ states
      → rule.colors ≡ colors
      → ActionFits states colors (random_action rule.colors rule.states rng).0
  drawn rule rng es ec = rw (es, ec) (random_action-ActionFits colors states rng c0 c1 s0 s1)

  generate_cell-Filled :
      (s c : ℕ) (out : TurmiteRule × ℕ)
      → c < colors
      → Filled s c out
      → Filled s (suc c) (generate_cell s c out)
  unfolding generate_cell
  generate_cell-Filled s c (rule, rng) lt f =
      let new = drawn rule rng f.rows f.columns in
      let a = (random_action rule.colors rule.states rng).0 in
      record {
        rows = f.rows;
        columns = f.columns;
        above = λ i j hi hj.
            update_both (λ (row : ℕ → RuleAction). ActionFits states colors (row j)) rule.table s i
              (update (rule.table s) c a) (λ e. absurd (omega arith)) (λ ne. f.above i j hi hj);
        left = λ j hj. rw (update_self rule.table s (update (rule.table s) c a)) (
            update_both (ActionFits states colors) (rule.table s) c j a (λ e. new)
              (λ ne. f.left j (omega arith)));
      }

  generate_row-Filled :
      (s : ℕ) (out : TurmiteRule × ℕ) → Filled s 0 out → Filled (suc s) 0 (generate_row s out)
  unfolding generate_row
  generate_row-Filled s (rule, rng) f =
      let row =
        for_range_inv (Filled s) (generate_cell s) colors (generate_cell-Filled s) 0 colors
          (rule, rng) (omega arith) f in
      simp f.columns (record {
        rows = row.rows;
        columns = row.columns;
        above = λ i j hi hj. elim (dec_lt i s) [
          | yes p ↦ row.above i j p hj
          | no p ↦ let e : i ≡ s = omega arith in rw e (row.left j hj)
        ];
        left = λ j hj. absurd (omega arith);
      })

  filled :
      (out : TurmiteRule × ℕ)
      → Filled 0 0 out
      → Filled states 0 (for_range 0 states generate_row out)
  filled out f =
      for_range_inv (λ s. Filled s 0) generate_row states (λ s o lt g. generate_row-Filled s o g) 0
        states out (omega arith) f

  IsWellFormed-of-filled :
      (out : TurmiteRule × ℕ)
      → Filled 0 0 out
      → IsWellFormed (for_range 0 states generate_row out).0
  IsWellFormed-of-filled out f =
      let g = filled out f in
      record {
        some_state = rw g.rows s0;
        few_states = rw g.rows s1;
        some_color = rw g.columns c0;
        few_colors = rw g.columns c1;
        fits = λ i j hi hj.
            rw (g.rows, g.columns) (g.above i j (rw g.rows at hi) (rw g.columns at hj));
      }

-- Whatever the stream holds, a generated rule is well formed: between 1 and 4 states, between 1
-- and 6 colors, and every action in the active rectangle stays inside it.
pub rules_generate-IsWellFormed : (rng : ℕ) → IsWellFormed (rules_generate rng).0
unfolding rules_generate
rules_generate-IsWellFormed rng =
    let rng1 = (rules_random_complexity rng turmite_max_states).1 in
    let s = rules_random_complexity_lem rng 3 (omega arith) in
    let c = rules_random_complexity_lem rng1 5 (omega arith) in
    IsWellFormed-of-filled (rules_random_complexity rng turmite_max_states).0
      (rules_random_complexity rng1 turmite_colors).0 c.0 c.1 s.0 s.1 _
      (record {
        rows = refl;
        columns = refl;
        above = λ i j hi hj. absurd (omega arith);
        left = λ j hj. absurd (omega arith);
      })
