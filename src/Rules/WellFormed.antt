-- ===== src/Rules/WellFormed.antt =====
-- What the interpreter may assume of a rule, and that every built-in rule has it.
use turmite_linux.Prelude.{
  ℕ, zero, suc, ◌≤◌, ◌<◌, ◌≡◌, refl, Bool, true, false, not, ◌&&◌, some, List, [], ◌∷◌, ltb, leb,
  arith,
}
use turmite_linux.Prelude.Loops.{all_below, all_below_sound}
use turmite_linux.Rules.Types.{RuleAction, TurmiteRule, turmite_max_states, turn_w}
use turmite_linux.Rules.Catalogue.{rules}
use turmite_linux.Rules.{rule_at}
use turmite_linux.World.{turmite_colors}

-- An action of a rule with these dimensions.
pub record ActionFits (states colors : ℕ) (a : RuleAction) : Type 0 where
  pub color : a.write_color < colors
  pub turns : a.turn ≤ turn_w
  pub next : a.next_state < states

pub record IsWellFormed (r : TurmiteRule) : Type 0 where
  pub some_state : 0 < r.states
  pub few_states : r.states ≤ turmite_max_states
  pub some_color : 0 < r.colors
  pub few_colors : r.colors ≤ turmite_colors
  pub fits : (s c : ℕ) → s < r.states → c < r.colors → ActionFits r.states r.colors (r.table s c)

-- The same as a test, with the claim that no action halts.
abbrev action_test : ℕ → ℕ → RuleAction → Bool
action_test states colors a =
    ltb a.write_color colors && leb a.turn turn_w && ltb a.next_state states && not a.halt

rule_test : TurmiteRule → Bool
unfolding all_below
rule_test r =
    ltb 0 r.states
    && leb r.states turmite_max_states
    && ltb 0 r.colors
    && leb r.colors turmite_colors
    && all_below (λ s. all_below (λ c. action_test r.states r.colors (r.table s c)) r.colors)
        r.states

rules_test : List TurmiteRule → Bool
rules_test [] = true
rules_test (r ∷ rs) = rule_test r && rules_test rs

rules_pass : rules_test rules ≡ true
unfolding rules_test rule_test
rules_pass = refl

rules_test_sound :
    (rs : List TurmiteRule) (i : ℕ) (r : TurmiteRule)
    → rules_test rs ≡ true
    → rule_at rs i ≡ some r
    → rule_test r ≡ true
unfolding rules_test rule_at
rules_test_sound [] i r h e = absurd (ground arith)
rules_test_sound (x ∷ xs) zero r h e = ground arith
rules_test_sound (x ∷ xs) (suc i) r h e = rules_test_sound xs i r (ground arith) e

cell_test :
    (r : TurmiteRule) (s c : ℕ)
    → rule_test r ≡ true
    → s < r.states
    → c < r.colors
    → action_test r.states r.colors (r.table s c) ≡ true
unfolding rule_test
cell_test r s c h hs hc =
    all_below_sound (λ k. action_test r.states r.colors (r.table s k)) r.colors c hc
      (all_below_sound (λ k. all_below (λ j. action_test r.states r.colors (r.table k j)) r.colors)
        r.states s hs (ground arith))

passed : (i : ℕ) (r : TurmiteRule) → rule_at rules i ≡ some r → rule_test r ≡ true
passed i r e = rules_test_sound rules i r rules_pass e

-- Every rule of the catalogue is well formed: between 1 and 4 states and 1 and 6 colors, with
-- every action of the active rectangle inside it.
pub rules-IsWellFormed : (i : ℕ) (r : TurmiteRule) → rule_at rules i ≡ some r → IsWellFormed r
unfolding rule_test
rules-IsWellFormed i r e =
    let t = passed i r e in
    record {
      some_state = ground arith;
      few_states = ground arith;
      some_color = ground arith;
      few_colors = ground arith;
      fits = λ s c hs hc. ground (arith, cell_test r s c t hs hc);
    }

-- No action in the active rectangle of a catalogue rule halts.
pub rules_never_halt :
    (i s c : ℕ) (r : TurmiteRule)
    → rule_at rules i ≡ some r
    → s < r.states
    → c < r.colors
    → (r.table s c).halt ≡ false
unfolding rule_test
rules_never_halt i s c r e hs hc = ground (arith, cell_test r s c (passed i r e) hs hc)
