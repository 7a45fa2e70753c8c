-- ===== src/Rules/Types.antt =====
-- src/rules.h: the table-driven machines.
use turmite_linux.Prelude.{ℕ, ◌≡◌, Bool, false, String, update, arith}

abbrev pub turmite_max_states : ℕ
turmite_max_states = 4

abbrev pub rule_index_runtime : ℕ
rule_index_runtime = 65535

-- `TurnCode`. An action stores it in a byte, so it is a number with names for nine values.
abbrev pub turn_f : ℕ
turn_f = 0

abbrev pub turn_r : ℕ
turn_r = 1

abbrev pub turn_l : ℕ
turn_l = 2

abbrev pub turn_b : ℕ
turn_b = 3

abbrev pub turn_h : ℕ
turn_h = 4

abbrev pub turn_n : ℕ
turn_n = 5

abbrev pub turn_e : ℕ
turn_e = 6

abbrev pub turn_s : ℕ
turn_s = 7

abbrev pub turn_w : ℕ
turn_w = 8

pub record RuleAction : Type 0 where
  pub write_color : ℕ
  pub turn : ℕ
  pub next_state : ℕ
  pub halt : Bool

abbrev pub zero_action : RuleAction
zero_action = record { write_color = 0; turn = 0; next_state = 0; halt = false }

-- `table` is the array of 4 by 6 actions.
pub record TurmiteRule : Type 0 where
  pub id : String
  pub name : String
  pub states : ℕ
  pub colors : ℕ
  pub table : ℕ → ℕ → RuleAction

-- `rule->table[s][c] = a`
abbrev pub set_action : TurmiteRule → ℕ → ℕ → RuleAction → TurmiteRule
set_action rule s c a = record rule { table = update rule.table s (update (rule.table s) c a) }

pub set_action_self :
    (r : TurmiteRule) (s c : ℕ) (a : RuleAction) → (set_action r s c a).table s c ≡ a
set_action_self r s c a = ground arith
