-- ===== src/Ant/Types.antt =====
-- src/ant.h: ants, their flags, and the colony that the workers share.
use turmite_linux.Prelude.{
  ℕ, ◌+◌, ◌*◌, ◌%◌, Bool, true, false, none, some, u32, u8, ◌<<◌, ◌>>◌, update, bit_or,
}
use turmite_linux.Rules.Types.{TurmiteRule, zero_action}
use turmite_linux.Rules.{RuleRef, null, catalogue, runtime, rule_at}
use turmite_linux.Rules.Catalogue.{rules}

abbrev pub turmite_max_ants : ℕ
turmite_max_ants = 32

-- `TOKEN_FP_ONE`, one token in Q16 fixed point.
abbrev pub token_fp_one : ℕ
token_fp_one = 65536

-- The word `flags`: a bit for each of the eight `ANT_F_` constants.
pub record Flags : Type 0 where
  pub enabled : Bool
  pub leased : Bool
  pub clobbered : Bool
  pub expired : Bool
  pub draining : Bool
  pub halted : Bool
  pub displaced : Bool
  pub waiting : Bool

abbrev pub no_flags : Flags
no_flags = record {
  enabled = false;
  leased = false;
  clobbered = false;
  expired = false;
  draining = false;
  halted = false;
  displaced = false;
  waiting = false;
}

abbrev pub ant_f_enabled : Flags
ant_f_enabled = record no_flags { enabled = true }

pub record Ant : Type 0 where
  pub rule : RuleRef
  pub flags : Flags
  pub rule_index : ℕ
  pub heading : ℕ
  pub state : ℕ
  pub tokens_fp : ℕ
  pub token_rate : ℕ
  pub token_capacity_fp : ℕ
  pub weight : ℕ
  pub rng_state : ℕ
  pub color_offset : ℕ

-- `memset` to zero.
abbrev pub zero_ant : Ant
zero_ant = record {
  rule = null;
  flags = no_flags;
  rule_index = 0;
  heading = 0;
  state = 0;
  tokens_fp = 0;
  token_rate = 0;
  token_capacity_fp = 0;
  weight = 0;
  rng_state = 0;
  color_offset = 0;
}

-- `instructions` and `mutations` are the two fields of `stats`. `enabled_mask` is read bit by bit.
-- `occupied` says that the pointer `occupancy` is not null.
pub record AntColony : Type 0 where
  pub ants : ℕ → Ant
  pub instructions : ℕ → ℕ
  pub mutations : ℕ → ℕ
  pub runtime_rules : ℕ → TurmiteRule
  pub positions : ℕ → ℕ
  pub enabled_mask : ℕ → Bool
  pub occupied : Bool
  pub occupancy : ℕ → ℕ
  pub occupancy_cells : ℕ
  pub occupancy_width : ℕ
  pub active_population : ℕ
  pub collisions : ℕ

unfoldable pub pack_position : ℕ → ℕ → ℕ
pack_position x y = bit_or (u32 (y << 16)) x

-- `p & 0xffff` is the remainder by 2 ^ 16.
abbrev pub packed_x : ℕ → ℕ
packed_x p = p % 65536

abbrev pub packed_y : ℕ → ℕ
packed_y p = p >> 16

abbrev pub ant_owner_id : ℕ → ℕ
ant_owner_id index = u8 (index + 1)

abbrev pub occupancy_index : AntColony → ℕ → ℕ → ℕ
occupancy_index colony x y = y * colony.occupancy_width + x

-- `colony->occupancy[cell] = v`, and a store to the ant at an index.
abbrev pub set_occupancy : AntColony → ℕ → ℕ → AntColony
set_occupancy c cell v = record c { occupancy = update c.occupancy cell v }

abbrev pub set_ant : AntColony → ℕ → Ant → AntColony
set_ant c i a = record c { ants = update c.ants i a }

abbrev pub set_flags : AntColony → ℕ → Flags → AntColony
set_flags c i f = let a = c.ants i in set_ant c i (record a { flags = f })

abbrev pub zero_rule : TurmiteRule
zero_rule = record { id = ""; name = ""; states = 0; colors = 0; table = λ _ _. zero_action }

-- What a rule pointer points to. The code follows no null pointer and no catalogue index out of
-- range; the value given there is arbitrary.
unfoldable pub load_rule : AntColony → RuleRef → TurmiteRule
load_rule c null = zero_rule
load_rule c (catalogue i) = elim (rule_at rules i) [ none ↦ zero_rule | some r ↦ r ]
load_rule c (runtime i) = c.runtime_rules i

unfoldable pub publish_position : AntColony → ℕ → ℕ → ℕ → AntColony
publish_position c index x y = record c { positions = update c.positions index (pack_position x y) }
