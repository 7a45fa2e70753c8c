-- ===== src/Rules.antt =====
-- src/rules.h and src/rules.c: the rule catalogue, and the generation and mutation of rules.
pub mod Types
pub mod Catalogue
pub mod Mutate
pub mod Generate
pub mod Index
pub mod Draws
pub mod WellFormed
use Types.{
  RuleAction, TurmiteRule, zero_action, set_action, turmite_max_states, rule_index_runtime, turn_f,
  turn_r, turn_l, turn_b, turn_h, turn_n, turn_e, turn_s, turn_w,
}
use Catalogue.{rules}
use turmite_linux.Prelude.{
  ℕ, zero, suc, ◌+◌, ◌-◌, ◌*◌, ◌%◌, ◌^◌, Bool, true, false, not, ◌||◌, Option, none, some, List, [],
  ◌∷◌, String, ltb, leb, ◌==◌, if◌then◌else◌, u8, u16, u32, ◌<<◌, length, sub_u32,
}
use turmite_linux.Prelude.Loops.{for_range}
use turmite_linux.Rng.{lfsr32_advance}
use turmite_linux.World.{turmite_colors}

-- A pointer to a rule: null, into the catalogue, or to an ant's private table.
pub data RuleRef : Type 0 where
  null : RuleRef
  catalogue : ℕ → RuleRef
  runtime : ℕ → RuleRef

unfoldable pub rules_count : ℕ
rules_count = length rules

-- The rule that stands at an index of the catalogue.
unfoldable pub rule_at : List TurmiteRule → ℕ → Option TurmiteRule
rule_at [] i = none
rule_at (r ∷ rs) zero = some r
rule_at (r ∷ rs) (suc i) = rule_at rs i

unfoldable pub rules_get : ℕ → RuleRef
unfolding rules_count
rules_get index = if leb rules_count index then null else catalogue index

unfoldable pub rules_pick : ℕ → RuleRef
unfolding rules_get rules_count
rules_pick index = rules_get (index % rules_count)

-- Pointer identity.
abbrev pub same_ref : RuleRef → RuleRef → Bool
same_ref null null = true
same_ref (catalogue i) (catalogue j) = i == j
same_ref (runtime i) (runtime j) = i == j
same_ref _ _ = false

-- The search loop, over the `n` indices from `i` on.
index_loop : RuleRef → ℕ → ℕ → ℕ
unfolding rules_get
index_loop rule i zero = rule_index_runtime
index_loop rule i (suc n) =
    let rest = index_loop rule (suc i) n in if same_ref (rules_get i) rule then i else rest

unfoldable pub rules_index_of : RuleRef → ℕ
unfolding index_loop rules_count
rules_index_of null = rule_index_runtime
rules_index_of (catalogue k) = index_loop (catalogue k) 0 rules_count
rules_index_of (runtime k) = index_loop (runtime k) 0 rules_count

unfoldable pub turn_name : ℕ → String
turn_name turn =
    if turn == turn_f
    then "F"
    else if turn == turn_r
    then "R"
    else if turn == turn_l
    then "L"
    else if turn == turn_b
    then "B"
    else if turn == turn_h
    then "H"
    else if turn == turn_n
    then "N"
    else if turn == turn_e
    then "E"
    else if turn == turn_s
    then "S"
    else if turn == turn_w
    then "W"
    else "?"

-- A draw and the state of the private generator after it. No caller passes a limit of zero.
unfoldable pub rule_random : ℕ → ℕ → ℕ × ℕ
rule_random state limit = let s = lfsr32_advance state in (s % limit, s)

-- The sampling loop: `n` values from `value` on are still to be tried.
unfoldable pub complexity_loop : ℕ → ℕ → ℕ → ℕ → ℕ
complexity_loop maximum draw value zero = maximum
complexity_loop maximum draw value (suc n) =
    let weight = u32 (1 << (maximum - value)) in
    let rest = complexity_loop maximum (draw - weight) (suc value) n in
    if ltb draw weight then value else rest

unfoldable pub rules_random_complexity : ℕ → ℕ → ℕ × ℕ
rules_random_complexity rng maximum =
    let (draw, rng') = rule_random rng (u32 (1 << maximum) - 1) in
    if ltb maximum 1 || ltb turmite_colors maximum
    then (1, rng)
    else (complexity_loop maximum draw 1 (maximum - 1), rng')

-- One random action: its fields are drawn in the order of the initialiser.
unfoldable pub random_action : ℕ → ℕ → ℕ → RuleAction × ℕ
random_action colors states rng =
    let (w, rng1) = rule_random rng colors in
    let (t, rng2) = rule_random rng1 (turn_w + 1) in
    let (n, rng3) = rule_random rng2 states in
    let (h, rng4) = rule_random rng3 64 in
    (record { write_color = u8 w; turn = u8 t; next_state = u8 n; halt = h == 0 }, rng4)

unfoldable pub generate_cell : ℕ → ℕ → TurmiteRule × ℕ → TurmiteRule × ℕ
generate_cell s c (rule, rng) =
    let (a, rng') = random_action rule.colors rule.states rng in (set_action rule s c a, rng')

unfoldable pub generate_row : ℕ → TurmiteRule × ℕ → TurmiteRule × ℕ
generate_row s (rule, rng) = for_range 0 rule.colors (generate_cell s) (rule, rng)

unfoldable pub rules_generate : ℕ → TurmiteRule × ℕ
rules_generate rng =
    let (states, rng1) = rules_random_complexity rng turmite_max_states in
    let (colors, rng2) = rules_random_complexity rng1 turmite_colors in
    for_range 0 states generate_row (
      record {
        id = "runtime";
        name = "Runtime rule";
        states = states;
        colors = colors;
        table = λ _ _. zero_action;
      },
      rng2,
    )

-- The field that a mutation other than the halt toggle changes: `fields[k]`, where `fields` lists
-- the turn, then the color if there are two, then the state if there are two.
abbrev pub field_at : ℕ → ℕ → ℕ → ℕ
field_at colors states k =
    if k == 0 then 0 else if k == 1 then (if ltb 1 colors then 1 else 2) else 2

abbrev pub field_count : ℕ → ℕ → ℕ
field_count colors states = 1 + (if ltb 1 colors then 1 else 0) + (if ltb 1 states then 1 else 0)

-- `(x + 1 + random(n - 1)) % n` in unsigned arithmetic.
unfoldable pub rotate_field : ℕ → ℕ → ℕ → ℕ × ℕ
rotate_field x n rng = let (r, rng') = rule_random rng (n - 1) in (u8 (u32 (x + 1 + r) % n), rng')

unfoldable pub mutate_action : TurmiteRule → RuleAction → ℕ → RuleAction × ℕ
mutate_action rule a rng =
    let (toggle, rng1) = rule_random rng 16 in
    let (k, rng2) = rule_random rng1 (field_count rule.colors rule.states) in
    let field = field_at rule.colors rule.states k in
    let (t, rng_t) = rotate_field a.turn (turn_w + 1) rng2 in
    let (w, rng_w) = rotate_field a.write_color rule.colors rng2 in
    let (n, rng_n) = rotate_field a.next_state rule.states rng2 in
    if toggle == 0
    then (record a { halt = not a.halt }, rng1)
    else if field == 0
    then (record a { turn = t }, rng_t)
    else if field == 1
    then (record a { write_color = w }, rng_w)
    else (record a { next_state = n }, rng_n)

unfoldable pub rules_mutate : TurmiteRule → ℕ → TurmiteRule × ℕ
rules_mutate rule rng =
    let (state, rng1) = rule_random rng rule.states in
    let (color, rng2) = rule_random rng1 rule.colors in
    let (a, rng3) = mutate_action rule (rule.table state color) rng2 in
    (record (set_action rule state color a) { id = "runtime"; name = "Runtime rule" }, rng3)
