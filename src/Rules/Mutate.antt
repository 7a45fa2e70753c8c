-- ===== src/Rules/Mutate.antt =====
-- A mutation changes exactly one field of one action, and keeps a rule well formed.
use native.Mathlib.Nat.{mod-eq_of_lt, mod-eq-sub-mod}
use native.Mathlib.Decide.{dec_lt}
use turmite_linux.Prelude.{
  ◌&&◌, if◌then◌else◌, ℕ, ◌+◌, ◌-◌, ◌%◌, ◌≤◌, ◌<◌, ◌≡◌, ◌≢◌, refl, not, ◌==◌, if◌then◌else◌, u8,
  u32, update, update_both, arith, ◌⊎◌, inl, inr, Bool-cases,
}
use turmite_linux.Rules.Types.{RuleAction, TurmiteRule, set_action_self, set_action, turn_w}
use turmite_linux.Rules.{
  rule_random, rotate_field, mutate_action, rules_mutate, field_at, field_count,
}
use turmite_linux.Rules.WellFormed.{ActionFits, IsWellFormed}
use turmite_linux.Rules.Draws.{rule_random-lt}

-- Adding from 1 to n - 1 modulo n moves a value below n to another value below n.
rotate_moves :
    (x r n : ℕ)
    → x < n
    → r < n - 1
    → n ≤ 9
    → (u8 (u32 (x + 1 + r) % n) < n) × (u8 (u32 (x + 1 + r) % n) ≢ x)
rotate_moves x r n hx hr hn =
    let word : u32 (x + 1 + r) ≡ x + 1 + r = omega arith in
    rw word (elim (dec_lt (x + 1 + r) n) [
      | yes p ↦ rw (mod-eq_of_lt p) (omega arith)
      | no p ↦
          rw
            (
              mod-eq-sub-mod {n = x + 1 + r} {m = n} (omega arith),
              mod-eq_of_lt {n = x + 1 + r - n} {m = n} (omega arith),
            )
            (omega arith)
    ])

rotate_field_lem :
    (x n rng : ℕ)
    → x < n
    → 1 < n
    → n ≤ 9
    → ((rotate_field x n rng).0 < n) × ((rotate_field x n rng).0 ≢ x)
unfolding rotate_field
rotate_field_lem x n rng hx h1 h9 =
    rotate_moves x (rule_random rng (n - 1)).0 n hx (rule_random-lt rng (n - 1) (omega arith)) h9

-- The two actions differ in one field, and agree in the three others.
pub data OneField (a b : RuleAction) : Type 0 where
  halt_toggled :
      b.halt ≡ not a.halt
      → b.turn ≡ a.turn
      → b.write_color ≡ a.write_color
      → b.next_state ≡ a.next_state
      → OneField a b
  turn_changed :
      b.turn ≢ a.turn
      → b.halt ≡ a.halt
      → b.write_color ≡ a.write_color
      → b.next_state ≡ a.next_state
      → OneField a b
  color_changed :
      b.write_color ≢ a.write_color
      → b.halt ≡ a.halt
      → b.turn ≡ a.turn
      → b.next_state ≡ a.next_state
      → OneField a b
  state_changed :
      b.next_state ≢ a.next_state
      → b.halt ≡ a.halt
      → b.turn ≡ a.turn
      → b.write_color ≡ a.write_color
      → OneField a b

field_at_cases :
    (colors states k : ℕ)
    → k < field_count colors states
    → (field_at colors states k ≡ 0)
      ⊎ ((field_at colors states k ≡ 1) × (1 < colors))
      ⊎ ((field_at colors states k ≡ 2) × (1 < states))
field_at_cases colors states k h = ground arith

-- The same for a choice of the field.
abbrev chosen : TurmiteRule → RuleAction → ℕ → ℕ → RuleAction × ℕ
chosen r a rng field =
    if field == 0
    then (
      record a { turn = (rotate_field a.turn (turn_w + 1) rng).0 },
      (rotate_field a.turn (turn_w + 1) rng).1,
    )
    else if field == 1
    then (
      record a { write_color = (rotate_field a.write_color r.colors rng).0 },
      (rotate_field a.write_color r.colors rng).1,
    )
    else (
      record a { next_state = (rotate_field a.next_state r.states rng).0 },
      (rotate_field a.next_state r.states rng).1,
    )

abbrev Mutated : TurmiteRule → RuleAction → RuleAction → Type 0
Mutated r a b = OneField a b × ActionFits r.states r.colors b

other_field :
    (r : TurmiteRule) (a : RuleAction) (rng : ℕ)
    → r.states ≤ 4
    → r.colors ≤ 6
    → ActionFits r.states r.colors a
    → let (k, rng2) = rule_random rng (field_count r.colors r.states) in
      Mutated r a (chosen r a rng2 (field_at r.colors r.states k)).0
other_field r a rng hs hc f =
    let (k, rng2) = rule_random rng (field_count r.colors r.states) in
    elim (field_at_cases r.colors r.states k
      (rule_random-lt rng (field_count r.colors r.states) (omega arith))) [
        | inl e ↦
            let m = rotate_field_lem a.turn 9 rng2 (omega arith) (omega arith) (omega arith) in
            rw e (
              turn_changed m.1 refl refl refl,
              record { color = f.color; turns = omega arith; next = f.next },
            )
        | inr (inl (e, h)) ↦
            let m = rotate_field_lem a.write_color r.colors rng2 f.color h (omega arith) in
            rw e (
              color_changed m.1 refl refl refl,
              record { color = m.0; turns = f.turns; next = f.next },
            )
        | inr (inr (e, h)) ↦
            let m = rotate_field_lem a.next_state r.states rng2 f.next h (omega arith) in
            rw e (
              state_changed m.1 refl refl refl,
              record { color = f.color; turns = f.turns; next = m.0 },
            )
      ]

-- The mutated action differs from the old one in exactly one field and still fits the rule.
mutate_action_lem :
    (r : TurmiteRule) (a : RuleAction) (rng : ℕ)
    → r.states ≤ 4
    → r.colors ≤ 6
    → ActionFits r.states r.colors a
    → OneField a (mutate_action r a rng).0 × ActionFits r.states r.colors (mutate_action r a rng).0
unfolding mutate_action
mutate_action_lem r a rng hs hc f = elim (Bool-cases ((rule_random rng 16).0 == 0)) [
  | inl e ↦
      rw e (
        halt_toggled refl refl refl refl,
        record { color = f.color; turns = f.turns; next = f.next },
      )
  | inr e ↦ rw e (other_field r a (rule_random rng 16).1 hs hc f)
]

set_action_frame :
    (r : TurmiteRule) (s c i j : ℕ) (b : RuleAction)
    → (set_action r s c b).table i j
      ≡ (if i == s && j == c then (set_action r s c b).table s c else r.table i j)
set_action_frame r s c i j b = ground arith

-- A mutation of a well-formed rule changes one field of one action of the active rectangle, keeps
-- every other action and both dimensions, and leaves the rule well formed.
pub rules_mutate_lem :
    (r : TurmiteRule) (rng : ℕ)
    → IsWellFormed r
    → let r' = (rules_mutate r rng).0 in
      IsWellFormed r'
      × (r'.states ≡ r.states)
      × (r'.colors ≡ r.colors)
      × ((s : ℕ) × (c : ℕ) × (s < r.states)
          × (c < r.colors)
          × OneField (r.table s c) (r'.table s c)
          × ((i j : ℕ) → r'.table i j ≡ (if i == s && j == c then r'.table s c else r.table i j)))
unfolding rules_mutate
rules_mutate_lem r rng w =
    let (s, rng1) = rule_random rng r.states in
    let (c, rng2) = rule_random rng1 r.colors in
    let hs = rule_random-lt rng r.states w.some_state in
    let hc = rule_random-lt rng1 r.colors w.some_color in
    let m = mutate_action_lem r (r.table s c) rng2 w.few_states w.few_colors (w.fits s c hs hc) in
    let b = (mutate_action r (r.table s c) rng2).0 in
    let here = set_action_self r s c b in
    (
      record {
        some_state = w.some_state;
        few_states = w.few_states;
        some_color = w.some_color;
        few_colors = w.few_colors;
        fits = λ i j hi hj.
            update_both (λ (row : ℕ → RuleAction). ActionFits r.states r.colors (row j)) r.table s i
              (update (r.table s) c b)
              (λ e.
                update_both (ActionFits r.states r.colors) (r.table s) c j b (λ _. m.1)
                  (λ _. w.fits s j hs hj))
              (λ _. w.fits i j hi hj);
      },
      refl,
      refl,
      (s, c, hs, hc, rw here m.0, λ i j. set_action_frame r s c i j b),
    )
