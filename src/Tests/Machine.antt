-- ===== src/Tests/Machine.antt =====
-- Runs of the generator, the tape and the rules.
use turmite_linux.Prelude.{
  ℕ, suc, ◌+◌, ◌-◌, ◌^◌, ◌≤◌, ◌<◌, ◌≡◌, refl, true, false, some, List, [], ◌∷◌, arith,
  if◌then◌else◌, ◌==◌, ◌&&◌, ◌⊎◌, length, ◌++◌,
}
use turmite_linux.Prelude.Int.{pos}
use turmite_linux.Rng.{Lfsr32, Attempt, lfsr32_advance, advance_by, rng_next}
use turmite_linux.Rng.Step.{advance_by_injective}
use turmite_linux.Rng.Shared.{contention, rng_next_linear}
use turmite_linux.World.{empty_world, world_init, world_store}
use turmite_linux.Rules.Types.{TurmiteRule}
use turmite_linux.Rules.Catalogue.{rules}
use turmite_linux.Rules.{
  catalogue, rule_at, rule_random, rules_random_complexity, rules_generate, rules_mutate,
}
use turmite_linux.Rules.WellFormed.{IsWellFormed, rules-IsWellFormed}
use turmite_linux.Rules.Draws.{rules_random_complexity_lem}
use turmite_linux.Rules.Generate.{rules_generate-IsWellFormed}
use turmite_linux.Rules.Mutate.{OneField, rules_mutate_lem}
use turmite_linux.Ant.Types.{load_rule}
use turmite_linux.Tests.Samples.{small_world, one_ant}

-- A step from one lands on the taps.
lfsr32_one : lfsr32_advance 1 ≡ 0x80200003
unfolding lfsr32_advance
lfsr32_one = refl

three_steps : advance_by 3 5 ≡ advance_by 3 (4 + 1)
three_steps = refl

advance_by_injective_example : 5 ≡ 4 + 1
advance_by_injective_example =
    advance_by_injective 3 5 (4 + 1) (omega arith) (omega arith) (omega arith) (omega arith)
      three_steps

-- Two threads step first, and then the swap fails for no reason.
abbrev two_attempts : List Attempt
two_attempts = record { others = 2; spurious = false } ∷ record { others = 0; spurious = true } ∷ []

abbrev seeded : Lfsr32
seeded = record { state = 1 }

rng_next_linear_example :
    (used : List Attempt) × (left : List Attempt) × (two_attempts ≡ used ++ left)
    × ((0 < length used) ⊎ (two_attempts ≡ []))
    × ((rng_next two_attempts seeded).0 ≡ advance_by (suc (contention used)) 1)
    × ((rng_next two_attempts seeded).1.state ≡ advance_by (suc (contention used)) 1)
rng_next_linear_example = rng_next_linear two_attempts seeded

init_ok : (world_init empty_world (pos 3) (pos 2) true).0 ≡ pos 0
unfolding world_init
init_ok = refl

stored : (world_store small_world 4 5).allocated ≡ true
unfolding world_store
stored = refl

-- The first rule of the catalogue.
abbrev langtons_ant : TurmiteRule
langtons_ant = load_rule one_ant (catalogue 0)

langtons_ant_at : rule_at rules 0 ≡ some langtons_ant
unfolding load_rule rule_at
langtons_ant_at = refl

rules_random_complexity_lem_example :
    let v = (rules_random_complexity 77 6).0 in
    let draw = (rule_random 77 (2 ^ 6 - 1)).0 in
    (1 ≤ v) × (v ≤ 6) × (2 ^ 6 - 2 ^ (6 + 1 - v) ≤ draw) × (draw < 2 ^ 6 - 2 ^ (6 - v))
rules_random_complexity_lem_example = rules_random_complexity_lem 77 5 (omega arith)

rules_generate-IsWellFormed_example : IsWellFormed (rules_generate 12345).0
rules_generate-IsWellFormed_example = rules_generate-IsWellFormed 12345

rules_mutate_lem_example :
    let r' = (rules_mutate langtons_ant 99).0 in
    IsWellFormed r'
    × (r'.states ≡ langtons_ant.states)
    × (r'.colors ≡ langtons_ant.colors)
    × ((s : ℕ) × (c : ℕ) × (s < langtons_ant.states)
        × (c < langtons_ant.colors)
        × OneField (langtons_ant.table s c) (r'.table s c)
        × ((i j : ℕ)
            → r'.table i j ≡ (if i == s && j == c then r'.table s c else langtons_ant.table i j)))
rules_mutate_lem_example =
    rules_mutate_lem langtons_ant 99 (rules-IsWellFormed 0 langtons_ant langtons_ant_at)
