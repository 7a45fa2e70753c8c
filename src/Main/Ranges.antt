-- ===== src/Main/Ranges.antt =====
-- src/main.c: a configuration that the command line accepts is in range, and its world can be made.
use native.Mathlib.Nat.{le-div_iff_mul-le, div-le_self, mul-le-mul}
use turmite_linux.Prelude.{
  ℕ, ◌*◌, ◌/◌, ◌≤◌, ◌≡◌, refl, true, false, List, [], ◌∷◌, arith, uint32_max, ◌⊎◌, inl, inr,
  if◌then◌else◌,
}
use turmite_linux.Prelude.Int.{pos}
use turmite_linux.Prelude.Doubles.{Doubles}
use turmite_linux.World.{World, world_init}
use turmite_linux.Dump.{dump_pages_value_valid}
use turmite_linux.Main.Options.{
  Config, Flag, Parsed, go, exit, parse_uint, parse_display, parse_seed, valid_population,
  take_option, take_options, bad_dimensions, max_quantum,
}

-- The ranges of the options' help and messages.
pub record InRange {d : Doubles} (c : Config d) : Type 0 where
  pub ants_min : 2 ≤ c.ants
  pub ants_max : c.ants ≤ 32
  pub quantum_min : 1 ≤ c.quantum
  pub quantum_max : c.quantum ≤ max_quantum
  pub min_service_min : 1 ≤ c.min_service
  pub min_service_max : c.min_service ≤ max_quantum
  pub divisor_min : 1 ≤ c.token_rate_divisor
  pub divisor_max : c.token_rate_divisor ≤ uint32_max
  pub workers_min : 1 ≤ c.workers
  pub workers_max : c.workers ≤ 8
  pub cell_size_min : 1 ≤ c.cell_size
  pub cell_size_max : c.cell_size ≤ 10
  pub width_min : 1 ≤ c.width
  pub height_min : 1 ≤ c.height
  pub glitter_max : c.glitter_density ≤ 10
  pub seed_given : 1 ≤ (if c.has_seed then c.explicit_seed else 1)
  pub seed_word : c.explicit_seed ≤ uint32_max
  pub pages : dump_pages_value_valid c.dump_pages ≡ true
  pub lifetime : d.at_most c.minutes (d.of_nat 0) ≡ false
  pub interval : d.at_most c.dump_interval (d.of_nat 0) ≡ false

module _ {d : Doubles} where
  Parsed-cases : (p : Parsed d) → ((code : ℕ) × (p ≡ exit code)) ⊎ ((c : Config d) × (p ≡ go c))
  Parsed-cases (exit code) = inl (code, refl)
  Parsed-cases (go c) = inr (c, refl)

  take_option-InRange :
      (c c' : Config d) (o : Flag d) → take_option c o ≡ go c' → InRange c → InRange c'
  unfolding take_option parse_uint parse_display parse_seed valid_population
  take_option-InRange c c' (Flag.seed n) e v = ground arith
  take_option-InRange c c' o e v = ground arith

  pub take_options-InRange :
      (c c' : Config d) (os : List (Flag d)) → take_options c os ≡ go c' → InRange c → InRange c'
  unfolding take_options
  take_options-InRange c c' [] e v = ground (arith, v)
  take_options-InRange c c' (o ∷ os) e v = elim (Parsed-cases (take_option c o)) [
    | inl (code, stop) ↦ absurd (ground (arith, stop, e))
    | inr (next, more) ↦
        let e' : take_options next os ≡ go c' = ground (arith, more, e) in
        take_options-InRange next c' os e' (take_option-InRange c next o more v)
  ]

-- A canvas that is not refused, cut into cells of at most ten pixels, makes a world of at least 192
-- cells if there is memory, and neither dimension is out of its range.
pub world_init-fits :
    (width height cell_size : ℕ) (world : World)
    → bad_dimensions width height ≡ false
    → 1 ≤ cell_size
    → cell_size ≤ 10
    → let (code, w) = world_init world (pos (width / cell_size)) (pos (height / cell_size)) true in
      (code ≡ pos 0) × (192 ≤ w.cells)
unfolding world_init
world_init-fits width height cell_size world fine low high =
    let across : 16 ≤ width / cell_size = (le-div_iff_mul-le low).1 (ground (arith, fine)) in
    let down : 12 ≤ height / cell_size = (le-div_iff_mul-le low).1 (ground (arith, fine)) in
    let area : 16 * 12 ≤ width / cell_size * (height / cell_size) = mul-le-mul across down in
    let no_wider = div-le_self width cell_size in
    let no_higher = div-le_self height cell_size in ground (arith, fine)
