-- ===== src/Rules/Catalogue.antt =====
-- src/rules.c: the built-in catalogue, `RULES`, row by row.
use turmite_linux.Prelude.{ℕ, false, List, [], ◌∷◌, ◌++◌, String, get_or}
use turmite_linux.Rules.Types.{
  RuleAction, TurmiteRule, zero_action, turn_f, turn_r, turn_l, turn_b, turn_h, turn_n, turn_e,
  turn_s, turn_w,
}

-- The macros `A`, `HLT` and `NOOP`.
abbrev act : ℕ → ℕ → ℕ → RuleAction
act w t n = record { write_color = w; turn = t; next_state = n; halt = false }

abbrev noop : ℕ → RuleAction
noop c = record { write_color = c; turn = turn_f; next_state = 0; halt = false }

-- An initialiser: what it leaves out is zero, as in C.
abbrev built_in : String → String → ℕ → ℕ → List (List RuleAction) → TurmiteRule
built_in id name states colors rows = record {
  id = id;
  name = name;
  states = states;
  colors = colors;
  table = λ s c. get_or (get_or rows s []) c zero_action;
}

-- Lines of the first part, the classic machines.
abbrev pub classic_rules : List TurmiteRule
classic_rules =
    built_in "langtons" "Langton's Ant" 1 2 (((act 1 turn_r 0) ∷ (act 0 turn_l 0) ∷ []) ∷ [])
    ∷ built_in "symmetrical" "Symmetrical" 1 6 (
        ((act 1 turn_r 0)
          ∷ (act 2 turn_r 0)
          ∷ (act 3 turn_l 0)
          ∷ (act 4 turn_l 0)
          ∷ (act 5 turn_r 0)
          ∷ (act 0 turn_r 0)
          ∷ [])
        ∷ [])
    ∷ built_in "snowflake" "Snowflake" 3 2 (
        ((act 1 turn_l 1) ∷ (act 1 turn_r 0) ∷ [])
        ∷ ((act 1 turn_b 1) ∷ (act 1 turn_b 2) ∷ [])
        ∷ ((act 0 turn_f 2) ∷ (act 0 turn_b 0) ∷ [])
        ∷ [])
    ∷ built_in "archimedes" "Archimedes Spiral" 1 6 (
        ((act 1 turn_l 0)
          ∷ (act 2 turn_r 0)
          ∷ (act 3 turn_r 0)
          ∷ (act 4 turn_r 0)
          ∷ (act 5 turn_r 0)
          ∷ (act 0 turn_l 0)
          ∷ [])
        ∷ [])
    ∷ built_in "logarithmic" "Logarithmic Spiral" 1 6 (
        ((act 1 turn_r 0)
          ∷ (act 2 turn_l 0)
          ∷ (act 3 turn_l 0)
          ∷ (act 4 turn_l 0)
          ∷ (act 5 turn_l 0)
          ∷ (act 0 turn_r 0)
          ∷ [])
        ∷ [])
    ∷ built_in "squarefiller" "Square Filler" 1 6 (
        ((act 1 turn_l 0)
          ∷ (act 2 turn_r 0)
          ∷ (act 3 turn_r 0)
          ∷ (act 4 turn_r 0)
          ∷ (act 5 turn_r 0)
          ∷ (act 0 turn_r 0)
          ∷ [])
        ∷ [])
    ∷ built_in "builders" "Builders" 2 2 (
        ((act 1 turn_l 1) ∷ (act 1 turn_r 1) ∷ [])
        ∷ ((act 1 turn_r 1) ∷ (act 0 turn_r 0) ∷ [])
        ∷ [])
    ∷ built_in "critterhighway" "Critter Highway" 1 6 (
        ((act 1 turn_h 0)
          ∷ (act 2 turn_r 0)
          ∷ (act 3 turn_s 0)
          ∷ (act 4 turn_h 0)
          ∷ (act 5 turn_n 0)
          ∷ (act 0 turn_l 0)
          ∷ [])
        ∷ [])
    ∷ built_in "dotgrid" "Dotgrid" 3 3 (
        ((act 1 turn_r 1)
          ∷ (act 0 turn_l 2)
          ∷ (act 1 turn_b 0)
          ∷ (noop 0)
          ∷ (noop 0)
          ∷ (noop 0)
          ∷ [])
        ∷ ((act 0 turn_f 0) ∷ (act 1 turn_r 1) ∷ (noop 0) ∷ (noop 0) ∷ (noop 0) ∷ (noop 0) ∷ [])
        ∷ ((act 0 turn_l 1) ∷ (act 1 turn_r 2) ∷ (noop 0) ∷ (noop 0) ∷ (noop 0) ∷ (noop 0) ∷ [])
        ∷ [])
    ∷ built_in "pipedream" "Pipedream" 1 6 (
        ((act 1 turn_f 0)
          ∷ (act 2 turn_b 0)
          ∷ (act 3 turn_w 0)
          ∷ (act 4 turn_l 0)
          ∷ (act 5 turn_w 0)
          ∷ (act 0 turn_f 0)
          ∷ [])
        ∷ [])
    ∷ built_in "scaffold" "Scaffold" 1 6 (
        ((act 1 turn_f 0)
          ∷ (act 2 turn_b 0)
          ∷ (act 3 turn_l 0)
          ∷ (act 4 turn_n 0)
          ∷ (act 5 turn_e 0)
          ∷ (act 0 turn_s 0)
          ∷ [])
        ∷ [])
    ∷ built_in "transistor" "Transistor" 1 6 (
        ((act 1 turn_w 0)
          ∷ (act 2 turn_b 0)
          ∷ (act 3 turn_n 0)
          ∷ (act 4 turn_r 0)
          ∷ (act 5 turn_s 0)
          ∷ (act 0 turn_l 0)
          ∷ [])
        ∷ [])
    ∷ built_in "steppedpyramid" "Stepped Pyramid" 2 2 (
        ((act 0 turn_r 1) ∷ (act 0 turn_l 0) ∷ [])
        ∷ ((act 1 turn_l 1) ∷ (act 1 turn_f 0) ∷ [])
        ∷ [])
    ∷ built_in "snowflakeish" "Snowflake-ish" 2 2 (
        ((act 0 turn_r 1) ∷ (act 1 turn_r 1) ∷ [])
        ∷ ((act 1 turn_l 1) ∷ (act 1 turn_l 0) ∷ [])
        ∷ [])
    ∷ built_in "goldenrect" "Golden Rectangle" 2 2 (
        ((act 1 turn_l 1) ∷ (act 1 turn_l 1) ∷ [])
        ∷ ((act 1 turn_r 1) ∷ (act 0 turn_f 0) ∷ [])
        ∷ [])
    ∷ built_in "coiledrope" "Coiled Rope" 2 2 (
        ((act 1 turn_f 1) ∷ (act 1 turn_l 0) ∷ [])
        ∷ ((act 1 turn_r 1) ∷ (act 0 turn_f 0) ∷ [])
        ∷ [])
    ∷ built_in "wormtrails" "Worm Trails" 2 2 (
        ((act 1 turn_r 1) ∷ (act 1 turn_l 1) ∷ [])
        ∷ ((act 1 turn_r 1) ∷ (act 0 turn_r 0) ∷ [])
        ∷ [])
    ∷ built_in "mazelike" "Maze-like Growth" 3 2 (
        ((act 1 turn_l 1) ∷ (act 1 turn_l 1) ∷ [])
        ∷ ((act 1 turn_f 0) ∷ (act 0 turn_f 2) ∷ [])
        ∷ ((act 0 turn_l 1) ∷ (act 1 turn_f 1) ∷ [])
        ∷ [])
    ∷ []

-- The lab exports, first half.
abbrev pub lab_rules : List TurmiteRule
lab_rules =
    built_in "noisefill_" "ropewalker-1" 3 4 (
      ((act 2 turn_b 0) ∷ (act 0 turn_l 0) ∷ (act 3 turn_r 2) ∷ (act 2 turn_l 2) ∷ [])
      ∷ ((act 1 turn_l 0) ∷ (act 0 turn_b 1) ∷ (act 2 turn_n 2) ∷ (act 3 turn_f 1) ∷ [])
      ∷ ((act 3 turn_b 2) ∷ (act 2 turn_r 0) ∷ (act 2 turn_f 0) ∷ (act 1 turn_b 1) ∷ [])
      ∷ [])
    ∷ built_in "noisefill_sandwalker_1" "sandwalker-1" 2 2 (
        ((act 1 turn_f 1) ∷ (act 1 turn_l 1) ∷ [])
        ∷ ((act 1 turn_r 1) ∷ (act 0 turn_b 0) ∷ [])
        ∷ [])
    ∷ built_in "noisefill_zigwalker_3" "zigwalker-3" 2 4 (
        ((act 1 turn_l 0) ∷ (act 0 turn_r 1) ∷ (act 0 turn_f 1) ∷ (act 1 turn_r 1) ∷ [])
        ∷ ((act 1 turn_l 1) ∷ (act 3 turn_l 1) ∷ (act 0 turn_f 0) ∷ (act 3 turn_s 0) ∷ [])
        ∷ [])
    ∷ built_in "noisefill_zigwalker_1" "zigwalker-1" 3 2 (
        ((act 0 turn_r 1) ∷ (act 0 turn_l 2) ∷ [])
        ∷ ((act 1 turn_r 2) ∷ (act 0 turn_f 2) ∷ [])
        ∷ ((act 1 turn_l 0) ∷ (act 0 turn_b 1) ∷ [])
        ∷ [])
    ∷ built_in "radiation" "creeping radiation" 1 4
        (((act 1 turn_r 0) ∷ (act 3 turn_l 0) ∷ (act 3 turn_r 0) ∷ (act 0 turn_l 0) ∷ []) ∷ [])
    ∷ built_in "noisefill_stripes_1" "stripes-1" 3 3 (
        ((act 1 turn_l 1) ∷ (act 2 turn_f 2) ∷ (act 2 turn_f 0) ∷ [])
        ∷ ((act 2 turn_b 0) ∷ (act 0 turn_l 0) ∷ (act 0 turn_r 1) ∷ [])
        ∷ ((act 2 turn_f 2) ∷ (act 2 turn_b 1) ∷ (act 1 turn_f 1) ∷ [])
        ∷ [])
    ∷ built_in "mutant_bcff52d4" "Mutant bcff52d4" 3 4 (
        ((act 2 turn_b 0) ∷ (act 0 turn_l 0) ∷ (act 3 turn_r 2) ∷ (act 2 turn_l 2) ∷ [])
        ∷ ((act 1 turn_l 0) ∷ (act 0 turn_b 1) ∷ (act 2 turn_n 2) ∷ (act 3 turn_f 1) ∷ [])
        ∷ ((act 3 turn_b 2) ∷ (act 2 turn_r 0) ∷ (act 2 turn_f 0) ∷ (act 1 turn_b 1) ∷ [])
        ∷ [])
    ∷ built_in "novel_a40f7c4a" "RedRum" 2 5 (
        ((act 2 turn_f 1)
          ∷ (act 4 turn_r 0)
          ∷ (act 1 turn_b 1)
          ∷ (act 1 turn_n 0)
          ∷ (act 3 turn_b 1)
          ∷ [])
        ∷ ((act 2 turn_e 1)
            ∷ (act 2 turn_h 1)
            ∷ (act 1 turn_b 0)
            ∷ (act 0 turn_s 1)
            ∷ (act 0 turn_f 1)
            ∷ [])
        ∷ [])
    ∷ built_in "mutant_36d2f093" "RedArmy" 2 5 (
        ((act 2 turn_f 1)
          ∷ (act 4 turn_r 0)
          ∷ (act 1 turn_b 1)
          ∷ (act 1 turn_n 0)
          ∷ (act 3 turn_b 1)
          ∷ [])
        ∷ ((act 2 turn_e 1)
            ∷ (act 2 turn_h 1)
            ∷ (act 1 turn_b 0)
            ∷ (act 0 turn_s 1)
            ∷ (act 0 turn_n 1)
            ∷ [])
        ∷ [])
    ∷ built_in "noisefill_48616bab" "Alien Streets" 2 5 (
        ((act 4 turn_f 1)
          ∷ (act 4 turn_r 0)
          ∷ (act 1 turn_b 1)
          ∷ (act 1 turn_n 0)
          ∷ (act 3 turn_b 1)
          ∷ [])
        ∷ ((act 2 turn_e 1)
            ∷ (act 2 turn_h 1)
            ∷ (act 1 turn_s 0)
            ∷ (act 0 turn_s 1)
            ∷ (act 0 turn_n 1)
            ∷ [])
        ∷ [])
    ∷ built_in "noisefill_f1ab6bf2" "Alien Words" 2 5 (
        ((act 4 turn_b 1)
          ∷ (act 4 turn_r 0)
          ∷ (act 1 turn_b 1)
          ∷ (act 1 turn_n 0)
          ∷ (act 3 turn_b 1)
          ∷ [])
        ∷ ((act 2 turn_e 1)
            ∷ (act 2 turn_w 1)
            ∷ (act 1 turn_s 0)
            ∷ (act 0 turn_s 1)
            ∷ (act 0 turn_n 1)
            ∷ [])
        ∷ [])
    ∷ built_in "noisefill_9f1b1831" "Alien Sands" 2 5 (
        ((act 4 turn_b 1)
          ∷ (act 4 turn_r 0)
          ∷ (act 1 turn_s 1)
          ∷ (act 1 turn_s 0)
          ∷ (act 3 turn_r 1)
          ∷ [])
        ∷ ((act 2 turn_e 1)
            ∷ (act 2 turn_e 1)
            ∷ (act 1 turn_h 0)
            ∷ (act 0 turn_e 1)
            ∷ (act 0 turn_n 1)
            ∷ [])
        ∷ [])
    ∷ []

-- The lab exports, second half.
abbrev pub late_rules : List TurmiteRule
late_rules =
    built_in "mutant_8e1a2aba" "Mutant Transistor 2aba" 1 6 (
      ((act 1 turn_w 0)
        ∷ (act 2 turn_b 0)
        ∷ (act 3 turn_n 0)
        ∷ (act 4 turn_r 0)
        ∷ (act 5 turn_w 0)
        ∷ (act 0 turn_w 0)
        ∷ [])
      ∷ [])
    ∷ built_in "noisefill_stripes_3" "stripes-3" 1 6 (
        ((act 1 turn_b 0)
          ∷ (act 2 turn_b 0)
          ∷ (act 3 turn_n 0)
          ∷ (act 4 turn_r 0)
          ∷ (act 5 turn_w 0)
          ∷ (act 0 turn_l 0)
          ∷ [])
        ∷ [])
    ∷ built_in "noisefill_stripes_2" "stripes-2" 1 6 (
        ((act 1 turn_b 0)
          ∷ (act 2 turn_b 0)
          ∷ (act 3 turn_n 0)
          ∷ (act 4 turn_r 0)
          ∷ (act 5 turn_l 0)
          ∷ (act 0 turn_l 0)
          ∷ [])
        ∷ [])
    ∷ built_in "mutant_wormtrails" "Worm Poop" 2 2 (
        ((act 1 turn_r 1) ∷ (act 1 turn_l 1) ∷ [])
        ∷ ((act 1 turn_r 1) ∷ (act 0 turn_l 0) ∷ [])
        ∷ [])
    ∷ built_in "mutant_49f77555" "Mutant 49f77555" 3 3 (
        ((act 1 turn_l 0) ∷ (act 0 turn_b 1) ∷ (act 2 turn_e 0) ∷ [])
        ∷ ((act 1 turn_l 1) ∷ (act 2 turn_r 0) ∷ (act 2 turn_f 1) ∷ [])
        ∷ ((act 2 turn_w 1) ∷ (act 2 turn_w 1) ∷ (act 0 turn_f 1) ∷ [])
        ∷ [])
    ∷ built_in "stopper-33" "diagonal stopper 3-3" 3 3 (
        ((act 1 turn_l 0) ∷ (act 0 turn_l 1) ∷ (act 2 turn_l 0) ∷ [])
        ∷ ((act 1 turn_l 1) ∷ (act 2 turn_r 0) ∷ (act 2 turn_f 1) ∷ [])
        ∷ ((act 2 turn_w 1) ∷ (act 2 turn_w 1) ∷ (act 0 turn_l 1) ∷ [])
        ∷ [])
    ∷ built_in "mutant_3d099bfe" "reversing turd dropper 2-2" 2 2 (
        ((act 0 turn_r 1) ∷ (act 0 turn_l 0) ∷ [])
        ∷ ((act 1 turn_l 1) ∷ (act 1 turn_b 0) ∷ [])
        ∷ [])
    ∷ built_in "alex_marcher" "Marching Squaremuncher" 3 2 (
        ((act 0 turn_f 2) ∷ (act 0 turn_r 0) ∷ [])
        ∷ ((act 1 turn_l 0) ∷ (act 0 turn_r 1) ∷ [])
        ∷ ((act 1 turn_b 2) ∷ (act 1 turn_r 1) ∷ [])
        ∷ [])
    ∷ built_in "novel_8737072d" "lord bug" 1 4
        (((act 1 turn_r 0) ∷ (act 2 turn_l 0) ∷ (act 3 turn_l 0) ∷ (act 0 turn_r 0) ∷ []) ∷ [])
    ∷ built_in "alex_8737072d" "lady bug" 1 4
        (((act 1 turn_r 0) ∷ (act 2 turn_r 0) ∷ (act 3 turn_l 0) ∷ (act 0 turn_l 0) ∷ []) ∷ [])
    ∷ built_in "alex_8737072d_invert" "lady bug inverted" 1 4
        (((act 1 turn_l 0) ∷ (act 2 turn_l 0) ∷ (act 3 turn_r 0) ∷ (act 0 turn_r 0) ∷ []) ∷ [])
    ∷ built_in "phonelines1" "phonelines-1" 1 4
        (((act 2 turn_r 0) ∷ (act 0 turn_l 0) ∷ (act 1 turn_r 0) ∷ (act 0 turn_h 0) ∷ []) ∷ [])
    ∷ []

-- `RULES`
abbrev pub rules : List TurmiteRule
rules = classic_rules ++ (lab_rules ++ late_rules)
