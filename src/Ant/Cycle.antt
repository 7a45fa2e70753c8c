-- ===== src/Ant/Cycle.antt =====
-- One instruction keeps a burst valid, and always comes to a result.
use turmite_linux.Prelude.{
  ℕ, ◌+◌, ◌*◌, ◌<◌, ◌≡◌, refl, sym, ◌∙◌, ap, ◌⊎◌, inl, inr, Bool, true, false, update, update_self,
  sub_u32, arith, List, Option, some, Bool-cases, ◌==◌, ◌||◌,
}
use turmite_linux.World.{World, world_store_cell}
use turmite_linux.Rules.Types.{RuleAction, turn_h}
use turmite_linux.Ant.Types.{AntColony, set_ant, turmite_max_ants, token_fp_one, load_rule}
use turmite_linux.Ant.Move.{position_cell, leave_cell, mark_collision_loser, apply_turn}
use turmite_linux.Ant.Contest.{contest, move_claim-contest}
use turmite_linux.Ant.Execute.{
  Burst, Running, step_x, step_y, after_claim, move_head, perform, instruction, choose_action,
}
use turmite_linux.Ant.Residency.{IsResident-ext, contest_frame, leave_frame, moved-IsResident}
use turmite_linux.Ant.Torus.{apply_turn-lt, step_x-lt, step_y-lt}
use turmite_linux.Ant.Invariant.{BurstIsValid, RunningIsValid, index-lt}
use turmite_linux.Ant.Locals.{
  contest_offset, set_ant-BurstIsValid, written-BurstIsValid, turned-BurstIsValid,
}

contest_tokens :
    (c : AntColony) (i new j : ℕ) → ((contest c i new).1.ants j).tokens_fp ≡ (c.ants j).tokens_fp
unfolding mark_collision_loser
contest_tokens c i new j = ground arith

-- A valid result that has counted one instruction and left the token balance alone, in the locals
-- and in the colony.
abbrev Performs : ℕ → Burst → AntColony → Option (Bool × Running) → Type 0
Performs index b c out =
    (go : Bool) × (s : Running) × (out ≡ some (go, s))
    × RunningIsValid index s
    × (s.0.executed ≡ b.executed + 1)
    × (s.0.tokens ≡ b.tokens)
    × ((s.1.ants index).tokens_fp ≡ (c.ants index).tokens_fp)

-- Either a collision or a halt, seen in the flags, ends the burst before the instruction, or the
-- instruction is counted and one token is taken, in the locals and in the colony alike.
abbrev pub Charged : ℕ → Burst → AntColony → Bool → Running → Type 0
Charged index b c go s =
    ((go ≡ false)
      × (((c.ants index).flags.clobbered || (c.ants index).flags.halted) ≡ true)
      × (s.0.executed ≡ b.executed)
      × (s.0.tokens ≡ b.tokens)
      × ((s.1.ants index).tokens_fp ≡ (c.ants index).tokens_fp))
    ⊎ ((s.0.executed ≡ b.executed + 1)
        × (s.0.tokens ≡ sub_u32 b.tokens token_fp_one)
        × ((s.1.ants index).tokens_fp ≡ s.0.tokens))

abbrev pub Continues : ℕ → Burst → AntColony → Option (Bool × Running) → Type 0
Continues index b c out =
    (go : Bool) × (s : Running) × (out ≡ some (go, s))
    × RunningIsValid index s
    × Charged index b c go s

position_cell_frame :
    (c c' : AntColony) (j : ℕ)
    → c'.positions ≡ c.positions
    → c'.occupancy_width ≡ c.occupancy_width
    → position_cell c j ≡ position_cell c' j
position_cell_frame c c' j p q = rw (p, q)

module _ (index : ℕ) (hi : index < turmite_max_ants) (b : Burst) (c : AntColony) (w : World)
    (v : BurstIsValid index b c w) (x y : ℕ) (hx : x < w.width) (hy : y < w.height) where
  abbrev target : ℕ
  target = y * w.width + x

  abbrev left : AntColony
  left = leave_cell c index b.cell target

  target-lt : target < c.occupancy_cells
  target-lt = rw (v.cells, v.world.area) (index-lt x y w.width w.height hx hy)

  -- The burst that goes on from the new cell.
  claimed-BurstIsValid :
      BurstIsValid index
        (record b { x = x; y = y; cell = target; executed = b.executed + 1 })
        (contest left index target).1
        w
  claimed-BurstIsValid =
      let place = update (position_cell c) index b.cell in
      let c' = (contest left index target).1 in
      let fc = contest_frame left index target in
      let fl = leave_frame c index b.cell target in
      let positions = fc.0 ∙ fl.0 in
      let width = fc.2 ∙ fl.2 in
      record {
        world = v.world;
        width = width ∙ v.width;
        cells = fc.1 ∙ fl.1 ∙ v.cells;
        inside = λ i. rw positions (v.inside i);
        offsets = λ i. rw (contest_offset left index target i, fl.4) (v.offsets i);
        x_inside = hx;
        y_inside = hy;
        at = refl;
        heads = v.heads;
        offset = v.offset;
        resident =
            IsResident-ext c' (update place index target) (update (position_cell c') index target)
              (λ j. ground (arith, position_cell_frame c c' j positions width))
              (moved-IsResident c place index b.cell target hi v.resident
                (update_self (position_cell c) index b.cell));
      }

move_head-Performs :
    (fails : List Bool) (index : ℕ) (b : Burst) (c : AntColony) (w : World)
    → index < turmite_max_ants
    → BurstIsValid index b c w
    → Performs index b c (move_head fails index (b, c, w))
unfolding move_head
move_head-Performs fails index b c w hi v =
    let x = step_x b.x b.heading w.width in
    let y = step_y b.y b.heading w.height in
    let new = y * w.width + x in
    let hx = step_x-lt b.x b.heading w.width v.x_inside v.world.width_max v.heads in
    let hy = step_y-lt b.y b.heading w.height v.y_inside v.world.height_max v.heads in
    let byte = v.resident.bytes new (target-lt index hi b c w v x y hx hy) in
    let c' = contest (leave_cell c index b.cell new) index new in
    let moved : Burst = record b { x = x; y = y; cell = new; executed = b.executed + 1 } in
    (
      c'.0,
      (moved, c'.1, w),
      ap (after_claim moved w) (move_claim-contest fails c index b.cell new hi (omega arith)),
      claimed-BurstIsValid index hi b c w v x y hx hy,
      refl,
      refl,
      rw (
        contest_tokens (leave_cell c index b.cell new) index new index,
        (leave_frame c index b.cell new).4,
      ),
    )

perform-Performs :
    (fails : List Bool) (index : ℕ) (action : RuleAction) (b : Burst) (c : AntColony) (w : World)
    → index < turmite_max_ants
    → BurstIsValid index b c w
    → Performs index b c (perform fails index action (b, c, w))
unfolding perform
perform-Performs fails index action b c w hi v =
    let h = apply_turn-lt b.heading action.turn v.heads in
    let turned =
      turned-BurstIsValid index action.next_state (apply_turn b.heading action.turn) b.tokens in
    elim (Bool-cases action.halt) [
      | inl e ↦ rw e (
        false,
        _,
        refl,
        set_ant-BurstIsValid index _ c w _ refl (turned (b.executed + 1) b c w h v),
        refl,
        refl,
        ground arith,
      )
      | inr e ↦ elim (Bool-cases (action.turn == turn_h)) [
        | inl e' ↦ rw (e, e') (true, _, refl, turned (b.executed + 1) b c w h v, refl, refl, refl)
        | inr e' ↦
            rw (e, e')
              (move_head-Performs fails index
                (record b { state = action.next_state; heading = apply_turn b.heading action.turn })
                c w hi (turned b.executed b c w h v))
      ]
    ]

-- For one of the 32 ants, a round of the instruction loop on a valid burst comes to a result,
-- whatever weak compare-and-swaps fail: the burst is valid afterwards; and either one
-- instruction is counted and one token is taken, in the locals and in the colony alike, or a
-- collision or a halt seen in the flags ended the burst with neither.
pub instruction-Continues :
    (fails : List Bool) (index : ℕ) (b : Burst) (c : AntColony) (w : World)
    → index < turmite_max_ants
    → BurstIsValid index b c w
    → Continues index b c (instruction fails index (b, c, w))
unfolding instruction
instruction-Continues fails index b c w hi v =
    let a = c.ants index in
    let tokens = sub_u32 b.tokens token_fp_one in
    let paid = record a { tokens_fp = tokens } in
    let chosen = choose_action (load_rule c b.rule) b.state (w.tape b.cell) b.offset in
    let written =
      written-BurstIsValid index b.cell chosen.1 (record b { tokens = tokens })
        (set_ant c index paid) w
        (set_ant-BurstIsValid index (record b { tokens = tokens }) c w paid refl
          (turned-BurstIsValid index b.state b.heading tokens b.executed b c w v.heads v)) in
    elim (Bool-cases (a.flags.clobbered || a.flags.halted)) [
      | inl e ↦ rw e (false, (b, c, w), refl, v, inl (refl, refl, refl, refl, refl))
      | inr e ↦
          let (go, s, eq, valid, count, same, published) =
            perform-Performs fails index chosen.0 (record b { tokens = tokens })
              (set_ant c index paid) (world_store_cell w b.cell chosen.1) hi written in
          rw e (go, s, eq, valid, inr (count, same, published ∙ balance ∙ sym same))
    ]
  where
    balance :
        (update c.ants index
          (record (c.ants index) { tokens_fp = sub_u32 b.tokens token_fp_one })
          index).tokens_fp
        ≡ sub_u32 b.tokens token_fp_one
    balance = ground arith
