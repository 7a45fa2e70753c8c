-- ===== src/Ant/Execute.antt =====
-- src/ant.c: the instruction cycle, `ant_execute_quantum`.
use turmite_linux.Prelude.{
  ℕ, zero, suc, ◌+◌, ◌-◌, ◌*◌, ◌%◌, Bool, true, false, ◌||◌, ◌&&◌, not, Option, none, some, List,
  [], ◌∷◌, leb, ltb, ◌==◌, if◌then◌else◌, get_or, sub_u32, u8, u32,
}
use turmite_linux.Prelude.Int.{ℤ, pos, negsuc, ◌+ℤ◌, ◌-ℤ◌, ltb_ℤ}
use turmite_linux.World.{World, turmite_colors, world_store_cell}
use turmite_linux.Rules.Types.{RuleAction, TurmiteRule, turn_f, turn_h}
use turmite_linux.Rules.{RuleRef}
use turmite_linux.Ant.Types.{
  AntColony, set_ant, load_rule, publish_position, packed_x, packed_y, token_fp_one,
}
use turmite_linux.Ant.Move.{apply_turn, move_claim}

-- `DX` and `DY`
abbrev dx : ℕ → ℤ
dx h = get_or (pos 0 ∷ pos 1 ∷ pos 0 ∷ negsuc 0 ∷ []) h (pos 0)

abbrev dy : ℕ → ℤ
dy h = get_or (negsuc 0 ∷ pos 0 ∷ pos 1 ∷ pos 0 ∷ []) h (pos 0)

-- The world is a torus: a coordinate that leaves it comes back at the other side.
unfoldable pub wrap_coordinate : ℤ → ℕ → ℤ
wrap_coordinate n size =
    if ltb_ℤ n (pos 0) then n +ℤ pos size else if not (ltb_ℤ n (pos size)) then n -ℤ pos size else n

-- The cast of an `int` to `uint32_t`.
abbrev pub to_u32 : ℤ → ℕ
to_u32 (pos n) = u32 n
to_u32 (negsuc n) = sub_u32 0 (suc n)

unfoldable pub step_x : ℕ → ℕ → ℕ → ℕ
step_x x heading width = to_u32 (wrap_coordinate (pos x +ℤ dx heading) width)

unfoldable pub step_y : ℕ → ℕ → ℕ → ℕ
step_y y heading height = to_u32 (wrap_coordinate (pos y +ℤ dy heading) height)

-- The local variables of a burst.
pub record Burst : Type 0 where
  pub rule : RuleRef
  pub offset : ℕ
  pub x : ℕ
  pub y : ℕ
  pub heading : ℕ
  pub state : ℕ
  pub tokens : ℕ
  pub cell : ℕ
  pub executed : ℕ

-- The color under the head as the ant sees it, and the table column that it selects.
abbrev pub local_color : ℕ → ℕ → ℕ
local_color color offset = (color + turmite_colors - offset) % turmite_colors

abbrev pub column : TurmiteRule → ℕ → ℕ
column rule local = if leb rule.colors local then rule.colors - 1 else local

-- The table action, or the fallback where the table has none; and the color to write.
unfoldable pub choose_action : TurmiteRule → ℕ → ℕ → ℕ → RuleAction × ℕ
choose_action rule state color offset =
    let action = rule.table state (column rule (local_color color offset)) in
    if ltb state rule.states && ltb 0 rule.colors
    then (action, u8 ((action.write_color + offset) % turmite_colors))
    else (record { write_color = color; turn = turn_f; next_state = state; halt = false }, color)

-- What a burst works on. An instruction says whether the loop goes on.
abbrev pub Running : Type 0
Running = Burst × AntColony × World

-- The locals after a move, with the claim's outcome and colony.
abbrev pub after_claim : Burst → World → Option (Bool × AntColony) → Option (Bool × Running)
after_claim moved w none = none
after_claim moved w (some (won, c')) = some (won, (moved, c', w))

-- The move at the end of an instruction, after the heading has been set.
unfoldable pub move_head : List Bool → ℕ → Running → Option (Bool × Running)
move_head fails index (b, c, w) =
    let x = step_x b.x b.heading w.width in
    let y = step_y b.y b.heading w.height in
    let cell = y * w.width + x in
    let moved = record b { x = x; y = y; cell = cell; executed = b.executed + 1 } in
    after_claim moved w (move_claim fails c index b.cell cell)

-- The cycle's second half: the action has been chosen and its color written.
unfoldable pub perform : List Bool → ℕ → RuleAction → Running → Option (Bool × Running)
perform fails index action (b, c, w) =
    let turned = record b {
      state = action.next_state;
      heading = apply_turn b.heading action.turn;
    } in
    let counted = record turned { executed = b.executed + 1 } in
    let a = c.ants index in
    let f = a.flags in
    let stopped = set_ant c index (record a {
      state = turned.state;
      heading = turned.heading;
      flags = record f { halted = true };
    }) in
    if action.halt
    then some (false, (counted, stopped, w))
    else if action.turn == turn_h
    then some (true, (counted, c, w))
    else move_head fails index (turned, c, w)

-- One round of the `while` loop.
unfoldable pub instruction : List Bool → ℕ → Running → Option (Bool × Running)
instruction fails index (b, c, w) =
    let a = c.ants index in
    let tokens = sub_u32 b.tokens token_fp_one in
    let paid = set_ant c index (record a { tokens_fp = tokens }) in
    let (action, write_color) =
      choose_action (load_rule c b.rule) b.state (w.tape b.cell) b.offset in
    if a.flags.clobbered || a.flags.halted
    then some (false, (b, c, w))
    else perform fails index action
        (record b { tokens = tokens }, paid, world_store_cell w b.cell write_color)

-- The test of the loop, after a round.
abbrev pub continue : (Running → Option Running) → Option (Bool × Running) → Option Running
continue next none = none
continue next (some (true, s)) = next s
continue next (some (false, s)) = some s

-- At most `n` more rounds. `fails` gives the spurious failures of each round by its number.
unfoldable pub burst : ℕ → (ℕ → List Bool) → ℕ → Running → Option Running
burst zero fails index s = some s
burst (suc n) fails index s = continue (burst n fails index) (instruction (fails n) index s)

-- The locals as the burst starts.
unfoldable pub load_burst : AntColony → World → ℕ → Burst
load_burst c w index =
    let a = c.ants index in
    let p = c.positions index in
    record {
      rule = a.rule;
      offset = a.color_offset;
      x = packed_x p;
      y = packed_y p;
      heading = a.heading % 4;
      state = a.state;
      tokens = a.tokens_fp;
      cell = packed_y p * w.width + packed_x p;
      executed = 0;
    }

-- The cold state is published once.
unfoldable pub publish_burst : ℕ → Burst → AntColony → AntColony
publish_burst index b c =
    let c' = publish_position c index b.x b.y in
    let a = c'.ants index in set_ant c' index (record a { state = b.state; heading = b.heading })

-- The return after the loop.
abbrev pub finish : ℕ → Option Running → Option (ℕ × AntColony × World)
finish index none = none
finish index (some (b, c, w)) = some (b.executed, publish_burst index b c, w)

-- `none` only if a loop of `move_claim` ran out of fuel.
unfoldable pub ant_execute_quantum :
    (ℕ → List Bool) → AntColony → World → ℕ → ℕ → Option (ℕ × AntColony × World)
ant_execute_quantum fails c w index quantum =
    let f = (c.ants index).flags in
    let ran = burst quantum fails index (load_burst c w index, c, w) in
    if not f.enabled
    then some (0, c, w)
    else if f.halted || f.clobbered || f.waiting || f.displaced
    then some (0, c, w)
    else finish index ran
