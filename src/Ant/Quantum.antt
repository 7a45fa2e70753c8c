-- ===== src/Ant/Quantum.antt =====
-- A whole burst: it ends, keeps the colony valid, and spends one token for each instruction.
use turmite_linux.Prelude.{
  ℕ, ◌+◌, ◌*◌, ◌^◌, ◌≤◌, ◌<◌, ◌≡◌, refl, sym, inl, inr, Bool, true, false, update, arith, List,
  Option, some, Bool-cases, ◌||◌, not, u32, ◌<<◌,
}
use mathlib.Core.Path.{subst}
use turmite_linux.Prelude.Bits.{bit_or_fields}
use turmite_linux.World.{World}
use turmite_linux.Ant.Types.{
  Flags, AntColony, packed_x, packed_y, pack_position, publish_position, turmite_max_ants,
  token_fp_one,
}
use turmite_linux.Ant.Move.{position_cell}
use turmite_linux.Ant.Execute.{
  Burst, Running, burst, load_burst, publish_burst, finish, ant_execute_quantum,
}
use turmite_linux.Ant.Residency.{IsResident-ext}
use turmite_linux.Ant.Invariant.{ColonyIsValid, BurstIsValid}
use turmite_linux.Ant.Spending.{Ran, burst-Ran}

-- The locals that a burst loads are valid.
pub load_burst-IsValid :
    (c : AntColony) (w : World) (index : ℕ)
    → ColonyIsValid c w
    → BurstIsValid index (load_burst c w index) c w
unfolding load_burst
load_burst-IsValid c w index v = record {
  world = v.world;
  width = v.width;
  cells = v.cells;
  inside = v.inside;
  offsets = v.offsets;
  x_inside = (v.inside index).0;
  y_inside = (v.inside index).1;
  at = refl;
  heads = omega arith;
  offset = v.offsets index;
  resident = IsResident-ext c (position_cell c) _ (λ j. ground (arith, v.width)) v.resident;
}

-- Packing two coordinates of 16 bits keeps both.
pub pack_position_lem :
    (x y : ℕ)
    → x < 65536
    → y < 65536
    → (packed_x (pack_position x y) ≡ x) × (packed_y (pack_position x y) ≡ y)
unfolding pack_position
pack_position_lem x y hx hy =
    let word : u32 (y << 16) ≡ y * 2 ^ 16 = omega arith in
    rw (word, bit_or_fields 16 16 y x hy hx) (omega arith)

publish_burst-IsValid :
    (index : ℕ) (b : Burst) (c : AntColony) (w : World)
    → BurstIsValid index b c w
    → ColonyIsValid (publish_burst index b c) w
unfolding publish_burst publish_position
publish_burst-IsValid index b c w v =
    let p = pack_position_lem b.x b.y (omega arith) (omega arith) in
    record {
      world = v.world;
      width = v.width;
      cells = v.cells;
      inside = λ i. ground (arith, p, v.inside i);
      offsets = λ i. ground (arith, v.offsets i);
      resident =
          IsResident-ext _ (update (position_cell c) index b.cell) _
            (λ j. ground (arith, p, v.width, v.at))
            (record { bytes = v.resident.bytes; alone = v.resident.alone });
    }

publish_burst-tokens :
    (index : ℕ) (b : Burst) (c : AntColony)
    → ((publish_burst index b c).ants index).tokens_fp ≡ (c.ants index).tokens_fp
unfolding publish_burst publish_position
publish_burst-tokens index b c = ground arith

-- The flags under which a burst does nothing.
abbrev pub idle_flags : Flags → Bool
idle_flags f = not f.enabled || (f.halted || f.clobbered || f.waiting || f.displaced)

-- What a burst of at most `quantum` instructions gives: a valid colony, a count, and the balance.
abbrev Executed : ℕ → ℕ → AntColony → Option (ℕ × AntColony × World) → Type 0
Executed quantum index c out =
    (n : ℕ) × (c' : AntColony) × (w' : World) × (out ≡ some (n, c', w'))
    × ColonyIsValid c' w'
    × (n ≤ quantum)
    × (quantum * token_fp_one ≤ (c.ants index).tokens_fp
        → (c.ants index).tokens_fp < 2 ^ 32
        → (c'.ants index).tokens_fp + n * token_fp_one ≡ (c.ants index).tokens_fp)
    × (0 < quantum → idle_flags (c.ants index).flags ≡ false → 0 < n)

finish-Executed :
    (quantum index : ℕ) (c : AntColony) (w : World) (out : Option Running)
    → ((c.ants index).flags.clobbered || (c.ants index).flags.halted) ≡ false
    → Ran quantum index (load_burst c w index) c out
    → Executed quantum index c (finish index out)
unfolding load_burst
finish-Executed quantum index c w out calm ((b, c1, w1), e, v, spent) = rw e (
  b.executed,
  publish_burst index b c1,
  w1,
  refl,
  publish_burst-IsValid index b c1 w1 v,
  omega (arith, spent.few, spent.counted),
  λ enough word. omega (
    arith,
    publish_burst-tokens index b c1,
    spent.published refl,
    spent.counted,
    spent.paid enough word,
  ),
  λ some_quantum flags. omega (arith, spent.counted, spent.progress some_quantum calm),
)

nothing-Executed :
    (quantum index : ℕ) (c : AntColony) (w : World)
    → ColonyIsValid c w
    → idle_flags (c.ants index).flags ≡ true
    → Executed quantum index c (some (0, c, w))
nothing-Executed quantum index c w v stopped =
    (0, c, w, refl, v, omega arith, λ enough word. omega arith, λ q runs. absurd (ground arith))

execute_stopped :
    (fails : ℕ → List Bool) (c : AntColony) (w : World) (index quantum : ℕ)
    → idle_flags (c.ants index).flags ≡ true
    → ant_execute_quantum fails c w index quantum ≡ some (0, c, w)
unfolding ant_execute_quantum
execute_stopped fails c w index quantum h = ground arith

execute_runs :
    (fails : ℕ → List Bool) (c : AntColony) (w : World) (index quantum : ℕ)
    → idle_flags (c.ants index).flags ≡ false
    → ant_execute_quantum fails c w index quantum
      ≡ finish index (burst quantum fails index (load_burst c w index, c, w))
unfolding ant_execute_quantum
execute_runs fails c w index quantum h = ground arith

executed :
    (fails : ℕ → List Bool) (c : AntColony) (w : World) (index quantum : ℕ)
    → index < turmite_max_ants
    → ColonyIsValid c w
    → Executed quantum index c (ant_execute_quantum fails c w index quantum)
executed fails c w index quantum hi v = elim (Bool-cases (idle_flags (c.ants index).flags)) [
  | inl stopped ↦
      subst (Executed quantum index c) (sym (execute_stopped fails c w index quantum stopped))
        (nothing-Executed quantum index c w v stopped)
  | inr runs ↦ subst (Executed quantum index c) (sym (execute_runs fails c w index quantum runs)) (
      finish-Executed quantum index c w _ (ground arith) (
        burst-Ran quantum fails index (load_burst c w index) c w hi
          (load_burst-IsValid c w index v)))
]

-- `ant_execute_quantum` for one of the 32 ants of a valid colony comes to a result, whichever
-- weak compare-and-swaps fail: the colony and the tape stay valid, and at most `quantum`
-- instructions run.
pub ant_execute_quantum-ColonyIsValid :
    (fails : ℕ → List Bool) (c : AntColony) (w : World) (index quantum : ℕ)
    → index < turmite_max_ants
    → ColonyIsValid c w
    → (n : ℕ) × (c' : AntColony) × (w' : World) × (ant_execute_quantum fails c w index quantum
        ≡ some (n, c', w'))
      × ColonyIsValid c' w'
      × (n ≤ quantum)
ant_execute_quantum-ColonyIsValid fails c w index quantum hi v =
    let (n, c', w', e, valid, few, paid, progress) = executed fails c w index quantum hi v in
    (n, c', w', e, valid, few)

-- For one of the 32 ants of a valid colony, if its balance is a 32-bit word and covers the
-- quantum, `ant_execute_quantum` comes to a result and lowers the balance by exactly one token
-- for each instruction that it reports.
pub ant_execute_quantum_balance :
    (fails : ℕ → List Bool) (c : AntColony) (w : World) (index quantum : ℕ)
    → index < turmite_max_ants
    → ColonyIsValid c w
    → quantum * token_fp_one ≤ (c.ants index).tokens_fp
    → (c.ants index).tokens_fp < 2 ^ 32
    → (n : ℕ) × (c' : AntColony) × (w' : World) × (ant_execute_quantum fails c w index quantum
        ≡ some (n, c', w'))
      × ((c'.ants index).tokens_fp + n * token_fp_one ≡ (c.ants index).tokens_fp)
ant_execute_quantum_balance fails c w index quantum hi v enough word =
    let (n, c', w', e, valid, few, paid, progress) = executed fails c w index quantum hi v in
    (n, c', w', e, paid enough word)

-- For one of the 32 ants of a valid colony that is enabled, and neither halted, clobbered,
-- waiting nor displaced, `ant_execute_quantum` with a quantum that is not zero comes to a result
-- and runs at least one instruction.
pub ant_execute_quantum_progress :
    (fails : ℕ → List Bool) (c : AntColony) (w : World) (index quantum : ℕ)
    → index < turmite_max_ants
    → ColonyIsValid c w
    → 0 < quantum
    → idle_flags (c.ants index).flags ≡ false
    → (n : ℕ) × (c' : AntColony) × (w' : World) × (ant_execute_quantum fails c w index quantum
        ≡ some (n, c', w'))
      × (0 < n)
ant_execute_quantum_progress fails c w index quantum hi v some_quantum runs =
    let (n, c', w', e, valid, few, paid, progress) = executed fails c w index quantum hi v in
    (n, c', w', e, progress some_quantum runs)
