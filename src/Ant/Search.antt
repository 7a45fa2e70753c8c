-- ===== src/Ant/Search.antt =====
-- The two loops of the search for a free cell.
use mathlib.Core.Path.{subst}
use native.Mathlib.Nat.{mod-lt, div-add-mod', div-lt_iff_lt-mul}
use turmite_linux.Prelude.{
  ℕ, zero, suc, ◌+◌, ◌*◌, ◌/◌, ◌%◌, ◌≤◌, ◌<◌, ◌≡◌, ◌≢◌, ◌⊎◌, inl, inr, refl, sym, ◌∙◌, ap, Bool,
  true, false, Option, none, some, ◌==◌, if◌then◌else◌, arith, Bool-cases, u32, ==_iff, ℕ_discrete,
}
use turmite_linux.Rng.{lfsr32_advance}
use turmite_linux.World.{World}
use turmite_linux.World.Laws.{IsValid}
use turmite_linux.Ant.Types.{AntColony, set_occupancy, occupancy_index}
use turmite_linux.Ant.Life.{ant_rng_uniform, Placement, probe_random, scan_cells}

pub uniform-lt : (state limit : ℕ) → 0 < limit → (ant_rng_uniform state limit).0 < limit
unfolding ant_rng_uniform
uniform-lt state limit h = let r = mod-lt (lfsr32_advance state) h in ground (arith, r)

-- What a claim did to the colony: nothing, or it put the byte into a free cell of the tape.
abbrev pub Claimed : AntColony → World → ℕ → Option (ℕ × ℕ) → AntColony → Type 0
Claimed c w id none c' = c' ≡ c
Claimed c w id (some (x, y)) c' =
    (x < w.width)
    × (y < w.height)
    × (c.occupancy (occupancy_index c x y) ≡ 0)
    × (c' ≡ set_occupancy c (occupancy_index c x y) id)

-- A cell's coordinates as the scan computes them.
coordinates :
    (c : AntColony) (w : World) (cell : ℕ)
    → IsValid w
    → c.occupancy_width ≡ w.width
    → cell < w.cells
    → let x = u32 (cell % w.width) in
      let y = u32 (cell / w.width) in
      (x < w.width) × (y < w.height) × (occupancy_index c x y ≡ cell)
coordinates c w cell v width lt =
    let turned : w.width * w.height ≡ w.height * w.width = omega arith in
    let column = mod-lt cell v.width_pos in
    let split = div-add-mod' cell w.width in
    let row : cell / w.width < w.height =
      (div-lt_iff_lt-mul {k = w.width} {x = cell} {y = w.height} v.width_pos).1
        (omega (arith, lt, v.area, turned)) in
    let low : u32 (cell % w.width) ≡ cell % w.width = omega (arith, column) in
    let high : u32 (cell / w.width) ≡ cell / w.width = omega (arith, row) in
    rw (low, high, width) (column, row, split)

-- A round of the scan, by whether the cell is free.
abbrev after_look : Bool → ℕ → ℕ → AntColony → World → ℕ → Option (ℕ × ℕ) × AntColony
after_look true n cell c w id =
    (some (u32 (cell % w.width), u32 (cell / w.width)), set_occupancy c cell id)
after_look false n cell c w id = scan_cells n (if cell + 1 == w.cells then 0 else cell + 1) c w id

scan_round :
    (b : Bool) (n cell : ℕ) (c : AntColony) (w : World) (id : ℕ)
    → (c.occupancy cell == 0) ≡ b
    → scan_cells (suc n) cell c w id ≡ after_look b n cell c w id
unfolding scan_cells
scan_round true n cell c w id e = ground arith
scan_round false n cell c w id e = ground arith

-- The cells that the scan looks at in `n` rounds from `cell` on.
abbrev pub Seen : ℕ → ℕ → ℕ → ℕ → Type 0
Seen n cell cells k = ((cell ≤ k) × (k < cell + n)) ⊎ (k + cells < cell + n)

module _ (c : AntColony) (w : World) (id : ℕ) (v : IsValid w)
    (width : c.occupancy_width ≡ w.width) where
  pub scan-Claimed :
      (n cell : ℕ)
      → cell < w.cells
      → let out = scan_cells n cell c w id in Claimed c w id out.0 out.1
  unfolding scan_cells
  scan-Claimed zero cell lt = refl
  scan-Claimed (suc n) cell lt = elim (Bool-cases (c.occupancy cell == 0)) [
    | inl e ↦
        let at = coordinates c w cell v width lt in
        subst (λ out. Claimed c w id out.0 out.1) (sym (scan_round true n cell c w id e))
          (
            at.0,
            at.1,
            ap c.occupancy at.2 ∙ (==_iff _ _).0 e,
            ap (λ (k : ℕ). set_occupancy c k id) (sym at.2),
          )
    | inr e ↦
        subst (λ out. Claimed c w id out.0 out.1) (sym (scan_round false n cell c w id e))
          (scan-Claimed n _ (ground arith))
  ]

  pub scan_exhausts :
      (n cell k : ℕ)
      → cell < w.cells
      → k < w.cells
      → Seen n cell w.cells k
      → (scan_cells n cell c w id).0 ≡ none
      → c.occupancy k ≢ 0
  scan_exhausts zero cell k lt hk seen e = absurd (ground arith)
  scan_exhausts (suc n) cell k lt hk seen e = elim (Bool-cases (c.occupancy cell == 0)) [
    | inl free ↦
        let bad =
          sym (ap (λ (o : Option (ℕ × ℕ) × AntColony). o.0) (scan_round true n cell c w id free))
          ∙ e in
        absurd cc
    | inr held ↦ elim (ℕ_discrete k cell) [
      | yes here ↦ ground (arith, ap c.occupancy here)
      | no there ↦ scan_exhausts n _ k (ground arith) hk (next seen there) (
          sym (ap (λ (o : Option (ℕ × ℕ) × AntColony). o.0) (scan_round false n cell c w id held))
          ∙ e)
    ]
  ]
    where
      next :
          Seen (suc n) cell w.cells k
          → k ≢ cell
          → Seen n (if cell + 1 == w.cells then 0 else cell + 1) w.cells k
      next (inl h) ne = ground arith
      next (inr h) ne = ground arith

  -- A probe, by whether its cell is free.
  after_probe : Bool → ℕ → ℕ → ℕ → ℕ → Placement
  after_probe true n x y rng = (some (x, y), set_occupancy c (occupancy_index c x y) id, rng)
  after_probe false n x y rng = probe_random n c w id rng

  probe_round :
      (b : Bool) (n rng : ℕ)
      → let (x, rng1) = ant_rng_uniform rng w.width in
        let (y, rng2) = ant_rng_uniform rng1 w.height in
        (c.occupancy (occupancy_index c x y) == 0) ≡ b
        → probe_random (suc n) c w id rng ≡ after_probe b n x y rng2
  unfolding probe_random after_probe
  probe_round true n rng e = ground arith
  probe_round false n rng e = ground arith

  pub probe-Claimed :
      (n rng : ℕ) → let out = probe_random n c w id rng in Claimed c w id out.0 out.1
  unfolding probe_random after_probe
  probe-Claimed zero rng = refl
  probe-Claimed (suc n) rng =
      let (x, rng1) = ant_rng_uniform rng w.width in
      let (y, rng2) = ant_rng_uniform rng1 w.height in
      elim (Bool-cases (c.occupancy (occupancy_index c x y) == 0)) [
        | inl e ↦
            subst (λ (out : Placement). Claimed c w id out.0 out.1) (sym (probe_round true n rng e))
              (
                uniform-lt rng w.width v.width_pos,
                uniform-lt rng1 w.height v.height_pos,
                (==_iff _ _).0 e,
                refl,
              )
        | inr e ↦
            subst (λ (out : Placement). Claimed c w id out.0 out.1)
              (sym (probe_round false n rng e)) (probe-Claimed n rng2)
      ]
