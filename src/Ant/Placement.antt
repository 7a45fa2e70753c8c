-- ===== src/Ant/Placement.antt =====
-- The search for a free cell: it takes a free cell, and gives up only on a full tape.
use mathlib.Core.Path.{subst}
use turmite_linux.Prelude.{
  ℕ, ◌*◌, ◌≤◌, ◌<◌, ◌≡◌, ◌≢◌, inl, inr, sym, ◌∙◌, ap, Option, none, some, arith, Option-cases, u32,
  min, dec_lt,
}
use turmite_linux.World.{World}
use turmite_linux.World.Laws.{IsValid}
use turmite_linux.Ant.Types.{AntColony, ant_owner_id, set_occupancy, occupancy_index}
use turmite_linux.Ant.Life.{
  ant_rng_uniform, Placement, probe_random, scan_cells, claim_random_empty_position,
}
use turmite_linux.Ant.Search.{uniform-lt, Claimed, Seen, scan-Claimed, scan_exhausts, probe-Claimed}

-- The whole search, by what the probes found.
abbrev after_probes : AntColony → World → ℕ → Placement → Option (ℕ × ℕ) → Placement
after_probes c w id probed (some xy) = probed
after_probes c w id probed none =
    let (cell, rng') = ant_rng_uniform probed.2 (u32 w.cells) in
    let scanned = scan_cells w.cells cell probed.1 w id in (scanned.0, scanned.1, rng')

area_bound : (x y : ℕ) → x ≤ 65535 → y ≤ 65535 → x * y ≤ 65535 * 65535
area_bound x y hx hy = grind arith

search_cases :
    (c : AntColony) (w : World) (i rng : ℕ) (found : Option (ℕ × ℕ))
    → let probed = probe_random (min w.cells 32) c w (ant_owner_id i) rng in
      probed.0 ≡ found
      → claim_random_empty_position c w i rng ≡ after_probes c w (ant_owner_id i) probed found
unfolding claim_random_empty_position
search_cases c w i rng found e =
    let id = ant_owner_id i in ap (after_probes c w id (probe_random (min w.cells 32) c w id rng)) e

module _ (c : AntColony) (w : World) (i rng : ℕ) (v : IsValid w)
    (width : c.occupancy_width ≡ w.width) where
  self_id : ℕ
  self_id = ant_owner_id i

  probed : Placement
  probed = probe_random (min w.cells 32) c w self_id rng

  start-lt : (ant_rng_uniform probed.2 (u32 w.cells)).0 < w.cells
  start-lt =
      let area : w.width * w.height ≤ 65535 * 65535 =
        area_bound w.width w.height v.width_max v.height_max in
      let some_cell : 0 < w.width * w.height = grind (arith, v.width_pos, v.height_pos) in
      let word : u32 w.cells ≡ w.cells = omega (arith, v.area, area) in
      rw word (uniform-lt probed.2 w.cells (omega (arith, v.area, some_cell)))

  missed : probed.0 ≡ none → probed.1 ≡ c
  unfolding probed self_id
  missed e =
      subst (λ (o : Option (ℕ × ℕ)). Claimed c w self_id o probed.1) e
        (probe-Claimed c w self_id v width (min w.cells 32) rng)

  search-Claimed :
      let out = claim_random_empty_position c w i rng in Claimed c w self_id out.0 out.1
  unfolding probed self_id
  search-Claimed = elim (Option-cases probed.0) [
    | inl e ↦
        subst (λ (out : Placement). Claimed c w self_id out.0 out.1)
          (sym (search_cases c w i rng none e))
          (rw (missed e) (scan-Claimed c w self_id v width w.cells _ start-lt))
    | inr (xy, e) ↦
        subst (λ (out : Placement). Claimed c w self_id out.0 out.1)
          (sym (search_cases c w i rng (some xy) e))
          (probe-Claimed c w self_id v width (min w.cells 32) rng)
  ]

  all-Seen : (start k : ℕ) → start < w.cells → k < w.cells → Seen w.cells start w.cells k
  all-Seen start k hs hk = elim (dec_lt k start) [
    | yes below ↦ inr (omega arith)
    | no above ↦ inl (omega arith, omega arith)
  ]

  search_exhausts :
      (k : ℕ) → k < w.cells → (claim_random_empty_position c w i rng).0 ≡ none → c.occupancy k ≢ 0
  unfolding probed self_id
  search_exhausts k hk e = elim (Option-cases probed.0) [
    | inl none_found ↦
        let start = (ant_rng_uniform probed.2 (u32 w.cells)).0 in
        let scanned : (scan_cells w.cells start probed.1 w self_id).0 ≡ none =
          sym (ap (λ (o : Placement). o.0) (search_cases c w i rng none none_found)) ∙ e in
        scan_exhausts c w self_id v width w.cells start k start-lt hk (all-Seen start k start-lt hk)
          (subst (λ (d : AntColony). (scan_cells w.cells start d w self_id).0 ≡ none)
            (missed none_found) scanned)
    | inr (xy, hit) ↦
        let bad : some xy ≡ none =
          sym hit ∙ sym (ap (λ (o : Placement). o.0) (search_cases c w i rng (some xy) hit)) ∙ e in
        absurd cc
  ]

-- On a valid tape of the colony's size, a search that gives coordinates gives those of a cell
-- inside the world that was free, and what it changed in the colony is that the cell now has the
-- ant's byte.
pub claim_random_empty_position-free :
    (c : AntColony) (w : World) (i rng x y : ℕ)
    → IsValid w
    → c.occupancy_width ≡ w.width
    → let out = claim_random_empty_position c w i rng in
      out.0 ≡ some (x, y)
      → (x < w.width)
        × (y < w.height)
        × (c.occupancy (occupancy_index c x y) ≡ 0)
        × (out.1 ≡ set_occupancy c (occupancy_index c x y) (ant_owner_id i))
unfolding self_id
claim_random_empty_position-free c w i rng x y v width e =
    subst
      (λ (o : Option (ℕ × ℕ)).
        Claimed c w (ant_owner_id i) o (claim_random_empty_position c w i rng).1)
      e (search-Claimed c w i rng v width)

-- On a valid tape of the colony's size, a search gives up only when no cell is free, and then it
-- has left the colony as it was.
pub claim_random_empty_position-none :
    (c : AntColony) (w : World) (i rng k : ℕ)
    → IsValid w
    → c.occupancy_width ≡ w.width
    → let out = claim_random_empty_position c w i rng in
      out.0 ≡ none → k < w.cells → (c.occupancy k ≢ 0) × (out.1 ≡ c)
unfolding self_id
claim_random_empty_position-none c w i rng k v width e hk = (
  search_exhausts c w i rng v width k hk e,
  subst
      (λ (o : Option (ℕ × ℕ)).
        Claimed c w (ant_owner_id i) o (claim_random_empty_position c w i rng).1)
      e (search-Claimed c w i rng v width),
)
