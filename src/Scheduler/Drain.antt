-- ===== src/Scheduler/Drain.antt =====
-- Retirement and draining.
use turmite_linux.Prelude.{
  ◌∙◌, ℕ, suc, ◌≤◌, ◌<◌, ◌≡◌, ◌≢◌, refl, Bool, true, false, if◌then◌else◌, arith, dec_lt,
}
use turmite_linux.Prelude.Loops.{for_range_inv}
use turmite_linux.Ant.Types.{Ant, AntColony, turmite_max_ants}
use turmite_linux.Ant.Move.{ant_release_occupancy}
use turmite_linux.Scheduler.Types.{Scheduler, ant_at, with_colony, notify_locked}
use turmite_linux.Scheduler.Tokens.{retire_draining}
use turmite_linux.Scheduler.Control.{
  drain_check, scheduler_drain_complete, mark_draining, drain_slot, scheduler_begin_drain,
}

pub release_frame :
    (c : AntColony) (i : ℕ)
    → let c' = ant_release_occupancy c i in
      (c'.ants ≡ c.ants)
      × (c'.positions ≡ c.positions)
      × (c'.enabled_mask ≡ c.enabled_mask)
      × (c'.active_population ≡ c.active_population)
      × (c'.occupancy_cells ≡ c.occupancy_cells)
      × (c'.occupancy_width ≡ c.occupancy_width)
unfolding ant_release_occupancy
release_frame c i = ground arith

pub retire_other : (c : AntColony) (i j : ℕ) → i ≢ j → (retire_draining c i).ants j ≡ c.ants j
unfolding retire_draining ant_release_occupancy
retire_other c i j ne = ground arith

pub retire_tokens :
    (c : AntColony) (i j : ℕ) → ((retire_draining c i).ants j).tokens_fp ≡ (c.ants j).tokens_fp
unfolding retire_draining ant_release_occupancy
retire_tokens c i j = ground arith

retire_leased :
    (c : AntColony) (i j : ℕ)
    → ((retire_draining c i).ants j).flags.leased ≡ (c.ants j).flags.leased
unfolding retire_draining ant_release_occupancy
retire_leased c i j = ground arith

-- The ants below `i` have neither a lease nor the enabled flag.
abbrev Quiet : ℕ → Scheduler → Type 0
Quiet i s =
    (j : ℕ) → j < i → ((ant_at s j).flags.leased ≡ false) × ((ant_at s j).flags.enabled ≡ false)

abbrev Checked : Bool → ℕ → Bool × Scheduler → Type 0
Checked d i out = (out.0 ≡ true → (d ≡ true) × Quiet i out.1)

drain_check-Checked :
    (d : Bool) (i : ℕ) (out : Bool × Scheduler)
    → Checked d i out
    → Checked d (suc i) (drain_check i out)
drain_check-Checked d i (complete, s) h e =
    let s1 = if s.draining then with_colony s (retire_draining s.colony i) else s in
    let stay : ((j : ℕ) → i ≢ j → ant_at s1 j ≡ ant_at s j) =
      λ j ne. ground (arith, retire_other s.colony i j ne) in
    let finished : complete ≡ true = ground arith in
    let unleased : (ant_at s i).flags.leased ≡ false = ground arith in
    let off : (ant_at s1 i).flags.enabled ≡ false = ground arith in
    let result : ((j : ℕ) → ant_at (drain_check i (complete, s)).1 j ≡ ant_at s1 j) =
      λ j. ground arith in
    let held : ((ant_at s1 i).flags.leased ≡ false) = ground (arith, retire_leased s.colony i i) in
    (
      (h finished).0,
      λ j lt. elim (dec_lt j i) [
        | yes below ↦ rw (result j, stay j (omega arith)) ((h finished).1 j below)
        | no at ↦ let same : j ≡ i = omega arith in rw (same, result i) (held, off)
      ],
    )

drain_complete_all :
    (s : Scheduler)
    → (scheduler_drain_complete s).0 ≡ true
    → (s.draining ≡ true) × Quiet turmite_max_ants (scheduler_drain_complete s).1
unfolding scheduler_drain_complete
drain_complete_all s e =
    for_range_inv (Checked s.draining) drain_check turmite_max_ants
      (λ i out lt h. drain_check-Checked s.draining i out h) 0 turmite_max_ants (s.draining, s)
      (omega arith) (λ t. (t, λ j lt. absurd (omega arith))) e

-- If `scheduler_drain_complete` reports true, the universe drains, and afterwards none of the 32
-- ants is enabled or leased.
pub scheduler_drain_complete_sound :
    (s : Scheduler) (i : ℕ)
    → (scheduler_drain_complete s).0 ≡ true
    → i < turmite_max_ants
    → let t = (scheduler_drain_complete s).1 in
      (s.draining ≡ true)
      × ((ant_at t i).flags.leased ≡ false)
      × ((ant_at t i).flags.enabled ≡ false)
scheduler_drain_complete_sound s i e lt =
    let all = drain_complete_all s e in let quiet = all.1 i lt in (all.0, quiet.0, quiet.1)

-- What `scheduler_begin_drain` does to one ant.
abbrev Drained : Ant → Ant → Type 0
Drained a b =
    (b.tokens_fp ≡ a.tokens_fp)
    × (b.flags.enabled ≡ a.flags.enabled)
    × (b.flags.leased ≡ a.flags.leased)
    × (a.flags.enabled ≡ true → (b.flags.draining ≡ true) × (b.token_rate ≡ 0))
    × (a.flags.enabled ≡ false → b ≡ a)

abbrev DrainedBelow : Scheduler → ℕ → Scheduler → Type 0
DrainedBelow s i t =
    (t.draining ≡ true)
    × (t.paused ≡ false)
    × ((j : ℕ) → j < i → Drained (ant_at s j) (ant_at t j))
    × ((j : ℕ) → i ≤ j → ant_at t j ≡ ant_at s j)

drain_slot-DrainedBelow :
    (s : Scheduler) (i : ℕ) (t : Scheduler)
    → DrainedBelow s i t
    → DrainedBelow s (suc i) (drain_slot i t)
unfolding mark_draining
drain_slot-DrainedBelow s i t h = (
  ground arith,
  ground arith,
  λ j lt. elim (dec_lt j i) [
    | yes below ↦ ground (arith, h.2 j below)
    | no at ↦ ground (arith, h.3 i)
  ],
  λ j le. ground (arith, h.3 j),
)

notify_frame :
    (s : Scheduler)
    → ((notify_locked s).colony ≡ s.colony)
      × ((notify_locked s).draining ≡ s.draining)
      × ((notify_locked s).paused ≡ s.paused)
unfolding notify_locked
notify_frame s = (refl, refl, refl)

begin_drain_all :
    (s : Scheduler)
    → let t = scheduler_begin_drain s in
      (t.draining ≡ true)
      × (t.paused ≡ false)
      × ((i : ℕ) → i < turmite_max_ants → Drained (ant_at s i) (ant_at t i))
unfolding scheduler_begin_drain notify_locked
begin_drain_all s =
    let r =
      for_range_inv (DrainedBelow s) drain_slot turmite_max_ants
        (λ i t lt h. drain_slot-DrainedBelow s i t h) 0 turmite_max_ants
        (record s { draining = true; paused = false }) (omega arith)
        (refl, refl, λ j lt. absurd (omega arith), λ j le. refl) in
    (r.0, r.1, r.2)

-- `scheduler_begin_drain` ends any pause, and gives an enabled ant of the 32 the draining flag
-- and the refill rate zero; its balance, its lease and its enabled flag stay as they were.
pub scheduler_begin_drain_enabled :
    (s : Scheduler) (i : ℕ)
    → i < turmite_max_ants
    → (ant_at s i).flags.enabled ≡ true
    → let t = scheduler_begin_drain s in
      let b = ant_at t i in
      (t.draining ≡ true)
      × (t.paused ≡ false)
      × (b.flags.draining ≡ true)
      × (b.token_rate ≡ 0)
      × (b.tokens_fp ≡ (ant_at s i).tokens_fp)
      × (b.flags.enabled ≡ true)
      × (b.flags.leased ≡ (ant_at s i).flags.leased)
scheduler_begin_drain_enabled s i lt on =
    let all = begin_drain_all s in
    let d = all.2 i lt in let f = d.3 on in (all.0, all.1, f.0, f.1, d.0, d.1 ∙ on, d.2)
