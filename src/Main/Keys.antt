-- ===== src/Main/Keys.antt =====
-- src/main.c: what the keys may change.
use turmite_linux.Prelude.{
  ℕ, zero, suc, ◌/◌, ◌≤◌, ◌≡◌, refl, ◌∙◌, Bool, true, false, Option, none, some, ltb, if◌then◌else◌,
  arith, ◌-◌,
}
use turmite_linux.Prelude.Doubles.{Doubles}
use turmite_linux.Prelude.Loops.{for_range_keep}
use turmite_linux.Rng.{Lfsr32}
use turmite_linux.World.{World}
use turmite_linux.Ant.Types.{turmite_max_ants}
use turmite_linux.Scheduler.Types.{Scheduler, notify_locked}
use turmite_linux.Scheduler.Control.{
  scheduler_begin_drain, drain_slot, mark_draining, scheduler_set_paused, scheduler_set_quantum,
  scheduler_wake_all, scheduler_spawn_ant, after_spawn, scheduler_begin_culling, cull_loop, weakest,
  scheduler_active_population,
}
use turmite_linux.Main.Options.{min_quantum, max_quantum}
use turmite_linux.Main.Universe.{
  Universe, Key, escape, q, space, h, left_bracket, right_bracket, r, equals, plus, kp_plus, minus,
  kp_minus, other, Surroundings, handle_key, handle_live_key, begin_frames, allocated_cells,
  universe_begin_debug_drain, add_ant, cull,
}

if_true : {A : Type 0} (b : Bool) (x y : A) → b ≡ true → (if b then x else y) ≡ x
if_true true x y e = refl
if_true false x y e = cc

abbrev pub closes : Key → Bool
closes escape = true
closes key = false

module _ {d : Doubles} where
  -- While a universe drains for a dump, the escape key ends it and no other key changes anything.
  pub handle_key_draining :
      (env : Surroundings) (u : Universe d) (key : Key)
      → u.debug_dump ≡ true
      → handle_key env u key ≡ (if closes key then record u { quit = true } else u)
  unfolding handle_key universe_begin_debug_drain
  handle_key_draining env u escape on = refl
  handle_key_draining env u q on = if_true u.debug_dump u _ on
  handle_key_draining env u key on = if_true u.debug_dump u _ on

mark_quantum : (s : Scheduler) (i : ℕ) → (mark_draining s i).quantum ≡ s.quantum
unfolding mark_draining
mark_quantum s i = refl

drain_quantum : (s : Scheduler) → (scheduler_begin_drain s).quantum ≡ s.quantum
unfolding scheduler_begin_drain notify_locked mark_draining
drain_quantum s =
    for_range_keep (λ (t : Scheduler). t.quantum ≡ s.quantum) drain_slot
      (λ i t k. ground (arith, k)) 0 turmite_max_ants _ refl

cull_quantum : (n marked : ℕ) (s : Scheduler) → (cull_loop n marked s).1.quantum ≡ s.quantum
unfolding cull_loop
cull_quantum zero marked s = refl
cull_quantum (suc n) marked s =
    after (weakest s) (λ i. cull_quantum n (suc marked) (mark_draining s i))
  where
    after :
        (v : Option (ℕ × ℕ))
        → ((i : ℕ)
            → (cull_loop n (suc marked) (mark_draining s i)).1.quantum
              ≡ (mark_draining s i).quantum)
        → let culled : ℕ × Scheduler = elim v [
          | none ↦ (marked, s)
          | some (i, t) ↦ cull_loop n (suc marked) (mark_draining s i)
        ] in
          culled.1.quantum ≡ s.quantum
    after none ih = refl
    after (some (i, t)) ih = ih i ∙ mark_quantum s i

begin_culling_quantum :
    (s : Scheduler) (target : ℕ) → (scheduler_begin_culling s target).1.quantum ≡ s.quantum
unfolding scheduler_begin_culling notify_locked
begin_culling_quantum s target =
    ground (arith, cull_quantum (s.colony.active_population - target) 0 s)

spawn_quantum :
    (s : Scheduler) (w : World) (g : Lfsr32) (now : ℕ)
    → (scheduler_spawn_ant s w g now).1.quantum ≡ s.quantum
unfolding scheduler_spawn_ant after_spawn notify_locked
spawn_quantum s w g now = ground arith

-- The quantum is one that the command line would accept.
abbrev pub FairQuantum : Scheduler → Type 0
FairQuantum s = (min_quantum ≤ s.quantum) × (s.quantum ≤ max_quantum)

set-FairQuantum :
    (s : Scheduler) (n : ℕ)
    → min_quantum ≤ n
    → n ≤ max_quantum
    → FairQuantum (scheduler_set_quantum s n)
unfolding scheduler_set_quantum scheduler_wake_all notify_locked
set-FairQuantum s n low high = ground arith

module _ {d : Doubles} where
  if-FairQuantum :
      (b : Bool) (x y : Universe d)
      → FairQuantum x.scheduler
      → FairQuantum y.scheduler
      → FairQuantum (if b then x else y).scheduler
  if-FairQuantum true x y vx vy = vx
  if-FairQuantum false x y vx vy = vy

  add-FairQuantum :
      (env : Surroundings) (u : Universe d)
      → FairQuantum u.scheduler
      → FairQuantum (add_ant env u).scheduler
  add-FairQuantum env u v =
      let (added, s, g) = scheduler_spawn_ant u.scheduler u.world u.rng env.now_us in
      if-FairQuantum (ltb (scheduler_active_population u.scheduler) turmite_max_ants)
        (record u { scheduler = s; rng = g }) u
        (rw (spawn_quantum u.scheduler u.world u.rng env.now_us) v) v

  cull-FairQuantum : (u : Universe d) → FairQuantum u.scheduler → FairQuantum (cull u).scheduler
  cull-FairQuantum u v =
      let current = scheduler_active_population u.scheduler in
      if-FairQuantum (ltb 2 current)
        (record u { scheduler = (scheduler_begin_culling u.scheduler (current / 2)).1 }) u
        (rw (begin_culling_quantum u.scheduler (current / 2)) v) v

  handle_live_key-FairQuantum :
      (env : Surroundings) (u : Universe d) (key : Key)
      → FairQuantum u.scheduler
      → FairQuantum (handle_live_key env u key).scheduler
  unfolding scheduler_set_paused notify_locked
  handle_live_key-FairQuantum env u escape v = v
  handle_live_key-FairQuantum env u q v = v
  handle_live_key-FairQuantum env u space v = v
  handle_live_key-FairQuantum env u h v = v
  handle_live_key-FairQuantum env u left_bracket v =
      set-FairQuantum u.scheduler _ (ground arith) (ground arith)
  handle_live_key-FairQuantum env u right_bracket v =
      set-FairQuantum u.scheduler _ (ground arith) (ground arith)
  handle_live_key-FairQuantum env u r v = v
  handle_live_key-FairQuantum env u equals v = add-FairQuantum env u v
  handle_live_key-FairQuantum env u plus v = add-FairQuantum env u v
  handle_live_key-FairQuantum env u kp_plus v = add-FairQuantum env u v
  handle_live_key-FairQuantum env u minus v = cull-FairQuantum u v
  handle_live_key-FairQuantum env u kp_minus v = cull-FairQuantum u v
  handle_live_key-FairQuantum env u (other code) v = v

  begin_frames-FairQuantum :
      (env : Surroundings) (cells : Option (ℕ → ℕ)) (u : Universe d)
      → FairQuantum u.scheduler
      → FairQuantum (begin_frames env cells u).scheduler
  begin_frames-FairQuantum env none u v = v
  begin_frames-FairQuantum env (some cells) u v = if-FairQuantum _ _ _ v v

  -- No key takes the quantum out of the range of 1 to 4096.
  pub handle_key-FairQuantum :
      (env : Surroundings) (u : Universe d) (key : Key)
      → FairQuantum u.scheduler
      → FairQuantum (handle_key env u key).scheduler
  unfolding handle_key universe_begin_debug_drain
  handle_key-FairQuantum env u escape v = v
  handle_key-FairQuantum env u q v =
      if-FairQuantum u.debug_dump u _ v
        (begin_frames-FairQuantum env (allocated_cells env u) _ (rw (drain_quantum u.scheduler) v))
  handle_key-FairQuantum env u key v =
      if-FairQuantum u.debug_dump u _ v (handle_live_key-FairQuantum env u key v)
