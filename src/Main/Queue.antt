-- ===== src/Main/Queue.antt =====
-- src/main.c: the ring of commands is a bounded queue, and the controller empties it in order.
use mathlib.Core.Path.{subst}
use native.Mathlib.Nat.{zero-add}
use native.Mathlib.Numerals.{add-one}
use turmite_linux.Prelude.{
  ℕ, zero, suc, ◌+◌, ◌%◌, ◌≤◌, ◌<◌, ◌≡◌, refl, sym, ap, ◌∙◌, inl, inr, Bool, true, false, Option,
  none, some, List, [], ◌∷◌, ◌++◌, ltb, ◌==◌, if◌then◌else◌, arith, Bool-cases, update, update_self,
  update_ne, rows, rows_last, rows-ext, rows_shift, length, sub_u64,
}
use turmite_linux.Prelude.Doubles.{Doubles}
use turmite_linux.Main.Universe.{
  Universe, Key, Surroundings, control_queue_size, universe_enqueue, take_command, after_take,
  handle_key, universe_begin_debug_drain, begin_frames, allocated_cells, handle_live_key, escape, q,
  universe_apply_commands,
}

-- The commands in a ring, the first one first.
abbrev pub queue : (ℕ → Key) → ℕ → ℕ → List Key
queue commands read count = rows count 0 (λ k. commands ((read + k) % control_queue_size))

queue_push :
    (commands : ℕ → Key) (read count : ℕ) (key : Key)
    → count < control_queue_size
    → queue (update commands ((read + count) % control_queue_size) key) read (suc count)
      ≡ queue commands read count ++ key ∷ []
queue_push commands read count key room =
    let after = update commands ((read + count) % control_queue_size) key in
    let old =
      rows-ext count 0 (λ k. after ((read + k) % control_queue_size))
        (λ k. commands ((read + k) % control_queue_size))
        (λ i low high. update_ne commands _ _ key (λ e. absurd (omega arith))) in
    rows_last count 0 (λ k. after ((read + k) % control_queue_size))
    ∙ rw (zero-add count, old)
        (ap (λ k. queue commands read count ++ k ∷ [])
          (update_self commands ((read + count) % control_queue_size) key))

queue_pop :
    (commands : ℕ → Key) (read n : ℕ)
    → read < control_queue_size
    → queue commands read (suc n)
      ≡ commands read ∷ queue commands ((read + 1) % control_queue_size) n
queue_pop commands read n inside =
    let first : (read + 0) % control_queue_size ≡ read = omega arith in
    let rest =
      rows-ext n 0 (λ k. commands ((read + suc k) % control_queue_size))
        (λ k. commands (((read + 1) % control_queue_size + k) % control_queue_size))
        (λ i low high. ap commands (omega arith)) in
    ap (λ k. commands k ∷ rows n 1 (λ k. commands ((read + k) % control_queue_size))) first
    ∙ ap (◌∷◌ (commands read))
        (rows_shift n 0 (λ k. commands ((read + k) % control_queue_size)) ∙ rest)

length-rows : {A : Type 0} (n k : ℕ) (f : ℕ → A) → length (rows n k f) ≡ n
length-rows zero k f = refl
length-rows (suc n) k f = ap suc (length-rows n (suc k) f)

module _ {d : Doubles} where
  -- The commands of a universe that wait.
  abbrev pub pending : Universe d → List Key
  pending u = queue u.commands u.command_read u.command_count

  pub record QueueIsValid (u : Universe d) : Type 0 where
    pub read : u.command_read < control_queue_size
    pub count : u.command_count ≤ control_queue_size

  -- With fewer than 64 commands waiting a key is accepted and goes to the end of the queue, and
  -- with 64 it is refused and nothing changes; either way the ring stays valid.
  pub universe_enqueue_lem :
      (u : Universe d) (key : Key)
      → QueueIsValid u
      → let (room, u') = universe_enqueue u key in
        (room ≡ ltb (length (pending u)) control_queue_size)
        × (pending u' ≡ (if room then pending u ++ key ∷ [] else pending u))
        × QueueIsValid u'
  unfolding universe_enqueue
  universe_enqueue_lem u key v =
      let size =
        length-rows u.command_count 0
          (λ k. u.commands ((u.command_read + k) % control_queue_size)) in
      elim (Bool-cases (ltb u.command_count control_queue_size)) [
        | inl room ↦
            rw (size, room)
              (
                refl,
                ap
                      (queue
                        (update u.commands ((u.command_read + u.command_count) % control_queue_size)
                          key)
                        u.command_read)
                      (add-one u.command_count)
                    ∙ queue_push u.commands u.command_read u.command_count key
                        (ground (arith, room)),
                record { read = v.read; count = ground (arith, room) },
              )
        | inr full ↦ rw (size, full) (refl, refl, v)
      ]

  -- Handling a key leaves the ring alone.
  record SameQueue (u w : Universe d) : Type 0 where
    commands : w.commands ≡ u.commands
    read : w.command_read ≡ u.command_read
    count : w.command_count ≡ u.command_count

  begin_frames-SameQueue :
      (env : Surroundings) (cells : Option (ℕ → ℕ)) (u : Universe d)
      → SameQueue u (begin_frames env cells u)
  begin_frames-SameQueue env none u = record { commands = refl; read = refl; count = refl }
  begin_frames-SameQueue env (some cells) u = ground arith

  handle_live_key-SameQueue :
      (env : Surroundings) (u : Universe d) (key : Key) → SameQueue u (handle_live_key env u key)
  handle_live_key-SameQueue env u escape = record { commands = refl; read = refl; count = refl }
  handle_live_key-SameQueue env u key = ground arith

  if-SameQueue :
      (b : Bool) (u x y : Universe d)
      → SameQueue u x
      → SameQueue u y
      → SameQueue u (if b then x else y)
  if-SameQueue true u x y on off = on
  if-SameQueue false u x y on off = off

  itself-SameQueue : (u : Universe d) → SameQueue u u
  itself-SameQueue u = record { commands = refl; read = refl; count = refl }

  drain-SameQueue :
      (env : Surroundings) (u : Universe d) → SameQueue u (universe_begin_debug_drain env u)
  unfolding universe_begin_debug_drain
  drain-SameQueue env u =
      let begun = begin_frames-SameQueue env (allocated_cells env u) _ in
      if-SameQueue u.debug_dump u u _ (itself-SameQueue u)
        (record { commands = begun.commands; read = begun.read; count = begun.count })

  handle_key-SameQueue :
      (env : Surroundings) (u : Universe d) (key : Key) → SameQueue u (handle_key env u key)
  unfolding handle_key
  handle_key-SameQueue env u escape = record { commands = refl; read = refl; count = refl }
  handle_key-SameQueue env u q = drain-SameQueue env u
  handle_key-SameQueue env u key =
      if-SameQueue u.debug_dump u u _ (itself-SameQueue u) (handle_live_key-SameQueue env u key)

  -- The keys of a list handled one after the other, each after its command was taken off the ring.
  abbrev pub handled : Surroundings → Universe d → List Key → Universe d
  handled env u [] = u
  handled env u (key ∷ keys) = handled env (handle_key env (take_command u).1 key) keys

  same-pending : (u w : Universe d) → SameQueue u w → pending w ≡ pending u
  same-pending u w s = rw (s.commands, s.read, s.count) refl

  take_lem :
      (u : Universe d) (n : ℕ)
      → QueueIsValid u
      → u.command_count ≡ suc n
      → ((take_command u).0 ≡ some (u.commands u.command_read))
        × (pending u ≡ u.commands u.command_read ∷ pending (take_command u).1)
        × QueueIsValid (take_command u).1
        × ((take_command u).1.command_count ≡ n)
  unfolding take_command
  take_lem u n v e =
      let some_left : (u.command_count == 0) ≡ false = ground (arith, e) in
      let fewer : sub_u64 u.command_count 1 ≡ n = ground (arith, e, v.count) in
      rw some_left (
        refl,
        ap (queue u.commands u.command_read) e
            ∙ queue_pop u.commands u.command_read n v.read
            ∙ ap
                (λ m.
                  u.commands u.command_read
                  ∷ queue u.commands ((u.command_read + 1) % control_queue_size) m)
                (sym fewer),
        record { read = omega arith; count = omega (arith, fewer, e, v.count) },
        fewer,
      )

  -- What the loop leaves if the waiting commands are the given keys.
  abbrev Applies : Surroundings → ℕ → Universe d → List Key → Type 0
  Applies env fuel u keys =
      (universe_apply_commands fuel env u ≡ some (handled env u keys))
      × ((handled env u keys).command_count ≡ 0)

  take_none : (u : Universe d) → u.command_count ≡ 0 → take_command u ≡ (none, u)
  unfolding take_command
  take_none u e =
      let none_left : (u.command_count == 0) ≡ true = ground (arith, e) in rw none_left refl

  apply_none :
      (env : Surroundings) (fuel : ℕ) (u : Universe d)
      → u.command_count ≡ 0
      → Applies env (suc fuel) u []
  unfolding universe_apply_commands
  apply_none env fuel u e = (
    ap
        (λ (t : Option Key × Universe d).
          after_take (λ k. universe_apply_commands fuel env (handle_key env t.1 k)) t.1 t.0)
        (take_none u e),
    e,
  )

  apply_some :
      (env : Surroundings) (fuel : ℕ) (u : Universe d) (key : Key) (keys : List Key)
      → (take_command u).0 ≡ some key
      → Applies env fuel (handle_key env (take_command u).1 key) keys
      → Applies env (suc fuel) u (key ∷ keys)
  unfolding universe_apply_commands
  apply_some env fuel u key keys at next = (
    ap
          (after_take (λ k. universe_apply_commands fuel env (handle_key env (take_command u).1 k))
            (take_command u).1)
          at
        ∙ next.0,
    next.1,
  )

  -- The loop over the commands ends within one round more than there are commands waiting, in a
  -- valid ring, and it has handled exactly these keys, in the order of the queue; no command
  -- is left.
  pub universe_apply_commands_lem :
      (env : Surroundings) (fuel n : ℕ) (u : Universe d)
      → QueueIsValid u
      → u.command_count ≡ n
      → n < fuel
      → (universe_apply_commands fuel env u ≡ some (handled env u (pending u)))
        × ((handled env u (pending u)).command_count ≡ 0)
  universe_apply_commands_lem env zero n u v e lt = absurd (omega arith)
  universe_apply_commands_lem env (suc fuel) zero u v e lt =
      subst (Applies env (suc fuel) u) (sym (ap (queue u.commands u.command_read) e))
        (apply_none env fuel u e)
  universe_apply_commands_lem env (suc fuel) (suc n) u v e lt =
      let (at, split, v', left) = take_lem u n v e in
      let key = u.commands u.command_read in
      let w = handle_key env (take_command u).1 key in
      let s = handle_key-SameQueue env (take_command u).1 key in
      let valid : QueueIsValid w = record {
        read = rw s.read v'.read;
        count = rw s.count v'.count;
      } in
      let rest = universe_apply_commands_lem env fuel n w valid (s.count ∙ left) (omega arith) in
      subst (Applies env (suc fuel) u) (sym split) (
        apply_some env fuel u key (pending (take_command u).1) at
          (subst (Applies env fuel w) (same-pending (take_command u).1 w s) rest))
