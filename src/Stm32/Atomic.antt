-- ===== src/Stm32/Atomic.antt =====
-- stm32/src/turmite_stm32_shared.c: the striped locks make the calls of the cores atomic.
use mathlib.Core.Path.{subst}
use turmite_linux.Prelude.{
  ℕ, ◌≡◌, sym, Bool, true, false, some, List, ◌++◌, update, update_both, if◌then◌else◌, refl,
}
use turmite_linux.Stm32.{TurmiteStm32Occupancy, stripe_for_cell, store_cell}
use turmite_linux.Stm32.Steps.{
  Hsem, Operation, cell_of, accepts, reported, new_owner, Phase, outside, locking, locked, loaded,
  stored, System, Event, Step, refuses, enters, takes, loads, writes, unlocks, Run, begin, next,
}
use turmite_linux.Stm32.Locks.{
  section_of, carry_out, Sequential, none_yet, one_more, Secured, AllSecured, take-Secured,
  release-Secured, store-Secured, write-carry_out, refuse-carry_out,
}

in_section :
    (h : Hsem) (s : h.State) (o : TurmiteStm32Occupancy) (i k : ℕ) (p : Phase)
    → Secured h s o i p
    → section_of p ≡ some k
    → h.holder s k ≡ some i
in_section h s o i k outside v e = cc
in_section h s o i k (locking op) v e = cc
in_section h s o i k (locked op) v e = cc (v.1)
in_section h s o i k (loaded op r) v e = cc (v.1)
in_section h s o i k (stored op) v e = cc

module _ {h : Hsem} where
  at_own :
      (y : System h) (i : ℕ) (p : Phase)
      → AllSecured y
      → y.cores i ≡ p
      → Secured h y.sems y.occupancy i p
  at_own y i p v at = subst (λ q. Secured h y.sems y.occupancy i q) at (v i)

  taken :
      (y : System h) (i : ℕ) (op : Operation)
      → Secured h y.sems y.occupancy i (locking op)
      → (won : Bool) → (h.fast_take i (stripe_for_cell (cell_of op)) y.sems).0 ≡ won
      → Secured h
          (h.fast_take i (stripe_for_cell (cell_of op)) y.sems).1
          y.occupancy
          i
          (if won then locked op else locking op)
  taken y i op free true won = (free, h.take_mine i _ y.sems won)
  taken y i op free false lost = free

  write-AllSecured :
      (y : System h) (i : ℕ) (op : Operation) (r : ℕ) (accepted : Bool)
      → Secured h y.sems y.occupancy i (loaded op r)
      → AllSecured y
      → (j : ℕ)
      → Secured h y.sems
          (if accepted then store_cell y.occupancy (cell_of op) (new_owner op) else y.occupancy)
          j
          (update y.cores i (stored op) j)
  write-AllSecured y i op r true own v j =
      update_both (Secured h y.sems (store_cell y.occupancy (cell_of op) (new_owner op)) j) y.cores
        i j (stored op)
        (λ e. subst (λ k. h.holder y.sems (stripe_for_cell (cell_of op)) ≡ some k) e own.1)
        (λ ne. store-Secured h y.sems y.occupancy i j _ _ (y.cores j) ne own.1 (v j))
  write-AllSecured y i op r false own v j =
      update_both (Secured h y.sems y.occupancy j) y.cores i j (stored op)
        (λ e. subst (λ k. h.holder y.sems (stripe_for_cell (cell_of op)) ≡ some k) e own.1)
        (λ ne. v j)

  Step-AllSecured :
      (y : System h) {events : List Event} {z : System h}
      → Step h y events z
      → AllSecured y
      → AllSecured z
  Step-AllSecured y (refuses i op at bad) v j = v j
  Step-AllSecured y (enters i op at free) v j =
      update_both (Secured h y.sems y.occupancy j) y.cores i j (locking op) (λ e. free) (λ ne. v j)
  Step-AllSecured y (takes i op at) v j =
      let (won, s') = h.fast_take i (stripe_for_cell (cell_of op)) y.sems in
      let p = if won then locked op else locking op in
      update_both (Secured h s' y.occupancy j) y.cores i j p
        (λ e.
          subst (λ k. Secured h s' y.occupancy k p) e
            (taken y i op (at_own y i (locking op) v at) won refl))
        (λ ne. take-Secured h y.sems y.occupancy i j _ (y.cores j) ne (v j))
  Step-AllSecured y (loads i op at) v j =
      let own = at_own y i (locked op) v at in
      update_both (Secured h y.sems y.occupancy j) y.cores i j _
        (λ e. (
          own.0,
          subst (λ k. h.holder y.sems (stripe_for_cell (cell_of op)) ≡ some k) e own.1,
          refl,
        ))
        (λ ne. v j)
  Step-AllSecured y (writes i op r at) v j =
      write-AllSecured y i op r (accepts op r) (at_own y i (loaded op r) v at) v j
  Step-AllSecured y (unlocks i op at) v j =
      let own = at_own y i (stored op) v at in
      update_both (Secured h _ y.occupancy j) y.cores i j outside (λ e. tt)
        (λ ne. release-Secured h y.sems y.occupancy i j _ (y.cores j) ne own (v j))

  Run-AllSecured :
      {start : System h} {log : List Event} {y : System h}
      → AllSecured start
      → Run h start log y
      → AllSecured y
  Run-AllSecured v begin = v
  Run-AllSecured v (next {y = y} r s) = Step-AllSecured y s (Run-AllSecured v r)

  outside-AllSecured : (y : System h) → ((i : ℕ) → y.cores i ≡ outside) → AllSecured y
  outside-AllSecured y all j = subst (Secured h y.sems y.occupancy j) (sym (all j)) tt

  -- However the cores are interleaved from a state in which none is inside a call, two cores never
  -- both have the lock of one stripe, given that a semaphore is taken only if no other core holds
  -- it.
  pub stripe_exclusive :
      {start : System h} {log : List Event} {y : System h}
      → ((i : ℕ) → start.cores i ≡ outside)
      → Run h start log y
      → (i j k : ℕ) → section_of (y.cores i) ≡ some k
      → section_of (y.cores j) ≡ some k
      → i ≡ j
  stripe_exclusive {start} {y = y} idle r i j k in_i in_j =
      let v = Run-AllSecured (outside-AllSecured start idle) r in
      cc (
        in_section h y.sems y.occupancy i k (y.cores i) (v i) in_i,
        in_section h y.sems y.occupancy j k (y.cores j) (v j) in_j,
      )

  Step-Sequential :
      (y : System h) (o : TurmiteStm32Occupancy) {log events : List Event} {z : System h}
      → Step h y events z
      → AllSecured y
      → Sequential o log y.occupancy
      → Sequential o (events ++ log) z.occupancy
  Step-Sequential y o (refuses i op at bad) v l = one_more _ l (refuse-carry_out op y.occupancy bad)
  Step-Sequential y o (enters i op at free) v l = l
  Step-Sequential y o (takes i op at) v l = l
  Step-Sequential y o (loads i op at) v l = l
  Step-Sequential y o (writes i op r at) v l =
      let own = at_own y i (loaded op r) v at in
      one_more _ l (
        subst
          (λ k. carry_out op y.occupancy ≡ (
            accepts op k,
            reported op k,
            if accepts op k
                then store_cell y.occupancy (cell_of op) (new_owner op)
                else y.occupancy,
          ))
          own.2 (write-carry_out op y.occupancy own.0))
  Step-Sequential y o (unlocks i op at) v l = l

  -- However the cores are interleaved from a state in which none is inside a call, the calls
  -- decided so far, done one at a time in the order of their decisions by the sequential
  -- operations, give the results and reports that the cores get and the occupancy that the memory
  -- has, given that a semaphore is taken only if no other core holds it.
  pub calls_atomic :
      {start : System h} {log : List Event} {y : System h}
      → ((i : ℕ) → start.cores i ≡ outside)
      → Run h start log y
      → Sequential start.occupancy log y.occupancy
  calls_atomic {start} idle begin = none_yet
  calls_atomic {start} idle (next {y = y} r s) =
      Step-Sequential y start.occupancy s (Run-AllSecured (outside-AllSecured start idle) r)
        (calls_atomic idle r)
