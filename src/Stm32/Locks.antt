-- ===== src/Stm32/Locks.antt =====
-- stm32/src/turmite_stm32_shared.c: what a core has secured at each point of a call, and that
-- nothing another core does takes it away.
use mathlib.Core.Path.{subst}
use native.Mathlib.Decide.{ℕ_discrete}
use turmite_linux.Prelude.{
  ℕ, ◌≡◌, ◌≢◌, ap, ◌∙◌, inl, inr, Bool, true, false, Option, none, some, List, [], ◌∷◌, Bool-cases,
  update_ne, if◌then◌else◌, refl,
}
use turmite_linux.Stm32.{
  TurmiteStm32Occupancy, stripe_for_cell, store_cell, turmite_stm32_occupancy_claim,
  turmite_stm32_occupancy_replace, turmite_stm32_occupancy_release,
}
use turmite_linux.Stm32.Steps.{
  Hsem, Operation, claim, replace, release_cell, cell_of, rejects, accepts, reported, new_owner,
  Phase, outside, locking, locked, loaded, stored, System, Event,
}

-- The stripe that a phase has locked.
abbrev pub section_of : Phase → Option ℕ
section_of outside = none
section_of (locking op) = none
section_of (locked op) = some (stripe_for_cell (cell_of op))
section_of (loaded op r) = some (stripe_for_cell (cell_of op))
section_of (stored op) = some (stripe_for_cell (cell_of op))

-- The whole call at once, as the operation of the source.
abbrev pub carry_out : Operation → TurmiteStm32Occupancy → Bool × Option ℕ × TurmiteStm32Occupancy
carry_out (claim cell owner) o = turmite_stm32_occupancy_claim o cell owner
carry_out (replace cell expected owner) o =
    let (b, o') = turmite_stm32_occupancy_replace o cell expected owner in (b, none, o')
carry_out (release_cell cell owner) o =
    let (b, o') = turmite_stm32_occupancy_release o cell owner in (b, none, o')

-- The calls of a log, one after the other from its end, lead from one occupancy to another, each
-- with the result and the report that the log has for it.
pub data Sequential (o : TurmiteStm32Occupancy) : List Event → TurmiteStm32Occupancy → Type 0 where
  none_yet : Sequential o [] o
  one_more :
      {log : List Event} {p q : TurmiteStm32Occupancy} (e : Event)
      → Sequential o log p
      → carry_out e.operation p ≡ (e.result, e.resident, q)
      → Sequential o (e ∷ log) q

-- What a core has secured where it stands.
abbrev pub Secured : (h : Hsem) → h.State → TurmiteStm32Occupancy → ℕ → Phase → Type 0
Secured h s o i outside = Unit
Secured h s o i (locking op) = rejects op o ≡ false
Secured h s o i (locked op) =
    (rejects op o ≡ false) × (h.holder s (stripe_for_cell (cell_of op)) ≡ some i)
Secured h s o i (loaded op r) =
    (rejects op o ≡ false)
    × (h.holder s (stripe_for_cell (cell_of op)) ≡ some i)
    × (o.cells (cell_of op) ≡ r)
Secured h s o i (stored op) = h.holder s (stripe_for_cell (cell_of op)) ≡ some i

abbrev pub AllSecured : {h : Hsem} → System h → Type 0
AllSecured {h} y = (j : ℕ) → Secured h y.sems y.occupancy j (y.cores j)

-- A semaphore that core `j` holds stays its own when another core tries to take one.
take-keeps :
    (h : Hsem) (s : h.State) (i j k x : ℕ)
    → i ≢ j
    → h.holder s x ≡ some j
    → h.holder (h.fast_take i k s).1 x ≡ some j
take-keeps h s i j k x ne held = elim (ℕ_discrete k x) [
  | no other ↦ h.take_other i k x s other ∙ held
  | yes same ↦ elim (Bool-cases (h.fast_take i k s).0) [
    | inl won ↦ elim (h.take_free i k s won) [
      | inl free ↦ absurd (clash same free)
      | inr mine ↦ absurd (taken same mine)
    ]
    | inr lost ↦
        subst (λ z. h.holder (h.fast_take i k s).1 z ≡ some j) same
          (h.take_busy i k s lost ∙ ap (h.holder s) same ∙ held)
  ]
]
  where
    clash : k ≡ x → h.holder s k ≡ none → ⊥
    clash e free = cc (ap (h.holder s) e)

    taken : k ≡ x → h.holder s k ≡ some i → ⊥
    taken e mine = ne (cc (ap (h.holder s) e))

release-keeps :
    (h : Hsem) (s : h.State) (i j k x : ℕ)
    → i ≢ j
    → h.holder s k ≡ some i
    → h.holder s x ≡ some j
    → h.holder (h.release i k s) x ≡ some j
release-keeps h s i j k x ne mine held =
    h.release_other i k x s (λ same. ne (cc (ap (h.holder s) same))) ∙ held

-- Another core's phase stays secured when core `i` takes a semaphore, releases its own, or writes
-- the byte of its own stripe.
pub take-Secured :
    (h : Hsem) (s : h.State) (o : TurmiteStm32Occupancy) (i j k : ℕ) (p : Phase)
    → i ≢ j
    → Secured h s o j p
    → Secured h (h.fast_take i k s).1 o j p
take-Secured h s o i j k outside ne v = tt
take-Secured h s o i j k (locking op) ne v = v
take-Secured h s o i j k (locked op) ne v = (v.0, take-keeps h s i j k _ ne v.1)
take-Secured h s o i j k (loaded op r) ne v = (v.0, take-keeps h s i j k _ ne v.1, v.2)
take-Secured h s o i j k (stored op) ne v = take-keeps h s i j k _ ne v

pub release-Secured :
    (h : Hsem) (s : h.State) (o : TurmiteStm32Occupancy) (i j k : ℕ) (p : Phase)
    → i ≢ j
    → h.holder s k ≡ some i
    → Secured h s o j p
    → Secured h (h.release i k s) o j p
release-Secured h s o i j k outside ne mine v = tt
release-Secured h s o i j k (locking op) ne mine v = v
release-Secured h s o i j k (locked op) ne mine v = (v.0, release-keeps h s i j k _ ne mine v.1)
release-Secured h s o i j k (loaded op r) ne mine v =
    (v.0, release-keeps h s i j k _ ne mine v.1, v.2)
release-Secured h s o i j k (stored op) ne mine v = release-keeps h s i j k _ ne mine v

rejects-store :
    (op : Operation) (o : TurmiteStm32Occupancy) (cell value : ℕ)
    → rejects op (store_cell o cell value) ≡ rejects op o
rejects-store (claim c w) o cell value = refl
rejects-store (replace c x w) o cell value = refl
rejects-store (release_cell c w) o cell value = refl

pub store-Secured :
    (h : Hsem) (s : h.State) (o : TurmiteStm32Occupancy) (i j cell value : ℕ) (p : Phase)
    → i ≢ j
    → h.holder s (stripe_for_cell cell) ≡ some i
    → Secured h s o j p
    → Secured h s (store_cell o cell value) j p
store-Secured h s o i j cell value outside ne mine v = tt
store-Secured h s o i j cell value (locking op) ne mine v = rejects-store op o cell value ∙ v
store-Secured h s o i j cell value (locked op) ne mine v =
    (rejects-store op o cell value ∙ v.0, v.1)
store-Secured h s o i j cell value (loaded op r) ne mine v = (
  rejects-store op o cell value ∙ v.0,
  v.1,
  update_ne o.cells cell (cell_of op) value (λ e. ne (own e)) ∙ v.2,
)
  where
    own : cell ≡ cell_of op → i ≡ j
    own e = cc (ap (λ c. h.holder s (stripe_for_cell c)) e)
store-Secured h s o i j cell value (stored op) ne mine v = v

-- The write of a byte under its lock is the whole call, decided at once.
pub write-carry_out :
    (op : Operation) (o : TurmiteStm32Occupancy)
    → rejects op o ≡ false
    → carry_out op o ≡ (
      accepts op (o.cells (cell_of op)),
      reported op (o.cells (cell_of op)),
      if accepts op (o.cells (cell_of op)) then store_cell o (cell_of op) (new_owner op) else o,
    )
unfolding turmite_stm32_occupancy_claim turmite_stm32_occupancy_replace
    turmite_stm32_occupancy_release
write-carry_out (claim c w) o free = rw free refl
write-carry_out (replace c x w) o free = rw free refl
write-carry_out (release_cell c w) o free = rw free refl

pub refuse-carry_out :
    (op : Operation) (o : TurmiteStm32Occupancy)
    → rejects op o ≡ true
    → carry_out op o ≡ (false, none, o)
unfolding turmite_stm32_occupancy_claim turmite_stm32_occupancy_replace
    turmite_stm32_occupancy_release
refuse-carry_out (claim c w) o bad = rw bad refl
refuse-carry_out (replace c x w) o bad = rw bad refl
refuse-carry_out (release_cell c w) o bad = rw bad refl
