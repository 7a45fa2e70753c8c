-- ===== src/Dump/Ring.antt =====
-- src/dump.c: the ring keeps the last pages, and reads them in the order of their capture.
use mathlib.Core.Path.{subst}
use turmite_linux.Prelude.{
  ℕ, zero, suc, ◌+◌, ◌-◌, ◌*◌, ◌%◌, ◌<◌, ◌≡◌, ◌≢◌, refl, sym, ◌∙◌, inl, inr, true, false, Option,
  none, some, List, [], ◌∷◌, ◌++◌, ◌==◌, if◌then◌else◌, arith, min, update_self, update_ne, length,
  get_elem?, get_elem?-lt, Bool-cases,
}
use turmite_linux.Prelude.Doubles.{Doubles}
use turmite_linux.World.{World, world_load}
use turmite_linux.Dump.Types.{DumpPageMeta, DumpAntMeta, DumpCapture}
use turmite_linux.Dump.Slots.{
  mod_once, fill_in, fill_out, slot_apart, fnv1a64-ext, count_changed-ext, count_changed_self,
  back_slot, next-lem, previous-lem, back_latest, back_older, back_elsewhere,
}
use turmite_linux.Dump.{
  fill, Observation, observe_page, observe_ant, page_bytes, fnv1a64, count_changed, capture_one,
  chronological_slot, dump_capture_reset, dump_capture_now,
}

-- A page as it was captured.
pub record Page (d : Doubles) : Type 0 where
  pub meta : DumpPageMeta d
  pub bytes : ℕ → ℕ
  pub ants : ℕ → DumpAntMeta d

-- The ring's slot holds the page.
pub record Stores {d : Doubles} (c : DumpCapture d) (slot : ℕ) (p : Page d) : Type 0 where
  pub meta : c.page_meta slot ≡ p.meta
  pub bytes : (i : ℕ) → i < c.cells → page_bytes c c.world_pages slot i ≡ p.bytes i
  pub ants : (i : ℕ) → i < c.ant_slots → c.ant_meta (slot * c.ant_slots + i) ≡ p.ants i

-- What a page is compared with: the page captured before it, if there is one and the ring has
-- room for two.
abbrev pub compared : {d : Doubles} → ℕ → List (Page d) → Option (ℕ → ℕ)
compared capacity [] = none
compared capacity (p ∷ h) = if capacity == 1 then none else some p.bytes

-- The page that an observation gives, after those of a history, the latest first.
abbrev pub page_of : {d : Doubles} → ℕ → ℕ → List (Page d) → Observation d → Page d
page_of {d} capacity cells h o = record {
  meta = observe_page o (world_load o.world) (compared capacity h) cells;
  bytes = world_load o.world;
  ants = observe_ant d o.scheduler o.colony;
}

-- The ring holds the last pages of a history.
record Holds {d : Doubles} (c : DumpCapture d) (h : List (Page d)) : Type 0 where
  positive : 0 < c.page_capacity
  inside : c.next_page < c.page_capacity
  count : c.page_count ≡ min (length h) c.page_capacity
  early : c.page_count < c.page_capacity → c.next_page ≡ c.page_count
  kept :
      (k : ℕ) (p : Page d)
      → k < c.page_count
      → get_elem? h k ≡ some p
      → Stores c (back_slot c.next_page c.page_capacity k) p

module _ {d : Doubles} (c : DumpCapture d) (o : Observation d) where
  -- A capture leaves the other slots as they are.
  other_slot :
      (slot : ℕ) (p : Page d)
      → c.next_page ≢ slot
      → Stores c slot p
      → Stores (capture_one c o) slot p
  unfolding capture_one
  other_slot slot p ne s = record {
    meta = update_ne c.page_meta c.next_page slot _ ne ∙ s.meta;
    bytes = λ i h.
        fill_out _ _ _ _ _ (slot_apart slot c.next_page c.cells i (λ e. ne (sym e)) h)
        ∙ s.bytes i h;
    ants = λ i h.
        fill_out _ _ _ _ _ (slot_apart slot c.next_page c.ant_slots i (λ e. ne (sym e)) h)
        ∙ s.ants i h;
  }

  observe_page-ext :
      (a b : ℕ → ℕ) (x y : Option (ℕ → ℕ)) (n : ℕ)
      → fnv1a64 a n ≡ fnv1a64 b n
      → count_changed a x n ≡ count_changed b y n
      → observe_page o a x n ≡ observe_page o b y n
  unfolding observe_page
  observe_page-ext a b x y n same_hash same_count = rw (same_hash, same_count) refl

  abbrev filled : ℕ → ℕ
  filled = fill (c.next_page * c.cells) c.cells (world_load o.world) c.world_pages

  written : (i : ℕ) → i < c.cells → page_bytes c filled c.next_page i ≡ world_load o.world i
  written i h = fill_in (world_load o.world) c.world_pages _ _ i h

  changes_lem :
      (h : List (Page d))
      → Holds c h
      → count_changed
          (page_bytes c filled c.next_page)
          (if c.page_count == 0
            then none
            else some (page_bytes c filled ((c.next_page + c.page_capacity - 1) % c.page_capacity)))
          c.cells
        ≡ count_changed (world_load o.world) (compared c.page_capacity h) c.cells
  unfolding count_changed
  changes_lem [] v = let e : (c.page_count == 0) ≡ true = ground (arith, v.count) in rw e refl
  changes_lem (p ∷ h) v =
      let some_page : (c.page_count == 0) ≡ false = ground (arith, v.count, v.positive) in
      rw some_page (elim (Bool-cases (c.page_capacity == 1)) [
        | inl one ↦
            let same : (c.next_page + c.page_capacity - 1) % c.page_capacity ≡ c.next_page =
              previous-lem _ _ v.inside ∙ ground (arith, v.inside) in
            rw (one, same) (count_changed_self (page_bytes c filled c.next_page) c.cells)
        | inr more ↦
            rw (more, previous-lem _ _ v.inside)
              (count_changed-ext _ _ _ _ c.cells written (older more))
      ])
    where
      older :
          (c.page_capacity == 1) ≡ false
          → (i : ℕ) → i < c.cells
          → page_bytes c filled (back_slot c.next_page c.page_capacity 0) i ≡ p.bytes i
      older more i lt =
          fill_out _ _ _ _ _ (
            slot_apart (back_slot c.next_page c.page_capacity 0) c.next_page c.cells i
              (back_elsewhere c.next_page c.page_capacity 0 v.inside
                (ground (arith, more, v.positive)))
              lt)
          ∙ (v.kept 0 p (ground (arith, v.count, v.positive)) refl).bytes i lt

  new_slot :
      (h : List (Page d))
      → Holds c h
      → Stores (capture_one c o) c.next_page (page_of c.page_capacity c.cells h o)
  unfolding capture_one
  new_slot h v = record {
    meta =
        update_self c.page_meta c.next_page _
        ∙ observe_page-ext _ _ _ _ c.cells (fnv1a64-ext _ _ c.cells written) (changes_lem h v);
    bytes = written;
    ants = λ i lt. fill_in _ _ _ _ i lt;
  }

  all_kept :
      (h : List (Page d))
      → Holds c h
      → (k : ℕ) (p : Page d) → k < (capture_one c o).page_count
      → get_elem? (page_of c.page_capacity c.cells h o ∷ h) k ≡ some p
      → Stores
          (capture_one c o)
          (back_slot ((c.next_page + 1) % c.page_capacity) c.page_capacity k)
          p
  unfolding capture_one
  all_kept h v zero p lt e =
      rw (back_latest _ _ v.inside)
        (subst (Stores (capture_one c o) c.next_page) (cc) (new_slot h v))
  all_kept h v (suc k) p lt e =
      let few : suc k < c.page_capacity = ground (arith, v.count, lt) in
      rw (back_older _ _ k v.inside few) (
        other_slot _ p (λ q. back_elsewhere _ _ k v.inside few (sym q))
          (v.kept k p (ground (arith, v.count, lt)) e))

  capture_one-Holds :
      (h : List (Page d))
      → Holds c h
      → Holds (capture_one c o) (page_of c.page_capacity c.cells h o ∷ h)
  unfolding capture_one
  capture_one-Holds h v = record {
    positive = v.positive;
    inside = rw (next-lem _ _ v.inside) (ground (arith, v.inside));
    count = ground (arith, v.count);
    early = λ lt. rw (next-lem _ _ v.inside) (ground (arith, v.early, v.count, v.inside));
    kept = all_kept h v;
  }

-- The pages that a sequence of observations gives after a history, the latest first.
abbrev pub pages_after :
    {d : Doubles} → ℕ → ℕ → List (Observation d) → List (Page d) → List (Page d)
pages_after capacity cells [] h = h
pages_after capacity cells (o ∷ os) h =
    pages_after capacity cells os (page_of capacity cells h o ∷ h)

-- One capture after the other.
abbrev pub capture_all : {d : Doubles} → DumpCapture d → List (Observation d) → DumpCapture d
capture_all c [] = c
capture_all c (o ∷ os) = capture_all (dump_capture_now c o) os

capture_all-Holds :
    {d : Doubles} (c : DumpCapture d) (os : List (Observation d)) (h : List (Page d))
    → Holds c h
    → Holds (capture_all c os) (pages_after c.page_capacity c.cells os h)
      × ((capture_all c os).page_capacity ≡ c.page_capacity)
unfolding dump_capture_now capture_one
capture_all-Holds c [] h v = (v, refl)
capture_all-Holds c (o ∷ os) h v =
    capture_all-Holds (dump_capture_now c o) os (page_of c.page_capacity c.cells h o ∷ h)
      (capture_one-Holds c o h v)

length-pages_after :
    {d : Doubles} (n m : ℕ) (os : List (Observation d)) (h : List (Page d))
    → length (pages_after n m os h) ≡ length os + length h
length-pages_after n m [] h = omega arith
length-pages_after n m (o ∷ os) h = omega (arith, length-pages_after n m os (page_of n m h o ∷ h))

chronological :
    {d : Doubles} (c : DumpCapture d) (h : List (Page d)) (ordinal : ℕ)
    → Holds c h
    → ordinal < c.page_count
    → chronological_slot c ordinal
      ≡ back_slot c.next_page c.page_capacity (c.page_count - 1 - ordinal)
unfolding chronological_slot
chronological c h ordinal v lt =
    let below : (if c.page_count == c.page_capacity then c.next_page else 0) + ordinal
        < c.page_capacity + c.page_capacity =
      ground (arith, v.count, v.inside) in
    mod_once _ c.page_capacity below ∙ ground (arith, v.count, v.inside, v.early)

pub capture_all_cells :
    {d : Doubles} (c : DumpCapture d) (os : List (Observation d))
    → (capture_all c os).cells ≡ c.cells
unfolding dump_capture_now capture_one
capture_all_cells c [] = refl
capture_all_cells c (o ∷ os) = capture_all_cells (dump_capture_now c o) os

-- The latest page is that of the last observation.
pub pages_after_last :
    {d : Doubles} (n m : ℕ) (os : List (Observation d)) (o : Observation d) (h : List (Page d))
    → get_elem? (pages_after n m (os ++ o ∷ []) h) 0 ≡ some (page_of n m (pages_after n m os h) o)
pages_after_last n m [] o h = refl
pages_after_last n m (x ∷ os) o h = pages_after_last n m os o (page_of n m h x ∷ h)

reset-Holds :
    (d : Doubles) (c : DumpCapture d) (world : World) (seed : ℕ) (now : d.Double)
    → 0 < c.page_capacity
    → Holds (dump_capture_reset c world seed now) []
unfolding dump_capture_reset
reset-Holds d c world seed now room = record {
  positive = room;
  inside = room;
  count = ground arith;
  early = λ lt. refl;
  kept = λ k p lt e. absurd (omega arith);
}

-- After a reset and any number of captures, with room for a page, the count of pages is the
-- smaller of the number of captures and the capacity, and the page that is read in place
-- `ordinal`, below the count, is that one of the last pages, the oldest first: bytes,
-- metadata and ants as they were observed, with the fingerprint of the bytes and the number of
-- cells that differ from the page captured before, or zero for the first page and where the ring
-- has one slot.
pub chronological_pages :
    (d : Doubles) (c : DumpCapture d) (world : World) (seed : ℕ) (now : d.Double)
    (os : List (Observation d)) (ordinal : ℕ)
    → 0 < c.page_capacity
    → ordinal < min (length os) c.page_capacity
    → let r = capture_all (dump_capture_reset c world seed now) os in
      (r.page_count ≡ min (length os) c.page_capacity)
      × (p : Page d) × (get_elem?
            (pages_after c.page_capacity c.cells os [])
            (r.page_count - 1 - ordinal)
          ≡ some p)
      × Stores r (chronological_slot r ordinal) p
unfolding dump_capture_reset
chronological_pages d c world seed now os ordinal room lt =
    let fresh = dump_capture_reset c world seed now in
    let r = capture_all fresh os in
    let h = pages_after c.page_capacity c.cells os [] in
    let (holds, same) = capture_all-Holds fresh os [] (reset-Holds d c world seed now room) in
    let size : length h ≡ length os =
      omega (arith, length-pages_after c.page_capacity c.cells os []) in
    let count : r.page_count ≡ min (length os) c.page_capacity =
      holds.count ∙ ground (arith, size, same) in
    let (p, found) = get_elem?-lt h (r.page_count - 1 - ordinal) (ground (arith, count, size)) in
    (
      count,
      p,
      found,
      subst (λ slot. Stores r slot p) (sym (chronological r h ordinal holds (rw count lt)))
          (holds.kept _ p (ground (arith, count)) found),
    )
