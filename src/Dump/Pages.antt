-- ===== src/Dump/Pages.antt =====
-- src/dump.c: which numbers of pages are accepted, and the ring with one slot.
use turmite_linux.Prelude.{
  ℕ, ◌+◌, ◌-◌, ◌^◌, ◌≤◌, ◌<◌, ◌≡◌, refl, ◌↔◌, Bool, true, false, not, ◌||◌, ◌&&◌, leb, ◌==◌,
  if◌then◌else◌, arith, none, some, ap, ◌∙◌, ◌%◌, update_self,
}
use turmite_linux.Prelude.Doubles.{Doubles}
use turmite_linux.Prelude.Loops.{for_range, all_below, all_below_sound}
use turmite_linux.Dump.Types.{DumpCapture, DumpPageMeta}
use turmite_linux.Dump.{
  Observation, dump_pages_value_valid, capture_one, observe_page, count_changed,
}
use turmite_linux.Dump.Slots.{count_changed_self}

-- The exponent of the largest power of two, up to the tenth, that is at most n + 1.
exponent : ℕ → ℕ
exponent n = for_range 1 10 (λ k s. if leb (2 ^ k) (n + 1) then k else s) 0

table :
    all_below
      (λ n.
        not (dump_pages_value_valid n)
        || (n + 1 == 2 ^ exponent n && leb 1 (exponent n) && leb (exponent n) 10))
      1024
    ≡ true
unfolding all_below dump_pages_value_valid exponent for_range
table = refl

powers : all_below (λ k. dump_pages_value_valid (2 ^ (k + 1) - 1)) 10 ≡ true
unfolding all_below dump_pages_value_valid
powers = refl

small : (n : ℕ) → dump_pages_value_valid n ≡ true → n < 1024
unfolding dump_pages_value_valid
small n h = ground arith

-- A number of pages is accepted exactly when it is 2 ^ (k + 1) - 1 for a k below ten.
pub dump_pages_value_valid_lem :
    (n : ℕ) → (dump_pages_value_valid n ≡ true) ↔ ((k : ℕ) × (k < 10) × (n ≡ 2 ^ (k + 1) - 1))
dump_pages_value_valid_lem n = (forth, λ (k, lt, e). rw e (all_below_sound _ 10 k lt powers))
  where
    forth : dump_pages_value_valid n ≡ true → (k : ℕ) × (k < 10) × (n ≡ 2 ^ (k + 1) - 1)
    forth h =
        let row = all_below_sound _ 1024 n (small n h) table in
        let fits : (n + 1 ≡ 2 ^ exponent n) × (1 ≤ exponent n) × (exponent n ≤ 10) =
          ground (arith, row, h) in
        let back : exponent n - 1 + 1 ≡ exponent n = omega arith in
        (exponent n - 1, omega arith, rw back (omega arith))

no_change : (b : Bool) (a : ℕ → ℕ) (n : ℕ) → count_changed a (if b then none else some a) n ≡ 0
unfolding count_changed
no_change true a n = refl
no_change false a n = count_changed_self a n

-- In a ring with one slot a capture reports no changed cell, whatever it is compared with: the
-- page before it is overwritten first.
pub single_slot_changes :
    (d : Doubles) (c : DumpCapture d) (o : Observation d)
    → c.page_capacity ≡ 1
    → c.next_page ≡ 0
    → ((capture_one c o).page_meta c.next_page).changed_cells ≡ 0
unfolding capture_one observe_page
single_slot_changes d c o one first =
    let same : (c.next_page + c.page_capacity - 1) % c.page_capacity ≡ c.next_page =
      rw (one, first) refl in
    ap (λ (m : DumpPageMeta d). m.changed_cells) (update_self c.page_meta c.next_page _)
    ∙ rw same (no_change (c.page_count == 0) _ c.cells)
