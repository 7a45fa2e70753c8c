-- ===== src/Main/Showing.antt =====
-- src/main.c: the main thread never shows what the controller draws in.
use turmite_linux.Prelude.{
  ℕ, suc, ◌<◌, ◌≡◌, ◌≢◌, refl, Bool, true, false, ◌||◌, none, some, arith, if◌then◌else◌,
  Bool-cases, inl, inr, update_ne, update_both, ◌∙◌, sym, ap,
}
use mathlib.Core.Path.{subst}
use turmite_linux.Main.Frames.{
  display_frame_slots, View, names_slot, free_slot, choose_slot, publish, take_frame, drawing,
  showing, Studio, Step, draws, publishes, shows, shown, Run, start, then_step,
}

slot_taken : View → ℕ → Bool
slot_taken v slot = names_slot v.ready slot || names_slot v.displayed slot

slot_ne :
    (v : View) (slot : ℕ)
    → slot_taken v slot ≡ false
    → (v.ready ≢ some slot) × (v.displayed ≢ some slot)
unfolding slot_taken
slot_ne v slot free = (λ e. ground (arith, free, e), λ e. ground (arith, free, e))

not_all : (v : View) → slot_taken v 0 ≡ true → slot_taken v 1 ≡ true → slot_taken v 2 ≡ true → ⊥
unfolding slot_taken
not_all v zeroth first second = ground (arith, zeroth, first, second)

free_here :
    (fuel slot : ℕ) (v : View) → slot_taken v slot ≡ false → free_slot (suc fuel) slot v ≡ some slot
unfolding free_slot slot_taken
free_here fuel slot v e = ap (λ b. if b then free_slot fuel (suc slot) v else some slot) e

free_next :
    (fuel slot : ℕ) (v : View)
    → slot_taken v slot ≡ true
    → free_slot (suc fuel) slot v ≡ free_slot fuel (suc slot) v
unfolding free_slot slot_taken
free_next fuel slot v e = ap (λ b. if b then free_slot fuel (suc slot) v else some slot) e

-- The loop ends: it chooses one of the three slots, which is neither ready nor displayed.
pub choose_slot_lem :
    (v : View)
    → (s : ℕ) × (choose_slot v ≡ some s)
      × (s < display_frame_slots)
      × (v.ready ≢ some s)
      × (v.displayed ≢ some s)
unfolding choose_slot
choose_slot_lem v = elim (Bool-cases (slot_taken v 0)) [
  | inr free ↦ let ne = slot_ne v 0 free in (0, free_here 2 0 v free, omega arith, ne.0, ne.1)
  | inl zeroth ↦ elim (Bool-cases (slot_taken v 1)) [
    | inr free ↦
        let ne = slot_ne v 1 free in
        (1, free_next 2 0 v zeroth ∙ free_here 1 1 v free, omega arith, ne.0, ne.1)
    | inl first ↦ elim (Bool-cases (slot_taken v 2)) [
      | inr free ↦
          let ne = slot_ne v 2 free in
          (
            2,
            free_next 2 0 v zeroth ∙ free_next 1 1 v first ∙ free_here 0 2 v free,
            omega arith,
            ne.0,
            ne.1,
          )
      | inl second ↦ absurd (not_all v zeroth first second)
    ]
  ]
]

-- What holds in every reachable state.
record Tidy (y : Studio) : Type 0 where
  drawn : (s : ℕ) → y.artist ≡ drawing s → (y.view.ready ≢ some s) × (y.view.displayed ≢ some s)
  shown : (s : ℕ) → y.viewer ≡ showing s → y.view.displayed ≡ some s
  ready : (s : ℕ) → y.view.ready ≡ some s → y.complete s ≡ true
  displayed : (s : ℕ) → y.view.displayed ≡ some s → y.complete s ≡ true

chosen :
    (v : View) (slot : ℕ)
    → choose_slot v ≡ some slot
    → (v.ready ≢ some slot) × (v.displayed ≢ some slot)
chosen v slot e =
    let (s, at, low, ne_ready, ne_displayed) = choose_slot_lem v in
    (λ r. ne_ready (cc (at, e, r)), λ r. ne_displayed (cc (at, e, r)))

taken :
    (v : View) (slot : ℕ)
    → (take_frame v).0 ≡ some slot
    → (v.ready ≡ some slot) × ((take_frame v).1 ≡ record { ready = none; displayed = some slot })
unfolding take_frame
taken v slot e = ground (arith, e)

Step-Tidy : (y : Studio) {z : Studio} → Step y z → Tidy y → Tidy z
unfolding publish
Step-Tidy y (draws slot rest free) t = record {
  drawn = λ s e. let c = chosen y.view slot free in (λ r. c.0 (cc (r, e)), λ r. c.1 (cc (r, e)));
  shown = t.shown;
  ready = λ s e.
      update_ne y.complete slot s false (λ q. (chosen y.view slot free).0 (cc (q, e)))
      ∙ t.ready s e;
  displayed = λ s e.
      update_ne y.complete slot s false (λ q. (chosen y.view slot free).1 (cc (q, e)))
      ∙ t.displayed s e;
}
Step-Tidy y (publishes slot at) t = record {
  drawn = λ s e. absurd (ground (arith, e));
  shown = t.shown;
  ready = λ s e.
      update_both (λ b. b ≡ true) y.complete slot s true (λ q. refl) (λ ne. absurd (ne (cc e)));
  displayed =
      λ s e. update_both (λ b. b ≡ true) y.complete slot s true (λ q. refl) (λ ne. t.displayed s e);
}
Step-Tidy y (shows slot idle at) t =
    let (ready, view) = taken y.view slot at in
    subst (λ (w : View). Tidy (record y { view = w; viewer = showing slot })) (sym view)
      (record {
        drawn = λ s e. (λ r. cc r, λ r. (t.drawn s e).0 (cc (ready, r)));
        shown = λ s e. cc e;
        ready = λ s e. cc e;
        displayed = λ s e. t.ready s (cc (ready, e));
      })
Step-Tidy y (shown slot at) t = record {
  drawn = t.drawn;
  shown = λ s e. absurd (ground (arith, e));
  ready = t.ready;
  displayed = t.displayed;
}

Run-Tidy : {y : Studio} → Run y → Tidy y
Run-Tidy start = record {
  drawn = λ s e. absurd (ground (arith, e));
  shown = λ s e. absurd (ground (arith, e));
  ready = λ s e. absurd (ground (arith, e));
  displayed = λ s e. absurd (ground (arith, e));
}
Run-Tidy (then_step {y = y} r s) = Step-Tidy y s (Run-Tidy r)

-- However the two threads are interleaved, the slot that the main thread shows holds a frame drawn
-- to its end, and it is not the slot that the controller draws in.
pub shown_slot_lem :
    (y : Studio) (slot : ℕ)
    → Run y
    → y.viewer ≡ showing slot
    → (y.complete slot ≡ true) × (y.artist ≢ drawing slot)
shown_slot_lem y slot r e =
    let tidy = Run-Tidy r in
    let at = tidy.shown slot e in (tidy.displayed slot at, λ a. (tidy.drawn slot a).1 at)
