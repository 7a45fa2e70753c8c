-- ===== src/Main/Events.antt =====
-- src/main.c: the events of the windows, and the universes that they are for.
use turmite_linux.Prelude.{
  ℕ, zero, suc, ◌≡◌, refl, sym, ap, Bool, true, false, not, ◌&&◌, ◌||◌, Option, none, some, List,
  [], ◌∷◌, ◌==◌, if◌then◌else◌, arith, get_elem?, Bool-cases, inl, inr,
}
use turmite_linux.Prelude.Doubles.{Doubles}
use turmite_linux.Main.Universe.{Universe, Key, escape, universe_enqueue}

-- The events that the code reads, with the number of the window; a key also says whether the
-- keyboard repeats it.
pub data WindowEvent : Type 0 where
  quit_asked : WindowEvent
  key_down : ℕ → Bool → Key → WindowEvent
  window_close : ℕ → WindowEvent
  ignored : WindowEvent

-- A universe and the number of its window; a null window is `none`.
pub record Seat (d : Doubles) : Type 0 where
  pub window : Option ℕ
  pub universe : Universe d

module _ {d : Doubles} where
  abbrev pub shut : Seat d → Seat d
  shut s = let u = s.universe in record s { universe = record u { quit = true } }

  -- A full ring only gives a message.
  abbrev pub press : Key → Seat d → Seat d
  press escape s = shut s
  press key s = record s { universe = (universe_enqueue s.universe key).1 }

  abbrev pub owns : ℕ → Seat d → Bool
  owns id s = elim s.window [ none ↦ false | some w ↦ w == id ]

  abbrev pub each : (Seat d → Seat d) → List (Seat d) → List (Seat d)
  each f [] = []
  each f (s ∷ ss) = f s ∷ each f ss

  -- The loop for a window: the first universe that has it.
  unfoldable pub route_to : ℕ → (Seat d → Seat d) → List (Seat d) → List (Seat d)
  route_to id f [] = []
  route_to id f (s ∷ ss) = let rest = route_to id f ss in if owns id s then f s ∷ ss else s ∷ rest

  unfoldable pub route_event : List (Seat d) → WindowEvent → List (Seat d)
  route_event ss quit_asked = each shut ss
  route_event ss (key_down id repeat key) =
      if repeat || id == 0 then ss else route_to id (press key) ss
  route_event ss (window_close id) = if id == 0 then ss else route_to id shut ss
  route_event ss ignored = ss

  -- What an event does to one universe, whatever the others are.
  abbrev pub answer : WindowEvent → Seat d → Seat d
  answer quit_asked s = shut s
  answer (key_down id repeat key) s =
      if not (repeat || id == 0) && owns id s then press key s else s
  answer (window_close id) s = if not (id == 0) && owns id s then shut s else s
  answer ignored s = s

  -- No two universes have the same window.
  unfoldable pub Apart : List (Seat d) → Type 0
  Apart ss =
      (i j id : ℕ) (s t : Seat d)
      → get_elem? ss i ≡ some s
      → get_elem? ss j ≡ some t
      → owns id s ≡ true
      → owns id t ≡ true
      → i ≡ j

  each_lem :
      (f : Seat d → Seat d) (ss : List (Seat d)) (i : ℕ) (s : Seat d)
      → get_elem? ss i ≡ some s
      → get_elem? (each f ss) i ≡ some (f s)
  each_lem f [] i s e = absurd cc
  each_lem f (t ∷ ss) zero s e = let same : t ≡ s = cc in ap (λ u. some (f u)) same
  each_lem f (t ∷ ss) (suc i) s e = each_lem f ss i s e

  Apart-tail : (s : Seat d) (ss : List (Seat d)) → Apart (s ∷ ss) → Apart ss
  unfolding Apart
  Apart-tail s ss apart i j id t u at at' own own' =
      let same = apart (suc i) (suc j) id t u at at' own own' in omega arith

  -- The seat at an index of the routed list.
  route_to_lem :
      (id : ℕ) (f : Seat d → Seat d) (ss : List (Seat d)) (i : ℕ) (s : Seat d)
      → Apart ss
      → get_elem? ss i ≡ some s
      → get_elem? (route_to id f ss) i ≡ some (if owns id s then f s else s)
  unfolding route_to Apart
  route_to_lem id f [] i s apart at = absurd cc
  route_to_lem id f (t ∷ ss) zero s apart at =
      let same : t ≡ s = cc in
      elim (Bool-cases (owns id t)) [
        | inr other ↦ rw (sym same, other) refl
        | inl own ↦ rw (sym same, own) refl
      ]
  route_to_lem id f (t ∷ ss) (suc i) s apart at = elim (Bool-cases (owns id t)) [
    | inr other ↦ rw other (route_to_lem id f ss i s (Apart-tail t ss apart) at)
    | inl own ↦ elim (Bool-cases (owns id s)) [
      | inr other ↦ rw (own, other) at
      | inl own' ↦ let same = apart 0 (suc i) id t s refl at own own' in absurd (omega arith)
    ]
  ]

  guarded :
      (b : Bool) (id : ℕ) (f : Seat d → Seat d) (ss : List (Seat d)) (i : ℕ) (s : Seat d)
      → Apart ss
      → get_elem? ss i ≡ some s
      → get_elem? (if b then ss else route_to id f ss) i
        ≡ some (if not b && owns id s then f s else s)
  guarded true id f ss i s apart at = at
  guarded false id f ss i s apart at = route_to_lem id f ss i s apart at

  -- If no two universes have the same window, an event does to each universe what it would do to it
  -- alone: a key or a close request reaches the universe of its window and no other, a repeated key
  -- none, and a request to quit all of them.
  pub route_event_lem :
      (ss : List (Seat d)) (event : WindowEvent) (i : ℕ) (s : Seat d)
      → Apart ss
      → get_elem? ss i ≡ some s
      → get_elem? (route_event ss event) i ≡ some (answer event s)
  unfolding route_event
  route_event_lem ss quit_asked i s apart at = each_lem shut ss i s at
  route_event_lem ss (key_down id repeat key) i s apart at =
      guarded (repeat || id == 0) id (press key) ss i s apart at
  route_event_lem ss (window_close id) i s apart at = guarded (id == 0) id shut ss i s apart at
  route_event_lem ss ignored i s apart at = at
