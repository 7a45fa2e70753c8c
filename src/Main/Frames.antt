-- ===== src/Main/Frames.antt =====
-- src/main.c: three frame buffers between the controller, which draws, and the main thread, which
-- shows.
use turmite_linux.Prelude.{
  ℕ, zero, suc, ◌≡◌, Bool, true, false, ◌||◌, Option, none, some, ◌==◌, update, if◌then◌else◌,
}

abbrev pub display_frame_slots : ℕ
display_frame_slots = 3

-- `ready_frame` and `displayed_frame`, where -1 is `none`.
pub record View : Type 0 where
  pub ready : Option ℕ
  pub displayed : Option ℕ

abbrev pub names_slot : Option ℕ → ℕ → Bool
names_slot none slot = false
names_slot (some s) slot = slot == s

-- `while (slot == ready || slot == displayed) ++slot`, on fuel.
unfoldable pub free_slot : ℕ → ℕ → View → Option ℕ
free_slot zero slot v = none
free_slot (suc fuel) slot v =
    let rest = free_slot fuel (suc slot) v in
    if names_slot v.ready slot || names_slot v.displayed slot then rest else some slot

-- The slot that `universe_render` draws in.
unfoldable pub choose_slot : View → Option ℕ
unfolding free_slot
choose_slot v = free_slot display_frame_slots 0 v

-- The hand-over of a drawn frame. The result says that the main thread is notified.
unfoldable pub publish : ℕ → View → Bool × View
publish slot v = (elim v.ready [ none ↦ true | some s ↦ false ], record v { ready = some slot })

-- What the main thread takes to show, if there is a frame.
unfoldable pub take_frame : View → Option ℕ × View
take_frame v = elim v.ready [
  | none ↦ (none, v)
  | some s ↦ (some s, record { ready = none; displayed = some s })
]

-- The controller draws in a slot, or does not draw.
pub data Artist : Type 0 where
  resting : Artist
  drawing : ℕ → Artist

-- The main thread shows a slot, or does something else.
pub data Viewer : Type 0 where
  away : Viewer
  showing : ℕ → Viewer

-- `complete` says of each buffer that it holds a frame that was drawn to its end.
pub record Studio : Type 0 where
  pub view : View
  pub artist : Artist
  pub viewer : Viewer
  pub complete : ℕ → Bool

abbrev pub opened : Studio
opened = record {
  view = record { ready = none; displayed = none };
  artist = resting;
  viewer = away;
  complete = λ _. false;
}

abbrev pub begin_drawing : ℕ → Studio → Studio
begin_drawing slot y = record y { artist = drawing slot; complete = update y.complete slot false }

abbrev pub end_drawing : ℕ → Studio → Studio
end_drawing slot y = record y {
  view = (publish slot y.view).1;
  artist = resting;
  complete = update y.complete slot true;
}

abbrev pub begin_showing : ℕ → Studio → Studio
begin_showing slot y = record y { view = (take_frame y.view).1; viewer = showing slot }

abbrev pub end_showing : Studio → Studio
end_showing y = record y { viewer = away }

-- The two threads, at each hold of the lock and at each end of a presentation.
pub data Step (y : Studio) : Studio → Type 0 where
  draws :
      (slot : ℕ)
      → y.artist ≡ resting
      → choose_slot y.view ≡ some slot
      → Step y (begin_drawing slot y)
  publishes : (slot : ℕ) → y.artist ≡ drawing slot → Step y (end_drawing slot y)
  shows :
      (slot : ℕ)
      → y.viewer ≡ away
      → (take_frame y.view).0 ≡ some slot
      → Step y (begin_showing slot y)
  shown : (slot : ℕ) → y.viewer ≡ showing slot → Step y (end_showing y)

pub data Run : Studio → Type 0 where
  start : Run opened
  then_step : {y z : Studio} → Run y → Step y z → Run z
