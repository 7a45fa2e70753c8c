-- ===== src/Main/Draw.antt =====
-- src/main.c: the frame that a controller prepares, and what the main thread takes of it.
use turmite_linux.Prelude.{
  ℕ, Bool, true, false, not, ◌&&◌, Option, none, some, List, [], if◌then◌else◌, ltb, update,
}
use turmite_linux.Prelude.Doubles.{Doubles}
use turmite_linux.World.{world_load}
use turmite_linux.Renderer.{RenderFrame, render_argb}
use turmite_linux.Dump.Write.{Files, Written, failed_code, dump_write_frame}
use turmite_linux.Main.Universe.{Universe}
use turmite_linux.Main.Frames.{View, choose_slot, publish, take_frame}

module _ {d : Doubles} where
  abbrev pub view_of : Universe d → View
  view_of u = record { ready = u.ready_frame; displayed = u.displayed_frame }

  -- What `display_cells` points to after the copy of the tape. The code writes to no null pointer;
  -- the value given there is arbitrary.
  abbrev pub shown_cells : Universe d → ℕ → ℕ
  shown_cells u k = elim u.display_cells [
    | none ↦ 0
    | some cells ↦ if ltb k u.world.cells then world_load u.world k else cells k
  ]

  abbrev pub copy_cells : Universe d → Universe d
  copy_cells u = record u {
    display_cells = elim u.display_cells [ none ↦ none | some cells ↦ some (shown_cells u) ];
  }

  -- The frame's file, while a dump is drained.
  unfoldable pub frame_to_file : Files → Universe d → Universe d × List (Written d)
  frame_to_file fs u =
      let (code, dump, files) = dump_write_frame fs u.dump (shown_cells u) u.palette in
      if not (u.debug_dump && not u.failed)
      then (u, [])
      else if failed_code code
      then (record u { dump = dump; failed = true; quit = true }, files)
      else (record u { dump = dump }, files)

  -- The pixels of a slot, and the hand-over; the result also says that the main thread is notified.
  abbrev pub draw_in : Option ℕ → Universe d → Universe d × Bool
  draw_in none u = (u, false)
  draw_in (some slot) u =
      let frame : RenderFrame = record {
        width = u.world.width;
        height = u.world.height;
        has_colors = true;
        colors = shown_cells u;
      } in
      let (ok, drawn) =
        render_argb (some frame) (some u.palette) (some (u.frame_pixels slot)) u.world.cells in
      let pixels : ℕ → ℕ = elim drawn [ none ↦ u.frame_pixels slot | some p ↦ p ] in
      let (notify, view) = publish slot (view_of u) in
      (
        record u {
          frame_pixels = update u.frame_pixels slot pixels;
          ready_frame = view.ready;
          displayed_frame = view.displayed;
        },
        notify,
      )

  -- The figures of the overlay are left out. The two holds of the lock are one: what happens
  -- between them is in Main/Frames.
  unfoldable pub universe_render : Files → Universe d → Universe d × List (Written d) × Bool
  universe_render fs u =
      let (v, files) = frame_to_file fs (copy_cells u) in
      let (w, notify) = draw_in (choose_slot (view_of v)) v in
      if v.headless then (v, files, false) else (w, files, notify)

  -- What is shown, if there is a frame.
  unfoldable pub universe_present : Universe d → Option (ℕ → ℕ) × Universe d
  universe_present u =
      let (slot, view) = take_frame (view_of u) in
      (
        elim slot [ none ↦ none | some s ↦ some (u.frame_pixels s) ],
        record u { ready_frame = view.ready; displayed_frame = view.displayed },
      )
