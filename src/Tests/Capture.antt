-- ===== src/Tests/Capture.antt =====
-- Captures and dumps.
use turmite_linux.Prelude.{
  ℕ, ◌+◌, ◌-◌, ◌^◌, ◌<◌, ◌≡◌, refl, true, none, some, List, [], ◌∷◌, ◌++◌, arith, get_elem?, update,
  ◌↔◌, ◌==◌, if◌then◌else◌,
}
use turmite_linux.Prelude.Int.{pos}
use turmite_linux.Prelude.Doubles.{coarse}
use turmite_linux.Prelude.Loops.{for_range}
use turmite_linux.World.{world_load}
use turmite_linux.Renderer.{render_base_palette}
use turmite_linux.Dump.Types.{DumpCapture, empty_capture}
use turmite_linux.Dump.{
  dump_capture_now, Observation, dump_pages_value_valid, dump_capture_init, dump_capture_reset,
  capture_one, chronological_slot, fnv1a64,
}
use turmite_linux.Dump.Ring.{Page, Stores, pages_after, capture_all, chronological_pages}
use turmite_linux.Dump.Pages.{dump_pages_value_valid_lem, single_slot_changes}
use turmite_linux.Dump.Write.{
  Files, made, dump_write, final_frame, prepare_output, make_dir_if_missing, write_pages,
  write_image,
}
use turmite_linux.Dump.Export.{complete_dump, dump_write_complete, final_frame_shows}
use turmite_linux.Tests.Samples.{small_world, one_ant, one_scheduler}

-- A ring with room for three pages of the small world.
abbrev pub three_pages : DumpCapture coarse
three_pages = record (empty_capture coarse) {
  allocated = true;
  page_capacity = 3;
  cells = 6;
  ant_slots = 32;
  interval_seconds = 65536;
  next_capture_at = 7;
  seed = 9;
  world_width = 3;
  world_height = 2;
}

initialised :
    dump_capture_init coarse (empty_capture coarse) small_world 9 3 65536 7 true
    ≡ (pos 0, three_pages)
unfolding dump_capture_init dump_pages_value_valid
initialised = refl

-- An observation with the given color in cell 4.
abbrev look_at : ℕ → Observation coarse
look_at color = record {
  world = record small_world { tape = update small_world.tape 4 color };
  colony = one_ant;
  scheduler = one_scheduler;
  rng = record { state = 1 };
  age = 0;
  now = 0;
}

abbrev four_looks : List (Observation coarse)
four_looks = look_at 0 ∷ look_at 1 ∷ look_at 2 ∷ look_at 3 ∷ []

fingerprint : fnv1a64 (λ i. if i == 0 then 97 else 0) 1 ≡ 0xaf63dc4c8601ec8c
unfolding fnv1a64 for_range
fingerprint = refl

-- Of four captures the second is the oldest of the three that are left.
chronological_pages_example :
    let r = capture_all (dump_capture_reset three_pages small_world 9 0) four_looks in
    (r.page_count ≡ 3)
    × (p : Page coarse) × (get_elem? (pages_after 3 6 four_looks []) (r.page_count - 1 - 0)
        ≡ some p)
    × Stores r (chronological_slot r 0) p
chronological_pages_example =
    chronological_pages coarse three_pages small_world 9 0 four_looks 0 (omega arith) (omega arith)

final_frame_shows_example :
    (final_frame (
        capture_all
          (dump_capture_reset three_pages small_world 9 0)
          ((look_at 0 ∷ look_at 1 ∷ []) ++ look_at 5 ∷ []))).colors
      4
    ≡ world_load (look_at 5).world 4
final_frame_shows_example =
    final_frame_shows coarse three_pages small_world 9 0 (look_at 0 ∷ look_at 1 ∷ []) (look_at 5) 4
      (omega arith) (omega arith)

dump_pages_value_valid_lem_example :
    (dump_pages_value_valid 127 ≡ true) ↔ ((k : ℕ) × (k < 10) × (127 ≡ 2 ^ (k + 1) - 1))
dump_pages_value_valid_lem_example = dump_pages_value_valid_lem 127

abbrev one_page : DumpCapture coarse
one_page = record three_pages { page_capacity = 1; page_count = 1 }

single_slot_changes_example : ((capture_one one_page (look_at 3)).page_meta 0).changed_cells ≡ 0
single_slot_changes_example = single_slot_changes coarse one_page (look_at 3) refl refl

-- A file system on which all goes well.
abbrev pub good_files : Files
good_files = record {
  mkdir = λ _. made;
  fits = λ _. true;
  fopen = λ _. true;
  fwrite = λ _. 6;
  png = λ _. true;
  flushed = λ _. true;
}

abbrev looked_twice : DumpCapture coarse
looked_twice =
    capture_all (dump_capture_reset three_pages small_world 9 0) (look_at 0 ∷ look_at 1 ∷ [])

dump_works :
    (dump_write good_files "noon" looked_twice one_scheduler 2 4 0 none render_base_palette).0
    ≡ pos 0
unfolding dump_write dump_capture_now dump_capture_reset prepare_output make_dir_if_missing
    write_pages write_image
dump_works = refl

dump_write_complete_example :
    let (code, chosen, files) =
      dump_write good_files "noon" looked_twice one_scheduler 2 4 0 none render_base_palette in
    (files ≡ complete_dump good_files chosen one_scheduler 2 4 0 render_base_palette)
    × (0 < chosen.page_count)
dump_write_complete_example =
    dump_write_complete good_files "noon" looked_twice one_scheduler 2 4 0 none render_base_palette
      dump_works
