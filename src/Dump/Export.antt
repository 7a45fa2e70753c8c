-- ===== src/Dump/Export.antt =====
-- src/dump.c: what a dump that returns zero has opened, written and printed.
use turmite_linux.Prelude.{
  ℕ, zero, suc, ◌-◌, ◌<◌, ◌≡◌, refl, sym, ap, ◌∙◌, true, Option, some, List, [], ◌∷◌, ◌++◌, ◌==◌,
  if◌then◌else◌, String, arith, Bool-cases, inl, inr, min, length, length-append, get_elem?, rows,
}
use turmite_linux.Prelude.Int.{pos}
use turmite_linux.Prelude.Doubles.{Doubles}
use turmite_linux.World.{World, world_load}
use turmite_linux.Scheduler.Types.{Scheduler}
use turmite_linux.Dump.Types.{
  FilePath, pages_dir, page_file, manifest_file, universe_file, readme_file, DumpCapture,
}
use turmite_linux.Dump.Write.{
  Files, Written, manifest_text, page_data, image, readme_text, manifest_of, page_in_order,
  final_frame, chosen_dir, write_pages, write_image, write_files, dump_write, failed_code,
  prepare_output,
}
use turmite_linux.Dump.{Observation, dump_capture_reset}
use turmite_linux.Dump.Ring.{
  Page, pages_after, page_of, capture_all, chronological_pages, capture_all_cells, pages_after_last,
}

-- A page file of which `fwrite` took every byte.
abbrev pub whole_page : {d : Doubles} → Files → FilePath → DumpCapture d → ℕ → Written d
whole_page fs dir c ordinal =
    let path = page_file dir ordinal in
    page_data path (page_in_order c ordinal) c.cells (fs.flushed path)

write_pages-whole :
    {d : Doubles} (fs : Files) (dir : FilePath) (c : DumpCapture d) (n k : ℕ)
    → (write_pages fs dir c n k).0 ≡ true
    → (write_pages fs dir c n k).1 ≡ rows n k (whole_page fs dir c)
unfolding write_pages
write_pages-whole fs dir c zero k e = refl
write_pages-whole fs dir c (suc n) k e = ground (arith, e, write_pages-whole fs dir c n (suc k))

-- The files of a dump that went well: the manifest, each page in its order, the image of the last
-- page, and the explanation if its file could be opened; each but the image says whether closing it
-- left all of it in the file.
abbrev pub complete_dump :
    {d : Doubles}
    → Files
    → DumpCapture d
    → Scheduler
    → ℕ
    → ℕ
    → d.Double
    → (ℕ → ℕ)
    → List (Written d)
complete_dump fs c scheduler workers quantum lifetime_minutes palette =
    let dir = chosen_dir c in
    manifest_text (manifest_file dir)
        (manifest_of c scheduler workers quantum lifetime_minutes palette)
        (fs.flushed (manifest_file dir))
      ∷ rows c.page_count 0 (whole_page fs (pages_dir dir) c)
    ++ image (universe_file dir) (final_frame c) palette
      ∷ (if fs.fopen (readme_file dir)
          then readme_text (readme_file dir) c.cells (fs.flushed (readme_file dir)) ∷ []
          else [])

write_files_complete :
    {d : Doubles} (fs : Files) (c : DumpCapture d) (scheduler : Scheduler) (workers quantum : ℕ)
    (lifetime : d.Double) (palette : ℕ → ℕ)
    → (write_files fs c scheduler workers quantum lifetime palette).0 ≡ pos 0
    → (write_files fs c scheduler workers quantum lifetime palette).1
      ≡ complete_dump fs c scheduler workers quantum lifetime palette
unfolding write_files write_image
write_files_complete fs c scheduler workers quantum lifetime palette e =
    ground (arith, e, write_pages-whole fs (pages_dir (chosen_dir c)) c c.page_count 0)

prepare_output-page_count :
    {d : Doubles} (fs : Files) (stamp : String) (c : DumpCapture d) (root : Option String)
    → (prepare_output fs stamp c root).1.page_count ≡ c.page_count
unfolding prepare_output
prepare_output-page_count fs stamp c root = ground arith

module _ {d : Doubles} (fs : Files) (stamp : String) (c : DumpCapture d) (scheduler : Scheduler)
    (workers quantum : ℕ) (lifetime : d.Double) (root : Option String) (palette : ℕ → ℕ) where
  -- If `dump_write` returns zero, there was a page, and it opened the manifest and printed it,
  -- opened a file for every captured page in the order of capture and gave every byte of the page
  -- to `fwrite`, which took them all, wrote the image of the last page, and printed the
  -- explanation if its file could be opened. Whether what was printed or buffered is in the
  -- manifest, the pages and the explanation after they are closed is left to the file system: the
  -- code does not look at it and returns zero all the same.
  pub dump_write_complete :
      let (code, chosen, files) =
        dump_write fs stamp c scheduler workers quantum lifetime root palette in
      code ≡ pos 0
      → (files ≡ complete_dump fs chosen scheduler workers quantum lifetime palette)
        × (0 < chosen.page_count)
  unfolding dump_write
  dump_write_complete e =
      let prepared = (prepare_output fs stamp c root).1 in
      elim (Bool-cases (c.page_count == 0)) [
        | inl none_yet ↦ absurd (ground (arith, e, none_yet))
        | inr pages ↦ elim (Bool-cases (failed_code (prepare_output fs stamp c root).0)) [
          | inl failed ↦ absurd (ground (arith, e, pages, failed))
          | inr fine ↦
              let went : (write_files fs prepared scheduler workers quantum lifetime palette).0
                  ≡ pos 0 =
                rw (pages, fine) at e in
              let some_page : 0 < c.page_count = ground (arith, pages) in
              rw (pages, fine)
                (
                  write_files_complete fs prepared scheduler workers quantum lifetime palette went,
                  omega (arith, prepare_output-page_count fs stamp c root, some_page),
                )
        ]
      ]

-- After a reset and captures that end with an observation, the image of the last page shows that
-- observation's tape, cell by cell, if the ring has room for a page.
pub final_frame_shows :
    (d : Doubles) (c : DumpCapture d) (world : World) (seed : ℕ) (now : d.Double)
    (os : List (Observation d)) (o : Observation d) (i : ℕ)
    → 0 < c.page_capacity
    → i < c.cells
    → (final_frame (capture_all (dump_capture_reset c world seed now) (os ++ o ∷ []))).colors i
      ≡ world_load o.world i
unfolding dump_capture_reset
final_frame_shows d c world seed now os o i room lt =
    let all = os ++ o ∷ [] in
    let fresh = dump_capture_reset c world seed now in
    let r = capture_all fresh all in
    let some_page : 0 < length all = omega (arith, length-append os (o ∷ [])) in
    let last = min (length all) c.page_capacity - 1 in
    let (count, p, found, stored) =
      chronological_pages d c world seed now all last room (ground (arith, room, some_page)) in
    let at : r.page_count - 1 ≡ last = omega (arith, count) in
    let first : r.page_count - 1 - last ≡ 0 = omega (arith, count) in
    let inside : i < r.cells = rw (capture_all_cells fresh all) lt in
    let page = page_of c.page_capacity c.cells (pages_after c.page_capacity c.cells os []) o in
    let latest : some page ≡ some p =
      sym (pages_after_last c.page_capacity c.cells os o [])
      ∙ ap (get_elem? (pages_after c.page_capacity c.cells all [])) (sym first)
      ∙ found in
    let same : p ≡ page = cc latest in
    ap (λ k. page_in_order r k i) at ∙ stored.bytes i inside ∙ ap (λ (q : Page d). q.bytes i) same
