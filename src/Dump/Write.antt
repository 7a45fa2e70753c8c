-- ===== src/Dump/Write.antt =====
-- src/dump.c: the directories and files that a dump consists of.
use turmite_linux.Prelude.{
  ℕ, zero, suc, ◌+◌, ◌-◌, ◌*◌, ◌%◌, Bool, true, false, not, ◌||◌, Option, none, some, List, [], ◌∷◌,
  ◌++◌, ◌==◌, if◌then◌else◌, u64, rows, String, string_count,
}
use turmite_linux.Prelude.Int.{ℤ, pos, negsuc}
use turmite_linux.Prelude.Doubles.{Doubles}
use turmite_linux.World.{turmite_colors}
use turmite_linux.Rules.Types.{TurmiteRule}
use turmite_linux.Rules.{RuleRef, null, catalogue, runtime, rules_get, rule_at}
use turmite_linux.Rules.Catalogue.{rules}
use turmite_linux.Scheduler.Types.{Scheduler}
use turmite_linux.Scheduler.Observe.{scheduler_get_min_service, scheduler_get_token_rate_divisor}
use turmite_linux.Renderer.{RenderFrame}
use turmite_linux.Dump.Types.{
  FilePath, root_dir, tape_dir, frames_dir, frame_file, pages_dir, page_file, manifest_file,
  universe_file, readme_file, DumpPageMeta, DumpAntMeta, DumpCapture,
}
use turmite_linux.Dump.{chronological_slot, page_bytes}

-- What `mkdir` does at a path.
pub data Mkdir : Type 0 where
  made : Mkdir
  exists : Mkdir
  failed : Mkdir

-- The file system during a dump, path by path: what `mkdir` does, whether the text of the path fits
-- its buffer, whether `fopen` succeeds, how many bytes `fwrite` takes, whether an image can be
-- written, and whether all that was printed to the file, or buffered for it, is in it once it is
-- closed. The code looks at neither what `fprintf` nor what `fclose` returns.
pub record Files : Type 0 where
  pub mkdir : FilePath → Mkdir
  pub fits : FilePath → Bool
  pub fopen : FilePath → Bool
  pub fwrite : FilePath → ℕ
  pub png : FilePath → Bool
  pub flushed : FilePath → Bool

-- The text that the manifest has for an ant: the page, the metadata, the rule's id and its name.
pub record AntRow (d : Doubles) : Type 0 where
  pub page : ℕ
  pub ant : DumpAntMeta d
  pub rule_id : String
  pub rule_name : String

pub record Manifest (d : Doubles) : Type 0 where
  pub seed : ℕ
  pub world_width : ℕ
  pub world_height : ℕ
  pub world_cells : ℕ
  pub colors : ℕ
  pub palette : ℕ → ℕ
  pub workers : ℕ
  pub quantum : ℕ
  pub min_service : ℕ
  pub token_rate_divisor : ℕ
  pub lifetime_minutes : d.Double
  pub capture_interval_seconds : d.Double
  pub requested_pages : ℕ
  pub captured_pages : ℕ
  pub page_table : List (ℕ × DumpPageMeta d)
  pub ant_snapshots : List (AntRow d)

-- A file that was opened, with what went into it; a page has the bytes that were taken. The last
-- argument says whether all of that is in the file after it is closed.
pub data Written (d : Doubles) : Type 0 where
  manifest_text : FilePath → Manifest d → Bool → Written d
  page_data : FilePath → (ℕ → ℕ) → ℕ → Bool → Written d
  image : FilePath → RenderFrame → (ℕ → ℕ) → Written d
  readme_text : FilePath → ℕ → Bool → Written d

abbrev pub dump_default_output_root : String
dump_default_output_root = "turmite-dumps"

unfoldable pub make_dir_if_missing : Files → FilePath → ℤ
make_dir_if_missing fs path = elim (fs.mkdir path) [
  | made ↦ pos 0
  | exists ↦ pos 0
  | failed ↦ negsuc 0
]

-- A return code that is not zero.
abbrev pub failed_code : ℤ → Bool
failed_code (pos n) = not (n == 0)
failed_code (negsuc n) = true

-- The root that a caller names, unless it is null or empty.
unfoldable pub root_name : Option String → String
root_name none = dump_default_output_root
root_name (some r) = if string_count r == 0 then dump_default_output_root else r

-- `output_root` is `none` where it is null; `stamp` is the time of the call, formatted.
unfoldable pub prepare_output :
    {d : Doubles} → Files → String → DumpCapture d → Option String → ℤ × DumpCapture d
prepare_output fs stamp capture output_root =
    let root = root_dir (root_name output_root) in
    let dir = tape_dir root capture.seed stamp in
    elim capture.output_dir [
      | some chosen ↦ (pos 0, capture)
      | none ↦
          if failed_code (make_dir_if_missing fs root)
            || not (fs.fits dir)
            || failed_code (make_dir_if_missing fs dir)
          then (negsuc 0, capture)
          else (pos 0, record capture { output_dir = some dir })
    ]

-- The directory chosen; an empty buffer is never read.
abbrev pub chosen_dir : {d : Doubles} → DumpCapture d → FilePath
chosen_dir capture = elim capture.output_dir [ none ↦ root_dir "" | some dir ↦ dir ]

unfoldable pub dump_begin_frames :
    {d : Doubles} → Files → String → DumpCapture d → Option String → ℤ × DumpCapture d
dump_begin_frames fs stamp capture output_root =
    let (code, prepared) = prepare_output fs stamp capture output_root in
    if failed_code code
    then (negsuc 0, prepared)
    else (make_dir_if_missing fs (frames_dir (chosen_dir prepared)), prepared)

unfoldable pub dump_write_frame :
    {d : Doubles} → Files → DumpCapture d → (ℕ → ℕ) → (ℕ → ℕ) → ℤ × DumpCapture d × List (Written d)
dump_write_frame fs capture colors palette =
    let path = frame_file (chosen_dir capture) capture.png_frames in
    let frame : RenderFrame = record {
      width = capture.world_width;
      height = capture.world_height;
      has_colors = true;
      colors = colors;
    } in
    if fs.png path
    then (
      pos 0,
      record capture { png_frames = u64 (capture.png_frames + 1) },
      image path frame palette ∷ [],
    )
    else (negsuc 0, capture, [])

-- A list of rows for each ordinal from `k` on.
abbrev pub blocks {ℓ} : {A : Type ℓ} → ℕ → ℕ → (ℕ → List A) → List A
blocks zero k block = []
blocks (suc n) k block = block k ++ blocks n (suc k) block

abbrev pub named : Option TurmiteRule → String × String
named none = ("runtime", "Runtime rule (not retained)")
named (some r) = (r.id, r.name)

abbrev pub rule_text : RuleRef → String × String
rule_text null = named none
rule_text (catalogue i) = named (rule_at rules i)
rule_text (runtime i) = named none

abbrev pub page_row : {d : Doubles} → DumpCapture d → ℕ → ℕ × DumpPageMeta d
page_row capture ordinal = (ordinal, capture.page_meta (chronological_slot capture ordinal))

abbrev pub ant_row : {d : Doubles} → DumpCapture d → ℕ → ℕ → AntRow d
ant_row capture ordinal i =
    let slot = chronological_slot capture ordinal in
    let a = capture.ant_meta (slot * capture.ant_slots + i) in
    let (id, name) = rule_text (rules_get a.rule_index) in
    record { page = ordinal; ant = a; rule_id = id; rule_name = name }

-- `palette[i] & 0xffffff` is the remainder by 2 ^ 24.
unfoldable pub manifest_of :
    {d : Doubles} → DumpCapture d → Scheduler → ℕ → ℕ → d.Double → (ℕ → ℕ) → Manifest d
manifest_of capture scheduler workers quantum lifetime_minutes palette = record {
  seed = capture.seed;
  world_width = capture.world_width;
  world_height = capture.world_height;
  world_cells = capture.cells;
  colors = turmite_colors;
  palette = λ i. palette i % 0x1000000;
  workers = workers;
  quantum = quantum;
  min_service = scheduler_get_min_service scheduler;
  token_rate_divisor = scheduler_get_token_rate_divisor scheduler;
  lifetime_minutes = lifetime_minutes;
  capture_interval_seconds = capture.interval_seconds;
  requested_pages = capture.page_capacity;
  captured_pages = capture.page_count;
  page_table = rows capture.page_count 0 (page_row capture);
  ant_snapshots =
      blocks capture.page_count 0 (λ ordinal. rows capture.ant_slots 0 (ant_row capture ordinal));
}

-- The bytes of the page in place `ordinal`.
abbrev pub page_in_order : {d : Doubles} → DumpCapture d → ℕ → ℕ → ℕ
page_in_order capture ordinal =
    page_bytes capture capture.world_pages (chronological_slot capture ordinal)

-- The loop over the page files: `n` pages from `ordinal` on. The result says that no page failed.
unfoldable pub write_pages :
    {d : Doubles} → Files → FilePath → DumpCapture d → ℕ → ℕ → Bool × List (Written d)
write_pages fs dir capture zero ordinal = (true, [])
write_pages fs dir capture (suc n) ordinal =
    let path = page_file dir ordinal in
    let taken = fs.fwrite path in
    let this = page_data path (page_in_order capture ordinal) taken (fs.flushed path) in
    let (done, files) = write_pages fs dir capture n (suc ordinal) in
    if not (fs.fopen path)
    then (false, [])
    else if taken == capture.cells
    then (done, this ∷ files)
    else (false, this ∷ [])

abbrev pub final_frame : {d : Doubles} → DumpCapture d → RenderFrame
final_frame capture = record {
  width = capture.world_width;
  height = capture.world_height;
  has_colors = true;
  colors = page_in_order capture (capture.page_count - 1);
}

-- `dump_write` behind the pages: the image of the last one and the explanation.
unfoldable pub write_image :
    {d : Doubles} → Files → FilePath → DumpCapture d → (ℕ → ℕ) → ℤ × List (Written d)
write_image fs dir capture palette =
    let path = universe_file dir in
    let picture = image path (final_frame capture) palette in
    let readme = readme_file dir in
    if fs.png path
    then (
      pos 0,
      picture
          ∷ (if fs.fopen readme
              then readme_text readme capture.cells (fs.flushed readme) ∷ []
              else []),
    )
    else (negsuc 0, [])

-- `dump_write` behind the choice of the directory.
unfoldable pub write_files :
    {d : Doubles}
    → Files
    → DumpCapture d
    → Scheduler
    → ℕ
    → ℕ
    → d.Double
    → (ℕ → ℕ)
    → ℤ × List (Written d)
write_files fs capture scheduler workers quantum lifetime_minutes palette =
    let dir = chosen_dir capture in
    let path = manifest_file dir in
    let text = manifest_of capture scheduler workers quantum lifetime_minutes palette in
    let manifest = manifest_text path text (fs.flushed path) in
    let (done, pages) = write_pages fs (pages_dir dir) capture capture.page_count 0 in
    let (code, rest) = write_image fs dir capture palette in
    if failed_code (make_dir_if_missing fs (pages_dir dir)) || not (fs.fopen path)
    then (negsuc 0, [])
    else if done
    then (code, manifest ∷ pages ++ rest)
    else (negsuc 0, manifest ∷ pages)

unfoldable pub dump_write :
    {d : Doubles}
    → Files
    → String
    → DumpCapture d
    → Scheduler
    → ℕ
    → ℕ
    → d.Double
    → Option String
    → (ℕ → ℕ)
    → ℤ × DumpCapture d × List (Written d)
unfolding write_files
dump_write fs stamp capture scheduler workers quantum lifetime_minutes output_root palette =
    let (code, prepared) = prepare_output fs stamp capture output_root in
    let (result, files) =
      write_files fs prepared scheduler workers quantum lifetime_minutes palette in
    if capture.page_count == 0
    then (negsuc 0, capture, [])
    else if failed_code code
    then (negsuc 0, prepared, [])
    else (result, prepared, files)
