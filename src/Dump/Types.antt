-- ===== src/Dump/Types.antt =====
-- src/dump.h: the ring of captured pages, and what is kept of a page and of an ant.
use turmite_linux.Prelude.{ℕ, Bool, false, Option, none, String}
use turmite_linux.Prelude.Int.{pos}
use turmite_linux.Prelude.Doubles.{Doubles}

-- A path as it is put together: the root given, the directory of a capture by its seed and its
-- time stamp, and the entries below that directory.
pub data FilePath : Type 0 where
  root_dir : String → FilePath
  tape_dir : FilePath → ℕ → String → FilePath
  frames_dir : FilePath → FilePath
  frame_file : FilePath → ℕ → FilePath
  pages_dir : FilePath → FilePath
  page_file : FilePath → ℕ → FilePath
  manifest_file : FilePath → FilePath
  universe_file : FilePath → FilePath
  readme_file : FilePath → FilePath

pub record DumpPageMeta (d : Doubles) : Type 0 where
  pub age : d.Double
  pub collisions : ℕ
  pub dispatches : ℕ
  pub total_instructions : ℕ
  pub world_hash : ℕ
  pub changed_cells : ℕ
  pub rng_state : ℕ
  pub active_population : ℕ
  pub quantum : ℕ
  pub min_service : ℕ

pub record DumpAntMeta (d : Doubles) : Type 0 where
  pub id : ℕ
  pub enabled : Bool
  pub clobbered : Bool
  pub expired : Bool
  pub draining : Bool
  pub x : ℕ
  pub y : ℕ
  pub heading : ℕ
  pub state : ℕ
  pub rule_index : ℕ
  pub tokens : d.Double
  pub token_rate : d.Double
  pub token_capacity : d.Double
  pub weight : ℕ
  pub fair_credit : d.Double
  pub instructions : ℕ
  pub mutations : ℕ

-- `DumpCapture`. `allocated` says that the three pointers are not null; the arrays that they point
-- to are functions of the index. `output_dir` is `none` where its first byte is zero.
pub record DumpCapture (d : Doubles) : Type 0 where
  pub allocated : Bool
  pub world_pages : ℕ → ℕ
  pub page_meta : ℕ → DumpPageMeta d
  pub ant_meta : ℕ → DumpAntMeta d
  pub page_capacity : ℕ
  pub page_count : ℕ
  pub next_page : ℕ
  pub cells : ℕ
  pub ant_slots : ℕ
  pub interval_seconds : d.Double
  pub next_capture_at : d.Double
  pub seed : ℕ
  pub world_width : ℕ
  pub world_height : ℕ
  pub output_dir : Option FilePath
  pub png_frames : ℕ

-- What `calloc` and `memset` leave.
abbrev pub zero_page : (d : Doubles) → DumpPageMeta d
zero_page d = record {
  age = d.of_nat 0;
  collisions = 0;
  dispatches = 0;
  total_instructions = 0;
  world_hash = 0;
  changed_cells = 0;
  rng_state = 0;
  active_population = 0;
  quantum = 0;
  min_service = 0;
}

abbrev pub zero_ant_meta : (d : Doubles) → DumpAntMeta d
zero_ant_meta d = record {
  id = 0;
  enabled = false;
  clobbered = false;
  expired = false;
  draining = false;
  x = 0;
  y = 0;
  heading = 0;
  state = 0;
  rule_index = 0;
  tokens = d.of_nat 0;
  token_rate = d.of_nat 0;
  token_capacity = d.of_nat 0;
  weight = 0;
  fair_credit = d.of_int (pos 0);
  instructions = 0;
  mutations = 0;
}

abbrev pub empty_capture : (d : Doubles) → DumpCapture d
empty_capture d = record {
  allocated = false;
  world_pages = λ _. 0;
  page_meta = λ _. zero_page d;
  ant_meta = λ _. zero_ant_meta d;
  page_capacity = 0;
  page_count = 0;
  next_page = 0;
  cells = 0;
  ant_slots = 0;
  interval_seconds = d.of_nat 0;
  next_capture_at = d.of_nat 0;
  seed = 0;
  world_width = 0;
  world_height = 0;
  output_dir = none;
  png_frames = 0;
}
