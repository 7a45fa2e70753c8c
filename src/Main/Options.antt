-- ===== src/Main/Options.antt =====
-- src/main.c: the options of the command line and the configuration that they make.
use turmite_linux.Prelude.{
  ℕ, ◌*◌, leb, Bool, true, false, not, ◌||◌, ◌&&◌, Option, none, some, List, [], ◌∷◌, ltb, ◌==◌,
  if◌then◌else◌, u32, uint32_max, uint64_max, bit_xor, String,
}
use turmite_linux.Prelude.Int.{ℤ, pos, negsuc, pos_part, ltb_ℤ}
use turmite_linux.Prelude.Doubles.{Doubles}
use turmite_linux.Dump.{dump_pages_value_valid}
use turmite_linux.Dump.Write.{dump_default_output_root}

abbrev pub default_width : ℕ
default_width = 1024

abbrev pub default_height : ℕ
default_height = 768

abbrev pub default_cell_size : ℕ
default_cell_size = 2

abbrev pub default_workers : ℕ
default_workers = 2

abbrev pub default_ants : ℕ
default_ants = 3

abbrev pub default_quantum : ℕ
default_quantum = 320

abbrev pub default_min_service : ℕ
default_min_service = 512

abbrev pub default_token_rate_divisor : ℕ
default_token_rate_divisor = 1

abbrev pub min_quantum : ℕ
min_quantum = 1

abbrev pub max_quantum : ℕ
max_quantum = 4096

abbrev pub default_dump_pages : ℕ
default_dump_pages = 127

abbrev pub glitter_density_default : ℕ
glitter_density_default = 0

abbrev pub int_max : ℕ
int_max = 2147483647

-- What `strtoull` or `strtol` made of a text: the value, whether it set `errno`, and whether it
-- read the whole text.
pub record Number (A : Type 0) : Type 0 where
  pub value : A
  pub errno : Bool
  pub whole : Bool

-- The parsers give what they write to `out`, if they succeed. `SIZE_MAX` is that of 64 bits.
unfoldable pub parse_uint : Number ℕ → Option ℕ
parse_uint n =
    if n.errno || not n.whole || n.value == 0 || ltb uint64_max n.value then none else some n.value

-- A display's number that is not negative.
abbrev pub display_number : ℤ → Option ℕ
display_number (pos v) = if ltb int_max v then none else some v
display_number (negsuc v) = none

unfoldable pub parse_display : Number ℤ → Option ℕ
parse_display n = if n.errno || not n.whole then none else display_number n.value

unfoldable pub parse_seed : Number ℕ → Option ℕ
parse_seed n =
    if n.errno || not n.whole || n.value == 0 || ltb uint32_max n.value then none else some n.value

unfoldable pub valid_population : ℕ → Bool
valid_population n = leb 2 n && leb n 32

pub data RenderPaletteMode : Type 0 where
  palette_default : RenderPaletteMode
  palette_random : RenderPaletteMode
  palette_randomish : RenderPaletteMode

-- The local variables of `main` that the options set. A text is what the library's function made
-- of it.
pub record Config (d : Doubles) : Type 0 where
  pub ants : ℕ
  pub quantum : ℕ
  pub min_service : ℕ
  pub token_rate_divisor : ℕ
  pub workers : ℕ
  pub cell_size : ℕ
  pub width : ℕ
  pub height : ℕ
  pub display_index : ℕ
  pub all_displays : Bool
  pub fullscreen : Bool
  pub minutes : d.Double
  pub dump_pages : ℕ
  pub dump_interval : d.Double
  pub dump_root : String
  pub hud : Bool
  pub collision_mutation : Bool
  pub palette_mode : RenderPaletteMode
  pub explicit_seed : ℕ
  pub has_seed : Bool
  pub headless : Bool
  pub glitter_density : ℕ

unfoldable pub default_config : (d : Doubles) → Config d
default_config d = record {
  ants = default_ants;
  quantum = default_quantum;
  min_service = default_min_service;
  token_rate_divisor = default_token_rate_divisor;
  workers = default_workers;
  cell_size = default_cell_size;
  width = default_width;
  height = default_height;
  display_index = 0;
  all_displays = false;
  fullscreen = false;
  minutes = d.decimal 11 1;
  dump_pages = default_dump_pages;
  dump_interval = d.decimal 10 1;
  dump_root = dump_default_output_root;
  hud = false;
  collision_mutation = false;
  palette_mode = palette_default;
  explicit_seed = 0;
  has_seed = false;
  headless = false;
  glitter_density = glitter_density_default;
}

-- What `getopt_long` returns, with the argument as the library reads it.
pub data Flag (d : Doubles) : Type 0 where
  seed : Number ℕ → Flag d
  ants : Number ℕ → Flag d
  quantum : Number ℕ → Flag d
  min_service : Number ℕ → Flag d
  token_rate_divisor : Number ℕ → Flag d
  workers : Number ℕ → Flag d
  display : Number ℤ → Flag d
  windowed : Flag d
  fullscreen : Flag d
  fullscreen_all : Flag d
  hud : Flag d
  random : Flag d
  randomish : Flag d
  glitter : Number ℕ → Flag d
  cell_size : Number ℕ → Flag d
  width : Number ℕ → Flag d
  height : Number ℕ → Flag d
  minutes : d.Double → Flag d
  dump_pages : Number ℕ → Flag d
  dump_interval : d.Double → Flag d
  dump_dir : String → Flag d
  collision_mutation : Flag d
  headless : Flag d
  help : Flag d
  unknown : Flag d

-- The program goes on, or ends with a code.
pub data Parsed (d : Doubles) : Type 0 where
  go : Config d → Parsed d
  exit : ℕ → Parsed d

-- An option with a number: it is stored if it parses and passes the test, and otherwise the
-- program ends with code 2.
abbrev pub accept : {d : Doubles} → Option ℕ → (ℕ → Bool) → (ℕ → Config d) → Parsed d
accept none test store = exit 2
accept (some v) test store = if test v then go (store v) else exit 2

unfoldable pub take_option : {d : Doubles} → Config d → Flag d → Parsed d
take_option c (Flag.seed n) =
    accept (parse_seed n) (λ v. true) (λ v. record c { explicit_seed = v; has_seed = true })
take_option c (Flag.ants n) = accept (parse_uint n) valid_population (λ v. record c { ants = v })
take_option c (Flag.quantum n) =
    accept (parse_uint n) (λ v. not (ltb v min_quantum || ltb max_quantum v))
      (λ v. record c { quantum = v })
take_option c (Flag.min_service n) =
    accept (parse_uint n) (λ v. not (ltb v 1 || ltb max_quantum v))
      (λ v. record c { min_service = v })
take_option c (Flag.token_rate_divisor n) =
    accept (parse_uint n) (λ v. not (ltb uint32_max v)) (λ v. record c { token_rate_divisor = v })
take_option c (Flag.workers n) =
    accept (parse_uint n) (λ v. not (ltb 8 v)) (λ v. record c { workers = v })
take_option c (Flag.display n) =
    accept (parse_display n) (λ v. true) (λ v. record c { display_index = v })
take_option c Flag.windowed = go (record c { fullscreen = false; all_displays = false })
take_option c Flag.fullscreen = go (record c { fullscreen = true; all_displays = false })
take_option c Flag.fullscreen_all = go (record c { fullscreen = true; all_displays = true })
take_option c Flag.hud = go (record c { hud = true })
take_option c Flag.random = go (record c { palette_mode = palette_random })
take_option c Flag.randomish = go (record c { palette_mode = palette_randomish })
take_option c (Flag.glitter n) =
    accept (parse_uint n) (λ v. not (ltb 10 v)) (λ v. record c { glitter_density = v })
take_option c (Flag.cell_size n) =
    accept (parse_uint n) (λ v. not (ltb 10 v)) (λ v. record c { cell_size = v })
take_option c (Flag.width n) = accept (parse_uint n) (λ v. true) (λ v. record c { width = v })
take_option c (Flag.height n) = accept (parse_uint n) (λ v. true) (λ v. record c { height = v })
take_option {d} c (Flag.minutes x) =
    if d.at_most x (d.of_nat 0) then exit 2 else go (record c { minutes = x })
take_option c (Flag.dump_pages n) =
    accept (parse_uint n) dump_pages_value_valid (λ v. record c { dump_pages = v })
take_option {d} c (Flag.dump_interval x) =
    if d.at_most x (d.of_nat 0) then exit 2 else go (record c { dump_interval = x })
take_option c (Flag.dump_dir path) = go (record c { dump_root = path })
take_option c Flag.collision_mutation = go (record c { collision_mutation = true })
take_option c Flag.headless = go (record c { headless = true })
take_option c Flag.help = exit 0
take_option c Flag.unknown = exit 2

-- The loop over the options; an end of the program ends it.
unfoldable pub take_options : {d : Doubles} → Config d → List (Flag d) → Parsed d
take_options c [] = go c
take_options c (o ∷ os) = elim (take_option c o) [
  | exit code ↦ exit code
  | go c' ↦ take_options c' os
]

-- Behind the options: `spare` says that an argument is left over, and `sdl_displays` is the count
-- that SDL gives. The result is also the number of universes.
unfoldable pub after_options : {d : Doubles} → Config d → Bool → ℤ → Parsed d × ℕ
after_options c spare sdl_displays =
    let displays = if c.headless then pos 1 else sdl_displays in
    let shown = if c.headless || not c.all_displays then 1 else pos_part displays in
    if spare
    then (exit 2, 0)
    else if not (ltb_ℤ (pos 0) displays)
        || not c.headless && not c.all_displays && not (ltb_ℤ (pos c.display_index) displays)
    then (exit 2, 0)
    else (go c, shown)

unfoldable pub configure : (d : Doubles) → List (Flag d) → Bool → ℤ → Parsed d × ℕ
unfolding default_config
configure d os spare sdl_displays = elim (take_options (default_config d) os) [
  | exit code ↦ (exit code, 0)
  | go c ↦ after_options c spare sdl_displays
]

-- The seed of the display with number `i`.
unfoldable pub display_seed : ℕ → ℕ → ℕ
display_seed base_seed i =
    let seed = bit_xor base_seed (u32 (0x9e3779b9 * u32 i)) in if seed == 0 then 1 else seed

-- The dimensions of the canvas are refused.
abbrev pub bad_dimensions : ℕ → ℕ → Bool
bad_dimensions world_width world_height =
    ltb world_width 160 || ltb world_height 120 || ltb 65535 world_width || ltb 65535 world_height
