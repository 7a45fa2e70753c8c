-- ===== src/Renderer.antt =====
-- src/renderer.h and src/renderer.c: conversion of a snapshot of the tape for a display.
pub mod Frames
use turmite_linux.Prelude.{
  ℕ, ◌+◌, ◌*◌, ◌/◌, ◌%◌, Bool, true, false, not, ◌||◌, Option, none, some, [], ◌∷◌, ltb, ◌==◌,
  if◌then◌else◌, get_or, update, u64, uint64_max, bit_or, ◌>>◌,
}
use turmite_linux.Prelude.Loops.{for_range}
use turmite_linux.World.{turmite_colors}

-- `has_colors` says that the pointer `colors` is not null.
pub record RenderFrame : Type 0 where
  pub width : ℕ
  pub height : ℕ
  pub has_colors : Bool
  pub colors : ℕ → ℕ

abbrev pub render_base_palette : ℕ → ℕ
render_base_palette i =
    get_or (0x073642 ∷ 0x586E75 ∷ 0xDC322F ∷ 0xB58900 ∷ 0x859900 ∷ 0x288BD2 ∷ []) i 0

-- A null frame is `none`. `SIZE_MAX` is that of 64 bits.
unfoldable pub render_frame_cells : Option RenderFrame → ℕ
render_frame_cells none = 0
render_frame_cells (some frame) =
    if not frame.has_colors
      || frame.width == 0
      || frame.height == 0
      || ltb (uint64_max / frame.height) frame.width
    then 0
    else u64 (frame.width * frame.height)

abbrev pub color_index : ℕ → ℕ
color_index color = if ltb color turmite_colors then color else 0

-- A buffer that a pointer points to, if it is not null.
abbrev pub Buffer : Type 0
Buffer = Option (ℕ → ℕ)

-- The loop of both conversions: the value of each cell's color, for `count` cells.
abbrev pub convert : (ℕ → ℕ) → (ℕ → ℕ) → ℕ → (ℕ → ℕ) → ℕ → ℕ
convert value colors count pixels =
    for_range 0 count (λ i out. update out i (value (color_index (colors i)))) pixels

-- `palette[i] & 0xffffff` is the remainder by 2 ^ 24.
abbrev pub argb : (ℕ → ℕ) → ℕ → ℕ
argb palette i = bit_or 0xff000000 (palette i % 0x1000000)

unfoldable pub render_argb : Option RenderFrame → Buffer → Buffer → ℕ → Bool × Buffer
render_argb none palette pixels capacity = (false, pixels)
render_argb (some frame) none pixels capacity = (false, pixels)
render_argb (some frame) (some palette) none capacity = (false, none)
render_argb (some frame) (some palette) (some pixels) capacity =
    let count = render_frame_cells (some frame) in
    if count == 0 || ltb capacity count || ltb (uint64_max / 4) count
    then (false, some pixels)
    else (true, some (convert (argb palette) frame.colors count pixels))

unfoldable pub render_codes : Option RenderFrame → Buffer → Buffer → ℕ → Bool × Buffer
render_codes none codes pixels capacity = (false, pixels)
render_codes (some frame) none pixels capacity = (false, pixels)
render_codes (some frame) (some codes) none capacity = (false, none)
render_codes (some frame) (some codes) (some pixels) capacity =
    let count = render_frame_cells (some frame) in
    if count == 0 || ltb capacity count
    then (false, some pixels)
    else (true, some (convert codes frame.colors count pixels))
