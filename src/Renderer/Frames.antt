-- ===== src/Renderer/Frames.antt =====
-- The size of a frame, and what a conversion writes.
use turmite_linux.Prelude.{
  ℕ, zero, suc, ◌+◌, ◌*◌, ◌/◌, ◌%◌, ◌^◌, ◌≤◌, ◌<◌, ◌≡◌, refl, ◌∙◌, ap, Bool, true, false, ◌||◌,
  ◌&&◌, not, Option, none, some, leb, ltb, ◌==◌, if◌then◌else◌, update, u64, uint64_max, arith,
}
use native.Mathlib.Nat.{div-lt_iff_lt-mul}
use turmite_linux.Prelude.Loops.{for_range_inv}
use turmite_linux.Prelude.Bits.{bit_or_fields}
use turmite_linux.Renderer.{
  RenderFrame, render_frame_cells, color_index, convert, argb, render_argb, render_codes, Buffer,
}

-- The guard by division is the guard by the product.
fits_word : (w h m : ℕ) → 0 < h → ltb (m / h) w ≡ ltb m (w * h)
fits_word w h m p =
    let by_product = div-lt_iff_lt-mul {k = h} {x = m} {y = w} p in ground (arith, by_product)

cells_lem :
    (has : Bool) (w h : ℕ)
    → (if not has || w == 0 || h == 0 || ltb (uint64_max / h) w then 0 else u64 (w * h))
      ≡ (if has && leb (w * h) uint64_max then w * h else 0)
cells_lem has zero h = ground arith
cells_lem has (suc w) zero = ground arith
cells_lem has (suc w) (suc h) =
    let same = fits_word (suc w) (suc h) uint64_max (omega arith) in ground (arith, same)

-- The count is the product of the dimensions, if there is a snapshot and the product fits a
-- word, and zero otherwise: the multiplication never wraps around.
pub render_frame_cells_lem :
    (f : RenderFrame)
    → render_frame_cells (some f)
      ≡ (if f.has_colors && leb (f.width * f.height) uint64_max then f.width * f.height else 0)
unfolding render_frame_cells
render_frame_cells_lem f = cells_lem f.has_colors f.width f.height

-- A conversion writes the first `count` pixels and no other.
convert_lem :
    (value colors : ℕ → ℕ) (count : ℕ) (pixels : ℕ → ℕ) (j : ℕ)
    → convert value colors count pixels j
      ≡ (if ltb j count then value (color_index (colors j)) else pixels j)
convert_lem value colors count pixels j =
    for_range_inv
      (λ i (out : ℕ → ℕ). out j ≡ (if ltb j i then value (color_index (colors j)) else pixels j))
      (λ i out. update out i (value (color_index (colors i)))) count
      (λ i out lt h. ground (arith, h)) 0 count pixels (omega arith) (ground arith)

argb_lem : (palette : ℕ → ℕ) (i : ℕ) → argb palette i ≡ 255 * 2 ^ 24 + palette i % 2 ^ 24
argb_lem palette i = bit_or_fields 8 24 255 (palette i % 2 ^ 24) (omega arith) (omega arith)

-- On a frame with a color in it, a palette and a buffer of at least as many pixels, of at most
-- `SIZE_MAX` bytes, `render_argb` succeeds: each pixel of the frame gets the palette's color, an
-- index out of range that of zero, with the top byte set; the rest of the buffer is untouched.
pub render_argb_lem :
    (f : RenderFrame) (palette pixels : ℕ → ℕ) (capacity : ℕ)
    → let count = render_frame_cells (some f) in
      0 < count
      → count ≤ capacity
      → count ≤ uint64_max / 4
      → (out : ℕ → ℕ) × (render_argb (some f) (some palette) (some pixels) capacity
          ≡ (true, some out))
        × ((j : ℕ)
            → out j ≡ (
                if ltb j count
                then 255 * 2 ^ 24 + palette (color_index (f.colors j)) % 2 ^ 24
                else pixels j))
unfolding render_argb
render_argb_lem f palette pixels capacity some_cell enough bytes =
    let count = render_frame_cells (some f) in
    (
      convert (argb palette) f.colors count pixels,
      ground arith,
      λ j.
          convert_lem (argb palette) f.colors count pixels j
          ∙ ap (λ (x : ℕ). if ltb j count then x else pixels j)
              (argb_lem palette (color_index (f.colors j))),
    )

-- On a frame with a color in it, a table of codes and a buffer of at least as many pixels,
-- `render_codes` succeeds: each pixel of the frame gets the code of its color, an index out of
-- range that of zero; the rest of the buffer is untouched.
pub render_codes_lem :
    (f : RenderFrame) (codes pixels : ℕ → ℕ) (capacity : ℕ)
    → let count = render_frame_cells (some f) in
      0 < count
      → count ≤ capacity
      → (out : ℕ → ℕ) × (render_codes (some f) (some codes) (some pixels) capacity
          ≡ (true, some out))
        × ((j : ℕ) → out j ≡ (if ltb j count then codes (color_index (f.colors j)) else pixels j))
unfolding render_codes
render_codes_lem f codes pixels capacity some_cell enough =
    let count = render_frame_cells (some f) in
    (
      convert codes f.colors count pixels,
      ground arith,
      λ j. convert_lem codes f.colors count pixels j,
    )

-- A conversion that reports failure has left the buffer as it was.
pub render_argb_untouched :
    (frame : Option RenderFrame) (palette pixels : Buffer) (capacity : ℕ)
    → (render_argb frame palette pixels capacity).0 ≡ false
    → (render_argb frame palette pixels capacity).1 ≡ pixels
unfolding render_argb
render_argb_untouched none palette pixels capacity e = refl
render_argb_untouched (some f) none pixels capacity e = refl
render_argb_untouched (some f) (some palette) none capacity e = refl
render_argb_untouched (some f) (some palette) (some pixels) capacity e = ground arith
