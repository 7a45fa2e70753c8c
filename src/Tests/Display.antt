-- ===== src/Tests/Display.antt =====
-- Runs of the renderer.
use turmite_linux.Prelude.{
  ℕ, ◌+◌, ◌*◌, ◌%◌, ◌^◌, ◌≡◌, refl, true, false, some, ltb, if◌then◌else◌, arith,
}
use turmite_linux.Renderer.{
  RenderFrame, render_base_palette, render_frame_cells, color_index, render_argb,
}
use turmite_linux.Renderer.Frames.{render_argb_lem}

-- Two cells: red, and an index out of range.
abbrev two_cells : RenderFrame
two_cells = record { width = 2; height = 1; has_colors = true; colors = λ i. 2 + 7 * i }

two : render_frame_cells (some two_cells) ≡ 2
unfolding render_frame_cells
two = refl

render_argb_lem_example :
    let count = render_frame_cells (some two_cells) in
    (out : ℕ → ℕ) × (render_argb (some two_cells) (some render_base_palette) (some (λ _. 0)) 2
      ≡ (true, some out))
    × ((j : ℕ)
        → out j ≡ (
            if ltb j count
            then 255 * 2 ^ 24 + render_base_palette (color_index (two_cells.colors j)) % 2 ^ 24
            else 0))
render_argb_lem_example =
    render_argb_lem two_cells render_base_palette (λ _. 0) 2 (omega (arith, two))
      (omega (arith, two)) (omega (arith, two))

too_small : (render_argb (some two_cells) (some render_base_palette) (some (λ _. 9)) 1).0 ≡ false
unfolding render_argb render_frame_cells
too_small = refl
