-- ===== src/Ant/Torus.antt =====
-- Headings and the torus: turns act on the four headings, and a step stays inside the world.
use turmite_linux.Prelude.{ℕ, zero, suc, ◌-◌, ◌≤◌, ◌<◌, ◌≡◌, refl, ◌==◌, if◌then◌else◌, arith}
use turmite_linux.Prelude.Int.{◌+ℤ◌, ◌-ℤ◌}
use turmite_linux.Rules.Types.{
  turn_f, turn_r, turn_l, turn_b, turn_h, turn_n, turn_e, turn_s, turn_w,
}
use turmite_linux.Ant.Move.{apply_turn}
use turmite_linux.Ant.Execute.{wrap_coordinate, step_x, step_y}

pub apply_turn-lt : (h t : ℕ) → h < 4 → apply_turn h t < 4
unfolding apply_turn
apply_turn-lt (suc (suc (suc (suc h)))) t lt = absurd (omega arith)
apply_turn-lt h (suc (suc (suc (suc (suc (suc (suc (suc (suc t))))))))) lt = ground arith
apply_turn-lt zero zero lt = omega arith
apply_turn-lt h t lt = omega arith

-- On each of the four headings: right and left undo one another, two rights are a turn back, two
-- turns back are none, ahead and hold keep the heading, and the absolute turns forget it.
pub apply_turn_laws :
    (h : ℕ)
    → h < 4
    → (apply_turn (apply_turn h turn_r) turn_l ≡ h)
      × (apply_turn (apply_turn h turn_l) turn_r ≡ h)
      × (apply_turn (apply_turn h turn_r) turn_r ≡ apply_turn h turn_b)
      × (apply_turn (apply_turn h turn_b) turn_b ≡ h)
      × (apply_turn h turn_f ≡ h)
      × (apply_turn h turn_h ≡ h)
      × (apply_turn h turn_n ≡ 0)
      × (apply_turn h turn_e ≡ 1)
      × (apply_turn h turn_s ≡ 2)
      × (apply_turn h turn_w ≡ 3)
unfolding apply_turn
apply_turn_laws zero lt = (refl, refl, refl, refl, refl, refl, refl, refl, refl, refl)
apply_turn_laws (suc zero) lt = (refl, refl, refl, refl, refl, refl, refl, refl, refl, refl)
apply_turn_laws (suc (suc zero)) lt = (refl, refl, refl, refl, refl, refl, refl, refl, refl, refl)
apply_turn_laws (suc (suc (suc zero))) lt =
    (refl, refl, refl, refl, refl, refl, refl, refl, refl, refl)
apply_turn_laws (suc (suc (suc (suc h)))) lt = absurd (omega arith)

-- One step along an axis, by heading.
abbrev pub forward : ℕ → ℕ → ℕ
forward x size = if suc x == size then 0 else suc x

abbrev pub backward : ℕ → ℕ → ℕ
backward x size = if x == 0 then size - 1 else x - 1

step_x_lem :
    (x w : ℕ)
    → x < w
    → w ≤ 65535
    → (step_x x 0 w ≡ x)
      × (step_x x 1 w ≡ forward x w)
      × (step_x x 2 w ≡ x)
      × (step_x x 3 w ≡ backward x w)
unfolding step_x wrap_coordinate ◌+ℤ◌ ◌-ℤ◌
step_x_lem x w lt le = (ground arith, ground arith, ground arith, ground arith)

step_y_lem :
    (y h : ℕ)
    → y < h
    → h ≤ 65535
    → (step_y y 0 h ≡ backward y h)
      × (step_y y 1 h ≡ y)
      × (step_y y 2 h ≡ forward y h)
      × (step_y y 3 h ≡ y)
unfolding step_y wrap_coordinate ◌+ℤ◌ ◌-ℤ◌
step_y_lem y h lt le = (ground arith, ground arith, ground arith, ground arith)

pub step_x-lt : (x d w : ℕ) → x < w → w ≤ 65535 → d < 4 → step_x x d w < w
step_x-lt x zero w lt le hd = ground (arith, step_x_lem x w lt le)
step_x-lt x (suc zero) w lt le hd = ground (arith, step_x_lem x w lt le)
step_x-lt x (suc (suc zero)) w lt le hd = ground (arith, step_x_lem x w lt le)
step_x-lt x (suc (suc (suc zero))) w lt le hd = ground (arith, step_x_lem x w lt le)
step_x-lt x (suc (suc (suc (suc d)))) w lt le hd = absurd (omega arith)

pub step_y-lt : (y d h : ℕ) → y < h → h ≤ 65535 → d < 4 → step_y y d h < h
step_y-lt y zero h lt le hd = ground (arith, step_y_lem y h lt le)
step_y-lt y (suc zero) h lt le hd = ground (arith, step_y_lem y h lt le)
step_y-lt y (suc (suc zero)) h lt le hd = ground (arith, step_y_lem y h lt le)
step_y-lt y (suc (suc (suc zero))) h lt le hd = ground (arith, step_y_lem y h lt le)
step_y-lt y (suc (suc (suc (suc d)))) h lt le hd = absurd (omega arith)

step_x_back :
    (x d w : ℕ) → x < w → w ≤ 65535 → d < 4 → step_x (step_x x d w) (apply_turn d turn_b) w ≡ x
unfolding apply_turn
step_x_back x zero w hx hw hd = ground (
  arith,
  step_x_lem x w hx hw,
  step_x_lem (step_x x 0 w) w (step_x-lt x 0 w hx hw (omega arith)) hw,
)
step_x_back x (suc zero) w hx hw hd = ground (
  arith,
  step_x_lem x w hx hw,
  step_x_lem (step_x x 1 w) w (step_x-lt x 1 w hx hw (omega arith)) hw,
)
step_x_back x (suc (suc zero)) w hx hw hd = ground (
  arith,
  step_x_lem x w hx hw,
  step_x_lem (step_x x 2 w) w (step_x-lt x 2 w hx hw (omega arith)) hw,
)
step_x_back x (suc (suc (suc zero))) w hx hw hd = ground (
  arith,
  step_x_lem x w hx hw,
  step_x_lem (step_x x 3 w) w (step_x-lt x 3 w hx hw (omega arith)) hw,
)
step_x_back x (suc (suc (suc (suc d)))) w hx hw hd = absurd (omega arith)

step_y_back :
    (x d w : ℕ) → x < w → w ≤ 65535 → d < 4 → step_y (step_y x d w) (apply_turn d turn_b) w ≡ x
unfolding apply_turn
step_y_back x zero w hx hw hd = ground (
  arith,
  step_y_lem x w hx hw,
  step_y_lem (step_y x 0 w) w (step_y-lt x 0 w hx hw (omega arith)) hw,
)
step_y_back x (suc zero) w hx hw hd = ground (
  arith,
  step_y_lem x w hx hw,
  step_y_lem (step_y x 1 w) w (step_y-lt x 1 w hx hw (omega arith)) hw,
)
step_y_back x (suc (suc zero)) w hx hw hd = ground (
  arith,
  step_y_lem x w hx hw,
  step_y_lem (step_y x 2 w) w (step_y-lt x 2 w hx hw (omega arith)) hw,
)
step_y_back x (suc (suc (suc zero))) w hx hw hd = ground (
  arith,
  step_y_lem x w hx hw,
  step_y_lem (step_y x 3 w) w (step_y-lt x 3 w hx hw (omega arith)) hw,
)
step_y_back x (suc (suc (suc (suc d)))) w hx hw hd = absurd (omega arith)

-- The world is a torus: in a world whose sizes fit 16 bits, from any cell and for any of the
-- four headings, a step stays inside it, and the step after turning back returns to the cell.
pub step_back :
    (x y d w h : ℕ)
    → x < w
    → y < h
    → w ≤ 65535
    → h ≤ 65535
    → d < 4
    → let x' = step_x x d w in
      let y' = step_y y d h in
      let back = apply_turn d turn_b in
      (x' < w) × (y' < h) × (step_x x' back w ≡ x) × (step_y y' back h ≡ y)
step_back x y d w h hx hy hw hh hd = (
  step_x-lt x d w hx hw hd,
  step_y-lt y d h hy hh hd,
  step_x_back x d w hx hw hd,
  step_y_back y d h hy hh hd,
)
