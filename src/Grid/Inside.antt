-- ===== src/Grid/Inside.antt =====
-- Where the cells lie in the image.
use native.Mathlib.Nat.{div-mul-le_self, mod-eq-sub-div-mul}
use toolchain_cpp.Common.{
  ◌⊎◌, true, refl, ℕ, zero, suc, ◌+◌, ◌-◌, ◌*◌, ◌/◌, ◌≤◌, ◌<◌, ◌≡◌, arith, All, ok, ◌>>=◌, ◌||◌,
  ◌%◌, bind-Passes, af_assert-eq-ok, sym, subst,
}
use toolchain_cpp.Common.Int.{ℤ, pos, negsuc, ◌+ℤ◌, ◌≤ℤ◌, +ℤ_parts, leb_ℤ}
use toolchain_cpp.Grid.{
  ImageCell, ImageGrid, cell, fits, generate_cells, generated, positive, divided, divide,
}
use toolchain_cpp.Grid.Index.{All-generate_cells, generate_cells-All}

pub record IsInside (g : ImageGrid) (c : ImageCell) : Type 0 where
  pub left : pos 0 ≤ℤ c.x
  pub right : c.x +ℤ pos c.size_w ≤ℤ pos g.image_w
  pub up : pos 0 ≤ℤ c.y
  pub down : c.y +ℤ pos c.size_h ≤ℤ pos g.image_h

pub steps_le : (k n w : ℕ) → k < n → k * w + w ≤ w * n
steps_le k n w h = grind arith

-- In one dimension, cell `k` of `n` ends inside.
span_le : (a n k : ℕ) → k < n → (a - a / n * n) / 2 + k * (a / n) + a / n ≤ a
span_le a n k h = omega (arith, steps_le k n (a / n) h, div-mul-le_self a n)

-- Of the cells that `divide` could number, those below `cells_x` and `cells_y` lie inside.
divided-IsInside :
    (image_w image_h cells_x cells_y k j : ℕ)
    → k < cells_x
    → j < cells_y
    → IsInside
        (divided image_w image_h cells_x cells_y)
        (cell (divided image_w image_h cells_x cells_y) k j)
unfolding divided cell
divided-IsInside image_w image_h cells_x cells_y k j hk hj = record {
  left = omega (arith, +ℤ_parts);
  right = omega (arith, +ℤ_parts, span_le image_w cells_x k hk);
  up = omega (arith, +ℤ_parts);
  down = omega (arith, +ℤ_parts, span_le image_h cells_y j hj);
}

IsInside-generate_cells :
    (g : ImageGrid) (c : ImageCell) → IsInside g c → IsInside (generate_cells g) c
unfolding generate_cells
IsInside-generate_cells g c h = record { left = h.left; right = h.right; up = h.up; down = h.down }

positive-eq-ok : (z : ℤ) (n : ℕ) → positive z ≡ ok n → (z ≡ pos n) × (0 < n)
unfolding positive
positive-eq-ok (pos zero) n h = cc
positive-eq-ok (pos (suc k)) n h = ground arith
positive-eq-ok (negsuc k) n h = cc

-- What a grid of `divide` is.
pub record Divides (image_w image_h : ℕ) (w h : ℤ) (g : ImageGrid) : Type 0 where
  pub cells_x : ℕ
  pub cells_y : ℕ
  pub w_is : w ≡ pos cells_x
  pub h_is : h ≡ pos cells_y
  pub some_x : 0 < cells_x
  pub some_y : 0 < cells_y
  pub grid : g ≡ generate_cells (divided image_w image_h cells_x cells_y)

generated-eq-ok : (g k : ImageGrid) → generated g ≡ ok k → k ≡ generate_cells g
unfolding generated
generated-eq-ok g k h = ground arith

pub divide-Divides :
    (image_w image_h : ℕ) (w h : ℤ) (g : ImageGrid)
    → divide image_w image_h w h ≡ ok g
    → Divides image_w image_h w h g
unfolding divide
divide-Divides image_w image_h w h g e =
    let inner = λ (n m : ℕ). generated (divided image_w image_h n m) in
    let outer = λ (n : ℕ). positive h >>= inner n in
    let checked =
      af_assert-eq-ok (leb_ℤ w (pos image_w) || leb_ℤ h (pos image_h)) (positive w >>= outer) e in
    let columns = bind-Passes outer (positive w) checked.1 in
    let rows = bind-Passes (inner columns.between) (positive h) columns.after in
    let px = positive-eq-ok w columns.between columns.before in
    let py = positive-eq-ok h rows.between rows.before in
    record {
      cells_x = columns.between;
      cells_y = rows.between;
      w_is = px.0;
      h_is = py.0;
      some_x = px.1;
      some_y = py.1;
      grid = generated-eq-ok (divided image_w image_h columns.between rows.between) g rows.after;
    }

-- A grid of as many rows as columns lies inside the image.
pub divide_square-IsInside :
    (image_w image_h : ℕ) (n : ℤ) (g : ImageGrid)
    → divide image_w image_h n n ≡ ok g
    → All (IsInside g) g.cells
divide_square-IsInside image_w image_h n g e =
    let d = divide-Divides image_w image_h n n g e in
    let same : d.cells_y ≡ d.cells_x = ground arith in
    subst (λ g. All (IsInside g) g.cells) (sym d.grid)
      (All-generate_cells _ (divided image_w image_h d.cells_x d.cells_y) λ k j hk hj.
        IsInside-generate_cells _ _ (
          divided-IsInside image_w image_h d.cells_x d.cells_y k j (unfold divided in omega arith)
            (unfold divided in omega arith)))

corners_fit :
    (border stride n : ℕ)
    → border + (n - 1) * stride < 2147483648
    → fits (pos border) stride n ≡ true
unfolding ◌+ℤ◌
corners_fit border stride n h = ground arith

positive-suc : (n : ℕ) → positive (pos (suc n)) ≡ ok (suc n)
unfolding positive
positive-suc n = refl

-- The corners of a grid of as many rows as columns do not overflow.
generated-square :
    (image_w image_h n : ℕ)
    → image_w < 2147483648
    → image_h < 2147483648
    → 0 < n
    → generated (divided image_w image_h n n) ≡ ok (generate_cells (divided image_w image_h n n))
unfolding generated divided
generated-square image_w image_h n h k p =
    let x = span_le image_w n (n - 1) (omega arith) in
    let y = span_le image_h n (n - 1) (omega arith) in
    let left : fits (pos ((image_w - image_w / n * n) / 2)) (image_w / n) n ≡ true =
      corners_fit _ (image_w / n) n (omega arith) in
    let up : fits (pos ((image_h - image_h / n * n) / 2)) (image_h / n) n ≡ true =
      corners_fit _ (image_h / n) n (omega arith) in
    rw (left, up) refl

-- `divide` makes a grid of as many rows as columns, where the image has an `int` as its width and as its height and is at
-- least as wide or as high as the number of columns.
pub divide_square-eq-ok :
    (image_w image_h n : ℕ)
    → image_w < 2147483648
    → image_h < 2147483648
    → 0 < n
    → (n ≤ image_w) ⊎ (n ≤ image_h)
    → divide image_w image_h (pos n) (pos n) ≡ ok (generate_cells (divided image_w image_h n n))
unfolding divide
divide_square-eq-ok image_w image_h zero h k p small = absurd (omega arith)
divide_square-eq-ok image_w image_h (suc n) h k p small =
    let made = generated-square image_w image_h (suc n) h k p in
    let one = positive-suc n in ground arith

-- The column after the last that fits.
divided-sticks_out :
    (image_w image_h cells_x cells_y : ℕ)
    → image_w - image_w / cells_x * cells_x < image_w / cells_x
    → ¬ IsInside
        (generate_cells (divided image_w image_h cells_x cells_y))
        (cell (divided image_w image_h cells_x cells_y) cells_x 0)
unfolding divided cell generate_cells
divided-sticks_out image_w image_h cells_x cells_y h i =
    absurd (omega (arith, +ℤ_parts, i.right, div-mul-le_self image_w cells_x))

-- With more rows than columns asked for, and less left over of the width than one cell, the grid runs over
-- the right side of the image.
pub divide_tall_sticks_out :
    (image_w image_h a b : ℕ) (g : ImageGrid)
    → a < b
    → image_w % a < image_w / a
    → divide image_w image_h (pos a) (pos b) ≡ ok g
    → ¬ All (IsInside g) g.cells
divide_tall_sticks_out image_w image_h a b g l h e all =
    let d = divide-Divides image_w image_h (pos a) (pos b) g e in
    let same_x : d.cells_x ≡ a = ground (arith, d.w_is) in
    let same_y : d.cells_y ≡ b = ground (arith, d.h_is) in
    let grid = divided image_w image_h d.cells_x d.cells_y in
    let made = subst (λ g. All (IsInside g) g.cells) d.grid all in
    let over =
      generate_cells-All (IsInside (generate_cells grid)) grid d.cells_x 0 made
        (unfold divided in omega arith) (unfold divided in d.some_x) in
    divided-sticks_out image_w image_h d.cells_x d.cells_y
      (rw same_x (omega (arith, mod-eq-sub-div-mul image_w a))) over
