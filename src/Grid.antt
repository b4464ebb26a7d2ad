-- ===== src/Grid.antt =====
-- imgproc/image-grid.cpp: `ImageCell` and `ImageGrid`. The image is its two dimensions; the pixels are
-- only copied. Sizes that a check has found positive, and what is computed from them, are numbers; the
-- borders and the corners of the cells, which can be negative, are integers. A corner beyond the greatest
-- `int` is undefined; the other products are within the image.
pub mod Index
pub mod Inside
pub mod Borders
mod Examples
use toolchain_cpp.Common.{
  ℕ, zero, suc, ◌+◌, ◌-◌, ◌*◌, ◌/◌, List, [], ◌∷◌, ◌++◌, Bool, true, false, ◌||◌, ◌&&◌, leb,
  if◌then◌else◌, Result, ok, undefined, aborted, ◌>>=◌, ◌>>◌, af_assert,
}
use toolchain_cpp.Common.Int.{ℤ, pos, negsuc, ◌+ℤ◌, ◌-ℤ◌, leb_ℤ}

pub record ImageCell : Type 0 where
  pub x : ℤ
  pub y : ℤ
  pub size_w : ℕ
  pub size_h : ℕ

pub record ImageGrid : Type 0 where
  pub image_w : ℕ
  pub image_h : ℕ
  pub cell_w : ℕ
  pub cell_h : ℕ
  pub cells_x : ℕ
  pub cells_y : ℕ
  pub cell_stride_x : ℕ
  pub cell_stride_y : ℕ
  pub border_left : ℤ
  pub border_right : ℤ
  pub border_up : ℤ
  pub border_down : ℤ
  pub cells : List ImageCell

abbrev pub negate : ℕ → ℤ
negate zero = pos 0
negate (suc n) = negsuc n

-- `a / d` in C++, towards zero.
pub quot : ℤ → ℕ → ℤ
quot (pos n) d = pos (n / d)
quot (negsuc n) d = negate (suc n / d)

-- `af_assert(n > 0)`
pub positive : ℤ → Result ℕ
positive (pos (suc n)) = ok (suc n)
positive _ = aborted

-- The cell in column `x` and row `y`.
pub cell : ImageGrid → ℕ → ℕ → ImageCell
cell g x y = record {
  x = g.border_left +ℤ pos (x * g.cell_stride_x);
  y = g.border_up +ℤ pos (y * g.cell_stride_y);
  size_w = g.cell_w;
  size_h = g.cell_h;
}

-- The inner loop of `generate_cells`: `left` columns from `x` on.
pub row_cells : ImageGrid → ℕ → ℕ → ℕ → List ImageCell
row_cells g y x zero = []
row_cells g y x (suc left) = cell g x y ∷ row_cells g y (x + 1) left

-- The outer loop: `left` rows from `y` on. Rows run up to `cells_x` and columns up to `cells_y`.
pub all_cells : ImageGrid → ℕ → ℕ → List ImageCell
unfolding row_cells
all_cells g y zero = []
all_cells g y (suc left) = row_cells g y 0 g.cells_y ++ all_cells g (y + 1) left

pub generate_cells : ImageGrid → ImageGrid
unfolding cell all_cells
generate_cells g = record g { cells = all_cells g 0 g.cells_x }

-- A product of `generate_cells` or its sum with a border, for the last index of a loop to `cells`.
abbrev pub fits : ℤ → ℕ → ℕ → Bool
fits border stride cells =
    leb ((cells - 1) * stride) 2147483647
    && leb_ℤ (border +ℤ pos ((cells - 1) * stride)) (pos 2147483647)

-- The call of `generate_cells` by the constructors. The corners grow with the indices, so the last ones overflow first.
pub generated : ImageGrid → Result ImageGrid
generated g =
    if fits g.border_left g.cell_stride_x g.cells_y && fits g.border_up g.cell_stride_y g.cells_x
    then ok (generate_cells g)
    else undefined

-- The fields of the first constructor, once `cells_x` and `cells_y` are known to be positive.
pub divided : ℕ → ℕ → ℕ → ℕ → ImageGrid
divided image_w image_h cells_x cells_y =
    let cell_w = image_w / cells_x in
    let cell_h = image_h / cells_y in
    let rest_x = image_w - cell_w * cells_x in
    let rest_y = image_h - cell_h * cells_y in
    record {
      image_w = image_w;
      image_h = image_h;
      cell_w = cell_w;
      cell_h = cell_h;
      cells_x = cells_x;
      cells_y = cells_y;
      cell_stride_x = cell_w;
      cell_stride_y = cell_h;
      border_left = pos (rest_x / 2);
      border_right = pos (rest_x - rest_x / 2);
      border_up = pos (rest_y / 2);
      border_down = pos (rest_y - rest_y / 2);
      cells = [];
    }

-- A grid of `w * h` cells that do not overlap.
pub divide : ℕ → ℕ → ℤ → ℤ → Result ImageGrid
divide image_w image_h w h = do
  af_assert (leb_ℤ w (pos image_w) || leb_ℤ h (pos image_h))
  cells_x ← positive w
  cells_y ← positive h
  generated (divided image_w image_h cells_x cells_y)

-- `image - (cell + stride * (cells - 1))`, the part of one dimension that no cell covers.
pub uncovered : ℕ → ℕ → ℕ → ℕ → ℤ
uncovered image cell stride cells = pos image -ℤ pos (cell + stride * (cells - 1))

pub covering : ℕ → ℕ → ℕ → ℕ → ℕ → ℕ → ℕ → ℕ → ImageGrid
unfolding uncovered quot ◌-ℤ◌
covering image_w image_h cell_w cell_h stride_x stride_y cells_x cells_y =
    let rest_x = uncovered image_w cell_w stride_x cells_x in
    let rest_y = uncovered image_h cell_h stride_y cells_y in
    record {
      image_w = image_w;
      image_h = image_h;
      cell_w = cell_w;
      cell_h = cell_h;
      cells_x = cells_x;
      cells_y = cells_y;
      cell_stride_x = stride_x;
      cell_stride_y = stride_y;
      border_left = quot rest_x 2;
      border_right = rest_x -ℤ quot rest_x 2;
      border_up = quot rest_y 2;
      border_down = rest_y -ℤ quot rest_y 2;
      cells = [];
    }

-- A grid of cells of a given size, which can overlap.
pub cover : ℕ → ℕ → ℤ → ℤ → ℤ → ℤ → Result ImageGrid
cover image_w image_h cell_w' cell_h' cell_stride_x' cell_stride_y' = do
  cell_w ← positive cell_w'
  cell_h ← positive cell_h'
  stride_x ← positive cell_stride_x'
  stride_y ← positive cell_stride_y'
  cells_x ← positive (quot (pos image_w -ℤ pos cell_w) stride_x +ℤ pos 1)
  cells_y ← positive (quot (pos image_h -ℤ pos cell_h) stride_y +ℤ pos 1)
  generated (covering image_w image_h cell_w cell_h stride_x stride_y cells_x cells_y)
