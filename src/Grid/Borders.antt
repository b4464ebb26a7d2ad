-- ===== src/Grid/Borders.antt =====
-- The cells do not overlap where the stride is at least the cell, and the borders share what is left over.
use toolchain_cpp.Common.{
  ℕ, zero, suc, ◌+◌, ◌*◌, ◌≤◌, ◌<◌, ◌≡◌, sym, subst, ◌⊎◌, inl, inr, arith, List, [], ◌∷◌, ◌++◌, All,
  All-append, ok,
}
use toolchain_cpp.Common.Int.{ℤ, pos, ◌+ℤ◌, ◌≤ℤ◌, +ℤ_parts}
use toolchain_cpp.Grid.{
  ImageCell, ImageGrid, cell, row_cells, all_cells, generate_cells, divided, divide,
}
use toolchain_cpp.Grid.Index.{All-row_cells, All-all_cells}
use toolchain_cpp.Grid.Inside.{divide-Divides}

-- One cell ends before the other begins, in one of the directions.
abbrev pub Apart : ImageCell → ImageCell → Type 0
Apart c d =
    (c.x +ℤ pos c.size_w ≤ℤ d.x)
    ⊎ (d.x +ℤ pos d.size_w ≤ℤ c.x)
    ⊎ (c.y +ℤ pos c.size_h ≤ℤ d.y)
    ⊎ (d.y +ℤ pos d.size_h ≤ℤ c.y)

abbrev pub IsDisjoint : List ImageCell → Type 0
IsDisjoint [] = Unit
IsDisjoint (c ∷ cs) = All (Apart c) cs × IsDisjoint cs

IsDisjoint-append :
    (cs ds : List ImageCell)
    → IsDisjoint cs
    → IsDisjoint ds
    → All (λ c. All (Apart c) ds) cs
    → IsDisjoint (cs ++ ds)
IsDisjoint-append [] ds h k a = k
IsDisjoint-append (c ∷ cs) ds h k a =
    (All-append (Apart c) cs ds h.0 a.0, IsDisjoint-append cs ds h.1 k a.1)

stride_le : (k k' size stride : ℕ) → size ≤ stride → k < k' → k * stride + size ≤ k' * stride
stride_le k k' size stride h l = grind arith

module _ (g : ImageGrid) (wide : g.cell_w ≤ g.cell_stride_x)
    (high : g.cell_h ≤ g.cell_stride_y) where
  Apart-columns : (k k' j j' : ℕ) → k < k' → Apart (cell g k j) (cell g k' j')
  unfolding cell
  Apart-columns k k' j j' l =
      inl (omega (arith, +ℤ_parts, stride_le k k' g.cell_w g.cell_stride_x wide l))

  Apart-rows : (k k' j j' : ℕ) → j < j' → Apart (cell g k j) (cell g k' j')
  unfolding cell
  Apart-rows k k' j j' l =
      inr (inr (inl (omega (arith, +ℤ_parts, stride_le j j' g.cell_h g.cell_stride_y high l))))

  row_cells-IsDisjoint : (y x left : ℕ) → IsDisjoint (row_cells g y x left)
  unfolding row_cells
  row_cells-IsDisjoint y x zero = tt
  row_cells-IsDisjoint y x (suc left) = (
    All-row_cells (Apart (cell g x y)) g y (x + 1) left
        (λ k lo hi. Apart-columns x k y y (omega arith)),
    row_cells-IsDisjoint y (x + 1) left,
  )

  all_cells-IsDisjoint : (y left : ℕ) → IsDisjoint (all_cells g y left)
  unfolding all_cells
  all_cells-IsDisjoint y zero = tt
  all_cells-IsDisjoint y (suc left) =
      IsDisjoint-append (row_cells g y 0 g.cells_y) (all_cells g (y + 1) left)
        (row_cells-IsDisjoint y 0 g.cells_y) (all_cells-IsDisjoint (y + 1) left)
        (All-row_cells _ g y 0 g.cells_y λ k _ _.
          All-all_cells (Apart (cell g k y)) g (y + 1) left
            λ k' j _ lo _. Apart-rows k k' y j (omega arith))

  pub generate_cells-IsDisjoint : IsDisjoint (generate_cells g).cells
  unfolding generate_cells
  generate_cells-IsDisjoint = all_cells-IsDisjoint 0 g.cells_x

-- No two cells of a grid that `divide` makes, with corners that do not overflow, overlap.
pub divide-IsDisjoint :
    (image_w image_h : ℕ) (w h : ℤ) (g : ImageGrid)
    → divide image_w image_h w h ≡ ok g
    → IsDisjoint g.cells
divide-IsDisjoint image_w image_h w h g e =
    let d = divide-Divides image_w image_h w h g e in
    subst (λ g. IsDisjoint g.cells) (sym d.grid)
      (generate_cells-IsDisjoint (divided image_w image_h d.cells_x d.cells_y)
        (unfold divided in omega arith) (unfold divided in omega arith))
