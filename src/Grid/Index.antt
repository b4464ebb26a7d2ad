-- ===== src/Grid/Index.antt =====
-- Which cells `generate_cells` makes: those of every column below `cells_y` and row below `cells_x`.
use toolchain_cpp.Common.{
  ℕ, zero, suc, ◌+◌, ◌*◌, ◌≤◌, ◌<◌, ◌≡◌, refl, inl, inr, Bool-cases, ◌==◌, arith, length, All,
  All-append, append-All, length-append,
}
use toolchain_cpp.Grid.{ImageCell, ImageGrid, cell, row_cells, all_cells, generate_cells}

module _ {ℓ} (P : ImageCell → Type ℓ) (g : ImageGrid) where
  pub All-row_cells :
      (y x left : ℕ)
      → ((k : ℕ) → x ≤ k → k < x + left → P (cell g k y))
      → All P (row_cells g y x left)
  unfolding row_cells
  All-row_cells y x zero h = tt
  All-row_cells y x (suc left) h = (
    h x (omega arith) (omega arith),
    All-row_cells y (x + 1) left (λ k lo hi. h k (omega arith) (omega arith)),
  )

  pub All-all_cells :
      (y left : ℕ)
      → ((k j : ℕ) → k < g.cells_y → y ≤ j → j < y + left → P (cell g k j))
      → All P (all_cells g y left)
  unfolding all_cells
  All-all_cells y zero h = tt
  All-all_cells y (suc left) h =
      All-append P (row_cells g y 0 g.cells_y) _
        (All-row_cells y 0 g.cells_y (λ k lo hi. h k y (omega arith) (omega arith) (omega arith)))
        (All-all_cells (y + 1) left (λ k j hk lo hi. h k j hk (omega arith) (omega arith)))

  -- And conversely every such cell is made.
  row_cells-All :
      (y x left k : ℕ) → All P (row_cells g y x left) → x ≤ k → k < x + left → P (cell g k y)
  unfolding row_cells
  row_cells-All y x zero k h lo hi = absurd (omega arith)
  row_cells-All y x (suc left) k h lo hi = elim (Bool-cases (k == x)) [
    | inl e ↦ let same : k ≡ x = ground arith in rw same h.0
    | inr e ↦ row_cells-All y (x + 1) left k h.1 (ground arith) (omega arith)
  ]

  all_cells-All :
      (y left k j : ℕ)
      → All P (all_cells g y left)
      → k < g.cells_y
      → y ≤ j
      → j < y + left
      → P (cell g k j)
  unfolding all_cells
  all_cells-All y zero k j h hk lo hi = absurd (omega arith)
  all_cells-All y (suc left) k j h hk lo hi =
      let parts = append-All P (row_cells g y 0 g.cells_y) _ h in
      elim (Bool-cases (j == y)) [
        | inl e ↦
            let same : j ≡ y = ground arith in
            rw same (row_cells-All y 0 g.cells_y k parts.0 (omega arith) (omega arith))
        | inr e ↦ all_cells-All (y + 1) left k j parts.1 hk (ground arith) (omega arith)
      ]

pub All-generate_cells {ℓ} :
    (P : ImageCell → Type ℓ) (g : ImageGrid)
    → ((k j : ℕ) → k < g.cells_y → j < g.cells_x → P (cell g k j))
    → All P (generate_cells g).cells
unfolding generate_cells
All-generate_cells P g h = All-all_cells P g 0 g.cells_x (λ k j hk lo hi. h k j hk (omega arith))

pub generate_cells-All {ℓ} :
    (P : ImageCell → Type ℓ) (g : ImageGrid) (k j : ℕ)
    → All P (generate_cells g).cells
    → k < g.cells_y
    → j < g.cells_x
    → P (cell g k j)
unfolding generate_cells
generate_cells-All P g k j h hk hj =
    all_cells-All P g 0 g.cells_x k j h hk (omega arith) (omega arith)

length-row_cells : (g : ImageGrid) (y x left : ℕ) → length (row_cells g y x left) ≡ left
unfolding row_cells
length-row_cells g y x zero = refl
length-row_cells g y x (suc left) = omega (arith, length-row_cells g y (x + 1) left)

length-all_cells : (g : ImageGrid) (y left : ℕ) → length (all_cells g y left) ≡ left * g.cells_y
unfolding all_cells
length-all_cells g y zero = omega arith
length-all_cells g y (suc left) = omega (
  arith,
  length-append (row_cells g y 0 g.cells_y) (all_cells g (y + 1) left),
  length-row_cells g y 0 g.cells_y,
  length-all_cells g (y + 1) left,
)

pub length-generate_cells :
    (g : ImageGrid) → length (generate_cells g).cells ≡ g.cells_x * g.cells_y
unfolding generate_cells
length-generate_cells g = length-all_cells g 0 g.cells_x
