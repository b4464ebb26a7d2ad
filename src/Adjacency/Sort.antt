-- ===== src/Adjacency/Sort.antt =====
-- common/adjacency-matrix.cpp: `sort_rows`, `sort_columns` and `sort`.
use toolchain_cpp.Common.{
  ℕ, zero, suc, ◌-◌, Bool, true, false, List, [], Option, none, some, if◌then◌else◌, Result, ok,
  raised, aborted, undefined, ◌>>=◌,
}
use toolchain_cpp.Adjacency.{
  AdjacencyMatrix, Row, Weights, index_names, name_columns, sum_column, sum_row, swap_columns,
  y_names,
}

module _ {W : Type 0} (weights : Weights W) where
  open weights use {less}

  pub sort_rows :
      ((Row W → Row W → Bool) → List (Row W) → List (Row W))
      → AdjacencyMatrix W
      → Result (AdjacencyMatrix W)
  sort_rows std_sort m =
      let rows = std_sort (λ a b. less (sum_row weights b) (sum_row weights a)) m.matr in
      y_names rows >>= λ names.
      ok (record m { matr = rows; y_vertex_names = index_names 0 names [] })

  -- The body of the `for` loop.
  unfoldable pub sort_step : ℕ → AdjacencyMatrix W → Bool → Result (AdjacencyMatrix W × Bool)
  sort_step i m sorted = sum_column weights m i >>= λ a. sum_column weights m (suc i) >>= λ b.
      if less a b then (swap_columns m i (suc i) >>= λ m'. ok (m', false)) else ok (m, sorted)

  -- The `for` loop, with the number of rounds to go.
  unfoldable pub sort_pass : ℕ → ℕ → AdjacencyMatrix W → Bool → Result (AdjacencyMatrix W × Bool)
  sort_pass zero i m sorted = ok (m, sorted)
  sort_pass (suc rounds) i m sorted = sort_step i m sorted >>= λ r. sort_pass rounds (suc i) r.0 r.1

  -- The `while` loop; none is a loop that has not ended yet.
  unfoldable pub sort_loop : ℕ → AdjacencyMatrix W → Option (Result (AdjacencyMatrix W))
  sort_loop zero m = none
  sort_loop (suc fuel) m = elim (sort_pass (m.size - 1) 0 m true) [
    | ok (m', true) ↦ some (ok m')
    | ok (m', false) ↦ sort_loop fuel m'
    | raised ↦ some raised
    | aborted ↦ some aborted
    | undefined ↦ some undefined
  ]

  unfoldable pub sort_columns : ℕ → AdjacencyMatrix W → Option (Result (AdjacencyMatrix W))
  sort_columns fuel m = elim (sort_loop fuel m) [
    | none ↦ none
    | some r ↦ some (r >>= λ m'. ok (name_columns m'))
  ]

  pub sort :
      ((Row W → Row W → Bool) → List (Row W) → List (Row W))
      → ℕ
      → AdjacencyMatrix W
      → Option (Result (AdjacencyMatrix W))
  sort std_sort fuel m = elim (sort_rows std_sort m) [
    | ok m' ↦ sort_columns fuel m'
    | raised ↦ some raised
    | aborted ↦ some aborted
    | undefined ↦ some undefined
  ]
