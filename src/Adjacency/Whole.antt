-- ===== src/Adjacency/Whole.antt =====
-- common/adjacency-matrix.cpp: `operator+=` and `operator==` of two matrices.
use toolchain_cpp.Common.{
  ℕ, Bool, true, false, List, [], ◌∷◌, none, some, ◌==◌, if◌then◌else◌, length, get_elem?, set,
  Result, ok, raised, undefined, ◌>>=◌, ◌>>◌, unless_throw,
}
use toolchain_cpp.Adjacency.{
  AdjacencyMatrix, Row, Vertex, Weights, entry, find_x_index, find_y_index, init,
}

module _ {W : Type 0} (weights : Weights W) where
  open weights use {add, equal}

  -- `matr[i][j].edge_weight += weight`
  abbrev pub add_at : List (Row W) → ℕ → ℕ → W → Result (List (Row W))
  add_at rows i j weight = elim (get_elem? rows i) [
    | none ↦ undefined
    | some row ↦ elim (get_elem? row j) [
      | none ↦ undefined
      | some v ↦ ok (set rows i (set row j (record v { edge_weight = add v.edge_weight weight })))
    ]
  ]

  pub add_edge : AdjacencyMatrix W → Vertex W → Result (AdjacencyMatrix W)
  add_edge m v = elim (find_y_index m v.y_vertex) [
    | none ↦ raised
    | some i ↦ elim (find_x_index m v.x_vertex) [
      | none ↦ raised
      | some j ↦ add_at m.matr i j v.edge_weight >>= λ rows. ok (record m { matr = rows })
    ]
  ]

  pub add_edges : AdjacencyMatrix W → Row W → Result (AdjacencyMatrix W)
  add_edges m [] = ok m
  add_edges m (v ∷ row) = add_edge m v >>= λ m'. add_edges m' row

  pub add_rows : AdjacencyMatrix W → List (Row W) → Result (AdjacencyMatrix W)
  add_rows m [] = ok m
  add_rows m (row ∷ rows) = add_edges m row >>= λ m'. add_rows m' rows

  -- `operator+=`
  pub add_matrix : AdjacencyMatrix W → AdjacencyMatrix W → Result (AdjacencyMatrix W)
  add_matrix m rhs =
      (if length m.matr == 0 then init weights m rhs.vertex_names else ok m) >>= λ m'.
      unless_throw (length m'.matr == length rhs.matr) >> add_rows m' rhs.matr

  pub has_edge : AdjacencyMatrix W → Vertex W → Result Bool
  has_edge m v = elim (find_y_index m v.y_vertex) [
    | none ↦ ok false
    | some i ↦ elim (find_x_index m v.x_vertex) [
      | none ↦ ok false
      | some j ↦ entry m.matr i j >>= λ u. ok (equal u.edge_weight v.edge_weight)
    ]
  ]

  pub has_edges : AdjacencyMatrix W → Row W → Result Bool
  has_edges m [] = ok true
  has_edges m (v ∷ row) =
      has_edge m v >>= λ found. elim found [ true ↦ has_edges m row | false ↦ ok false ]

  pub has_rows : AdjacencyMatrix W → List (Row W) → Result Bool
  has_rows m [] = ok true
  has_rows m (row ∷ rows) =
      has_edges m row >>= λ found. elim found [ true ↦ has_rows m rows | false ↦ ok false ]

  -- `operator==`
  pub equal_matrix : AdjacencyMatrix W → AdjacencyMatrix W → Result Bool
  equal_matrix m rhs = if length m.matr == length rhs.matr then has_rows m rhs.matr else ok false
