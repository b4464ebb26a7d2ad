-- ===== src/Adjacency/Examples.antt =====
-- A matrix of two vertices over the natural numbers, on which the theorems are applied.
use toolchain_cpp.Common.{
  ℕ, suc, ◌+◌, ◌<◌, ◌≡◌, refl, arith, true, false, List, [], ◌∷◌, some, Bytes, codes, ltb, ◌==◌, ok,
  aborted, same,
}
use toolchain_cpp.Adjacency.{
  AdjacencyMatrix, Row, Vertex, Weights, find_element, find_name, find_x_index, find_y_index, init,
  name_columns, x_names,
}
use toolchain_cpp.Adjacency.Sort.{sort_columns}
use toolchain_cpp.Adjacency.Again.{init-shrinks}
use toolchain_cpp.Adjacency.Keeping.{HasNames, IsIndexed, sort_columns-find_element}
use toolchain_cpp.Adjacency.Names.{Distinct, index_of}
use toolchain_cpp.Adjacency.Sorting.{Falls, sort_columns-Falls}
use toolchain_cpp.Adjacency.Setup.{init-HasNames}
use toolchain_cpp.Adjacency.Sums.{IsWide, column_sums, with_rows}
use toolchain_cpp.Adjacency.Swaps.{Shuffles}

abbrev counts : Weights ℕ
counts = record { zero_weight = 0; add = ◌+◌; less = ltb; equal = ◌==◌ }

abbrev edge : ℕ → Bytes → Bytes → Vertex ℕ
edge weight y x = record { edge_weight = weight; y_vertex = y; x_vertex = x }

abbrev a : Bytes
a = codes "a"

abbrev b : Bytes
b = codes "b"

abbrev graph : AdjacencyMatrix ℕ
graph = record {
  size = 2;
  matr = (edge 1 a a ∷ edge 5 a b ∷ []) ∷ (edge 2 b a ∷ edge 3 b b ∷ []) ∷ [];
  vertex_names = a ∷ b ∷ [];
  x_vertex_names = (a, 0) ∷ (b, 1) ∷ [];
  y_vertex_names = (a, 0) ∷ (b, 1) ∷ [];
}

ltb-asymmetric : (m n : ℕ) → ltb m n ≡ true → ltb n m ≡ false
ltb-asymmetric m n h = ground arith

graph-HasNames : HasNames graph.matr
unfolding x_names index_of same
graph-HasNames = record { named = (refl, (refl, tt)); distinct = (refl, (refl, tt)) }

graph-IsIndexed : IsIndexed graph
unfolding find_x_index find_name x_names index_of
graph-IsIndexed x = ground arith

sort_columns-Falls_example :
    (rows : List (Row ℕ)) × (sort_columns counts 5 graph
      ≡ some (ok (name_columns (with_rows graph rows))))
    × Shuffles graph.matr rows
    × ((j : ℕ) → suc j < 2 → Falls counts (column_sums counts 2 rows) j)
sort_columns-Falls_example =
    sort_columns-Falls counts ltb-asymmetric 5 graph (refl, (refl, tt)) (omega arith)

sort_columns-find_element_example :
    (m' : AdjacencyMatrix ℕ) × (sort_columns counts 5 graph ≡ some (ok m'))
    × HasNames m'.matr
    × IsIndexed m'
    × ((y x : Bytes) → find_element m' y x ≡ find_element graph y x)
sort_columns-find_element_example =
    sort_columns-find_element counts ltb-asymmetric 5 graph (refl, (refl, tt)) graph-HasNames
      graph-IsIndexed (omega arith)

init-shrinks_example : init counts graph (b ∷ []) ≡ aborted
init-shrinks_example = init-shrinks counts graph (b ∷ []) (omega arith)

abbrev nothing : AdjacencyMatrix ℕ
nothing = record {
  size = 0;
  matr = [];
  vertex_names = [];
  x_vertex_names = [];
  y_vertex_names = [];
}

names-Distinct : Distinct (a ∷ b ∷ [])
unfolding index_of same
names-Distinct = (refl, (refl, tt))

init-HasNames_example :
    (m' : AdjacencyMatrix ℕ) × (init counts nothing (a ∷ b ∷ []) ≡ ok m')
    × (m'.size ≡ 2)
    × IsWide m'.size m'.matr
    × (x_names m'.matr ≡ a ∷ b ∷ [])
    × HasNames m'.matr
    × IsIndexed m'
    × ((y : Bytes) → find_y_index m' y ≡ index_of (a ∷ b ∷ []) y)
init-HasNames_example = init-HasNames counts nothing (a ∷ b ∷ []) refl refl names-Distinct
