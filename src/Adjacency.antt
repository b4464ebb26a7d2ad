-- ===== src/Adjacency.antt =====
-- common/adjacency-matrix.cpp: `AdjacencyMatrix`, the weights of the edges of a graph whose vertices have names. The
-- weights are an interface that stands for `double`, a map is a list of names and indices, and `std::sort` is an
-- argument. The texts for printing are left out.
pub mod Whole
pub mod Sort
pub mod Swaps
pub mod Sums
pub mod Sorting
pub mod Names
pub mod Keeping
pub mod Again
pub mod Setup
mod Examples
use toolchain_cpp.Common.{
  ℕ, zero, suc, ◌+◌, ◌-◌, Bool, true, false, ◌&&◌, not, List, [], ◌∷◌, ◌++◌, map, Option, none,
  some, ltb, ◌==◌, if◌then◌else◌, Bytes, same, length, get_elem?, set, Result, ok, raised, aborted,
  undefined, ◌>>=◌, ◌>>◌, af_assert, unless_throw,
}

-- The operations of `double` that the class uses.
pub record Weights (W : Type 0) : Type 0 where
  pub zero_weight : W
  pub add : W → W → W
  pub less : W → W → Bool
  pub equal : W → W → Bool

pub record Vertex (W : Type 0) : Type 0 where
  pub edge_weight : W
  pub y_vertex : Bytes
  pub x_vertex : Bytes

abbrev pub Row : Type 0 → Type 0
Row W = List (Vertex W)

abbrev pub Names : Type 0
Names = List (Bytes × ℕ)

pub record AdjacencyMatrix (W : Type 0) : Type 0 where
  pub size : ℕ
  pub matr : List (Row W)
  pub vertex_names : List Bytes
  pub x_vertex_names : Names
  pub y_vertex_names : Names

-- `names[name] = index`
pub put_name : Names → Bytes → ℕ → Names
put_name [] name index = (name, index) ∷ []
put_name ((n, i) ∷ names) name index =
    let later = put_name names name index in
    if same n name then (name, index) ∷ names else (n, i) ∷ later

pub find_name : Names → Bytes → Option ℕ
find_name [] name = none
find_name ((n, i) ∷ names) name =
    let later = find_name names name in if same n name then some i else later

pub index_names : ℕ → List Bytes → Names → Names
index_names index [] names = names
index_names index (n ∷ ns) names = index_names (suc index) ns (put_name names n index)

module _ {W : Type 0} where
  -- The names along the first row.
  pub x_names : List (Row W) → List Bytes
  x_names [] = []
  x_names (row ∷ rows) = map (λ (v : Vertex W). v.x_vertex) row

  -- The names along the first column.
  pub y_names : List (Row W) → Result (List Bytes)
  y_names [] = ok []
  y_names ([] ∷ rows) = undefined
  y_names ((v ∷ row) ∷ rows) = y_names rows >>= λ names. ok (v.y_vertex ∷ names)

  pub find_x_index : AdjacencyMatrix W → Bytes → Option ℕ
  find_x_index m x_vertex = find_name m.x_vertex_names x_vertex

  pub find_y_index : AdjacencyMatrix W → Bytes → Option ℕ
  find_y_index m y_vertex = find_name m.y_vertex_names y_vertex

  -- `matr[i][j]`
  pub entry : List (Row W) → ℕ → ℕ → Result (Vertex W)
  entry rows i j = elim (get_elem? rows i) [
    | none ↦ undefined
    | some row ↦ elim (get_elem? row j) [ none ↦ undefined | some v ↦ ok v ]
  ]

  pub find_element : AdjacencyMatrix W → Bytes → Bytes → Result (Vertex W)
  find_element m y_vertex x_vertex = elim (find_y_index m y_vertex) [
    | none ↦ raised
    | some i ↦ elim (find_x_index m x_vertex) [ none ↦ raised | some j ↦ entry m.matr i j ]
  ]

  abbrev pub set_at : List (Row W) → ℕ → ℕ → W → Result (List (Row W))
  set_at rows i j weight = elim (get_elem? rows i) [
    | none ↦ undefined
    | some row ↦ elim (get_elem? row j) [
      | none ↦ undefined
      | some v ↦ ok (set rows i (set row j (record v { edge_weight = weight })))
    ]
  ]

  -- An assignment to what `operator()` returns.
  pub set_weight : AdjacencyMatrix W → Bytes → Bytes → W → Result (AdjacencyMatrix W)
  set_weight m first_vertex second_vertex weight = elim (find_y_index m first_vertex) [
    | none ↦ raised
    | some i ↦ elim (find_x_index m second_vertex) [
      | none ↦ raised
      | some j ↦ set_at m.matr i j weight >>= λ rows. ok (record m { matr = rows })
    ]
  ]

  -- `clear` leaves the maps of the names.
  pub clear : AdjacencyMatrix W → AdjacencyMatrix W
  clear m = record m { size = 0; matr = []; vertex_names = [] }

  pub swap_entries : ℕ → ℕ → Row W → Result (Row W)
  swap_entries i j row = elim (get_elem? row i) [
    | none ↦ undefined
    | some a ↦ elim (get_elem? row j) [ none ↦ undefined | some b ↦ ok (set (set row i b) j a) ]
  ]

  pub swap_in_rows : ℕ → ℕ → List (Row W) → Result (List (Row W))
  swap_in_rows i j [] = ok []
  swap_in_rows i j (row ∷ rows) =
      swap_entries i j row >>= λ row'. swap_in_rows i j rows >>= λ rows'. ok (row' ∷ rows')

  -- The loop to `size` is the one over the rows.
  pub swap_columns : AdjacencyMatrix W → ℕ → ℕ → Result (AdjacencyMatrix W)
  swap_columns m i j =
      af_assert (ltb i m.size && ltb j m.size)
      >> (swap_in_rows i j m.matr >>= λ rows. ok (record m { matr = rows }))

  -- The end of `sort_columns`.
  pub name_columns : AdjacencyMatrix W → AdjacencyMatrix W
  name_columns m = record m { x_vertex_names = index_names 0 (x_names m.matr) [] }

module _ {W : Type 0} (weights : Weights W) where
  open weights use {zero_weight, add, less, equal}

  pub init_rows : List Bytes → List Bytes → List (Row W)
  init_rows [] names = []
  init_rows (y ∷ ys) names =
      map (λ x. record { edge_weight = zero_weight; y_vertex = y; x_vertex = x }) names
      ∷ init_rows ys names

  pub init : AdjacencyMatrix W → List Bytes → Result (AdjacencyMatrix W)
  init m names =
      let rows = init_rows names names in
      let xs = index_names 0 (x_names rows) m.x_vertex_names in
      y_names rows >>= λ heads.
      let ys = index_names 0 heads m.y_vertex_names in
      af_assert (length xs == length ys)
      >> (af_assert (length names == length xs)
          >> ok (record {
            size = length names;
            matr = rows;
            vertex_names = names;
            x_vertex_names = xs;
            y_vertex_names = ys;
          }))

  pub add_row : W → Row W → W
  add_row total [] = total
  add_row total (v ∷ row) = add_row (add total v.edge_weight) row

  pub sum_row : Row W → W
  sum_row row = add_row zero_weight row

  pub add_column : W → List (Row W) → ℕ → Result W
  add_column total [] j = ok total
  add_column total (row ∷ rows) j = elim (get_elem? row j) [
    | none ↦ undefined
    | some v ↦ add_column (add total v.edge_weight) rows j
  ]

  pub sum_column : AdjacencyMatrix W → ℕ → Result W
  sum_column m j = add_column zero_weight m.matr j

  pub add_all : W → List (Row W) → W
  add_all total [] = total
  add_all total (row ∷ rows) = add_all (add_row total row) rows

  pub sum : AdjacencyMatrix W → W
  sum m = add_all zero_weight m.matr

  -- A name that is not there has the index -1.
  pub sum_x : AdjacencyMatrix W → Bytes → Result W
  sum_x m y_name = elim (find_y_index m y_name) [
    | none ↦ undefined
    | some i ↦ elim (get_elem? m.matr i) [ none ↦ undefined | some row ↦ ok (sum_row row) ]
  ]
