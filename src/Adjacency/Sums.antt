-- ===== src/Adjacency/Sums.antt =====
-- The sums of the columns as a list, and what exchanging columns does to them.
use toolchain_cpp.Common.{
  ℕ, zero, suc, ◌<◌, ◌≡◌, refl, ap, sym, ◌∙◌, arith, List, [], ◌∷◌, map, some, length, get_elem?,
  get_elem?-lt, replicate, All, ok,
}
use toolchain_cpp.Adjacency.{
  AdjacencyMatrix, Row, Vertex, Weights, add_column, sum_column, swap_columns, swap_entries,
  swap_in_rows,
}
use toolchain_cpp.Adjacency.Swaps.{adj, adj-replicate, set-set-adj}

abbrev pub IsWide : {W : Type 0} → ℕ → List (Row W) → Type 0
IsWide n rows = All (λ row. length row ≡ n) rows

abbrev pub with_rows : {W : Type 0} → AdjacencyMatrix W → List (Row W) → AdjacencyMatrix W
with_rows m rows = record m { matr = rows }

module _ {W : Type 0} where
  swap_entries-adj :
      (i : ℕ) (row : Row W) → suc i < length row → swap_entries i (suc i) row ≡ ok (adj i row)
  unfolding swap_entries
  swap_entries-adj i row h =
      let (a, p) = get_elem?-lt row i (omega arith) in
      let (b, q) = get_elem?-lt row (suc i) h in
      let moved = set-set-adj i row a b p q in ground arith

  swap_in_rows-adj :
      (n i : ℕ) (rows : List (Row W))
      → suc i < n
      → IsWide n rows
      → swap_in_rows i (suc i) rows ≡ ok (map (adj i) rows)
  unfolding swap_in_rows
  swap_in_rows-adj n i [] h w = refl
  swap_in_rows-adj n i (row ∷ rows) h w =
      rw (swap_entries-adj i row (omega (arith, w.0)), swap_in_rows-adj n i rows h w.1) refl

  -- Exchanging neighbouring columns of a matrix that is wide enough.
  pub swap_columns-adj :
      (m : AdjacencyMatrix W) (i : ℕ)
      → suc i < m.size
      → IsWide m.size m.matr
      → swap_columns m i (suc i) ≡ ok (with_rows m (map (adj i) m.matr))
  unfolding swap_columns
  swap_columns-adj m i h w = let swapped = swap_in_rows-adj m.size i m.matr h w in ground arith

module _ {W : Type 0} (weights : Weights W) where
  open weights use {zero_weight, add}

  pub plus : List W → Row W → List W
  plus [] row = []
  plus (k ∷ ks) [] = k ∷ ks
  plus (k ∷ ks) (v ∷ row) = add k v.edge_weight ∷ plus ks row

  pub sums : List W → List (Row W) → List W
  sums ks [] = ks
  sums ks (row ∷ rows) = sums (plus ks row) rows

  -- The sums of `n` columns.
  abbrev pub column_sums : ℕ → List (Row W) → List W
  column_sums n rows = sums (replicate n zero_weight) rows

  length-plus : (ks : List W) (row : Row W) → length (plus ks row) ≡ length ks
  unfolding plus
  length-plus [] row = refl
  length-plus (k ∷ ks) [] = refl
  length-plus (k ∷ ks) (v ∷ row) = ap suc (length-plus ks row)

  length-sums : (ks : List W) (rows : List (Row W)) → length (sums ks rows) ≡ length ks
  unfolding sums
  length-sums ks [] = refl
  length-sums ks (row ∷ rows) = length-sums (plus ks row) rows ∙ length-plus ks row

  get_elem?-plus :
      (ks : List W) (row : Row W) (j : ℕ) (k : W) (v : Vertex W)
      → get_elem? ks j ≡ some k
      → get_elem? row j ≡ some v
      → get_elem? (plus ks row) j ≡ some (add k v.edge_weight)
  unfolding plus
  get_elem?-plus [] row j k v p q = cc
  get_elem?-plus (x ∷ ks) [] j k v p q = cc
  get_elem?-plus (x ∷ ks) (y ∷ row) zero k v p q = cc
  get_elem?-plus (x ∷ ks) (y ∷ row) (suc j) k v p q = get_elem?-plus ks row j k v p q

  add_column-sums :
      (n j : ℕ) (ks : List W) (rows : List (Row W)) (k : W)
      → j < n
      → IsWide n rows
      → get_elem? ks j ≡ some k
      → (total : W) × (add_column weights k rows j ≡ ok total)
        × (get_elem? (sums ks rows) j ≡ some total)
  unfolding add_column sums
  add_column-sums n j ks [] k h w p = (k, refl, p)
  add_column-sums n j ks (row ∷ rows) k h w p =
      let (v, q) = get_elem?-lt row j (omega (arith, w.0)) in
      let (total, summed, found) =
        add_column-sums n j (plus ks row) rows (add k v.edge_weight) h w.1
          (get_elem?-plus ks row j k v p q) in
      (total, rw (q, add_column) summed, found)

  get_elem?-replicate :
      {A : Type 0} (n j : ℕ) (a : A) → j < n → get_elem? (replicate n a) j ≡ some a
  get_elem?-replicate zero j a h = absurd (omega arith)
  get_elem?-replicate (suc n) zero a h = refl
  get_elem?-replicate (suc n) (suc j) a h = get_elem?-replicate n j a (omega arith)

  pub sum_column-sums :
      (m : AdjacencyMatrix W) (j : ℕ)
      → j < m.size
      → IsWide m.size m.matr
      → (total : W) × (sum_column weights m j ≡ ok total)
        × (get_elem? (column_sums m.size m.matr) j ≡ some total)
  unfolding sum_column
  sum_column-sums m j h w =
      add_column-sums m.size j (replicate m.size zero_weight) m.matr zero_weight h w
        (get_elem?-replicate m.size j zero_weight h)

  plus-adj :
      (i : ℕ) (ks : List W) (row : Row W)
      → length row ≡ length ks
      → plus (adj i ks) (adj i row) ≡ adj i (plus ks row)
  unfolding plus
  plus-adj zero [] row h = refl
  plus-adj (suc i) [] row h = refl
  plus-adj zero (k ∷ ks) [] h = absurd (omega arith)
  plus-adj (suc i) (k ∷ ks) [] h = absurd (omega arith)
  plus-adj zero (k ∷ []) (v ∷ []) h = refl
  plus-adj zero (k ∷ []) (v ∷ u ∷ row) h = absurd (omega arith)
  plus-adj zero (k ∷ l ∷ ks) (v ∷ []) h = absurd (omega arith)
  plus-adj zero (k ∷ l ∷ ks) (v ∷ u ∷ row) h = refl
  plus-adj (suc i) (k ∷ ks) (v ∷ row) h =
      ap (λ xs. add k v.edge_weight ∷ xs) (plus-adj i ks row (omega arith))

  sums-adj :
      (n i : ℕ) (ks : List W) (rows : List (Row W))
      → length ks ≡ n
      → IsWide n rows
      → sums (adj i ks) (map (adj i) rows) ≡ adj i (sums ks rows)
  unfolding sums
  sums-adj n i ks [] h w = refl
  sums-adj n i ks (row ∷ rows) h w =
      ap (λ totals. sums totals (map (adj i) rows)) (plus-adj i ks row (omega (arith, h, w.0)))
      ∙ (sums-adj n i (plus ks row) rows (omega (arith, h, length-plus ks row)) w.1)

  length-replicate : {A : Type 0} (n : ℕ) (a : A) → length (replicate n a) ≡ n
  length-replicate zero a = refl
  length-replicate (suc n) a = ap suc (length-replicate n a)

  pub length-column_sums : (n : ℕ) (rows : List (Row W)) → length (column_sums n rows) ≡ n
  length-column_sums n rows =
      length-sums (replicate n zero_weight) rows ∙ length-replicate n zero_weight

  pub column_sums-adj :
      (n i : ℕ) (rows : List (Row W))
      → IsWide n rows
      → column_sums n (map (adj i) rows) ≡ adj i (column_sums n rows)
  column_sums-adj n i rows w =
      ap (λ ks. sums ks (map (adj i) rows)) (sym (adj-replicate i n zero_weight))
      ∙ sums-adj n i (replicate n zero_weight) rows (length-replicate n zero_weight) w
