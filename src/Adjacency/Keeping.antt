-- ===== src/Adjacency/Keeping.antt =====
-- The weights that the names lead to, when columns are exchanged.
use toolchain_cpp.Common.{
  ℕ, zero, suc, ◌*◌, ◌<◌, ◌≡◌, refl, ap, sym, subst, ◌∙◌, arith, true, false, Bool-cases, inl, inr,
  List, [], ◌∷◌, map, Option, none, some, Option-cases, if◌then◌else◌, Bytes, same, same→eq,
  get_elem?, All, Result, ok, raised, undefined,
}
use toolchain_cpp.Adjacency.{
  AdjacencyMatrix, Row, Vertex, Weights, entry, find_element, find_x_index, find_y_index, find_name,
  name_columns, x_names,
}
use toolchain_cpp.Adjacency.Sort.{sort_columns}
use toolchain_cpp.Adjacency.Names.{
  Distinct, Distinct-adj, find_name-index_names, found, found-index_of-adj, index_of, next, shifted,
}
use toolchain_cpp.Adjacency.Sums.{IsWide, with_rows}
use toolchain_cpp.Adjacency.Sorting.{sort_columns-Falls}
use toolchain_cpp.Adjacency.Swaps.{adj, Shuffles, done, swap}

pub shifted-zero : (o : Option ℕ) → shifted 0 o none ≡ o
shifted-zero none = refl
shifted-zero (some i) = ap some (omega arith)

module _ {W : Type 0} where
  abbrev pub row_names : Row W → List Bytes
  row_names row = map (λ (v : Vertex W). v.x_vertex) row

  -- The entry of a row with the name `x`.
  unfoldable by_name : Row W → Bytes → Result (Vertex W)
  by_name [] x = raised
  by_name (v ∷ row) x = let later = by_name row x in if same v.x_vertex x then ok v else later

  row_names-adj : (i : ℕ) (row : Row W) → row_names (adj i row) ≡ adj i (row_names row)
  row_names-adj zero [] = refl
  row_names-adj (suc i) [] = refl
  row_names-adj zero (v ∷ []) = refl
  row_names-adj zero (v ∷ u ∷ row) = refl
  row_names-adj (suc i) (v ∷ row) = ap (λ ns. v.x_vertex ∷ ns) (row_names-adj i row)

  by_name-adj :
      (i : ℕ) (row : Row W) (x : Bytes)
      → Distinct (row_names row)
      → by_name (adj i row) x ≡ by_name row x
  unfolding by_name index_of
  by_name-adj zero [] x h = refl
  by_name-adj (suc i) [] x h = refl
  by_name-adj zero (v ∷ []) x h = refl
  by_name-adj zero (v ∷ u ∷ row) x (other, rest) = elim (Bool-cases (same v.x_vertex x)) [
    | inr e ↦ ground arith
    | inl e ↦ elim (Bool-cases (same u.x_vertex x)) [
      | inr f ↦ ground arith
      | inl f ↦
          let p = same→eq v.x_vertex x e in
          let twice = ap (λ y. same u.x_vertex y) p ∙ f in ground arith
    ]
  ]
  by_name-adj (suc i) (v ∷ row) x (other, rest) = rw (by_name-adj i row x rest) refl

  -- The entry at a place of a row.
  abbrev at_place : Row W → Option ℕ → Result (Vertex W)
  at_place row none = raised
  at_place row (some j) = elim (get_elem? row j) [ none ↦ undefined | some v ↦ ok v ]

  at_place-next :
      (v : Vertex W) (row : Row W) (o : Option ℕ) → at_place (v ∷ row) (next o) ≡ at_place row o
  at_place-next v row none = refl
  at_place-next v row (some j) = refl

  at_place-by_name :
      (row : Row W) (x : Bytes) → at_place row (index_of (row_names row) x) ≡ by_name row x
  unfolding by_name index_of
  at_place-by_name [] x = refl
  at_place-by_name (v ∷ row) x =
      let ih = at_place-by_name row x in
      let later = at_place-next v row (index_of (row_names row) x) in
      elim (Bool-cases (same v.x_vertex x)) [ inl e ↦ rw e refl | inr e ↦ rw e (later ∙ ih) ]

  -- The entry of a row with the number `k` and of a column that is found or not.
  abbrev pub in_rows : List (Row W) → ℕ → Option ℕ → Result (Vertex W)
  in_rows rows k none = raised
  in_rows rows k (some j) = entry rows k j

  abbrev pub IsNamed : List Bytes → List (Row W) → Type 0
  IsNamed ns rows = All (λ row. row_names row ≡ ns) rows

  IsNamed-adj :
      (i : ℕ) (ns : List Bytes) (rows : List (Row W))
      → IsNamed ns rows
      → IsNamed (adj i ns) (map (adj i) rows)
  IsNamed-adj i ns [] h = tt
  IsNamed-adj i ns (row ∷ rows) h =
      (row_names-adj i row ∙ ap (adj i) h.0, IsNamed-adj i ns rows h.1)

  in_rows-nil : (k : ℕ) (o p : Option ℕ) → found o ≡ found p → in_rows [] k o ≡ in_rows [] k p
  unfolding entry
  in_rows-nil k none none h = refl
  in_rows-nil k none (some j) h = cc
  in_rows-nil k (some i) none h = cc
  in_rows-nil k (some i) (some j) h = refl

  in_rows-first :
      (row : Row W) (rows : List (Row W)) (o : Option ℕ)
      → in_rows (row ∷ rows) zero o ≡ at_place row o
  unfolding entry
  in_rows-first row rows none = refl
  in_rows-first row rows (some j) = refl

  in_rows-later :
      (row : Row W) (rows : List (Row W)) (k : ℕ) (o : Option ℕ)
      → in_rows (row ∷ rows) (suc k) o ≡ in_rows rows k o
  unfolding entry
  in_rows-later row rows k none = refl
  in_rows-later row rows k (some j) = refl

  in_rows-adj :
      (i k : ℕ) (ns : List Bytes) (rows : List (Row W)) (x : Bytes)
      → Distinct ns
      → IsNamed ns rows
      → in_rows (map (adj i) rows) k (index_of (adj i ns) x) ≡ in_rows rows k (index_of ns x)
  in_rows-adj i k ns [] x d h =
      in_rows-nil k (index_of (adj i ns) x) (index_of ns x) (found-index_of-adj i ns x)
  in_rows-adj i zero ns (row ∷ rows) x d h =
      let named = h.0 in
      in_rows-first (adj i row) (map (adj i) rows) (index_of (adj i ns) x)
      ∙ ap (λ names. at_place (adj i row) (index_of names x))
          (sym (row_names-adj i row ∙ ap (adj i) named))
      ∙ at_place-by_name (adj i row) x
      ∙ by_name-adj i row x (subst (λ names. Distinct names) (sym named) d)
      ∙ sym (at_place-by_name row x)
      ∙ ap (λ names. at_place row (index_of names x)) named
      ∙ sym (in_rows-first row rows (index_of ns x))
  in_rows-adj i (suc k) ns (row ∷ rows) x d h =
      in_rows-later (adj i row) (map (adj i) rows) k (index_of (adj i ns) x)
      ∙ in_rows-adj i k ns rows x d h.1
      ∙ sym (in_rows-later row rows k (index_of ns x))

  x_names-adj : (i : ℕ) (rows : List (Row W)) → x_names (map (adj i) rows) ≡ adj i (x_names rows)
  unfolding x_names
  x_names-adj i [] = refl
  x_names-adj i (row ∷ rows) = row_names-adj i row

  -- Rows that all have the names of the first one, which are different.
  pub record HasNames (rows : List (Row W)) : Type 0 where
    pub named : IsNamed (x_names rows) rows
    pub distinct : Distinct (x_names rows)

  HasNames-adj : (i : ℕ) (rows : List (Row W)) → HasNames rows → HasNames (map (adj i) rows)
  HasNames-adj i rows h = record {
    named =
        subst (λ ns. IsNamed ns (map (adj i) rows)) (sym (x_names-adj i rows))
          (IsNamed-adj i (x_names rows) rows h.named);
    distinct =
        subst (λ ns. Distinct ns) (sym (x_names-adj i rows))
          (Distinct-adj i (x_names rows) h.distinct);
  }

  shuffled-HasNames :
      {rows rows' : List (Row W)} → Shuffles rows rows' → HasNames rows → HasNames rows'
  shuffled-HasNames done h = h
  shuffled-HasNames {rows} (swap i k) h = shuffled-HasNames k (HasNames-adj i rows h)

  shuffled-in_rows :
      {rows rows' : List (Row W)}
      → Shuffles rows rows'
      → (k : ℕ) (x : Bytes) → HasNames rows
      → in_rows rows' k (index_of (x_names rows') x) ≡ in_rows rows k (index_of (x_names rows) x)
  shuffled-in_rows done k x h = refl
  shuffled-in_rows {rows} (swap i s) k x h =
      shuffled-in_rows s k x (HasNames-adj i rows h)
      ∙ ap (λ ns. in_rows (map (adj i) rows) k (index_of ns x)) (x_names-adj i rows)
      ∙ in_rows-adj i k (x_names rows) rows x h.distinct h.named

  -- The map of the names of the columns leads to their places.
  abbrev pub IsIndexed : AdjacencyMatrix W → Type 0
  IsIndexed m = (x : Bytes) → find_x_index m x ≡ index_of (x_names m.matr) x

  pub name_columns-IsIndexed :
      (m : AdjacencyMatrix W) → HasNames m.matr → IsIndexed (name_columns m)
  unfolding name_columns find_x_index find_name
  name_columns-IsIndexed m h x =
      find_name-index_names 0 (x_names m.matr) [] x h.distinct
      ∙ shifted-zero (index_of (x_names m.matr) x)

  -- The entry of a row that is found or not.
  abbrev in_found : List (Row W) → Option ℕ → Bytes → Result (Vertex W)
  in_found rows none x = raised
  in_found rows (some k) x = in_rows rows k (index_of (x_names rows) x)

  find_element-in_found :
      (m : AdjacencyMatrix W) (y x : Bytes)
      → IsIndexed m
      → find_element m y x ≡ in_found m.matr (find_y_index m y) x
  unfolding find_element
  find_element-in_found m y x h = elim (Option-cases (find_y_index m y)) [
    | inl e ↦ rw (e, find_element) refl
    | inr (k, e) ↦ rw (e, find_element) (ap (λ o. in_rows m.matr k o) (h x))
  ]

  shuffled-in_found :
      {rows rows' : List (Row W)} (s : Shuffles rows rows') (o : Option ℕ) (x : Bytes)
      → HasNames rows
      → in_found rows' o x ≡ in_found rows o x
  shuffled-in_found s none x h = refl
  shuffled-in_found s (some k) x h = shuffled-in_rows s k x h

module _ {W : Type 0} (weights : Weights W) where
  open weights use {less}

  -- A matrix whose rows have as many entries as its size says and all have the same names, which are different and
  -- to whose places the map of the names leads, over weights of which no two are each less than the other. Then
  -- `sort_columns` ends within one more than the square of the size of rounds of its outer loop. The same holds of the
  -- names and of their map afterwards, and each two names lead to the entry that they led to, or to none as they did.
  pub sort_columns-find_element :
      ((a b : W) → less a b ≡ true → less b a ≡ false)
      → (fuel : ℕ) (m : AdjacencyMatrix W) → IsWide m.size m.matr
      → HasNames m.matr
      → IsIndexed m
      → m.size * m.size < fuel
      → (m' : AdjacencyMatrix W) × (sort_columns weights fuel m ≡ some (ok m'))
        × HasNames m'.matr
        × IsIndexed m'
        × ((y x : Bytes) → find_element m' y x ≡ find_element m y x)
  unfolding name_columns find_y_index
  sort_columns-find_element asymmetric fuel m w h indexed enough =
      let (rows, e, shuffled, falls) = sort_columns-Falls weights asymmetric fuel m w enough in
      let m' = name_columns (with_rows m rows) in
      let names = shuffled-HasNames shuffled h in
      let indexed' = name_columns-IsIndexed (with_rows m rows) names in
      (
        m',
        e,
        names,
        indexed',
        λ y x.
            find_element-in_found m' y x indexed'
            ∙ shuffled-in_found shuffled (find_y_index m y) x h
            ∙ sym (find_element-in_found m y x indexed),
      )
