-- ===== src/Adjacency/Setup.antt =====
-- A matrix that is set up for the first time.
use toolchain_cpp.Common.{
  ℕ, suc, ◌+◌, ◌≡◌, refl, sym, subst, ap, ◌∙◌, arith, false, Bool-cases, inl, inr, List, [], ◌∷◌,
  map, none, Bytes, same, length, All, ok,
}
use toolchain_cpp.Adjacency.{
  AdjacencyMatrix, Names, Row, Weights, find_name, find_x_index, find_y_index, index_names, init,
  init_rows, put_name, x_names,
}
use toolchain_cpp.Adjacency.Again.{heads-init_rows}
use toolchain_cpp.Adjacency.Keeping.{HasNames, IsIndexed, IsNamed, row_names, shifted-zero}
use toolchain_cpp.Adjacency.Names.{
  Distinct, find_name-index_names, find_name-put_name, found, found-next, index_of, same_comm,
}
use toolchain_cpp.Adjacency.Sums.{IsWide}

length-put_name :
    (names : Names) (n : Bytes) (i : ℕ)
    → find_name names n ≡ none
    → length (put_name names n i) ≡ suc (length names)
unfolding put_name find_name
length-put_name [] n i h = refl
length-put_name ((m, j) ∷ names) n i h = elim (Bool-cases (same m n)) [
  | inl e ↦ ground arith
  | inr e ↦
      let later : find_name names n ≡ none = ground arith in
      let ih = length-put_name names n i later in ground arith
]

-- None of the names is in the map.
abbrev Fresh : List Bytes → Names → Type 0
Fresh ns names = All (λ x. find_name names x ≡ none) ns

put_name-Fresh :
    (ns : List Bytes) (names : Names) (n : Bytes) (i : ℕ)
    → found (index_of ns n) ≡ false
    → Fresh ns names
    → Fresh ns (put_name names n i)
unfolding index_of
put_name-Fresh [] names n i h f = tt
put_name-Fresh (x ∷ ns) names n i h f =
    let s = same_comm x n in
    let p = found-next (index_of ns n) in
    let put = find_name-put_name names n i x in
    let here : find_name names x ≡ none = f.0 in
    let later : found (index_of ns n) ≡ false = ground arith in
    (ground arith, put_name-Fresh ns names n i later f.1)

length-index_names :
    (index : ℕ) (ns : List Bytes) (names : Names)
    → Distinct ns
    → Fresh ns names
    → length (index_names index ns names) ≡ length names + length ns
unfolding index_names
length-index_names index [] names d f = omega arith
length-index_names index (n ∷ ns) names d f = omega (
  arith,
  length-put_name names n index f.0,
  length-index_names (suc index) ns (put_name names n index) d.1
      (put_name-Fresh ns names n index d.0 f.1),
)

nothing-Fresh : (ns : List Bytes) → Fresh ns []
unfolding find_name
nothing-Fresh [] = tt
nothing-Fresh (n ∷ ns) = (refl, nothing-Fresh ns)

found_in_order :
    (ns : List Bytes) (x : Bytes) → Distinct ns → find_name (index_names 0 ns []) x ≡ index_of ns x
unfolding find_name
found_in_order ns x d = find_name-index_names 0 ns [] x d ∙ shifted-zero (index_of ns x)

module _ {W : Type 0} (weights : Weights W) where
  open weights use {zero_weight}

  abbrev fresh_row : Bytes → List Bytes → Row W
  fresh_row y names =
      map (λ x. record { edge_weight = zero_weight; y_vertex = y; x_vertex = x }) names

  row_names-fresh_row : (y : Bytes) (names : List Bytes) → row_names (fresh_row y names) ≡ names
  row_names-fresh_row y [] = refl
  row_names-fresh_row y (x ∷ names) = ap (λ ns. x ∷ ns) (row_names-fresh_row y names)

  length-fresh_row : (y : Bytes) (names : List Bytes) → length (fresh_row y names) ≡ length names
  length-fresh_row y [] = refl
  length-fresh_row y (x ∷ names) = ap suc (length-fresh_row y names)

  init_rows-IsNamed : (ys names : List Bytes) → IsNamed names (init_rows weights ys names)
  unfolding init_rows
  init_rows-IsNamed [] names = tt
  init_rows-IsNamed (y ∷ ys) names = (row_names-fresh_row y names, init_rows-IsNamed ys names)

  init_rows-IsWide : (ys names : List Bytes) → IsWide (length names) (init_rows weights ys names)
  unfolding init_rows
  init_rows-IsWide [] names = tt
  init_rows-IsWide (y ∷ ys) names = (length-fresh_row y names, init_rows-IsWide ys names)

  x_names-init_rows : (names : List Bytes) → x_names (init_rows weights names names) ≡ names
  unfolding x_names init_rows
  x_names-init_rows [] = refl
  x_names-init_rows (y ∷ ys) = row_names-fresh_row y (y ∷ ys)

  -- The matrix of the names, all of whose weights are zero.
  abbrev blank : List Bytes → AdjacencyMatrix W
  blank names = record {
    size = length names;
    matr = init_rows weights names names;
    vertex_names = names;
    x_vertex_names = index_names 0 names [];
    y_vertex_names = index_names 0 names [];
  }

  init-blank :
      (m : AdjacencyMatrix W) (names : List Bytes)
      → m.x_vertex_names ≡ []
      → m.y_vertex_names ≡ []
      → Distinct names
      → init weights m names ≡ ok (blank names)
  unfolding init
  init-blank m names ex ey d =
      let xs = x_names-init_rows names in
      let heads = heads-init_rows weights names in
      let l = length-index_names 0 names [] d (nothing-Fresh names) in ground arith

  -- A matrix without names in its maps is set up with different names. Then no assertion fails, each row has
  -- as many entries as its size says and the given names, and the two maps lead to the places of the names.
  pub init-HasNames :
      (m : AdjacencyMatrix W) (names : List Bytes)
      → m.x_vertex_names ≡ []
      → m.y_vertex_names ≡ []
      → Distinct names
      → (m' : AdjacencyMatrix W) × (init weights m names ≡ ok m')
        × (m'.size ≡ length names)
        × IsWide m'.size m'.matr
        × (x_names m'.matr ≡ names)
        × HasNames m'.matr
        × IsIndexed m'
        × ((y : Bytes) → find_y_index m' y ≡ index_of names y)
  unfolding find_y_index find_x_index
  init-HasNames m names ex ey d =
      let xs = x_names-init_rows names in
      (
        blank names,
        init-blank m names ex ey d,
        refl,
        init_rows-IsWide names names,
        xs,
        record {
          named =
              subst (λ ns. IsNamed ns (blank names).matr) (sym xs) (init_rows-IsNamed names names);
          distinct = subst (λ ns. Distinct ns) (sym xs) d;
        },
        λ x. found_in_order names x d ∙ ap (λ ns. index_of ns x) (sym xs),
        λ y. found_in_order names y d,
      )
