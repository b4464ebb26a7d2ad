-- ===== src/Adjacency/Again.antt =====
-- A matrix that is set up again: `clear` leaves the maps of the names.
use toolchain_cpp.Common.{
  ℕ, suc, ◌<◌, ◌≤◌, ◌≡◌, refl, arith, List, [], ◌∷◌, Bytes, length, ok, aborted,
}
use toolchain_cpp.Adjacency.{
  AdjacencyMatrix, Names, Weights, index_names, init, init_rows, put_name, x_names, y_names,
}

put_name-le : (names : Names) (n : Bytes) (i : ℕ) → length names ≤ length (put_name names n i)
unfolding put_name
put_name-le [] n i = omega arith
put_name-le ((m, j) ∷ names) n i = let ih = put_name-le names n i in ground arith

index_names-le :
    (index : ℕ) (ns : List Bytes) (names : Names)
    → length names ≤ length (index_names index ns names)
unfolding index_names
index_names-le index [] names = omega arith
index_names-le index (n ∷ ns) names =
    omega (arith, index_names-le (suc index) ns (put_name names n index), put_name-le names n index)

module _ {W : Type 0} (weights : Weights W) where
  y_names-init_rows :
      (ys : List Bytes) (n : Bytes) (ns : List Bytes)
      → y_names (init_rows weights ys (n ∷ ns)) ≡ ok ys
  unfolding y_names init_rows
  y_names-init_rows [] n ns = refl
  y_names-init_rows (y ∷ ys) n ns = rw (y_names-init_rows ys n ns) refl

  pub heads-init_rows : (names : List Bytes) → y_names (init_rows weights names names) ≡ ok names
  unfolding y_names init_rows
  heads-init_rows [] = refl
  heads-init_rows (n ∷ ns) = y_names-init_rows (n ∷ ns) n ns

  -- A matrix whose map of the columns has more names than the list that it is set up with, as after a larger graph,
  -- whether or not it is cleared before: an assertion fails.
  pub init-shrinks :
      (m : AdjacencyMatrix W) (names : List Bytes)
      → length names < length m.x_vertex_names
      → init weights m names ≡ aborted
  unfolding init
  init-shrinks m names h =
      let heads = heads-init_rows names in
      let more = index_names-le 0 (x_names (init_rows weights names names)) m.x_vertex_names in
      ground arith
