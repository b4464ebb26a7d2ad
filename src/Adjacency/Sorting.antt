-- ===== src/Adjacency/Sorting.antt =====
-- `sort_columns` ends, with the columns in the order of their sums.
use toolchain_cpp.Common.{
  ℕ, zero, suc, ◌+◌, ◌-◌, ◌*◌, ◌<◌, ◌≤◌, ◌≡◌, refl, ap, subst, ◌⊎◌, inl, inr, arith, Bool, true,
  false, Bool-cases, List, map, some, get_elem?, ok,
}
use toolchain_cpp.Adjacency.{AdjacencyMatrix, Row, Weights, name_columns}
use toolchain_cpp.Adjacency.Sort.{sort_columns, sort_loop, sort_pass, sort_step}
use toolchain_cpp.Adjacency.Swaps.{
  adj, lengths-adj, Shuffles, done, swap, Shuffles-trans, inversions, inversions-adj, inversions-le,
}
use toolchain_cpp.Adjacency.Sums.{
  IsWide, with_rows, column_sums, column_sums-adj, length-column_sums, sum_column-sums,
  swap_columns-adj,
}

le-cases : (i j : ℕ) → i ≤ j → (i ≡ j) ⊎ (i < j)
le-cases zero zero h = inl refl
le-cases zero (suc j) h = inr (omega arith)
le-cases (suc i) zero h = absurd (omega arith)
le-cases (suc i) (suc j) h = elim (le-cases i j (omega arith)) [
  | inl e ↦ inl (ap suc e)
  | inr g ↦ inr (omega arith)
]

from_first : (i j : ℕ) (P : ℕ → Type 0) → P i → i ≤ j → (i < j → P j) → P j
from_first i j P p l f = elim (le-cases i j l) [ inl e ↦ subst P e p | inr g ↦ f g ]

module _ {W : Type 0} (weights : Weights W) where
  open weights use {less}

  -- The sum of the column `j` is not less than that of the next one.
  abbrev pub Falls : List W → ℕ → Type 0
  Falls ks j =
      (a b : W) → get_elem? ks j ≡ some a → get_elem? ks (suc j) ≡ some b → less a b ≡ false

  -- What a step or a pass leaves: fewer inversions, with columns exchanged.
  pub record Improves (n : ℕ) (rows rows' : List (Row W)) : Type 0 where
    pub wide : IsWide n rows'
    pub shuffled : Shuffles rows rows'
    pub fewer :
        inversions less (column_sums weights n rows') < inversions less (column_sums weights n rows)

  Improves-trans :
      (n : ℕ) (rows between rows' : List (Row W))
      → Improves n rows between
      → Improves n between rows'
      → Improves n rows rows'
  Improves-trans n rows between rows' h k = record {
    wide = k.wide;
    shuffled = Shuffles-trans h.shuffled k.shuffled;
    fewer = omega (arith, h.fewer, k.fewer);
  }

  module _ (asymmetric : (a b : W) → less a b ≡ true → less b a ≡ false) where
    step_lem :
        (m : AdjacencyMatrix W) (i : ℕ) (sorted : Bool)
        → suc i < m.size
        → IsWide m.size m.matr
        → ((sort_step weights i m sorted ≡ ok (m, sorted))
            × Falls (column_sums weights m.size m.matr) i)
          ⊎ ((rows : List (Row W)) × (sort_step weights i m sorted ≡ ok (with_rows m rows, false))
              × Improves m.size m.matr rows)
    unfolding sort_step
    step_lem m i sorted h w =
        let (a, p, k) = sum_column-sums weights m i (omega arith) w in
        let (b, q, l) = sum_column-sums weights m (suc i) h w in
        let swapped = swap_columns-adj m i h w in
        let keys = column_sums weights m.size m.matr in
        let moved : inversions less (column_sums weights m.size (map (adj i) m.matr))
            ≡ inversions less (adj i keys) =
          ap (inversions less) (column_sums-adj weights m.size i m.matr w) in
        elim (Bool-cases (less a b)) [
          | inr e ↦ inl (ground arith, λ c d f g. cc)
          | inl e ↦
              let dropped = inversions-adj less i keys a b k l e (asymmetric a b e) in
              inr (
                map (adj i) m.matr,
                ground arith,
                record {
                  wide = lengths-adj m.size i m.matr w;
                  shuffled = swap i done;
                  fewer = omega (arith, moved, dropped);
                },
              )
        ]

    pass_lem :
        (rounds i : ℕ) (m : AdjacencyMatrix W) (sorted : Bool)
        → i + rounds ≤ m.size - 1
        → IsWide m.size m.matr
        → ((sort_pass weights rounds i m sorted ≡ ok (m, sorted))
            × ((j : ℕ) → i ≤ j → j < i + rounds → Falls (column_sums weights m.size m.matr) j))
          ⊎ ((rows : List (Row W)) × (sort_pass weights rounds i m sorted
                ≡ ok (with_rows m rows, false))
              × Improves m.size m.matr rows)
    unfolding sort_pass
    pass_lem zero i m sorted h w = inl (refl, λ j l k. absurd (omega arith))
    pass_lem (suc rounds) i m sorted h w = elim (step_lem m i sorted (omega arith) w) [
      | inl (e, falls) ↦ elim (pass_lem rounds (suc i) m sorted (omega arith) w) [
        | inl (r, later) ↦ inl (
          rw e r,
          λ j l k.
              from_first i j (Falls (column_sums weights m.size m.matr)) falls l
                (λ g. later j g (omega arith)),
        )
        | inr (rows, r, better) ↦ inr (rows, rw e r, better)
      ]
      | inr (rows, e, better) ↦
          elim (pass_lem rounds (suc i) (with_rows m rows) false (omega arith) better.wide) [
            | inl (r, later) ↦ inr (rows, rw e r, better)
            | inr (rows', r, more) ↦
                inr (rows', rw e r, Improves-trans m.size m.matr rows rows' better more)
          ]
    ]

    loop_lem :
        (fuel : ℕ) (m : AdjacencyMatrix W)
        → inversions less (column_sums weights m.size m.matr) < fuel
        → IsWide m.size m.matr
        → (rows : List (Row W)) × (sort_loop weights fuel m ≡ some (ok (with_rows m rows)))
          × Shuffles m.matr rows
          × ((j : ℕ) → suc j < m.size → Falls (column_sums weights m.size rows) j)
    unfolding sort_loop
    loop_lem zero m h w = absurd (omega arith)
    loop_lem (suc fuel) m h w = elim (pass_lem (m.size - 1) 0 m true (omega arith) w) [
      | inl (e, falls) ↦
          (m.matr, rw (e, sort_loop) refl, done, λ j l. falls j (omega arith) (omega arith))
      | inr (rows, e, better) ↦
          let (rows', r, shuffled, falls) =
            loop_lem fuel (with_rows m rows) (omega (arith, better.fewer, h)) better.wide in
          (rows', rw (e, sort_loop) r, Shuffles-trans better.shuffled shuffled, falls)
    ]

    -- A matrix whose rows have as many entries as its size says, over weights of which no two are each less than the
    -- other. Then `sort_columns` ends within one more than the square of the size of rounds of its outer loop. It
    -- exchanges neighbouring columns only, the same ones in each row, and leaves no column whose sum is less than that of the next one.
    pub sort_columns-Falls :
        (fuel : ℕ) (m : AdjacencyMatrix W)
        → IsWide m.size m.matr
        → m.size * m.size < fuel
        → (rows : List (Row W)) × (sort_columns weights fuel m
            ≡ some (ok (name_columns (with_rows m rows))))
          × Shuffles m.matr rows
          × ((j : ℕ) → suc j < m.size → Falls (column_sums weights m.size rows) j)
    unfolding sort_columns
    sort_columns-Falls fuel m w h =
        let keys = column_sums weights m.size m.matr in
        let few =
          subst (λ n. inversions less keys ≤ n * n) (length-column_sums weights m.size m.matr)
            (inversions-le less keys) in
        let (rows, e, shuffled, falls) = loop_lem fuel m (omega arith) w in
        (rows, rw (e, sort_columns) refl, shuffled, falls)
