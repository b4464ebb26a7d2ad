-- ===== src/Median/Resize.antt =====
-- A change of the set's size.
use toolchain_cpp.Common.{
  ℕ, zero, suc, ◌+◌, ◌-◌, ◌/◌, ◌≤◌, ◌<◌, ◌≡◌, refl, inl, inr, arith, List, [], ◌∷◌, Option, none,
  some, ltb, length, Bool-cases, leb, undefined, Outcome, returns, throws, aborts, faults, ltb→lt,
  leb→le, ltb_false→le,
}
use toolchain_cpp.Common.Int.{ℤ}
use toolchain_cpp.Median.{IntStreamMedian, erase_firsts, erase_lasts, push, set_nums_set_size}
use toolchain_cpp.Median.Sorted.{IsSorted, IsValid, erase_first-Erases, erase_last-Erases}

-- Erasing `k` entries succeeds exactly when there are so many.
abbrev Drops : ℕ → List ℤ → Option (List ℤ) → Type 0
Drops k xs none = length xs < k
Drops k xs (some ys) = (length xs ≡ k + length ys) × (IsSorted xs → IsSorted ys)

Drops-suc :
    (k : ℕ) (xs ys : List ℤ) (o : Option (List ℤ))
    → (length xs ≡ suc (length ys)) × (IsSorted xs → IsSorted ys)
    → Drops k ys o
    → Drops (suc k) xs o
Drops-suc k xs ys none e d = omega arith
Drops-suc k xs ys (some zs) e d = (omega arith, λ s. d.1 (e.1 s))

erase_firsts-Drops : (k : ℕ) (xs : List ℤ) → Drops k xs (erase_firsts k xs)
unfolding erase_firsts
erase_firsts-Drops zero xs = (omega arith, λ s. s)
erase_firsts-Drops (suc k) [] = omega arith
erase_firsts-Drops (suc k) (x ∷ xs) =
    Drops-suc k (x ∷ xs) xs (erase_firsts k xs) (erase_first-Erases (x ∷ xs))
      (erase_firsts-Drops k xs)

erase_lasts-Drops : (k : ℕ) (xs : List ℤ) → Drops k xs (erase_lasts k xs)
unfolding erase_lasts
erase_lasts-Drops zero xs = (omega arith, λ s. s)
erase_lasts-Drops (suc k) [] = omega arith
erase_lasts-Drops (suc k) (x ∷ xs) =
    Drops-suc k (x ∷ xs) _ (erase_lasts k _) (erase_last-Erases (x ∷ xs)) (erase_lasts-Drops k _)

-- What a change to size `n` does to a valid object.
abbrev pub Resizes : IntStreamMedian → ℕ → Outcome IntStreamMedian → Type 0
Resizes m n (returns m') =
    (3 ≤ n) × IsValid m' × (m'.set_size ≡ n) × (length m'.nums + (m.set_size - n) ≡ length m.nums)
Resizes m n (throws m') = (n < 3) × (m' ≡ record m { set_size = n })
Resizes m n aborts = ⊥
Resizes m n faults = length m.nums < m.set_size - n

module _ (m : IntStreamMedian) (n : ℕ) (v : IsValid m) (h : 3 ≤ n) (l : n < m.set_size) where
  abbrev less : ℕ
  less = m.set_size - n

  last_erased : List ℤ → Outcome IntStreamMedian
  last_erased left = returns (record m { set_size = n; nums = left })

  after_lasts :
      (rest : List ℤ) (o : Option (List ℤ))
      → (length m.nums ≡ less / 2 + length rest) × (IsSorted m.nums → IsSorted rest)
      → Drops (less - less / 2) rest o
      → Resizes m n (elim o [ none ↦ faults | some left ↦ last_erased left ])
  unfolding last_erased
  after_lasts rest none e d = omega arith
  after_lasts rest (some left) e d = (
    h,
    record { large = h; few = omega (arith, v.few); sorted = d.1 (e.1 v.sorted) },
    refl,
    omega arith,
  )

  after_firsts :
      (o : Option (List ℤ))
      → Drops (less / 2) m.nums o
      → Resizes m n (elim o [
        | none ↦ faults
        | some rest ↦ elim (erase_lasts (less - less / 2) rest) [
          | none ↦ faults
          | some left ↦ last_erased left
        ]
      ])
  after_firsts none d = omega arith
  after_firsts (some rest) d = after_lasts rest _ d (erase_lasts-Drops (less - less / 2) rest)

-- On a valid object, a size below 3 throws and is stored; any other size is taken, the object stays valid, and it loses
-- one number for each place less; only when it has fewer numbers than that it erases from an empty set.
pub set_nums_set_size-Resizes :
    (m : IntStreamMedian) (n : ℕ) → IsValid m → Resizes m n (set_nums_set_size m n)
unfolding set_nums_set_size
set_nums_set_size-Resizes m n v = elim (Bool-cases (ltb n 3)) [
  | inl low ↦ rw low (ltb→lt _ _ low, refl)
  | inr fine ↦ elim (Bool-cases (leb m.set_size n)) [
    | inl up ↦
        let larger = leb→le _ _ up in
        rw (fine, up)
          (
            ltb_false→le _ _ fine,
            record { large = ltb_false→le _ _ fine; few = omega (arith, v.few); sorted = v.sorted },
            refl,
            omega arith,
          )
    | inr down ↦
        rw (fine, down)
          (unfold last_erased in
            after_firsts m n v (ltb_false→le _ _ fine) (ground arith) _
              (erase_firsts-Drops ((m.set_size - n) / 2) m.nums))
  ]
]

-- A valid object with fewer numbers than the places that it loses erases from an empty set, for every new size of at
-- least 3.
pub resize_faults :
    (m : IntStreamMedian) (n : ℕ)
    → IsValid m
    → 3 ≤ n
    → length m.nums < m.set_size - n
    → set_nums_set_size m n ≡ faults
resize_faults m n v h few = only (set_nums_set_size m n) (set_nums_set_size-Resizes m n v)
  where
    only : (o : Outcome IntStreamMedian) → Resizes m n o → o ≡ faults
    only (returns m') r = absurd (omega arith)
    only (throws m') r = absurd (omega arith)
    only aborts r = absurd r
    only faults r = refl

-- An empty object with a size of 0 or 1, such as a refused change of size leaves, faults on the next push.
pub push_after_refusal :
    (m : IntStreamMedian) (n : ℕ) (x : ℤ)
    → n ≤ 1
    → m.nums ≡ []
    → push (record m { set_size = n }) x ≡ undefined
unfolding push
push_after_refusal m n x h e = rw e (ground arith)
