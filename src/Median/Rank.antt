-- ===== src/Median/Rank.antt =====
-- What `push` makes the median: an entry with at most half of the entries on either side of it.
use toolchain_cpp.Common.{
  ℕ, zero, suc, ◌+◌, ◌*◌, ◌/◌, ◌≤◌, ◌<◌, ◌≡◌, refl, ◌⊎◌, inl, inr, arith, List, [], ◌∷◌, Bool,
  if◌then◌else◌, length, get_or, All, ok,
}
use toolchain_cpp.Common.Int.{ℤ, pos, ltb_ℤ, ◌≤ℤ◌}
use toolchain_cpp.Median.{IntStreamMedian, insert, middle, push}
use toolchain_cpp.Median.Sorted.{IsSorted, IsValid, length-insert, insert-IsSorted}

abbrev pub In : ℤ → List ℤ → Type 0
In v [] = ⊥
In v (x ∷ xs) = (v ≡ x) ⊎ In v xs

abbrev pub count : (ℤ → Bool) → List ℤ → ℕ
count p [] = 0
count p (x ∷ xs) = (if p x then 1 else 0) + count p xs

abbrev pub count_below : ℤ → List ℤ → ℕ
count_below v = count (λ x. ltb_ℤ x v)

abbrev pub count_above : ℤ → List ℤ → ℕ
count_above v = count (λ x. ltb_ℤ v x)

count-insert : (p : ℤ → Bool) (x : ℤ) (xs : List ℤ) → count p (insert x xs) ≡ count p (x ∷ xs)
unfolding insert
count-insert p x [] = refl
count-insert p x (y ∷ ys) = ground (arith, count-insert p x ys)

In-insert : (v x : ℤ) (xs : List ℤ) → In v (insert x xs) → In v (x ∷ xs)
unfolding insert
In-insert v x [] h = h
In-insert v x (y ∷ ys) h = ground (arith, In-insert v x ys)

In-get_or : (xs : List ℤ) (i : ℕ) (d : ℤ) → i < length xs → In (get_or xs i d) xs
In-get_or [] i d h = absurd (omega arith)
In-get_or (x ∷ xs) zero d h = inl refl
In-get_or (x ∷ xs) (suc i) d h = inr (In-get_or xs i d (omega arith))

count_le : (p : ℤ → Bool) (xs : List ℤ) → count p xs ≤ length xs
count_le p [] = omega arith
count_le p (x ∷ xs) = ground (arith, count_le p xs)

-- Nothing is below a lower bound.
count_below-All : (v : ℤ) (xs : List ℤ) → All (λ y. v ≤ℤ y) xs → count_below v xs ≡ 0
count_below-All v [] h = refl
count_below-All v (x ∷ xs) h = ground (arith, count_below-All v xs h.1)

All-get_or :
    (b : ℤ) (xs : List ℤ) (i : ℕ) (d : ℤ)
    → i < length xs
    → All (λ y. b ≤ℤ y) xs
    → b ≤ℤ get_or xs i d
All-get_or b [] i d h k = absurd (omega arith)
All-get_or b (x ∷ xs) zero d h k = k.0
All-get_or b (x ∷ xs) (suc i) d h k = All-get_or b xs i d (omega arith) k.1

-- In order, the entry at `i` has at most `i` entries below it, and none above it up to there.
below_at :
    (xs : List ℤ) (i : ℕ) (d : ℤ) → i < length xs → IsSorted xs → count_below (get_or xs i d) xs ≤ i
below_at [] i d h s = absurd (omega arith)
below_at (x ∷ xs) zero d h s = ground (arith, count_below-All x xs s.0)
below_at (x ∷ xs) (suc i) d h s = ground (arith, below_at xs i d (omega arith) s.1)

above_at :
    (xs : List ℤ) (i : ℕ) (d : ℤ)
    → i < length xs
    → IsSorted xs
    → count_above (get_or xs i d) xs + i < length xs
above_at [] i d h s = absurd (omega arith)
above_at (x ∷ xs) zero d h s = ground (arith, count_le (λ y. ltb_ℤ x y) xs)
above_at (x ∷ xs) (suc i) d h s =
    ground (arith, above_at xs i d (omega arith) s.1, All-get_or x xs i d (omega arith) s.0)

push-middle :
    (m m' : IntStreamMedian) (x : ℤ) → push m x ≡ ok m' → m'.median ≡ middle (insert x m.nums)
unfolding push
push-middle m m' x h = ground arith

pub record IsMedian (v : ℤ) (xs : List ℤ) : Type 0 where
  pub member : In v xs
  pub below : count_below v xs * 2 ≤ length xs
  pub above : count_above v xs * 2 ≤ length xs

middle-IsMedian : (xs : List ℤ) → 0 < length xs → IsSorted xs → IsMedian (middle xs) xs
unfolding middle
middle-IsMedian xs h s =
    let i = length xs / 2 in
    let d = get_or xs 0 (pos 0) in
    record {
      member = In-get_or xs i d (omega arith);
      below = omega (arith, below_at xs i d (omega arith) s);
      above = omega (arith, above_at xs i d (omega arith) s);
    }

-- After a push to a valid object the median is one of the numbers that were in the set with the new one, at most half of
-- them are smaller, and at most half are greater.
pub push-IsMedian :
    (m m' : IntStreamMedian) (x : ℤ)
    → IsValid m
    → push m x ≡ ok m'
    → IsMedian m'.median (x ∷ m.nums)
push-IsMedian m m' x v h =
    let all = insert x m.nums in
    let one =
      middle-IsMedian all (omega (arith, length-insert x m.nums))
        (insert-IsSorted x m.nums v.sorted) in
    rw (push-middle m m' x h) (record {
      member = In-insert _ x m.nums one.member;
      below = omega (
        arith,
        one.below,
        count-insert (λ y. ltb_ℤ y (middle all)) x m.nums,
        length-insert x m.nums,
      );
      above = omega (
        arith,
        one.above,
        count-insert (λ y. ltb_ℤ (middle all) y) x m.nums,
        length-insert x m.nums,
      );
    })
