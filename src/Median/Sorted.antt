-- ===== src/Median/Sorted.antt =====
-- The set stays in order and below its size.
use toolchain_cpp.Common.{
  suc, ◌+◌, ◌-◌, ◌≤◌, ◌<◌, ◌≡◌, refl, inl, inr, arith, List, [], ◌∷◌, Option, none, some, leb, ◌==◌,
  leb→le, if◌then◌else◌, length, All, All-mono, Bool-cases, ok,
}
use toolchain_cpp.Common.Int.{ℤ, ltb_ℤ, ◌≤ℤ◌, ≤ℤ_trans}
use toolchain_cpp.Median.{
  IntStreamMedian, insert, without_last, erase_first, erase_last, trim, middle, push,
}

abbrev pub IsSorted : List ℤ → Type 0
IsSorted [] = Unit
IsSorted (x ∷ xs) = All (λ y. x ≤ℤ y) xs × IsSorted xs

pub record IsValid (m : IntStreamMedian) : Type 0 where
  pub large : 3 ≤ m.set_size
  pub few : length m.nums < m.set_size
  pub sorted : IsSorted m.nums

pub length-insert : (x : ℤ) (xs : List ℤ) → length (insert x xs) ≡ suc (length xs)
unfolding insert
length-insert x [] = refl
length-insert x (y ∷ ys) = ground (arith, length-insert x ys)

All-insert :
    (b x : ℤ) (xs : List ℤ) → b ≤ℤ x → All (λ y. b ≤ℤ y) xs → All (λ y. b ≤ℤ y) (insert x xs)
unfolding insert
All-insert b x [] h k = (h, tt)
All-insert b x (y ∷ ys) h k = elim (Bool-cases (ltb_ℤ x y)) [
  | inl e ↦ rw e (h, k)
  | inr e ↦ rw e (k.0, All-insert b x ys h k.1)
]

pub insert-IsSorted : (x : ℤ) (xs : List ℤ) → IsSorted xs → IsSorted (insert x xs)
unfolding insert
insert-IsSorted x [] s = (tt, tt)
insert-IsSorted x (y ∷ ys) s = elim (Bool-cases (ltb_ℤ x y)) [
  | inl e ↦
      let h : x ≤ℤ y = ground arith in rw e ((h, All-mono _ _ ys (λ z. ≤ℤ_trans x y z h) s.0), s)
  | inr e ↦
      let h : y ≤ℤ x = ground arith in rw e (All-insert y x ys h s.0, insert-IsSorted x ys s.1)
]

length-without_last : (x : ℤ) (xs : List ℤ) → length (without_last x xs) ≡ length xs
unfolding without_last
length-without_last x [] = refl
length-without_last x (y ∷ ys) = omega (arith, length-without_last y ys)

All-without_last :
    (b x : ℤ) (xs : List ℤ) → All (λ y. b ≤ℤ y) (x ∷ xs) → All (λ y. b ≤ℤ y) (without_last x xs)
unfolding without_last
All-without_last b x [] h = tt
All-without_last b x (y ∷ ys) h = (h.0, All-without_last b y ys h.1)

without_last-IsSorted : (x : ℤ) (xs : List ℤ) → IsSorted (x ∷ xs) → IsSorted (without_last x xs)
unfolding without_last
without_last-IsSorted x [] s = tt
without_last-IsSorted x (y ∷ ys) s = (All-without_last x y ys s.0, without_last-IsSorted y ys s.1)

-- A list with one entry less that is still in order, or a refusal of the empty list.
abbrev pub Erases : List ℤ → Option (List ℤ) → Type 0
Erases xs none = xs ≡ []
Erases xs (some ys) = (length xs ≡ suc (length ys)) × (IsSorted xs → IsSorted ys)

pub erase_first-Erases : (xs : List ℤ) → Erases xs (erase_first xs)
unfolding erase_first
erase_first-Erases [] = refl
erase_first-Erases (x ∷ xs) = (refl, λ s. s.1)

pub erase_last-Erases : (xs : List ℤ) → Erases xs (erase_last xs)
unfolding erase_last
erase_last-Erases [] = refl
erase_last-Erases (x ∷ xs) = (omega (arith, length-without_last x xs), without_last-IsSorted x xs)

-- Two entries or more can lose both ends.
trim_lem :
    (xs : List ℤ)
    → 2 ≤ length xs
    → IsSorted xs
    → (ys : List ℤ) × (trim xs ≡ some ys) × (length xs ≡ length ys + 2) × IsSorted ys
unfolding trim
trim_lem [] h s = absurd (omega arith)
trim_lem (x ∷ []) h s = absurd (omega arith)
trim_lem (x ∷ y ∷ ys) h s = (
  without_last y ys,
  refl,
  omega (arith, length-without_last y ys),
  (without_last-IsSorted x (y ∷ ys) s).1,
)

-- A push to a valid object succeeds and leaves it valid, with the set in order and room in it for one more number; the
-- set grows by one, or, when the number fills it, loses one.
pub push-IsValid :
    (m : IntStreamMedian) (x : ℤ)
    → IsValid m
    → (m' : IntStreamMedian) × (push m x ≡ ok m')
      × IsValid m'
      × (m'.set_size ≡ m.set_size)
      × (length m'.nums
          ≡ (if suc (length m.nums) == m.set_size then length m.nums - 1 else length m.nums + 1))
unfolding push
push-IsValid m x v = elim (Bool-cases (leb m.set_size (length (insert x m.nums)))) [
  | inl full ↦
      let now = length-insert x m.nums in
      let reached = leb→le _ _ full in
      let (ys, e, l, s) =
        trim_lem (insert x m.nums) (omega (arith, v.large)) (insert-IsSorted x m.nums v.sorted) in
      rw (full, e)
        (
          record m { nums = ys; median = middle (insert x m.nums) },
          refl,
          record { large = v.large; few = omega (arith, v.few); sorted = s },
          refl,
          ground (arith, v.few),
        )
  | inr part ↦
      let now = length-insert x m.nums in
      let below : length (insert x m.nums) < m.set_size = ground arith in
      rw part (
        record m { nums = insert x m.nums; median = middle (insert x m.nums) },
        refl,
        record { large = v.large; few = below; sorted = insert-IsSorted x m.nums v.sorted },
        refl,
        ground arith,
      )
]
