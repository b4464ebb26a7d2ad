-- ===== src/Median.antt =====
-- common/stream-median.cpp: `IntStreamMedian`. The multiset is the list of its entries in order; the
-- entries are only compared, so they are integers with no bounds.
pub mod Sorted
pub mod Rank
pub mod Resize
mod Examples
use toolchain_cpp.Common.{
  ℕ, zero, suc, ◌-◌, ◌/◌, List, [], ◌∷◌, Option, none, some, ltb, leb, if◌then◌else◌, length,
  get_or, Result, ok, raised, undefined, Outcome, returns, throws, faults,
}
use toolchain_cpp.Common.Int.{ℤ, pos, ltb_ℤ}

abbrev pub min_available_set_size : ℕ
min_available_set_size = 3

pub record IntStreamMedian : Type 0 where
  pub set_size : ℕ
  pub nums : List ℤ
  pub median : ℤ

-- The constructor.
pub make : ℕ → Result IntStreamMedian
make set_size =
    if ltb set_size min_available_set_size
    then raised
    else ok (record { set_size = set_size; nums = []; median = pos 0 })

-- `std::multiset::insert`: behind the entries that are equal.
pub insert : ℤ → List ℤ → List ℤ
insert x [] = x ∷ []
insert x (y ∷ ys) = if ltb_ℤ x y then x ∷ y ∷ ys else y ∷ insert x ys

-- `nums.erase(nums.begin())`: nothing may be erased from an empty set.
pub erase_first : List ℤ → Option (List ℤ)
erase_first [] = none
erase_first (x ∷ xs) = some xs

pub without_last : ℤ → List ℤ → List ℤ
without_last x [] = []
without_last x (y ∷ ys) = x ∷ without_last y ys

-- `nums.erase(--nums.end())`
pub erase_last : List ℤ → Option (List ℤ)
unfolding without_last
erase_last [] = none
erase_last (x ∷ xs) = some (without_last x xs)

-- `*mid`, where `mid` falls back to the beginning.
pub middle : List ℤ → ℤ
middle nums = get_or nums (length nums / 2) (get_or nums 0 (pos 0))

-- Both ends are erased once the set is full.
pub trim : List ℤ → Option (List ℤ)
unfolding erase_first erase_last
trim nums = elim (erase_last nums) [ none ↦ none | some rest ↦ erase_first rest ]

pub push : IntStreamMedian → ℤ → Result IntStreamMedian
unfolding insert middle trim
push m num =
    let nums = insert num m.nums in
    if leb m.set_size (length nums)
    then elim (trim nums) [
      | none ↦ undefined
      | some rest ↦ ok (record m { nums = rest; median = middle nums })
    ]
    else ok (record m { nums = nums; median = middle nums })

pub reset : IntStreamMedian → IntStreamMedian
reset m = record m { nums = []; median = pos 0 }

pub erase_firsts : ℕ → List ℤ → Option (List ℤ)
unfolding erase_first
erase_firsts zero nums = some nums
erase_firsts (suc k) nums = elim (erase_first nums) [
  | none ↦ none
  | some rest ↦ erase_firsts k rest
]

pub erase_lasts : ℕ → List ℤ → Option (List ℤ)
unfolding erase_last
erase_lasts zero nums = some nums
erase_lasts (suc k) nums = elim (erase_last nums) [ none ↦ none | some rest ↦ erase_lasts k rest ]

-- Half of what the set shrinks by goes from the front, the rest from the back. The check comes after
-- the assignment, so the exception leaves the new size in place.
pub set_nums_set_size : IntStreamMedian → ℕ → Outcome IntStreamMedian
unfolding erase_firsts erase_lasts
set_nums_set_size m set_size =
    let resized = record m { set_size = set_size } in
    let chomp_size = (m.set_size - set_size) / 2 in
    if ltb set_size min_available_set_size
    then throws resized
    else if leb m.set_size set_size
    then returns resized
    else elim (erase_firsts chomp_size m.nums) [
      | none ↦ faults
      | some rest ↦ elim (erase_lasts (m.set_size - set_size - chomp_size) rest) [
        | none ↦ faults
        | some left ↦ returns (record resized { nums = left })
      ]
    ]
