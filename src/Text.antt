-- ===== src/Text.antt =====
-- common/stringutils.cpp: `endswith`, the trims, `is_in` and `hamming`, over the octets of a text. `isspace` is that of
-- the C locale.
pub mod Hamming
pub mod Ends
mod Examples
use toolchain_cpp.Common.{
  ℕ, ◌+◌, ◌-◌, Bool, true, false, ◌&&◌, ◌||◌, not, List, [], ◌∷◌, ◌++◌, ◌==◌, leb, ltb, ◌%◌, Result,
  ok, undefined, if◌then◌else◌, min, max, Bytes, same, length,
}
use toolchain_cpp.Common.Int.{ℤ, to_int}

-- From the last octet to the first.
pub backwards : Bytes → Bytes → Bytes
backwards [] out = out
backwards (c ∷ s) out = backwards s (c ∷ out)

-- `std::equal` of a range and the beginning of another one.
pub equal_front : Bytes → Bytes → Bool
equal_front [] s = true
equal_front (c ∷ with) [] = false
equal_front (c ∷ with) (d ∷ s) = c == d && equal_front with s

pub endswith : Bytes → Bytes → Bool
endswith s [] = true
endswith s (c ∷ with) =
    leb (length (c ∷ with)) (length s) && equal_front (backwards (c ∷ with) []) (backwards s [])

abbrev pub isspace : ℕ → Bool
isspace c = c == 32 || (leb 9 c && leb c 13)

pub ltrim : Bytes → Bytes
ltrim [] = []
ltrim (c ∷ s) = let rest = ltrim s in if isspace c then rest else c ∷ s

pub rtrim : Bytes → Bytes
rtrim s = backwards (ltrim (backwards s [])) []

pub strip : Bytes → Bytes
strip s = ltrim (rtrim s)

pub is_in : Bytes → List Bytes → Bool
is_in s [] = false
is_in s (el ∷ lst) = let later = is_in s lst in if same el s then true else later

-- The loop to the smaller size.
pub differing : Bytes → Bytes → ℕ
differing [] ds = 0
differing (c ∷ cs) [] = 0
differing (c ∷ cs) (d ∷ ds) = (if not (c == d) then 1 else 0) + differing cs ds

-- The count is an `int`, whose overflow is undefined; the difference of the sizes is added as a `size_t`.
pub hamming : Bytes → Bytes → Result ℤ
hamming cs ds =
    let ret = differing cs ds in
    let size_max = max (length cs) (length ds) in
    let size_min = min (length cs) (length ds) in
    if ltb ret 2147483648
    then ok (to_int ((ret + (size_max - size_min)) % 18446744073709551616))
    else undefined
