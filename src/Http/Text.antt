-- ===== src/Http/Text.antt =====
-- The standard library's text functions that network/http-common.cpp calls, and the interface of the
-- functions of boost::algorithm, which are not part of the repository.
use toolchain_cpp.Common.{
  ℕ, suc, ◌+◌, ◌-◌, ◌*◌, Bool, ◌&&◌, ◌||◌, List, [], ◌∷◌, Option, none, some, leb, ◌==◌,
  if◌then◌else◌, Bytes, take, drop,
}

-- `trim_left_if` and `trim_right_if` with `is_any_of`, `split` with `token_compress_on`, and `to_upper`; the
-- first argument of the first two is the set of characters.
pub record BoostAlgorithm : Type 0 where
  pub trim : Bytes → Bytes → Bytes
  pub split : Bytes → Bytes → List Bytes
  pub to_upper : Bytes → Bytes

-- `find` of one character, counted from the beginning of the text.
unfoldable pub find_char : ℕ → Bytes → Option ℕ
find_char c [] = none
find_char c (x ∷ xs) =
    if x == c then some 0 else elim (find_char c xs) [ none ↦ none | some i ↦ some (suc i) ]

abbrev pub substr : Bytes → ℕ → ℕ → Bytes
substr s pos count = take count (drop pos s)

abbrev pub is_digit : ℕ → Bool
is_digit c = leb b'0' c && leb c b'9'

-- `isspace` in the C locale.
abbrev pub is_space : ℕ → Bool
is_space c = c == b' ' || (leb 9 c && leb c 13)

unfoldable pub digits_value : ℕ → Bytes → ℕ
digits_value acc [] = acc
digits_value acc (c ∷ cs) =
    let more = digits_value (acc * 10 + (c - b'0')) cs in if is_digit c then more else acc

unfoldable pub skip_spaces : Bytes → Bytes
skip_spaces [] = []
skip_spaces (c ∷ cs) = let rest = skip_spaces cs in if is_space c then rest else c ∷ cs

unfoldable pub signed_value : Bytes → ℕ
unfolding digits_value
signed_value [] = 0
signed_value (c ∷ cs) =
    if c == b'-' then 0 else if c == b'+' then digits_value 0 cs else digits_value 0 (c ∷ cs)

-- `max(atol(s), 0)`: a text that does not begin with a number counts as 0, and so does a negative one. The
-- value stays within `long` for fewer than 19 digits, beyond which `atol` has no defined result.
unfoldable pub nonnegative_atol : Bytes → ℕ
unfolding skip_spaces signed_value
nonnegative_atol s = signed_value (skip_spaces s)
