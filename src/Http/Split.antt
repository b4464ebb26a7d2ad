-- ===== src/Http/Split.antt =====
-- common/stringutils.cpp: `split_by_substr`. A position in the text is the rest of the text from there on.
-- Each round of the two loops takes fuel, and none is a loop that goes on.
pub mod Termination
pub mod Pieces
use toolchain_cpp.Common.{
  ℕ, zero, suc, Bool, true, false, ◌&&◌, List, [], ◌∷◌, Option, none, some, ◌==◌, if◌then◌else◌,
  Bytes, length, take, drop,
}

unfoldable pub is_prefix : Bytes → Bytes → Bool
is_prefix [] text = true
is_prefix (d ∷ ds) [] = false
is_prefix (d ∷ ds) (x ∷ xs) = let rest = is_prefix ds xs in if d == x then rest else false

abbrev pub next_place : Option ℕ → Option ℕ
next_place none = none
next_place (some i) = some (suc i)

-- `find`, counted from the beginning of the rest.
unfoldable pub find_substr : Bytes → Bytes → Option ℕ
find_substr delim [] = if is_prefix delim [] then some 0 else none
find_substr delim (x ∷ xs) =
    let later = find_substr delim xs in
    if is_prefix delim (x ∷ xs) then some 0 else next_place later

-- The inner loop: the delimiters at the position are passed over.
unfoldable pub skip_substr : ℕ → Bytes → Bytes → Option Bytes
skip_substr zero delim rest = none
skip_substr (suc fuel) delim rest =
    let more = skip_substr fuel delim (drop (length delim) rest) in
    if is_prefix delim rest then more else some rest

abbrev pub last_piece : Bytes → List Bytes
last_piece [] = []
last_piece rest = rest ∷ []

abbrev pub with_first : Bytes → Option (List Bytes) → Option (List Bytes)
with_first piece none = none
with_first piece (some pieces) = some (piece ∷ pieces)

-- The rest of a round, behind the inner loop; `later` is what the further rounds add.
abbrev pub cut : Bool → Bytes → Option ℕ → Option (List Bytes) → Option (List Bytes)
cut stop rest none later = some (last_piece rest)
cut stop rest (some n) later =
    if stop then some (take n rest ∷ []) else with_first (take n rest) later

abbrev pub rest_after : Bytes → Option ℕ → Bytes
rest_after rest none = []
rest_after rest (some n) = drop n rest

-- The outer loop; `have_one` when there is a piece already.
unfoldable pub split_from : ℕ → Bytes → Bool → Bool → Bytes → Option (List Bytes)
split_from zero delim only_first have_one text = none
split_from (suc fuel) delim only_first have_one text =
    elim (skip_substr (suc (length text)) delim text) [
      | none ↦ none
      | some rest ↦
          let next = find_substr delim rest in
          let later = split_from fuel delim only_first true (rest_after rest next) in
          cut (only_first && have_one) rest next later
    ]

unfoldable pub split_by_substr : Bytes → Bytes → Bool → Option (List Bytes)
unfolding split_from
split_by_substr text delim only_first = split_from (suc (length text)) delim only_first false text
