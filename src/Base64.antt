-- ===== src/Base64.antt =====
-- common/stringutils.cpp: `Base64Encoding`, `base64_encode` and `base64_decode`. A byte is a number
-- below 256; the 32-bit words never reach 2 ^ 24, so they are kept as numbers.
pub mod Table
pub mod Shape
pub mod RoundTrip
mod Examples
use toolchain_cpp.Common.{
  ℕ, zero, suc, ◌+◌, ◌-◌, ◌*◌, ◌/◌, ◌%◌, ◌^◌, List, [], ◌∷◌, ◌++◌, Bytes, codes, Bool, true, false,
  ◌==◌, ltb, leb, ◌&&◌, if◌then◌else◌, length, get_or, set, take, replicate, Result, ok, raised,
  undefined, ◌>>=◌,
}
use toolchain_cpp.Common.Int.{ℤ, pos, negsuc, to_int}

abbrev pub encoding_table : Bytes
encoding_table = codes "ABCDEFGHIJKLMNOPQRSTUVWXYZabcdefghijklmnopqrstuvwxyz0123456789+/"

abbrev pub mod_table : List ℕ
mod_table = 0 ∷ 2 ∷ 1 ∷ []

-- `encoding_table[i]`
pub symbol : ℕ → ℕ
symbol i = get_or encoding_table i 0

-- The word of three octets.
pub triple : ℕ → ℕ → ℕ → ℕ
triple a b c = a * 2 ^ 16 + b * 2 ^ 8 + c

-- The four symbols of one word: `(triple >> k * 6) & 0x3F` for k = 3, 2, 1, 0.
pub quad : ℕ → Bytes
quad t =
    symbol (t / 2 ^ 18 % 64)
    ∷ symbol (t / 2 ^ 12 % 64)
    ∷ symbol (t / 2 ^ 6 % 64)
    ∷ symbol (t % 64)
    ∷ []

-- The first loop of `encode`: a missing octet counts as 0.
pub encode_loop : Bytes → Bytes
encode_loop [] = []
encode_loop (a ∷ []) = quad (triple a 0 0)
encode_loop (a ∷ b ∷ []) = quad (triple a b 0)
encode_loop (a ∷ b ∷ c ∷ rest) = quad (triple a b c) ++ encode_loop rest

-- The second loop: `k` positions, the last one at `last`, become '='.
pub pad : ℕ → ℕ → Bytes → Bytes
pad zero last dst = dst
pad (suc k) last dst = pad k (last - 1) (set dst last b'=')

-- The two loops for an `input_length` that is not negative.
pub encode_octets : ℕ → Bytes → Bytes
unfolding symbol triple quad encode_loop pad
encode_octets input_length src =
    let output_length = 4 * ((input_length + 2) / 3) in
    pad (get_or mod_table (input_length % 3) 0) (output_length - 1)
      (encode_loop (take input_length src))

-- The lengths are of type `int`. Past 1610612733 octets the `output_length` overflows; a negative length skips the
-- first loop, and as an index of `mod_table` it is in range only when it is a multiple of 3.
pub encode : Bytes → Result Bytes
encode src = elim (to_int (length src)) [
  | pos input_length ↦
      if leb input_length 1610612733 then ok (encode_octets input_length src) else undefined
  | negsuc n ↦ if leb n 1610612739 && (suc n % 3 == 0) then ok [] else undefined
]

-- `create_decoding_table`: `left` symbols are still to be entered, from index `i` on.
pub fill_table : ℕ → ℕ → Bytes → Bytes
fill_table zero i table = table
fill_table (suc left) i table = fill_table left (i + 1) (set table (symbol i) i)

pub create_decoding_table : Bytes
unfolding symbol fill_table
create_decoding_table = fill_table 64 0 (replicate 256 0)

-- `decoding_table[c]`
pub value : ℕ → ℕ
unfolding create_decoding_table
value c = get_or create_decoding_table c 0

-- One input character. `char` is signed, so one above 127 indexes outside the table.
pub sextet : ℕ → Result ℕ
sextet c = if c == b'=' then ok 0 else if ltb c 128 then ok (value c) else undefined

pub word : ℕ → ℕ → ℕ → ℕ → ℕ
word a b c d = a * 2 ^ 18 + b * 2 ^ 12 + c * 2 ^ 6 + d

pub octets : ℕ → Bytes
octets t = t / 2 ^ 16 % 256 ∷ t / 2 ^ 8 % 256 ∷ t % 256 ∷ []

-- The loop of `decode`: `room` is `output_length - j`. Its input has a length divisible by four.
pub decode_loop : ℕ → Bytes → Result Bytes
decode_loop room (a ∷ b ∷ c ∷ d ∷ rest) = do
  sextet_a ← sextet a
  sextet_b ← sextet b
  sextet_c ← sextet c
  sextet_d ← sextet d
  written ← decode_loop (room - 3) rest
  ok (take room (octets (word sextet_a sextet_b sextet_c sextet_d)) ++ written)
decode_loop room _ = ok []

-- How many octets one '=' takes from the output.
pub shortage : ℕ → ℕ
shortage c = if c == b'=' then 1 else 0

-- On the empty input `src[input_length - 1]` is read far outside the string.
pub decode : Bytes → Result Bytes
unfolding value sextet word octets decode_loop shortage
decode src =
    let input_length = length src in
    let last = get_or src (input_length - 1) 0 in
    let before_last = get_or src (input_length - 2) 0 in
    if input_length % 4 == 0
    then if input_length == 0
      then undefined
      else decode_loop (input_length / 4 * 3 - shortage last - shortage before_last) src
    else raised
