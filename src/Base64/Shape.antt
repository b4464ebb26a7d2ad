-- ===== src/Base64/Shape.antt =====
-- What `encode` writes, with the padding in place, and what follows for its length.
use toolchain_cpp.Common.{
  ℕ, zero, suc, ◌+◌, ◌-◌, ◌*◌, ◌/◌, ◌%◌, ◌^◌, ◌<◌, ◌≡◌, refl, ap, ◌∙◌, arith, [], ◌∷◌, ◌++◌, Bytes,
  length, get_or, set,
}
use native.Mathlib.Numerals.{towards_suc}
use toolchain_cpp.Base64.{symbol, triple, quad, encode_loop, pad, encode, encode_octets, mod_table}
use toolchain_cpp.Common.Int.{to_int-pos}
use toolchain_cpp.Common.{take-length, ok, ◌≤◌}

-- The two and the three symbols that carry octets in a padded group.
abbrev pub two : ℕ → Bytes → Bytes
two t rest = symbol (t / 2 ^ 18 % 64) ∷ symbol (t / 2 ^ 12 % 64) ∷ rest

abbrev pub three : ℕ → Bytes → Bytes
three t rest = two t (symbol (t / 2 ^ 6 % 64) ∷ rest)

-- The encoding as RFC 4648 states it: groups of three octets, the last one padded.
abbrev pub encoded : Bytes → Bytes
encoded [] = []
encoded (a ∷ []) = two (triple a 0 0) (b'=' ∷ b'=' ∷ [])
encoded (a ∷ b ∷ []) = three (triple a b 0) (b'=' ∷ [])
encoded (a ∷ b ∷ c ∷ rest) = quad (triple a b c) ++ encoded rest

abbrev groups : Bytes → ℕ
groups src = (length src + 2) / 3

abbrev padded : Bytes → Bytes
padded src = pad (get_or mod_table (length src % 3) 0) (4 * groups src - 1) (encode_loop src)

set-quad :
    (last t v : ℕ) (dst : Bytes) → set (quad t ++ dst) (last + 4) v ≡ quad t ++ set dst last v
unfolding quad
set-quad last t v dst = simp towards_suc

-- The padding of a longer text lies in its rest.
pad-quad :
    (k last t : ℕ) (dst : Bytes)
    → k < last + 2
    → pad k (last + 4) (quad t ++ dst) ≡ quad t ++ pad k last dst
unfolding pad
pad-quad zero last t dst h = refl
pad-quad (suc zero) last t dst h = set-quad last t b'=' dst
pad-quad (suc (suc k)) last t dst h = rw (set-quad last t b'=' dst) (
    let back : last + 4 - 1 ≡ last - 1 + 4 = omega arith in
    rw back (pad-quad (suc k) (last - 1) t (set dst last b'=') (omega arith)))

mod_table-lt : (i : ℕ) → get_or mod_table i 0 < 3
mod_table-lt zero = omega arith
mod_table-lt (suc zero) = omega arith
mod_table-lt (suc (suc zero)) = omega arith
mod_table-lt (suc (suc (suc i))) = omega arith

padded-quad :
    (a b c d : ℕ) (rest : Bytes)
    → padded (a ∷ b ∷ c ∷ d ∷ rest) ≡ quad (triple a b c) ++ padded (d ∷ rest)
unfolding encode_loop
padded-quad a b c d rest =
    let n = length rest in
    let same_k : suc (suc (suc (suc n))) % 3 ≡ suc n % 3 = omega arith in
    let later : 4 * ((suc (suc (suc (suc n))) + 2) / 3) - 1 ≡ 4 * ((suc n + 2) / 3) - 1 + 4 =
      omega arith in
    rw (same_k, later)
      (pad-quad _ _ (triple a b c) (encode_loop (d ∷ rest))
        (omega (arith, mod_table-lt (suc n % 3))))

padded-encoded : (src : Bytes) → padded src ≡ encoded src
unfolding encode_loop pad quad
padded-encoded [] = refl
padded-encoded (a ∷ []) = refl
padded-encoded (a ∷ b ∷ []) = refl
padded-encoded (a ∷ b ∷ c ∷ []) = refl
padded-encoded (a ∷ b ∷ c ∷ d ∷ rest) =
    padded-quad a b c d rest ∙ ap (◌++◌ (quad (triple a b c))) (padded-encoded (d ∷ rest))

encode_octets-encoded : (src : Bytes) → encode_octets (length src) src ≡ encoded src
unfolding encode_octets
encode_octets-encoded src = rw (take-length src) (padded-encoded src)

pub encode-encoded : (src : Bytes) → length src ≤ 1610612733 → encode src ≡ ok (encoded src)
unfolding encode
encode-encoded src h =
    let n = to_int-pos (length src) (omega arith) in
    rw (n, encode) (ground (arith, encode_octets-encoded src))

pub length-encoded : (src : Bytes) → length (encoded src) ≡ 4 * ((length src + 2) / 3)
unfolding quad
length-encoded [] = refl
length-encoded (a ∷ []) = refl
length-encoded (a ∷ b ∷ []) = refl
length-encoded (a ∷ b ∷ c ∷ rest) = omega (arith, length-encoded rest)
