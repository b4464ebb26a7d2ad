-- ===== src/Base64/Examples.antt =====
-- Runs of the two routines, and the theorems at concrete inputs.
use toolchain_cpp.Common.{◌≡◌, refl, arith, codes, ok, ◌>>=◌}
use toolchain_cpp.Base64.{encode, encode_octets, decode}
use toolchain_cpp.Common.Int.{to_int}
use toolchain_cpp.Base64.RoundTrip.{decode-encode}

encode_example : encode (codes "Man is") ≡ ok (codes "TWFuIGlz")
unfolding encode encode_octets to_int
encode_example = refl

encode_padded_example : encode (codes "Mani") ≡ ok (codes "TWFuaQ==")
unfolding encode encode_octets to_int
encode_padded_example = refl

decode_padded_example : decode (codes "TWFuaXM=") ≡ ok (codes "Manis")
unfolding decode
decode_padded_example = refl

decode-encode_example : (encode (codes "Mani") >>= λ text. decode text) ≡ ok (codes "Mani")
decode-encode_example = decode-encode (codes "Mani") (λ e. cc) (omega arith) (omega arith)
