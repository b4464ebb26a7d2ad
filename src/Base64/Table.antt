-- ===== src/Base64/Table.antt =====
-- The two tables are inverse to one another on the 64 symbols.
use toolchain_cpp.Common.{
  ℕ, ◌<◌, ◌≡◌, refl, ◌≢◌, arith, Bool, true, ◌&&◌, ◌==◌, ltb, not, every, every-lt, ok,
}
use toolchain_cpp.Base64.{symbol, value, sextet}

reads_back : ℕ → Bool
reads_back i = ltb (symbol i) 128 && (value (symbol i) == i && not (symbol i == b'='))

reads_back_table : every reads_back 64 ≡ true
unfolding every reads_back symbol value
reads_back_table = refl

reads_back_lem :
    (i : ℕ)
    → i < 64
    → (ltb (symbol i) 128 && (value (symbol i) == i && not (symbol i == b'='))) ≡ true
unfolding reads_back
reads_back_lem i h = every-lt reads_back 64 reads_back_table h

pub sextet-symbol : (i : ℕ) → i < 64 → sextet (symbol i) ≡ ok i
unfolding sextet
sextet-symbol i h = ground (arith, reads_back_lem i)

pub symbol-ne-pad : (i : ℕ) → i < 64 → symbol i ≢ b'='
symbol-ne-pad i h = ground (arith, reads_back_lem i)
