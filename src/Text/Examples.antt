-- ===== src/Text/Examples.antt =====
-- Texts on which the theorems are applied.
use toolchain_cpp.Common.{ℕ, ◌+◌, ◌≤◌, ◌≡◌, ◌↔◌, arith, codes, ok}
use toolchain_cpp.Common.Int.{pos}
use toolchain_cpp.Text.{hamming}
use toolchain_cpp.Text.Hamming.{hamming-Distance}

hamming-Distance_example :
    (m n k : ℕ) × (hamming (codes "ab") (codes "a") ≡ ok (pos m))
    × (hamming (codes "a") (codes "cd") ≡ ok (pos n))
    × (hamming (codes "ab") (codes "cd") ≡ ok (pos k))
    × ((m ≡ 0) ↔ (codes "ab" ≡ codes "a"))
    × (hamming (codes "a") (codes "ab") ≡ hamming (codes "ab") (codes "a"))
    × (k ≤ m + n)
hamming-Distance_example =
    hamming-Distance (codes "ab") (codes "a") (codes "cd") (omega arith) (omega arith) (omega arith)
