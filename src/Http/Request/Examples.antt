-- ===== src/Http/Request/Examples.antt =====
-- Requests on which the theorems are applied.
use toolchain_cpp.Common.{ℕ, ◌≡◌, ◌≢◌, arith, true, List, [], ◌∷◌, some, Bytes, codes, All, ok}
use toolchain_cpp.Http.Split.{split_by_substr}
use toolchain_cpp.Http.Split.Termination.{split_by_substr-ends}
use toolchain_cpp.Http.Split.Pieces.{IsPiece}
use toolchain_cpp.Http.Request.{SimpleHttpRequest, unknown, parse_params}
use toolchain_cpp.Http.Request.Params.{render, IsPlain, assigned, parse_params-render}
use toolchain_cpp.Http.Request.Url.{IsSegment}

split_by_substr-ends_example :
    (pieces : List Bytes) × (split_by_substr (codes "a://b") (codes "://") true ≡ some pieces)
split_by_substr-ends_example = split_by_substr-ends b':' (codes "//") (codes "a://b") true

abbrev params : List (Bytes × Bytes)
params = (codes "a", codes "1") ∷ (codes "b", codes "2") ∷ []

one_char : (c x : ℕ) → x ≢ c → IsPiece c (x ∷ [])
one_char c x h = (omega arith, (h, tt))

params-IsPlain : All IsPlain params
params-IsPlain = (
  (
    one_char b'=' b'a' (λ e. absurd (omega (arith, e))),
    one_char b'=' b'1' (λ e. absurd (omega (arith, e))),
    ((λ e. absurd (omega (arith, e))), tt),
    ((λ e. absurd (omega (arith, e))), tt),
  ),
  (
    (
      one_char b'=' b'b' (λ e. absurd (omega (arith, e))),
      one_char b'=' b'2' (λ e. absurd (omega (arith, e))),
      ((λ e. absurd (omega (arith, e))), tt),
      ((λ e. absurd (omega (arith, e))), tt),
    ),
    tt,
  ),
)

parse_params-render_example : parse_params (render params) ≡ ok (assigned [] params)
parse_params-render_example = parse_params-render params params-IsPlain

abbrev request : SimpleHttpRequest
request = record {
  method = unknown;
  protocol = [];
  host = [];
  port = [];
  url = [];
  relative_path = [];
  params = [];
}

segment : (x : ℕ) → x ≢ b'/' → x ≢ b':' → x ≢ b'?' → IsSegment (x ∷ [])
segment x a b c = record {
  filled = omega arith;
  no_slash = (a, tt);
  no_colon = (b, tt);
  no_query = (c, tt);
}
