-- ===== src/Http/Request/Url.antt =====
-- What the parser makes of the absolute path of a request.
use toolchain_cpp.Common.{
  ℕ, ◌<◌, ◌≡◌, ◌≢◌, refl, arith, true, [], ◌∷◌, ◌++◌, Bytes, codes, length, All, All-append, ok,
}
use toolchain_cpp.Http.Split.Pieces.{IsPiece, two_pieces, split_by_substr-whole}
use toolchain_cpp.Http.Request.{
  SimpleHttpRequest, split, protocol_path, host_path, set_host, set_path, parse_host, parse_path,
  parse_url,
}

-- A segment of a path: not empty, and without `/`, `:` and `?`.
pub record IsSegment (p : Bytes) : Type 0 where
  pub filled : 0 < length p
  pub no_slash : All (λ x. x ≢ b'/') p
  pub no_colon : All (λ x. x ≢ b':') p
  pub no_query : All (λ x. x ≢ b'?') p

split-whole :
    (c : ℕ) (ds p : Bytes) → 0 < length p → All (λ x. x ≢ c) p → split p (c ∷ ds) true ≡ ok (p ∷ [])
unfolding split
split-whole c ds p k h = rw (split_by_substr-whole c ds p true k h, split) refl

split-two :
    (c : ℕ) (p q : Bytes)
    → IsPiece c p
    → IsPiece c q
    → split (c ∷ (p ++ c ∷ q)) (c ∷ []) true ≡ ok (p ∷ q ∷ [])
unfolding split
split-two c p q h k = rw (two_pieces c p q true h k, split) refl

parse_host-segment :
    (r : SimpleHttpRequest) (p : Bytes)
    → IsSegment p
    → parse_host r p ≡ ok (record r { host = p; port = [] })
unfolding parse_host set_host
parse_host-segment r [] h = absurd (omega (arith, h.filled))
parse_host-segment r (x ∷ xs) h = rw (split-whole b':' [] (x ∷ xs) h.filled h.no_colon) refl

parse_path-segment :
    (r : SimpleHttpRequest) (p : Bytes)
    → IsSegment p
    → parse_path r p ≡ ok (record r { relative_path = p })
unfolding parse_path set_path
parse_path-segment r [] h = absurd (omega (arith, h.filled))
parse_path-segment r (x ∷ xs) h = rw (split-whole b'?' [] (x ∷ xs) h.filled h.no_query) refl

-- The absolute path `/dir/file` of a request to an origin server is taken for a host `dir` with the relative path
-- `file`, without a leading slash.
pub absolute_path_as_host :
    (r : SimpleHttpRequest) (dir file : Bytes)
    → IsSegment dir
    → IsSegment file
    → parse_url r (b'/' ∷ (dir ++ b'/' ∷ file))
      ≡ ok (record r {
        url = b'/' ∷ (dir ++ b'/' ∷ file);
        protocol = [];
        host = dir;
        port = [];
        relative_path = file;
      })
unfolding parse_url protocol_path host_path
absolute_path_as_host r dir file h k =
    let text = b'/' ∷ (dir ++ b'/' ∷ file) in
    let whole : All (λ x. x ≢ b':') text = (
      (λ e. absurd (omega (arith, e))),
      All-append (λ x. x ≢ b':') dir (b'/' ∷ file) h.no_colon
          ((λ e. absurd (omega (arith, e))), k.no_colon),
    ) in
    rw
      (
        split-whole b':' (codes "//") text (omega arith) whole,
        split-two b'/' dir file (h.filled, h.no_slash) (k.filled, k.no_slash),
        parse_host-segment (record r { url = text; protocol = [] }) dir h,
        parse_path-segment (record r { url = text; protocol = []; host = dir; port = [] }) file k,
      )
      refl
