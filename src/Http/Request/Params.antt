-- ===== src/Http/Request/Params.antt =====
-- Parameters that are written out and parsed again.
use toolchain_cpp.Common.{
  ℕ, ◌≡◌, ◌≢◌, refl, arith, false, List, [], ◌∷◌, ◌++◌, map, Bytes, codes, length-append, All,
  All-append, ok,
}
use toolchain_cpp.Http.Split.Pieces.{join, IsPiece, split_by_substr-join}
use toolchain_cpp.Http.Request.{split, set_param, add_param, add_params, parse_params}

-- `key=value`
abbrev pub key_val : Bytes × Bytes → Bytes
key_val (key, value) = key ++ b'=' ∷ value

-- `key=value&key=value`
abbrev pub render : List (Bytes × Bytes) → Bytes
render params = join b'&' (map key_val params)

-- Neither the key nor the value is empty, and neither holds one of the two separators.
abbrev pub IsPlain : Bytes × Bytes → Type 0
IsPlain (key, value) =
    IsPiece b'=' key × IsPiece b'=' value × All (λ x. x ≢ b'&') key × All (λ x. x ≢ b'&') value

-- The assignments to the map, in order.
unfoldable pub assigned : List (Bytes × Bytes) → List (Bytes × Bytes) → List (Bytes × Bytes)
assigned done [] = done
assigned done ((key, value) ∷ rest) = assigned (set_param done key value) rest

split-join :
    (c : ℕ) (ps : List Bytes) → All (IsPiece c) ps → split (join c ps) (c ∷ []) false ≡ ok ps
unfolding split
split-join c ps h = rw (split_by_substr-join c ps h, split) refl

key_val-IsPiece : (p : Bytes × Bytes) → IsPlain p → IsPiece b'&' (key_val p)
key_val-IsPiece (key, value) (k, v, a, b) = (
  omega (arith, length-append key (b'=' ∷ value)),
  All-append (λ x. x ≢ b'&') key (b'=' ∷ value) a ((λ e. absurd (omega (arith, e))), b),
)

split-key_val :
    (p : Bytes × Bytes) → IsPlain p → split (key_val p) (codes "=") false ≡ ok (p.0 ∷ p.1 ∷ [])
unfolding join
split-key_val (key, value) (k, v, a, b) = split-join b'=' (key ∷ value ∷ []) (k, (v, tt))

add_params-assigned :
    (done params : List (Bytes × Bytes))
    → All IsPlain params
    → add_params done (map key_val params) ≡ ok (assigned done params)
unfolding add_params add_param assigned
add_params-assigned done [] h = refl
add_params-assigned done ((key, value) ∷ rest) h =
    rw (split-key_val (key, value) h.0) (add_params-assigned (set_param done key value) rest h.1)

map-IsPiece :
    (params : List (Bytes × Bytes)) → All IsPlain params → All (IsPiece b'&') (map key_val params)
map-IsPiece [] h = tt
map-IsPiece (p ∷ ps) h = (key_val-IsPiece p h.0, map-IsPiece ps h.1)

-- Parameters whose keys and values are not empty and hold neither `=` nor `&`, written as `key=value` with `&`
-- between them, are parsed into the map that their assignments lead to, in order.
pub parse_params-render :
    (params : List (Bytes × Bytes))
    → All IsPlain params
    → parse_params (render params) ≡ ok (assigned [] params)
unfolding parse_params
parse_params-render params h =
    rw (split-join b'&' (map key_val params) (map-IsPiece params h))
      (add_params-assigned [] params h)
