-- ===== src/Http/Request.antt =====
-- network/http-common.cpp: `HttpRequestParser`. A map of parameters is a list of keys and
-- values in the order of the keys; a request
-- whose parsing throws is not read afterwards.
pub mod Params
pub mod Url
mod Examples
use toolchain_cpp.Common.{
  ℕ, Bool, true, false, List, [], ◌∷◌, ◌++◌, Option, none, some, ◌==◌, ltb, if◌then◌else◌, Bytes,
  codes, same, length, Result, ok, raised, undefined, ◌>>=◌,
}
use toolchain_cpp.Http.Split.{split_by_substr}

pub data Method : Type 0 where
  unknown get post : Method

pub record SimpleHttpRequest : Type 0 where
  pub method : Method
  pub protocol : Bytes
  pub host : Bytes
  pub port : Bytes
  pub url : Bytes
  pub relative_path : Bytes
  pub params : List (Bytes × Bytes)

-- A call of `split_by_substr`; the one that does not return is taken as undefined.
unfoldable pub split : Bytes → Bytes → Bool → Result (List Bytes)
split text delim only_first = elim (split_by_substr text delim only_first) [
  | none ↦ undefined
  | some pieces ↦ ok pieces
]

-- `operator<` of `std::string`, the order of the keys of a map.
unfoldable pub before : Bytes → Bytes → Bool
before [] [] = false
before [] (d ∷ ds) = true
before (c ∷ cs) [] = false
before (c ∷ cs) (d ∷ ds) = let rest = before cs ds in if c == d then rest else ltb c d

-- `out_params[key] = value`
unfoldable pub set_param : List (Bytes × Bytes) → Bytes → Bytes → List (Bytes × Bytes)
set_param [] key value = (key, value) ∷ []
set_param ((k, v) ∷ rest) key value =
    let later = set_param rest key value in
    if same k key
    then (key, value) ∷ rest
    else if before key k
    then (key, value) ∷ (k, v) ∷ rest
    else (k, v) ∷ later

-- One round of the loop of `parse_params`, for the pieces of a key and its value.
pub add_param : List (Bytes × Bytes) → List Bytes → Result (List (Bytes × Bytes))
add_param params (key ∷ value ∷ []) = ok (set_param params key value)
add_param params _ = raised

pub add_params : List (Bytes × Bytes) → List Bytes → Result (List (Bytes × Bytes))
add_params params [] = ok params
add_params params (key_val_str ∷ rest) = split key_val_str (codes "=") false >>= λ key_val.
    add_param params key_val >>= λ params'. add_params params' rest

pub parse_params : Bytes → Result (List (Bytes × Bytes))
parse_params params_str =
    split params_str (codes "&") false >>= λ split_str. add_params [] split_str

-- The protocol and the path.
unfoldable pub protocol_path : List Bytes → Result (Bytes × Bytes)
protocol_path [] = raised
protocol_path (path ∷ []) = ok ([], path)
protocol_path (protocol ∷ path ∷ rest) = ok (protocol, path)

-- The host with its port, and the relative path.
unfoldable pub host_path : List Bytes → Result (Bytes × Bytes)
host_path [] = raised
host_path (path ∷ []) = ok ([], codes "/" ++ path)
host_path (host_port ∷ path ∷ rest) = ok (host_port, path)

pub set_host : SimpleHttpRequest → List Bytes → Result SimpleHttpRequest
set_host r [] = raised
set_host r (host ∷ []) = ok (record r { host = host; port = [] })
set_host r (host ∷ port ∷ rest) = ok (record r { host = host; port = port })

unfoldable pub set_path : SimpleHttpRequest → List Bytes → Result SimpleHttpRequest
set_path r [] = raised
set_path r (path ∷ []) = ok (record r { relative_path = path })
set_path r (path ∷ query ∷ rest) =
    parse_params query >>= λ params. ok (record r { relative_path = path; params = params })

unfoldable pub parse_host : SimpleHttpRequest → Bytes → Result SimpleHttpRequest
parse_host r [] = ok r
parse_host r host_port = split host_port (codes ":") true >>= λ pieces. set_host r pieces

unfoldable pub parse_path : SimpleHttpRequest → Bytes → Result SimpleHttpRequest
parse_path r [] = ok r
parse_path r rel_path = split rel_path (codes "?") true >>= λ pieces. set_path r pieces

unfoldable pub parse_url : SimpleHttpRequest → Bytes → Result SimpleHttpRequest
parse_url r url = split url (codes "://") true >>= λ parts. protocol_path parts >>= λ pp.
    split pp.1 (codes "/") true >>= λ pieces. host_path pieces >>= λ hp.
    parse_host (record r { url = url; protocol = pp.0 }) hp.0 >>= λ r'. parse_path r' hp.1

-- `*split_str.rbegin()` of a list that is not empty
abbrev pub last_of : Bytes → List Bytes → Bytes
last_of first [] = first
last_of first (piece ∷ rest) = last_of piece rest

-- The parameters of a POST request, from the pieces of its last part.
pub post_params : SimpleHttpRequest → List Bytes → Result SimpleHttpRequest
post_params r (header ∷ body ∷ []) =
    parse_params body >>= λ params. ok (record r { params = params })
post_params r _ = ok r

pub parse_pieces : SimpleHttpRequest → List Bytes → Result SimpleHttpRequest
parse_pieces r (method ∷ url ∷ rest) =
    if same method (codes "GET")
    then parse_url (record r { method = get }) url
    else if same method (codes "POST")
    then (parse_url (record r { method = post }) url >>= λ r'.
        split (last_of url rest) (codes "\r\n") false >>= λ pieces. post_params r' pieces)
    else ok r
parse_pieces r _ = raised

pub parse : SimpleHttpRequest → Bytes → Result SimpleHttpRequest
parse r request_str = split request_str (codes " ") false >>= λ pieces. parse_pieces r pieces
