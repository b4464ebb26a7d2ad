-- ===== src/Paths.antt =====
-- common/fileutils.cpp: the functions that cut a path in two. `filename`, `stem` and `extension` are those
-- of a build without boost.
pub mod Last
pub mod Extension
pub mod Folder
mod Examples
use toolchain_cpp.Common.{
  ℕ, zero, suc, ◌+◌, Bool, true, false, ◌&&◌, ◌||◌, not, List, [], ◌∷◌, Option, none, some, ltb,
  ◌==◌, if◌then◌else◌, Bytes, codes, take, drop,
}

-- `find_last_of`, for the characters of which `among` is true.
unfoldable pub find_last_of : (ℕ → Bool) → Bytes → Option ℕ
find_last_of among [] = none
find_last_of among (x ∷ xs) = elim (find_last_of among xs) [
  | some i ↦ some (suc i)
  | none ↦ if among x then some 0 else none
]

abbrev pub is_slash : ℕ → Bool
is_slash c = c == b'\\' || c == b'/'

abbrev pub is_dot : ℕ → Bool
is_dot c = c == b'.'

-- A dot that is not the first character, behind the last slash.
abbrev pub begins_extension : Option ℕ → ℕ → Bool
begins_extension none last_dot = not (last_dot == 0)
begins_extension (some last_slash) last_dot = not (last_dot == 0) && ltb last_slash last_dot

abbrev pub cut_at_dot : Bytes → Option ℕ → Option ℕ → Bytes × Bytes
cut_at_dot path last_slash none = (path, [])
cut_at_dot path last_slash (some last_dot) =
    if begins_extension last_slash last_dot
    then (take last_dot path, drop last_dot path)
    else (path, [])

pub splitext : Bytes → Bytes × Bytes
splitext path = cut_at_dot path (find_last_of is_slash path) (find_last_of is_dot path)

pub path_split : Bytes → Bytes × Bytes
path_split path = elim (find_last_of is_slash path) [
  | none ↦ (codes "./", path)
  | some pos ↦ (take (pos + 1) path, drop (pos + 1) path)
]

pub filename : Bytes → Bytes
filename path = elim (find_last_of is_slash path) [
  | none ↦ path
  | some last_slash ↦ drop (last_slash + 1) path
]

pub stem : Bytes → Bytes
stem path = (splitext (filename path)).0

pub extension : Bytes → Bytes
extension path = (splitext (filename path)).1
