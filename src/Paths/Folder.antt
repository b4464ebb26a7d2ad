-- ===== src/Paths/Folder.antt =====
-- The folder and the name of a file.
use toolchain_cpp.Common.{
  ℕ, ◌+◌, ◌≡◌, refl, true, [], ◌∷◌, ◌++◌, Bytes, codes, length, take-append, drop-append,
}
use toolchain_cpp.Paths.{is_slash, path_split, filename}
use toolchain_cpp.Paths.Last.{Free, find_last_of-append, find_last_of-eq-none}

-- A folder, a slash and a name without slashes are cut behind the slash, which stays with the folder; a name alone has the
-- folder `./`. `filename` returns the name in both cases.
pub path_split-filename :
    (dir : Bytes) (c : ℕ) (name : Bytes)
    → is_slash c ≡ true
    → Free is_slash name
    → (path_split (dir ++ c ∷ name) ≡ (dir ++ c ∷ [], name))
      × (filename (dir ++ c ∷ name) ≡ name)
      × (path_split name ≡ (codes "./", name))
      × (filename name ≡ name)
unfolding path_split filename
path_split-filename dir c name h f =
    let last = find_last_of-append is_slash dir c name h f in
    let alone = find_last_of-eq-none is_slash name f in
    let base = take-append dir (c ∷ name) (length dir + 1) 1 refl in
    let rest = drop-append dir (c ∷ name) (length dir + 1) 1 refl in
    (
      rw (last, path_split, base, rest) refl,
      rw (last, filename, rest) refl,
      rw (alone, path_split) refl,
      rw (alone, filename) refl,
    )
