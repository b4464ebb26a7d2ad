-- ===== src/Paths/Extension.antt =====
-- The extension of a file.
use toolchain_cpp.Common.{
  ℕ, ◌≡◌, ◌⊎◌, inl, inr, refl, sym, ap, ◌∙◌, subst, arith, true, [], ◌∷◌, ◌++◌, append-nil, some,
  Option-cases, Bool-cases, ==_iff, Bytes, drop, take-append-drop, All-drop,
}
use toolchain_cpp.Paths.{find_last_of, is_slash, is_dot, begins_extension, cut_at_dot, splitext}
use toolchain_cpp.Paths.Last.{Free, none-Free, some-EndsAt, Free-drop}

-- A dot, and then neither a dot nor a slash.
pub record IsExtension (e : Bytes) : Type 0 where
  pub letters : Bytes
  pub dotted : e ≡ b'.' ∷ letters
  pub no_dot : Free is_dot letters
  pub no_slash : Free is_slash e

slash-Free :
    (path : Bytes) (last_dot : ℕ)
    → begins_extension (find_last_of is_slash path) last_dot ≡ true
    → Free is_slash (drop last_dot path)
slash-Free path last_dot h = elim (Option-cases (find_last_of is_slash path)) [
  | inl e ↦ All-drop _ last_dot path (none-Free is_slash path e)
  | inr (last_slash, e) ↦ Free-drop is_slash path last_slash last_dot e (ground arith)
]

drop-IsExtension :
    (path : Bytes) (last_dot : ℕ)
    → find_last_of is_dot path ≡ some last_dot
    → begins_extension (find_last_of is_slash path) last_dot ≡ true
    → IsExtension (drop last_dot path)
drop-IsExtension path last_dot e h =
    let r = some-EndsAt is_dot path last_dot e in
    let dot : r.found ≡ b'.' = (==_iff r.found b'.').0 r.one_of in
    record {
      letters = r.after;
      dotted = r.cut ∙ ap (λ c. c ∷ r.after) dot;
      no_dot = r.free;
      no_slash = slash-Free path last_dot h;
    }

abbrev pub Parts : Bytes → Bytes × Bytes → Type 0
Parts path (base, ext) = (base ++ ext ≡ path) × ((ext ≡ []) ⊎ IsExtension ext)

splitext-at_dot :
    (path : Bytes) (last_dot : ℕ)
    → find_last_of is_dot path ≡ some last_dot
    → Parts path (cut_at_dot path (find_last_of is_slash path) (some last_dot))
splitext-at_dot path last_dot e =
    elim (Bool-cases (begins_extension (find_last_of is_slash path) last_dot)) [
      | inl h ↦ rw h (take-append-drop last_dot path, inr (drop-IsExtension path last_dot e h))
      | inr h ↦ rw h (append-nil path, inl refl)
    ]

-- `splitext` cuts every path in two parts that make up the path. The second is empty, or a dot with neither a dot
-- nor a slash behind it.
pub splitext-IsExtension : (path : Bytes) → Parts path (splitext path)
unfolding splitext
splitext-IsExtension path = elim (Option-cases (find_last_of is_dot path)) [
  | inl e ↦
      subst (λ d. Parts path (cut_at_dot path (find_last_of is_slash path) d)) (sym e)
        (append-nil path, inl refl)
  | inr (last_dot, e) ↦
      subst (λ d. Parts path (cut_at_dot path (find_last_of is_slash path) d)) (sym e)
        (splitext-at_dot path last_dot e)
]
