-- ===== src/Config/Strip.antt =====
-- `line_strip` against a description of the line that it leaves.
use toolchain_cpp.Common.{
  ℕ, ◌+◌, true, false, [], ◌∷◌, ◌++◌, Option, none, some, ◌==◌, ◌≡◌, refl, if◌then◌else◌, Bytes,
  length, take, take-append, append_assoc, append-nil, length-append, arith, ◌∙◌, sym,
}
use toolchain_cpp.Config.{is_delim, strip_scan, truncate, trunc_at_comment, line_strip, skip_delims}

-- The text before the comment.
unfoldable pub before_comment : Bytes → Bytes
before_comment [] = []
before_comment (c ∷ cs) = let rest = before_comment cs in if c == b'#' then [] else c ∷ rest

-- The last character goes when it is a blank; only that one.
unfoldable pub drop_last_delim : Bytes → Bytes
drop_last_delim [] = []
drop_last_delim (c ∷ []) = if is_delim c then [] else c ∷ []
drop_last_delim (c ∷ d ∷ cs) = c ∷ drop_last_delim (d ∷ cs)

drop_last_delim-concat :
    (q : Bytes) (c : ℕ) → drop_last_delim (q ++ c ∷ []) ≡ (if is_delim c then q else q ++ c ∷ [])
unfolding drop_last_delim
drop_last_delim-concat [] c = ground arith
drop_last_delim-concat (x ∷ []) c = ground arith
drop_last_delim-concat (x ∷ y ∷ q) c = ground (arith, drop_last_delim-concat (y ∷ q) c)

-- What the loop knows of the cut behind the text `q` and the character `c`.
abbrev cut_behind : Bytes → ℕ → Option ℕ
cut_behind q c = if is_delim c then some (length q) else none

module _ (line : Bytes) (q : Bytes) (c : ℕ) where
  truncate-end :
      line ≡ q ++ c ∷ [] → truncate (line, cut_behind q c) ≡ drop_last_delim (q ++ c ∷ [])
  truncate-end h =
      let short : take (length q) (q ++ c ∷ []) ≡ q ++ [] =
        take-append q (c ∷ []) (length q) 0 (omega arith) in
      ground (arith, drop_last_delim-concat q c, append-nil q)

  truncate-comment :
      (i : ℕ) (rest : Bytes)
      → line ≡ q ++ c ∷ rest
      → i ≡ length q + 1
      → truncate (line, trunc_at_comment (cut_behind q c) i) ≡ drop_last_delim (q ++ c ∷ [])
  truncate-comment i rest h e =
      let short : take (length q) (q ++ c ∷ rest) ≡ q ++ [] =
        take-append q (c ∷ rest) (length q) 0 (omega arith) in
      let long : take i (q ++ c ∷ rest) ≡ q ++ c ∷ [] = take-append q (c ∷ rest) i 1 e in
      ground (arith, drop_last_delim-concat q c, append-nil q)

-- The loop behind the text `q` and the character `c`.
strip_scan-text :
    (rest : Bytes) (q : Bytes) (c i : ℕ) (line : Bytes)
    → line ≡ q ++ c ∷ rest
    → i ≡ length q + 1
    → truncate (strip_scan true (cut_behind q c) i line rest)
      ≡ drop_last_delim (q ++ c ∷ before_comment rest)
unfolding strip_scan before_comment
strip_scan-text [] q c i line h e = truncate-end line q c h
strip_scan-text (x ∷ rest) q c i line h e =
    let here = truncate-comment line q c i (x ∷ rest) h e in
    let later =
      strip_scan-text rest (q ++ c ∷ []) x (i + 1) line
        (h ∙ sym (append_assoc q (c ∷ []) (x ∷ rest))) (omega (arith, length-append q (c ∷ []))) in
    let joined = append_assoc q (c ∷ []) (x ∷ before_comment rest) in
    ground (arith, length-append q (c ∷ []))

strip_scan-leading :
    (line : Bytes)
    → truncate (strip_scan false none 0 line line)
      ≡ drop_last_delim (before_comment (skip_delims line))
unfolding strip_scan before_comment skip_delims drop_last_delim
strip_scan-leading [] = refl
strip_scan-leading (c ∷ rest) =
    let text = strip_scan-text rest [] c 1 (c ∷ rest) refl refl in
    let erased = strip_scan-leading rest in ground arith

-- `line_strip` leaves the line from its first character that is no blank up to the first `#`, less one
-- blank at the end of that, when it ends with blanks; the further blanks there stay.
pub line_strip-drop_last_delim :
    (line : Bytes) → line_strip line ≡ drop_last_delim (before_comment (skip_delims line))
unfolding line_strip
line_strip-drop_last_delim line = strip_scan-leading line
