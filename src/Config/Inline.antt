-- ===== src/Config/Inline.antt =====
-- A description of `read` in which an included file stands in the place of its `!include`: no file is opened
-- twice, and no line is skipped.
use toolchain_cpp.Common.{
  ℕ, zero, suc, true, false, ◌||◌, List, [], ◌∷◌, ◌++◌, Option, none, some, ◌≡◌, refl,
  if◌then◌else◌, leb, Bytes, length, returns, throws, aborts, faults, arith, Bool-cases,
  Option-cases, inl, inr,
}
use toolchain_cpp.Config.{line_strip, scan_key, value_of}
use toolchain_cpp.Config.Parser.{Reals, ConfigParser, Run, find, has_key, error, process_line}

-- A directory: the files as the lists of their lines, without the signs for the ends of the lines.
abbrev pub Directory : Type 0
Directory = Bytes → Option (List Bytes)

unfoldable pub text_of : List Bytes → Bytes
text_of [] = []
text_of (l ∷ ls) = l ++ b'\n' ∷ text_of ls

abbrev pub contents_of : Option (List Bytes) → Option Bytes
contents_of none = none
contents_of (some ls) = some (text_of ls)

abbrev pub files_of : Directory → Bytes → Option Bytes
files_of dir name = contents_of (dir name)

module _ {D : Type 0} where
  -- The value for the callback, when the line is one of a callback.
  abbrev value_for_callback : ConfigParser D → Bytes → Bytes → Bytes → Option Bytes
  value_for_callback p line key val =
      if leb 2048 (length key) || leb (length key) 0 || leb (length line) (length key)
      then none
      else elim (find p.strings key) [
        | some a ↦ none
        | none ↦ elim (find p.ints key) [
          | some a ↦ none
          | none ↦ elim (find p.reals key) [
            | some a ↦ none
            | none ↦ if has_key p.callbacks key then some val else none
          ]
        ]
      ]

  unfoldable pub include_of : ConfigParser D → Bytes → Option Bytes
  include_of p line = value_for_callback p line (scan_key line) (value_of (scan_key line) line)

  -- The state with other book-keeping of the file.
  abbrev pub place : ConfigParser D → Bytes → Bytes → ℕ → ℕ → ConfigParser D
  place p name contents n skip = record p {
    my_filename = name;
    file = some contents;
    line_num = n;
    skip_lines = skip;
    eof = false;
  }

module _ {D : Type 0} (c : Reals D) where
  abbrev pub no_callback : ConfigParser D → Bytes → Run D
  no_callback p val = none

  abbrev pub outcome_only : Run D → Option (ConfigParser D)
  outcome_only (some (returns p)) = some p
  outcome_only (some (throws p)) = none
  outcome_only (some aborts) = none
  outcome_only (some faults) = none
  outcome_only none = none

  abbrev pub and_then :
      Option (ConfigParser D) → (ConfigParser D → Option (ConfigParser D)) → Option (ConfigParser D)
  and_then (some p) f = f p
  and_then none f = none

  -- The lines in their order; none for an include that is missing or nested deeper than the first argument, and for a
  -- line that throws.
  unfoldable pub inlined : ℕ → Directory → ConfigParser D → List Bytes → Option (ConfigParser D)
  inlined zero dir p lines = none
  inlined (suc depth) dir p [] = some p
  inlined (suc depth) dir p (l ∷ ls) =
      let line = line_strip l in
      elim (leb (length line) 0) [
        | true ↦ inlined (suc depth) dir p ls
        | false ↦ elim (include_of p line) [
          | some val ↦ elim (dir (p.my_folder ++ val)) [
            | none ↦ none
            | some inner ↦ and_then (inlined depth dir p inner) (λ q. inlined (suc depth) dir q ls)
          ]
          | none ↦
              and_then (outcome_only (process_line c no_callback p line))
                (λ q. inlined (suc depth) dir q ls)
        ]
      ]

  pub process_line-callback :
      (callback : ConfigParser D → Bytes → Run D) (p : ConfigParser D) (line : Bytes) {val : Bytes}
      → include_of p line ≡ some val
      → process_line c callback p line ≡ callback p val
  unfolding process_line include_of
  process_line-callback callback p line h = ground arith

  pub process_line-place :
      (callback : ConfigParser D → Bytes → Run D) (p q : ConfigParser D)
      (line name contents : Bytes) (n skip : ℕ)
      → include_of p line ≡ none
      → outcome_only (process_line c no_callback p line) ≡ some q
      → process_line c callback (place p name contents n skip) line
        ≡ some (returns (place q name contents n skip))
  unfolding process_line include_of error
  process_line-place callback p q line name contents n skip h e = ground arith

  -- The three kinds of lines.
  pub data Round (depth : ℕ) (dir : Directory) (p : ConfigParser D) (l : Bytes) (ls : List Bytes)
      (p' : ConfigParser D) : Type 0 where
    blank :
        leb (length (line_strip l)) 0 ≡ true
        → inlined (suc depth) dir p ls ≡ some p'
        → Round depth dir p l ls p'
    plain :
        (q : ConfigParser D)
        → leb (length (line_strip l)) 0 ≡ false
        → include_of p (line_strip l) ≡ none
        → outcome_only (process_line c no_callback p (line_strip l)) ≡ some q
        → inlined (suc depth) dir q ls ≡ some p'
        → Round depth dir p l ls p'
    include :
        (val : Bytes) (inner : List Bytes) (q : ConfigParser D)
        → leb (length (line_strip l)) 0 ≡ false
        → include_of p (line_strip l) ≡ some val
        → dir (p.my_folder ++ val) ≡ some inner
        → inlined depth dir p inner ≡ some q
        → inlined (suc depth) dir q ls ≡ some p'
        → Round depth dir p l ls p'

  -- A round with a result has passed through the parser between the line and the rest.
  and_then-eq-some :
      (o : Option (ConfigParser D)) (f : ConfigParser D → Option (ConfigParser D))
      {p' : ConfigParser D}
      → and_then o f ≡ some p'
      → (q : ConfigParser D) × (o ≡ some q) × (f q ≡ some p')
  and_then-eq-some none f h = cc
  and_then-eq-some (some q) f h = (q, refl, h)

  module _ (depth : ℕ) (dir : Directory) (p : ConfigParser D) (l : Bytes) (ls : List Bytes)
      {p' : ConfigParser D} where
    pub inlined-Round : inlined (suc depth) dir p (l ∷ ls) ≡ some p' → Round depth dir p l ls p'
    unfolding inlined
    inlined-Round h = elim (Bool-cases (leb (length (line_strip l)) 0)) [
      | inl e ↦ blank e (rw (inlined, e) at h)
      | inr e ↦ elim (Option-cases (include_of p (line_strip l))) [
        | inl i ↦
            let (q, o, rest) =
              and_then-eq-some (outcome_only (process_line c no_callback p (line_strip l))) _
                (rw (inlined, e, i) at h) in
            plain q e i o rest
        | inr (val, i) ↦ elim (Option-cases (dir (p.my_folder ++ val))) [
          | inl d ↦ let none_some : none ≡ some p' = rw (inlined, e, i, d) at h in cc
          | inr (inner, d) ↦
              let (q, o, rest) =
                and_then-eq-some (inlined depth dir p inner) _ (rw (inlined, e, i, d) at h) in
              include val inner q e i d o rest
        ]
      ]
    ]
