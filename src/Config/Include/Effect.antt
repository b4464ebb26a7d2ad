-- ===== src/Config/Include/Effect.antt =====
-- The run of `read` over a file whose lines include others.
use toolchain_cpp.Common.{
  ℕ, zero, suc, ◌+◌, ◌-◌, ◌≤◌, false, List, [], ◌∷◌, ◌++◌, append_assoc, none, some, ◌≡◌, refl, sym,
  ap, ◌∙◌, leb, Bytes, length, length-append, All, append-All, returns, arith, subst,
}
use toolchain_cpp.Config.{line_strip}
use toolchain_cpp.Config.Inline.{
  Directory, text_of, contents_of, files_of, include_of, inlined, blank, plain, include,
  inlined-Round, place, process_line-callback, process_line-place,
}
use toolchain_cpp.Config.Include.{
  IsLine, core, place-core, Ends, Ends-round, reads, line_read-lines, reads-skip, reads-end,
}
use toolchain_cpp.Config.Parser.{
  Reals, ConfigParser, then_run, catch_error, include_parse, read_lines, read,
}
use toolchain_cpp.Config.Step.{callback, read_lines-skipped, read_lines-processed, read-reading}

module _ {D : Type 0} (c : Reals D) (dir : Directory) where
  -- A parser whose file is closed reads no more.
  reads-closed :
      (fuel : ℕ) (q : ConfigParser D) → q.file ≡ none → reads c dir (suc fuel) q ≡ some (returns q)
  unfolding read_lines
  reads-closed fuel q h = simp (read_lines, h) refl

  -- The two runs of an include, and the rest of the round that it stands in.
  module _ (name : Bytes) (p : ConfigParser D) (l : Bytes) (ls done : List Bytes) (val : Bytes)
      (inner : List Bytes) (n skip : ℕ) where
    include-returned :
        (fuel : ℕ) (middle final : ConfigParser D)
        → dir name ≡ some (done ++ l ∷ ls)
        → dir (p.my_folder ++ val) ≡ some inner
        → reads c dir fuel (place p (p.my_folder ++ val) (text_of inner) 1 0)
          ≡ some (returns middle)
        → reads c dir fuel (place middle name (text_of (done ++ l ∷ ls)) 1 n) ≡ some (returns final)
        → callback c (files_of dir) fuel (place p name (text_of ls) n skip) val
          ≡ some (returns final)
    unfolding include_parse read
    include-returned fuel middle final here there first second =
        let files = files_of dir in
        let inside = record p {
          my_filename = p.my_folder ++ val;
          file = none;
          line_num = n;
          skip_lines = 0;
          eof = false;
        } in
        let behind = record middle { file = none; my_filename = name; skip_lines = n } in
        ap
          (λ o.
            then_run (catch_error c o) (λ r.
              read c fuel files (record r { file = none; my_filename = name; skip_lines = n })))
          (read-reading c files fuel inside (text_of inner) (ap contents_of there) ∙ first)
        ∙ read-reading c files fuel behind (text_of (done ++ l ∷ ls)) (ap contents_of here)
        ∙ second

  abbrev snoc : List Bytes → Bytes → List Bytes
  snoc done l = done ++ l ∷ []

  length-snoc : (done : List Bytes) (l : Bytes) → length (snoc done l) ≡ length done + 1
  length-snoc done l = length-append done (l ∷ [])

  -- All files of the directory are lists of lines.
  module _ (lines : (name : Bytes) (ls : List Bytes) → dir name ≡ some ls → All IsLine ls) where
    -- The second run of an include, from the beginning of the file.
    read-again :
        (name : Bytes) (done ls : List Bytes) (l : Bytes) (middle q p' : ConfigParser D)
        (n fuel : ℕ)
        → dir name ≡ some (done ++ l ∷ ls)
        → n ≡ length done + 1
        → core middle ≡ core q
        → (e : Ends c dir (λ fuel. reads c dir fuel (place q name (text_of ls) (n + 1) (n + 1))) p')
        → e.enough + n ≤ fuel
        → reads c dir fuel (place middle name (text_of (done ++ l ∷ ls)) 1 (n + 1))
          ≡ some (returns e.final)
    read-again name done ls l middle q p' n fuel here k m e f =
        let joined : done ++ l ∷ ls ≡ snoc done l ++ ls = sym (append_assoc done (l ∷ []) ls) in
        let long = length-snoc done l in
        let same_line : 1 + length (snoc done l) ≡ n + 1 = omega arith in
        let clean =
          append-All IsLine (snoc done l) ls
            (subst (λ t. All IsLine t) joined (lines name _ here)) in
        ap (λ r. reads c dir fuel r)
          (place-core middle q name (text_of (done ++ l ∷ ls)) 1 (n + 1) m)
        ∙ ap (λ t. reads c dir fuel (place q name (text_of t) 1 (n + 1))) joined
        ∙ reads-skip c dir name (snoc done l) ls fuel (fuel - n) q 1 (n + 1) (omega arith) clean.0
            (omega arith)
        ∙ ap (λ i. reads c dir (fuel - n) (place q name (text_of ls) i (n + 1))) same_line
        ∙ e.returned (fuel - n) (omega arith)

    -- A round whose line is an include.
    Ends-include :
        (name : Bytes) (done ls : List Bytes) (l : Bytes) (p q p' : ConfigParser D) (val : Bytes)
        (inner : List Bytes) (n skip : ℕ)
        → dir name ≡ some (done ++ l ∷ ls)
        → dir (p.my_folder ++ val) ≡ some inner
        → n ≡ length done + 1
        → skip ≤ n
        → leb (length (line_strip l)) 0 ≡ false
        → include_of p (line_strip l) ≡ some val
        → Ends c dir (λ fuel. reads c dir fuel (place p (p.my_folder ++ val) (text_of inner) 1 0)) q
        → Ends c dir (λ fuel. reads c dir fuel (place q name (text_of ls) (n + 1) (n + 1))) p'
        → Ends c dir (λ fuel. reads c dir fuel (place p name (text_of (l ∷ ls)) n skip)) p'
    unfolding include_of
    Ends-include name done ls l p q p' val inner n skip here there k s full i first second =
        record {
          enough = suc (suc (first.enough + second.enough + n));
          final = second.final;
          returned = returned;
          closed = second.closed;
          like = second.like;
        }
      where
        returned :
            (fuel : ℕ)
            → suc (suc (first.enough + second.enough + n)) ≤ fuel
            → reads c dir fuel (place p name (text_of (l ∷ ls)) n skip)
              ≡ some (returns second.final)
        returned zero h = absurd (omega arith)
        returned (suc zero) h = absurd (omega arith)
        returned (suc (suc fuel)) h =
            let clean = append-All IsLine done (l ∷ ls) (lines name _ here) in
            let at_include = place p name (text_of ls) (n + 1) skip in
            read_lines-processed c (files_of dir) (suc fuel) (place p name [] 0 skip)
              (text_of (l ∷ ls)) n _ (line_strip l) second.final
              (line_read-lines c dir name l ls n clean.1.0) refl (ground arith)
              (process_line-callback c (callback c (files_of dir) (suc fuel)) at_include
                  (line_strip l) i
                ∙ include-returned name p l ls done val inner (n + 1) skip (suc fuel) first.final
                    second.final here there (first.returned (suc fuel) (omega arith))
                    (read-again name done ls l first.final q p' n (suc fuel) here k first.like
                      second (omega arith)))
            ∙ reads-closed fuel second.final second.closed

    read-Ends :
        (depth : ℕ) (rest done : List Bytes) (name : Bytes) (p p' : ConfigParser D) (n skip : ℕ)
        → dir name ≡ some (done ++ rest)
        → n ≡ length done + 1
        → skip ≤ n
        → inlined c depth dir p rest ≡ some p'
        → Ends c dir (λ fuel. reads c dir fuel (place p name (text_of rest) n skip)) p'
    unfolding inlined
    read-Ends zero rest done name p p' n skip here k s h = cc
    read-Ends (suc depth) [] done name p p' n skip here k s h =
        let same : p ≡ p' = cc in
        subst (λ r. Ends c dir (λ fuel. reads c dir fuel (place p name (text_of []) n skip)) r) same
          (reads-end c dir name p n skip)
    read-Ends (suc depth) (l ∷ ls) done name p p' n skip here k s h =
        let clean = append-All IsLine done (l ∷ ls) (lines name _ here) in
        let read_line = line_read-lines c dir name l ls n clean.1.0 in
        let joined = here ∙ ap some (sym (append_assoc done (l ∷ []) ls)) in
        let long = length-snoc done l in
        elim (inlined-Round c depth dir p l ls h) [
          | blank empty later ↦
              Ends-round c dir _ (λ fuel. reads c dir fuel (place p name (text_of ls) (n + 1) skip))
                p'
                (λ fuel.
                  read_lines-skipped c (files_of dir) fuel (place p name [] 0 skip)
                    (text_of (l ∷ ls)) n _ read_line (ground arith))
                (read-Ends (suc depth) ls (snoc done l) name p p' (n + 1) skip joined (omega arith)
                  (omega arith) later)
          | plain q full i o later ↦
              Ends-round c dir _ (λ fuel. reads c dir fuel (place q name (text_of ls) (n + 1) skip))
                p'
                (λ fuel.
                  read_lines-processed c (files_of dir) fuel (place p name [] 0 skip)
                    (text_of (l ∷ ls)) n _ (line_strip l) (place q name (text_of ls) (n + 1) skip)
                    read_line refl (ground arith)
                    (process_line-place c (callback c (files_of dir) fuel) p q (line_strip l) name
                      (text_of ls) (n + 1) skip i o))
                (read-Ends (suc depth) ls (snoc done l) name q p' (n + 1) skip joined (omega arith)
                  (omega arith) later)
          | include val inner q full i there first later ↦
              Ends-include name done ls l p q p' val inner n skip here there k s full i
                (read-Ends depth inner [] (p.my_folder ++ val) p q 1 0 there (omega arith)
                  (omega arith) first)
                (read-Ends (suc depth) ls (snoc done l) name q p' (n + 1) (n + 1) joined
                  (omega arith) (omega arith) later)
        ]

    -- With enough fuel `read` of a file whose includes have the result `p'` in place returns, its file closed, and leaves
    -- the maps, the variables and the messages of `p'`: the lines of an included file count once, at the place of its
    -- `!include`, and so do the lines around it, although the file is opened again behind each include. It holds for
    -- a parser that skips no lines, and for files in which each line ends in a newline.
    pub read-inlined :
        (depth : ℕ) (ls : List Bytes) (p p' : ConfigParser D)
        → dir p.my_filename ≡ some ls
        → p.skip_lines ≡ 0
        → inlined c depth dir p ls ≡ some p'
        → Ends c dir (λ fuel. read c fuel (files_of dir) p) p'
    read-inlined depth ls p p' here s h =
        let e = read-Ends depth ls [] p.my_filename p p' 1 p.skip_lines here refl (omega arith) h in
        record {
          enough = e.enough;
          final = e.final;
          returned = λ fuel k.
              read-reading c (files_of dir) fuel p (text_of ls) (ap contents_of here)
              ∙ e.returned fuel k;
          closed = e.closed;
          like = e.like;
        }
