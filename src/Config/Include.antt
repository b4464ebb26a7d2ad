-- ===== src/Config/Include.antt =====
-- `read` of a file with `!include` lines: the files that it reads again count once.
pub mod Effect
pub mod Stale
use toolchain_cpp.Common.{
  ℕ, zero, suc, ◌+◌, ◌<◌, ◌≤◌, max, Bool, true, false, ◌||◌, not, List, [], ◌∷◌, ◌++◌, append_assoc,
  Option, none, some, ◌≡◌, refl, sym, ap, ◌∙◌, subst, if◌then◌else◌, leb, ltb, ◌==◌, Bytes, length,
  length-append, All, append-All, Outcome, returns, throws, arith, Bool-cases, Option-cases, inl,
  inr,
}
use toolchain_cpp.Config.{LineRead, line_read, line_strip}
use toolchain_cpp.Config.Inline.{
  Directory, text_of, files_of, include_of, inlined, no_callback, outcome_only, and_then, place,
  process_line-callback, process_line-place,
}
use toolchain_cpp.Config.Parser.{
  Reals, ConfigParser, Run, then_run, catch_error, process_line, is_skipped, after_read,
  include_parse, read_with, read_lines, read,
}
use toolchain_cpp.Config.Step.{
  callback, read_lines-skipped, read_lines-processed, read_lines-end, read-reading,
}

-- A line has no signs for the ends of lines.
abbrev pub is_line_char : ℕ → Bool
is_line_char c = not (c == b'\n' || c == b'\r')

abbrev pub IsLine : Bytes → Type 0
IsLine l = All (λ c. is_line_char c ≡ true) l

line_read-IsLine :
    (l rest : Bytes) (n : ℕ)
    → IsLine l
    → line_read (l ++ b'\n' ∷ rest) n
      ≡ record { text = l; unread = rest; line_num = n + 1; eof = false }
unfolding line_read
line_read-IsLine [] rest n h = refl
line_read-IsLine (x ∷ l) rest n h = ground (arith, line_read-IsLine l rest n)

module _ {D : Type 0} where
  -- The parser without the book-keeping of the file that it reads.
  abbrev pub core : ConfigParser D → ConfigParser D
  core p = record p { my_filename = []; file = none; line_num = 0; skip_lines = 0; eof = true }

  pub place-core :
      (p q : ConfigParser D) (name contents : Bytes) (n skip : ℕ)
      → core p ≡ core q
      → place p name contents n skip ≡ place q name contents n skip
  place-core p q name contents n skip h = ap (λ r. place r name contents n skip) h

module _ {D : Type 0} (c : Reals D) (dir : Directory) where
  -- With enough fuel a run returns, with the file closed, and leaves the parser like `p` but for the book-keeping.
  pub record Ends (run : ℕ → Run D) (p : ConfigParser D) : Type 0 where
    pub enough : ℕ
    pub final : ConfigParser D
    pub returned : (fuel : ℕ) → enough ≤ fuel → run fuel ≡ some (returns final)
    pub closed : final.file ≡ none
    pub like : core final ≡ core p

  abbrev pub reads : ℕ → ConfigParser D → Run D
  reads fuel = read_lines c fuel (files_of dir)

  module _ (name : Bytes) where
    pub line_read-lines :
        (l : Bytes) (ls : List Bytes) (n : ℕ)
        → IsLine l
        → line_read (text_of (l ∷ ls)) n
          ≡ record { text = l; unread = text_of ls; line_num = n + 1; eof = false }
    unfolding text_of
    line_read-lines l ls n h = line_read-IsLine l (text_of ls) n h

    -- The lines that an include has read before are passed over.
    pub reads-skip :
        (done rest : List Bytes) (total fuel : ℕ) (p : ConfigParser D) (n skip : ℕ)
        → total ≡ length done + fuel
        → All IsLine done
        → n + length done ≤ skip
        → reads total (place p name (text_of (done ++ rest)) n skip)
          ≡ reads fuel (place p name (text_of rest) (n + length done) skip)
    reads-skip [] rest total fuel p n skip t h e =
        let same_fuel : total ≡ fuel = omega arith in
        let same_line : n ≡ n + 0 = omega arith in
        ap (λ f. reads f (place p name (text_of rest) n skip)) same_fuel
        ∙ ap (λ k. reads fuel (place p name (text_of rest) k skip)) same_line
    reads-skip (l ∷ done) rest zero fuel p n skip t h e = absurd (omega arith)
    reads-skip (l ∷ done) rest (suc total) fuel p n skip t h e =
        let same_line : n + 1 + length done ≡ n + suc (length done) = omega arith in
        read_lines-skipped c (files_of dir) total (place p name [] 0 skip)
          (text_of (l ∷ done ++ rest)) n _ (line_read-lines l (done ++ rest) n h.0) (ground arith)
        ∙ reads-skip done rest total fuel p (n + 1) skip (omega arith) h.1 (omega arith)
        ∙ ap (λ k. reads fuel (place p name (text_of rest) k skip)) same_line

    -- The end of the file.
    pub reads-end :
        (p : ConfigParser D) (n skip : ℕ)
        → Ends (λ fuel. reads fuel (place p name (text_of []) n skip)) p
    unfolding text_of line_read line_strip
    reads-end p n skip = record {
      enough = 2;
      final = record p {
        my_filename = name;
        file = none;
        line_num = n;
        skip_lines = skip;
        eof = true;
      };
      returned = returned;
      closed = refl;
      like = refl;
    }
      where
        returned :
            (fuel : ℕ)
            → 2 ≤ fuel
            → reads fuel (place p name [] n skip)
              ≡ some (
                  returns (record p {
                    my_filename = name;
                    file = none;
                    line_num = n;
                    skip_lines = skip;
                    eof = true;
                  }))
        returned zero h = absurd (omega arith)
        returned (suc zero) h = absurd (omega arith)
        returned (suc (suc fuel)) h =
            read_lines-skipped c (files_of dir) (suc fuel) (place p name [] 0 skip) [] n _ refl refl
            ∙ read_lines-end c (files_of dir) fuel (place p name [] 0 skip) [] n

  -- One more round in front of a run.
  pub Ends-round :
      (run later : ℕ → Run D) (p : ConfigParser D)
      → ((fuel : ℕ) → run (suc fuel) ≡ later fuel)
      → Ends later p
      → Ends run p
  Ends-round run later p h e = record {
    enough = suc e.enough;
    final = e.final;
    returned = returned;
    closed = e.closed;
    like = e.like;
  }
    where
      returned : (fuel : ℕ) → suc e.enough ≤ fuel → run fuel ≡ some (returns e.final)
      returned zero k = absurd (omega arith)
      returned (suc fuel) k = h fuel ∙ e.returned fuel (omega arith)
