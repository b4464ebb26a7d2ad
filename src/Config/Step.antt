-- ===== src/Config/Step.antt =====
-- One round of the loop of `read`.
use toolchain_cpp.Common.{
  ℕ, suc, true, false, Option, none, some, ◌≡◌, refl, ap, ◌∙◌, Bytes, returns,
}
use toolchain_cpp.Config.{LineRead, line_read, line_strip}
use toolchain_cpp.Config.Parser.{
  Reals, ConfigParser, Run, then_run, process_line, is_skipped, after_read, include_parse,
  read_with, read_lines, read,
}

module _ {D : Type 0} (c : Reals D) (files : Bytes → Option Bytes) where
  -- The parser in the middle of a file, with so much of it unread.
  abbrev pub reading : ConfigParser D → Bytes → ℕ → ConfigParser D
  reading q contents n = record q { file = some contents; line_num = n; eof = false }

  abbrev pub callback : ℕ → ConfigParser D → Bytes → Run D
  callback fuel = include_parse c (read_with c (read_lines c fuel files) files)

  -- The loop behind one line.
  abbrev pub rest_of_round : ℕ → ConfigParser D → LineRead → Bytes → Run D
  rest_of_round fuel q r line = elim (is_skipped c line r.line_num q.skip_lines) [
    | true ↦ read_lines c fuel files (after_read c q r)
    | false ↦
        then_run (process_line c (callback fuel) (after_read c q r) line) (read_lines c fuel files)
  ]

  pub read_lines-round :
      (fuel : ℕ) (q : ConfigParser D) (contents : Bytes) (n : ℕ)
      → read_lines c (suc fuel) files (reading q contents n)
        ≡ rest_of_round fuel
            (reading q contents n)
            (line_read contents n)
            (line_strip (line_read contents n).text)
  unfolding read_lines
  read_lines-round fuel q contents n = refl

  module _ (fuel : ℕ) (q : ConfigParser D) (contents : Bytes) (n : ℕ) (r : LineRead) where
    -- A line that is passed over.
    pub read_lines-skipped :
        line_read contents n ≡ r
        → is_skipped c (line_strip r.text) r.line_num q.skip_lines ≡ true
        → read_lines c (suc fuel) files (reading q contents n)
          ≡ read_lines c fuel files (after_read c q r)
    read_lines-skipped e h =
        read_lines-round fuel q contents n
        ∙ ap (λ l. rest_of_round fuel (reading q contents n) l (line_strip l.text)) e
        ∙ rw (rest_of_round, h) refl

    -- A line that has its effect.
    pub read_lines-processed :
        (line : Bytes) (q' : ConfigParser D)
        → line_read contents n ≡ r
        → line_strip r.text ≡ line
        → is_skipped c line r.line_num q.skip_lines ≡ false
        → process_line c (callback fuel) (after_read c q r) line ≡ some (returns q')
        → read_lines c (suc fuel) files (reading q contents n) ≡ read_lines c fuel files q'
    read_lines-processed line q' e s h d =
        read_lines-round fuel q contents n
        ∙ ap (λ l. rest_of_round fuel (reading q contents n) l (line_strip l.text)) e
        ∙ ap (λ l. rest_of_round fuel (reading q contents n) r l) s
        ∙ rw (rest_of_round, h) (ap (λ o. then_run o (read_lines c fuel files)) d)

  -- The end of a file.
  pub read_lines-end :
      (fuel : ℕ) (q : ConfigParser D) (contents : Bytes) (n : ℕ)
      → read_lines c (suc fuel) files (record q { file = some contents; line_num = n; eof = true })
        ≡ some (returns (record q { file = none; line_num = n; eof = true }))
  unfolding read_lines
  read_lines-end fuel q contents n = refl

  pub read-reading :
      (fuel : ℕ) (q : ConfigParser D) (contents : Bytes)
      → files q.my_filename ≡ some contents
      → read c fuel files q ≡ read_lines c fuel files (reading q contents 1)
  unfolding read read_with
  read-reading fuel q contents h = rw (read, read_with, h) refl
