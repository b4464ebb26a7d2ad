-- ===== src/Config/ReadBack.antt =====
-- `read` of what `write` has written.
use toolchain_cpp.Common.{
  ℕ, zero, suc, ◌+◌, ◌<◌, true, false, List, [], ◌∷◌, ◌++◌, append_assoc, Option, none, some, ◌≡◌,
  refl, sym, ap, ◌∙◌, leb, Bytes, length, length-append, All, append-All, returns, arith, map,
}
use toolchain_cpp.Config.{line_read, line_strip, c_str}
use toolchain_cpp.Config.Decimal.{print_int}
use toolchain_cpp.Config.Lines.{
  IsKey, line_of, stripped, line_of-Plain, line_read-line, line_strip-line_of, c_str-Plain,
  key-Plain,
}
use toolchain_cpp.Config.Parser.{Reals, Variables, ConfigParser, Run, is_skipped, read_lines, read}
use toolchain_cpp.Config.RoundTrip.{
  Cell, text, number, flag, double, printed, printed-IsValue, Agrees, Agrees-record, Converts,
  IsEntry, entries, lines_text, SameMaps, SameMaps-store, store, store-Agrees, store_keeps,
  process_line-store,
}
use toolchain_cpp.Config.Step.{
  reading, callback, read_lines-skipped, read_lines-processed, read_lines-end, read-reading,
}
use toolchain_cpp.Config.Write.{write_variables, print_bool, write_text, write}

module _ {D : Type 0} (c : Reals D) (p : ConfigParser D) where
  -- What a run from `q` does to the variables: those of the entries have the values of `p`, and no variable loses
  -- the value of `p`.
  pub record Restores (q : ConfigParser D) (es : List (Bytes × Cell)) (run : Run D) : Type 0 where
    pub final : ConfigParser D
    pub returned : run ≡ some (returns final)
    pub keeps : (cell : Cell) → Agrees c p q cell → Agrees c p final cell
    pub restored : All (λ (e : Bytes × Cell). Agrees c p final e.1) es

  nonempty_stripped : (key val : Bytes) → IsKey key → leb (length (stripped key val)) 0 ≡ false
  nonempty_stripped key [] k = let n = k.not_empty in ground arith
  nonempty_stripped key (d ∷ val) k =
      let n = k.not_empty in rw (length-append key (b' ' ∷ d ∷ val)) (ground arith)

  module _ (files : Bytes → Option Bytes) where
    read_lines-Restores :
        (es : List (Bytes × Cell)) (fuel : ℕ) (q : ConfigParser D) (n : ℕ)
        → length es + 1 < fuel
        → All (IsEntry c p) es
        → SameMaps c p q
        → q.skip_lines ≡ 0
        → Restores q es (read_lines c fuel files (reading c files q (lines_text c p es) n))
    unfolding lines_text line_read line_strip
    read_lines-Restores [] (suc (suc fuel)) q n h entry s k = record {
      final = record q { file = none; line_num = n; eof = true };
      returned =
          read_lines-skipped c files (suc fuel) q [] n _ refl refl
          ∙ read_lines-end c files fuel q [] n;
      keeps = λ cell a. Agrees-record c p q none n true cell a;
      restored = tt;
    }
    read_lines-Restores ((key, cell) ∷ es) (suc fuel) q n h (entry, later_entries) s k =
        let val = printed c p cell in
        let v = printed-IsValue c p cell entry.converts in
        let q0 = reading c files q (lines_text c p es) (n + 1) in
        let q1 = store c p q0 cell in
        let not_skipped : is_skipped c (stripped key val) (n + 1) q.skip_lines ≡ false =
          rw (k, nonempty_stripped key val entry.key) (ground arith) in
        let later =
          read_lines-Restores es fuel (store c p q cell) (n + 1) (omega arith) later_entries
            (SameMaps-store c p q q.file q.line_num q.eof cell s) k in
        record {
          final = later.final;
          returned =
              read_lines-processed c files fuel q (line_of key val ++ b'\n' ∷ lines_text c p es) n _
                (stripped key val) q1
                (line_read-line (line_of key val) (lines_text c p es) n
                  (line_of-Plain key val entry.key v))
                (line_strip-line_of key val entry.key v) not_skipped
                (process_line-store c (callback c files fuel) p q0 key cell entry (record {
                  strings = s.strings;
                  ints = s.ints;
                  bools = s.bools;
                  reals = s.reals;
                  callbacks = s.callbacks;
                }))
              ∙ later.returned;
          keeps = λ other a. later.keeps other (store_keeps c p q cell other a);
          restored = (later.keeps cell (store-Agrees c p q cell), later.restored);
        }
    read_lines-Restores [] zero q n h entry s k = absurd (omega arith)
    read_lines-Restores [] (suc zero) q n h entry s k = absurd (omega arith)
    read_lines-Restores (e ∷ es) zero q n h entry s k = absurd (omega arith)

  lines_text-append :
      (es fs : List (Bytes × Cell))
      → lines_text c p (es ++ fs) ≡ lines_text c p es ++ lines_text c p fs
  unfolding lines_text
  lines_text-append [] fs = refl
  lines_text-append (e ∷ es) fs =
      ap (λ l. line_of e.0 (printed c p e.1) ++ b'\n' ∷ l) (lines_text-append es fs)
      ∙ sym (
          append_assoc (line_of e.0 (printed c p e.1)) (b'\n' ∷ lines_text c p es)
            (lines_text c p fs))

  abbrev named : (ℕ → Cell) → Variables → List (Bytes × Cell)
  named make vars = map (λ e. (e.0, make e.1)) vars

  write_variables-lines_text :
      (make : ℕ → Cell) (print : ℕ → Bytes)
      → ((a : ℕ) → Converts c p (make a) → print a ≡ printed c p (make a))
      → (vars : Variables) → All (IsEntry c p) (named make vars)
      → write_variables print vars ≡ lines_text c p (named make vars)
  unfolding write_variables lines_text
  write_variables-lines_text make print same [] h = refl
  write_variables-lines_text make print same ((key, a) ∷ vars) (entry, others) =
      rw
        (
          c_str-Plain key (key-Plain key entry.key.chars),
          same a entry.converts,
          write_variables-lines_text make print same vars others,
        )
        refl

  write_text-lines_text :
      All (IsEntry c p) (entries c p) → write_text c p ≡ lines_text c p (entries c p)
  unfolding write_text entries
  write_text-lines_text h =
      let strings = named text p.strings in
      let numbers = named number p.ints in
      let flags = named flag p.bools in
      let doubles = named double p.reals in
      let all = append-All (IsEntry c p) (strings ++ numbers ++ flags) doubles h in
      let three = append-All (IsEntry c p) (strings ++ numbers) flags all.0 in
      let two = append-All (IsEntry c p) strings numbers three.0 in
      rw
        (
          write_variables-lines_text text (λ a. c_str (p.texts a))
              (λ a v. c_str-Plain (p.texts a) v.plain) p.strings two.0,
          write_variables-lines_text number (λ a. print_int (p.numbers a)) (λ a v. refl) p.ints
              two.1,
          write_variables-lines_text flag (λ a. print_bool (p.flags a)) (λ a v. refl) p.bools
              three.1,
          write_variables-lines_text double (λ a. c.lf (p.doubles a)) (λ a v. refl) p.reals all.1,
          lines_text-append (strings ++ numbers ++ flags) doubles,
          lines_text-append (strings ++ numbers) flags,
          lines_text-append strings numbers,
        )
        refl

  -- A file that `write` has made, read with enough fuel for its lines by a parser with the same maps, that skips no lines:
  -- `read` returns, with or without exceptions, and the variables of the maps have the values of the parser that wrote
  -- the file. It holds for maps in which a key leads to its own variable, keys without spaces and special characters,
  -- texts without special characters and blanks at their ends, and doubles that `atof` reads back.
  pub read-write :
      (files : Bytes → Option Bytes) (fuel : ℕ) (q : ConfigParser D) (filename contents : Bytes)
      → All (IsEntry c p) (entries c p)
      → SameMaps c p q
      → q.skip_lines ≡ 0
      → (write c p true filename).1 ≡ some (q.my_filename, contents)
      → files q.my_filename ≡ some contents
      → length (entries c p) + 1 < fuel
      → Restores q (entries c p) (read c fuel files q)
  unfolding write
  read-write files fuel q filename contents h s k w f n =
      let text : contents ≡ lines_text c p (entries c p) = cc (w, write_text-lines_text h) in
      let r = read_lines-Restores files (entries c p) fuel q 1 n h s k in
      record {
        final = r.final;
        returned =
            read-reading c files fuel q contents f
            ∙ ap (λ l. read_lines c fuel files (reading c files q l 1)) text
            ∙ r.returned;
        keeps = r.keeps;
        restored = r.restored;
      }
