-- ===== src/Config/Write.antt =====
-- common/conf-parser.cpp: `write`, and what reading a written line does.
use toolchain_cpp.Common.{
  ℕ, Bool, true, false, [], ◌∷◌, ◌++◌, Option, none, some, if◌then◌else◌, leb, Bytes, codes, length,
  Outcome, returns,
}
use toolchain_cpp.Config.{c_str}
use toolchain_cpp.Config.Decimal.{print_int}
use toolchain_cpp.Config.Parser.{Reals, Variables, ConfigParser, error, cannot_write_file}

-- One of the four loops of `write`; the first argument prints a variable.
unfoldable pub write_variables : (ℕ → Bytes) → Variables → Bytes
write_variables print [] = []
write_variables print ((key, address) ∷ entries) =
    (c_str key ++ b' ' ∷ print address) ++ b'\n' ∷ write_variables print entries

abbrev pub print_bool : Bool → Bytes
print_bool false = codes "0"
print_bool true = codes "1"

module _ {D : Type 0} (c : Reals D) where
  unfoldable pub write_text : ConfigParser D → Bytes
  write_text p =
      write_variables (λ a. c_str (p.texts a)) p.strings
      ++ write_variables (λ a. print_int (p.numbers a)) p.ints
      ++ write_variables (λ a. print_bool (p.flags a)) p.bools
      ++ write_variables (λ a. c.lf (p.doubles a)) p.reals

  -- The parser behind `write`, and the file that it made: its name and its contents. The second argument is
  -- whether `fopen` opens the file.
  unfoldable pub write :
      ConfigParser D → Bool → Bytes → Outcome (ConfigParser D) × Option (Bytes × Bytes)
  write p opens filename =
      let name = if leb (length filename) 0 then p.my_filename else filename in
      if opens
      then (returns (record p { file = none; eof = true }), some (name, write_text p))
      else (error (record p { file = none }) cannot_write_file true, none)
