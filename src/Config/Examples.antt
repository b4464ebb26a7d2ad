-- ===== src/Config/Examples.antt =====
-- A parser for four variables, its file, its arguments and an included file.
use toolchain_cpp.Common.{
  ℕ, true, false, List, [], ◌∷◌, Option, none, some, ◌≡◌, refl, Bytes, codes, same, returns, arith,
  All, all, all-All, if◌then◌else◌, ◌<◌, length, subst, Bool-cases, inl, inr,
}
use toolchain_cpp.Common.Int.{pos, negsuc}
use toolchain_cpp.Config.{
  line_read, line_strip, c_str, until_space, skip_delims, scan_key, value_of, atoi, atoi_digits,
}
use toolchain_cpp.Config.Args.{args_of, read_args, read_args-SetsAll, SetsAll}
use toolchain_cpp.Config.Include.{Ends, IsLine, is_line_char}
use toolchain_cpp.Config.Include.Effect.{read-inlined}
use toolchain_cpp.Config.Include.Stale.{read-stale}
use toolchain_cpp.Config.Inline.{Directory, files_of, inlined, include_of, text_of}
use toolchain_cpp.Config.Parser.{
  Reals, ConfigParser, process_line, find, has_key, read, read_with, read_lines, include_parse,
  write_at,
}
use toolchain_cpp.Config.ReadBack.{Restores, read-write}
use toolchain_cpp.Config.Lines.{is_key_char, is_plain, IsKey, IsValue}
use toolchain_cpp.Config.Decimal.{print_int}
use toolchain_cpp.Config.Strip.{before_comment, drop_last_delim, line_strip-drop_last_delim}
use toolchain_cpp.Config.RoundTrip.{Cell, IsEntry, entries, SameMaps}
use toolchain_cpp.Config.Write.{write, write_text, write_variables}
use toolchain_cpp.Http.Text.{skip_spaces, digits_value}

-- Doubles of which only 0 is used.
abbrev zero_only : Reals ℕ
zero_only = record { atof = λ s. 0; lf = λ d. codes "0.000000" }

abbrev parser : ConfigParser ℕ
parser = record {
  exceptions_enabled = false;
  my_filename = codes "a.conf";
  my_name = codes "a.conf";
  my_folder = codes "./";
  strings = (codes "name", 0) ∷ [];
  ints = (codes "port", 0) ∷ [];
  bools = (codes "verbose", 0) ∷ [];
  reals = (codes "ratio", 0) ∷ [];
  callbacks = codes "!include" ∷ [];
  file = none;
  line_num = 0;
  skip_lines = 0;
  eof = true;
  texts = λ a. codes "my server";
  numbers = λ a. negsuc 79;
  flags = λ a. true;
  doubles = λ a. 0;
  messages = [];
}

-- The variables before the parser reads.
abbrev fresh : ConfigParser ℕ
fresh = record parser { texts = λ a. []; numbers = λ a. pos 0; flags = λ a. false }

fresh-SameMaps : SameMaps zero_only parser fresh
fresh-SameMaps = record {
  strings = refl;
  ints = refl;
  bools = refl;
  reals = refl;
  callbacks = refl;
}

short-IsKey :
    (key : Bytes) → all is_key_char key ≡ true → 0 < length key → length key < 2048 → IsKey key
short-IsKey key h n k = record { not_empty = n; fits = k; chars = all-All is_key_char key h }

server-IsValue : IsValue (codes "my server")
unfolding skip_delims drop_last_delim all
server-IsValue = record {
  plain = all-All is_plain (codes "my server") refl;
  no_blank_before = refl;
  no_blank_behind = refl;
}

zero-IsValue : IsValue (codes "0.000000")
unfolding skip_delims drop_last_delim all
zero-IsValue = record {
  plain = all-All is_plain (codes "0.000000") refl;
  no_blank_before = refl;
  no_blank_behind = refl;
}

parser-entries : All (IsEntry zero_only parser) (entries zero_only parser)
unfolding entries find has_key same all
parser-entries = (
  record {
    key = short-IsKey (codes "name") refl (omega arith) (omega arith);
    leads = refl;
    converts = server-IsValue;
  },
  (
    record {
      key = short-IsKey (codes "port") refl (omega arith) (omega arith);
      leads = (refl, refl);
      converts = tt;
    },
    (
      record {
        key = short-IsKey (codes "verbose") refl (omega arith) (omega arith);
        leads = (refl, refl, refl, refl, refl);
        converts = tt;
      },
      (
        record {
          key = short-IsKey (codes "ratio") refl (omega arith) (omega arith);
          leads = (refl, refl, refl);
          converts = (zero-IsValue, omega arith, refl);
        },
        tt,
      ),
    ),
  ),
)

abbrev written : Bytes
written = codes "name my server\nport -80\nverbose 1\nratio 0.000000\n"

abbrev one_file : Bytes → Option Bytes
one_file name = if same name (codes "a.conf") then some written else none

read-write_example :
    Restores zero_only parser fresh (entries zero_only parser) (read zero_only 100 one_file fresh)
unfolding write write_text write_variables c_str print_int entries same
read-write_example =
    read-write zero_only parser one_file 100 fresh (codes "") written parser-entries fresh-SameMaps
      refl refl refl (omega arith)

abbrev arguments : List Bytes
arguments =
    codes "--name"
    ∷ codes "my server"
    ∷ codes "--port"
    ∷ codes "-80"
    ∷ codes "--verbose"
    ∷ codes "1"
    ∷ codes "--ratio"
    ∷ codes "0.000000"
    ∷ []

arguments-lem : args_of zero_only parser (entries zero_only parser) ≡ arguments
unfolding args_of entries print_int
arguments-lem = refl

no_help : All (λ (e : Bytes × Cell). same e.0 (codes "help") ≡ false) (entries zero_only parser)
unfolding entries same
no_help = (refl, (refl, (refl, (refl, tt))))

read_args-SetsAll_example : SetsAll zero_only parser fresh (entries zero_only parser) (
    read_args zero_only fresh
      (codes "./tool")
      (args_of zero_only parser (entries zero_only parser)))
read_args-SetsAll_example =
    read_args-SetsAll zero_only parser fresh (codes "./tool") (entries zero_only parser)
      parser-entries no_help fresh-SameMaps

abbrev directory : Directory
directory name =
    if same name (codes "a.conf")
    then some (codes "port 1" ∷ codes "!include b.conf" ∷ codes "name c" ∷ [])
    else if same name (codes "./b.conf")
    then some (codes "port 2" ∷ codes "name b" ∷ [])
    else none

abbrev after_files : ConfigParser ℕ
after_files = record fresh {
  texts = write_at (write_at fresh.texts 0 (codes "b")) 0 (codes "c");
  numbers = write_at (write_at fresh.numbers 0 (pos 1)) 0 (pos 2);
}

one_of_lines : {ls lines : List Bytes} → All IsLine lines → some lines ≡ some ls → All IsLine ls
one_of_lines {lines} h e = subst (λ l. All IsLine l) (option-injective e) h
  where
    option-injective : {a b : List Bytes} → some a ≡ some b → a ≡ b
    option-injective h = cc

is_line : (l : Bytes) → all is_line_char l ≡ true → IsLine l
is_line l h = all-All is_line_char l h

directory-lines : (name : Bytes) (ls : List Bytes) → directory name ≡ some ls → All IsLine ls
unfolding all
directory-lines name ls h = elim (Bool-cases (same name (codes "a.conf"))) [
  | inl a ↦
      one_of_lines
        (
          is_line (codes "port 1") refl,
          (is_line (codes "!include b.conf") refl, (is_line (codes "name c") refl, tt)),
        )
        (rw a at h)
  | inr a ↦ elim (Bool-cases (same name (codes "./b.conf"))) [
    | inl b ↦
        one_of_lines (is_line (codes "port 2") refl, (is_line (codes "name b") refl, tt))
          (rw (a, b) at h)
    | inr b ↦ let no_file : none ≡ some ls = rw (a, b) at h in cc
  ]
]

read-inlined_example :
    Ends zero_only directory (λ fuel. read zero_only fuel (files_of directory) fresh) after_files
unfolding inlined include_of process_line line_strip scan_key value_of c_str until_space skip_delims
    skip_spaces find has_key same atoi atoi_digits digits_value
read-inlined_example =
    read-inlined zero_only directory directory-lines 2
      (codes "port 1" ∷ codes "!include b.conf" ∷ codes "name c" ∷ []) fresh after_files refl refl
      refl

-- A flag that stands alone before a comment is not read: the blank that stays behind the key makes
-- an empty value.
flag_before_comment :
    process_line zero_only (λ p val. none) fresh (line_strip (codes "verbose  # on"))
    ≡ some (returns fresh)
unfolding process_line line_strip scan_key value_of c_str until_space skip_delims skip_spaces find
    has_key same
flag_before_comment = refl

-- Two files; the second is shorter than the place of the include in the first.
abbrev small : Directory
small name =
    if same name (codes "a.conf")
    then some (codes "port 1" ∷ codes "!include b.conf" ∷ [])
    else if same name (codes "./b.conf")
    then some (codes "port 7" ∷ [])
    else none

-- The parser behind `read` of the first file.
abbrev has_included : ConfigParser ℕ
has_included = record fresh {
  file = none;
  line_num = 3;
  skip_lines = 3;
  eof = true;
  numbers = write_at (write_at fresh.numbers 0 (pos 1)) 0 (pos 7);
}

include_leaves_skip_lines : read zero_only 20 (files_of small) fresh ≡ some (returns has_included)
unfolding read read_with read_lines include_parse text_of line_read process_line line_strip scan_key
    value_of c_str until_space skip_delims skip_spaces find has_key same atoi atoi_digits
    digits_value
include_leaves_skip_lines = refl

-- It reads the second file, whose line has no effect.
read-stale_example :
    Ends zero_only small
      (λ fuel.
        read zero_only fuel
          (files_of small)
          (record has_included { my_filename = codes "./b.conf" }))
      (record has_included { my_filename = codes "./b.conf" })
unfolding all same
read-stale_example =
    read-stale zero_only small (codes "port 7" ∷ [])
      (record has_included { my_filename = codes "./b.conf" }) refl
      (is_line (codes "port 7") refl, tt) (omega arith)

line_strip-drop_last_delim_example :
    line_strip (codes "  name  b  # c")
    ≡ drop_last_delim (before_comment (skip_delims (codes "  name  b  # c")))
line_strip-drop_last_delim_example = line_strip-drop_last_delim (codes "  name  b  # c")
