-- ===== src/Config.antt =====
-- common/conf-parser.cpp: the text of a configuration file, one line at a time. `line_read` and
-- `line_strip` are here, with the C functions that take a line apart.
pub mod Strip
pub mod Parser
pub mod Lines
pub mod Decimal
pub mod Write
pub mod RoundTrip
pub mod Step
pub mod ReadBack
pub mod Inline
pub mod Include
pub mod Args
mod Examples
use toolchain_cpp.Common.{
  ℕ, suc, ◌+◌, ◌-◌, ◌*◌, Bool, true, false, ◌&&◌, ◌||◌, not, List, [], ◌∷◌, Option, none, some,
  ◌==◌, if◌then◌else◌, Bytes, length, take, drop,
}
use toolchain_cpp.Common.Int.{ℤ, pos, sub_ℕ}
use toolchain_cpp.Http.Text.{is_space, skip_spaces, digits_value}

-- What one call of `line_read` leaves: the line, and the file behind it.
pub record LineRead : Type 0 where
  pub text : Bytes
  pub unread : Bytes
  pub line_num : ℕ
  pub eof : Bool

abbrev pub prepend : ℕ → LineRead → LineRead
prepend byte r = record r { text = byte ∷ r.text }

-- The loop of `line_read`: `fread` of one byte returns 0 at the end of the file, and 1 before it.
unfoldable pub line_read : Bytes → ℕ → LineRead
line_read [] line_num = record { text = []; unread = []; line_num = line_num; eof = true }
line_read (byte ∷ file) line_num =
    let more = line_read file line_num in
    if byte == b'\r'
    then more
    else if byte == b'\n'
    then record { text = []; unread = file; line_num = line_num + 1; eof = false }
    else prepend byte more

abbrev pub is_delim : ℕ → Bool
is_delim c = c == b' ' || c == b'\t'

-- `trunc_from` is none for -1.
abbrev pub trunc_at_comment : Option ℕ → ℕ → Option ℕ
trunc_at_comment none i = some i
trunc_at_comment (some n) i = some n

-- The loop of `line_strip` at index `i`; the last argument is the line from there on.
unfoldable pub strip_scan : Bool → Option ℕ → ℕ → Bytes → Bytes → Bytes × Option ℕ
strip_scan text_started trunc_from i line [] = (line, trunc_from)
strip_scan text_started trunc_from i line (c ∷ rest) =
    let erased = strip_scan false trunc_from i (drop 1 line) rest in
    let at_delim = strip_scan text_started (some i) (i + 1) line rest in
    let at_text = strip_scan true none (i + 1) line rest in
    if not text_started && is_delim c
    then erased
    else if c == b'#'
    then (line, trunc_at_comment trunc_from i)
    else if is_delim c
    then at_delim
    else at_text

abbrev pub truncate : Bytes × Option ℕ → Bytes
truncate (line, none) = line
truncate (line, some n) = take n line

unfoldable pub line_strip : Bytes → Bytes
unfolding strip_scan
line_strip line = truncate (strip_scan false none 0 line line)

-- The text as a C string.
unfoldable pub c_str : Bytes → Bytes
c_str [] = []
c_str (c ∷ cs) = let rest = c_str cs in if c == 0 then [] else c ∷ rest

unfoldable pub until_space : Bytes → Bytes
until_space [] = []
until_space (c ∷ cs) = let rest = until_space cs in if is_space c then [] else c ∷ rest

-- `sscanf` of `%s`; the empty key is a result other than 1.
pub scan_key : Bytes → Bytes
scan_key line = until_space (skip_spaces (c_str line))

unfoldable pub skip_delims : Bytes → Bytes
skip_delims [] = []
skip_delims (c ∷ cs) = let rest = skip_delims cs in if is_delim c then rest else c ∷ cs

-- The value of a line, behind as many characters as the key has.
pub value_of : Bytes → Bytes → Bytes
value_of key line = skip_delims (c_str (drop (length key) line))

-- `atoi`, for a number within `int`.
unfoldable pub atoi_digits : Bytes → ℤ
atoi_digits [] = pos 0
atoi_digits (c ∷ cs) =
    if c == b'-'
    then sub_ℕ 0 (digits_value 0 cs)
    else if c == b'+'
    then pos (digits_value 0 cs)
    else pos (digits_value 0 (c ∷ cs))

pub atoi : Bytes → ℤ
atoi s = atoi_digits (skip_spaces s)
