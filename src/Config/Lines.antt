-- ===== src/Config/Lines.antt =====
-- The lines that `write` makes, taken apart again.
use toolchain_cpp.Common.{
  ℕ, ◌+◌, ◌<◌, Bool, true, false, ◌&&◌, ◌||◌, not, [], ◌∷◌, ◌++◌, ◌==◌, ◌≡◌, refl, Bytes, length,
  leb, length-append, drop-append, drop-length, append-nil, All, All-append, arith, ap, subst, ◌∙◌,
}
use toolchain_cpp.Http.Text.{is_space, skip_spaces}
use toolchain_cpp.Config.{
  line_read, line_strip, c_str, until_space, scan_key, skip_delims, value_of,
}
use toolchain_cpp.Config.Strip.{before_comment, drop_last_delim, line_strip-drop_last_delim}

-- A character of a value, and one of a key.
abbrev pub is_plain : ℕ → Bool
is_plain c = not (c == 0 || c == b'\n' || c == b'\r' || c == b'#')

abbrev pub is_key_char : ℕ → Bool
is_key_char c = is_plain c && not (is_space c)

abbrev pub Plain : Bytes → Type 0
Plain v = All (λ c. is_plain c ≡ true) v

-- A key is not empty, fits the buffer of `read`, and has no spaces.
pub record IsKey (key : Bytes) : Type 0 where
  pub not_empty : 0 < length key
  pub fits : length key < 2048
  pub chars : All (λ c. is_key_char c ≡ true) key

-- A value has no blanks at its ends.
pub record IsValue (val : Bytes) : Type 0 where
  pub plain : Plain val
  pub no_blank_before : skip_delims val ≡ val
  pub no_blank_behind : drop_last_delim val ≡ val

pub line_read-line :
    (l rest : Bytes) (n : ℕ)
    → Plain l
    → line_read (l ++ b'\n' ∷ rest) n
      ≡ record { text = l; unread = rest; line_num = n + 1; eof = false }
unfolding line_read
line_read-line [] rest n h = refl
line_read-line (x ∷ l) rest n h = ground (arith, line_read-line l rest n)

before_comment-Plain : (v : Bytes) → Plain v → before_comment v ≡ v
unfolding before_comment
before_comment-Plain [] h = refl
before_comment-Plain (x ∷ v) h = ground (arith, before_comment-Plain v)

pub c_str-Plain : (v : Bytes) → Plain v → c_str v ≡ v
unfolding c_str
c_str-Plain [] h = refl
c_str-Plain (x ∷ v) h = ground (arith, c_str-Plain v)

drop_last_delim-append :
    (xs : Bytes) (y : ℕ) (ys : Bytes)
    → drop_last_delim (xs ++ y ∷ ys) ≡ xs ++ drop_last_delim (y ∷ ys)
unfolding drop_last_delim
drop_last_delim-append [] y ys = refl
drop_last_delim-append (x ∷ []) y ys = refl
drop_last_delim-append (x ∷ z ∷ xs) y ys = ap (λ l. x ∷ l) (drop_last_delim-append (z ∷ xs) y ys)

until_space-key :
    (key v : Bytes) → All (λ c. is_key_char c ≡ true) key → until_space (key ++ b' ' ∷ v) ≡ key
unfolding until_space
until_space-key [] v h = refl
until_space-key (x ∷ key) v h = ground (arith, until_space-key key v)

until_space_self : (key : Bytes) → All (λ c. is_key_char c ≡ true) key → until_space key ≡ key
unfolding until_space
until_space_self [] h = refl
until_space_self (x ∷ key) h = ground (arith, until_space_self key)

pub key-Plain : (key : Bytes) → All (λ c. is_key_char c ≡ true) key → Plain key
key-Plain [] h = tt
key-Plain (x ∷ key) h = (ground arith, key-Plain key h.1)

-- A line of a file, and what `line_strip` makes of it: the blank behind the key stands only before a value.
abbrev pub line_of : Bytes → Bytes → Bytes
line_of key val = key ++ b' ' ∷ val

abbrev pub stripped : Bytes → Bytes → Bytes
stripped key [] = key
stripped key (d ∷ val) = key ++ b' ' ∷ d ∷ val

pub line_of-Plain : (key val : Bytes) → IsKey key → IsValue val → Plain (line_of key val)
line_of-Plain key val k v = All-append _ key (b' ' ∷ val) (key-Plain key k.chars) (refl, v.plain)

skip_delims-key :
    (key more : Bytes)
    → 0 < length key
    → All (λ c. is_key_char c ≡ true) key
    → skip_delims (key ++ more) ≡ key ++ more
unfolding skip_delims
skip_delims-key [] more n h = absurd (omega arith)
skip_delims-key (x ∷ key) more n h = ground arith

skip_spaces-key :
    (key more : Bytes)
    → 0 < length key
    → All (λ c. is_key_char c ≡ true) key
    → skip_spaces (key ++ more) ≡ key ++ more
unfolding skip_spaces
skip_spaces-key [] more n h = absurd (omega arith)
skip_spaces-key (x ∷ key) more n h = ground arith

drop_last_delim-line :
    (key val : Bytes)
    → drop_last_delim val ≡ val
    → drop_last_delim (line_of key val) ≡ stripped key val
unfolding drop_last_delim
drop_last_delim-line key [] h = drop_last_delim-append key b' ' [] ∙ append-nil key
drop_last_delim-line key (d ∷ val) h =
    drop_last_delim-append key b' ' (d ∷ val) ∙ ap (λ l. key ++ b' ' ∷ l) h

pub line_strip-line_of :
    (key val : Bytes) → IsKey key → IsValue val → line_strip (line_of key val) ≡ stripped key val
line_strip-line_of key val k v =
    line_strip-drop_last_delim (line_of key val)
    ∙ (rw
        (
          skip_delims-key key (b' ' ∷ val) k.not_empty k.chars,
          before_comment-Plain (line_of key val) (line_of-Plain key val k v),
        )
        (drop_last_delim-line key val v.no_blank_behind))

pub scan_key-stripped :
    (key val : Bytes) → IsKey key → IsValue val → scan_key (stripped key val) ≡ key
unfolding scan_key
scan_key-stripped key [] k v =
    let whole : skip_spaces key ≡ key =
      subst (λ l. skip_spaces l ≡ l) (append-nil key)
        (skip_spaces-key key [] k.not_empty k.chars) in
    rw (c_str-Plain key (key-Plain key k.chars), whole) (until_space_self key k.chars)
scan_key-stripped key (d ∷ val) k v =
    rw
      (
        c_str-Plain (line_of key (d ∷ val)) (line_of-Plain key (d ∷ val) k v),
        skip_spaces-key key (b' ' ∷ d ∷ val) k.not_empty k.chars,
      )
      (until_space-key key (d ∷ val) k.chars)

value-blank : (val : Bytes) → IsValue val → skip_delims (c_str (b' ' ∷ val)) ≡ val
unfolding skip_delims c_str
value-blank val v = rw (c_str-Plain val v.plain) v.no_blank_before

pub value_of-stripped :
    (key val : Bytes) → IsKey key → IsValue val → value_of key (stripped key val) ≡ val
unfolding value_of skip_delims c_str
value_of-stripped key [] k v = rw (drop-length (length key) key (omega arith)) refl
value_of-stripped key (d ∷ val) k v =
    rw (drop-append key (b' ' ∷ d ∷ val) (length key) 0 (omega arith)) (value-blank (d ∷ val) v)

-- A line with a value is longer than its key.
pub stripped_longer :
    (key val : Bytes) → 0 < length val → leb (length (stripped key val)) (length key) ≡ false
stripped_longer key [] h = absurd (omega arith)
stripped_longer key (d ∷ val) h = rw (length-append key (b' ' ∷ d ∷ val)) (ground arith)
