-- ===== src/Config/Parser.antt =====
-- common/conf-parser.cpp: `ConfigParser`. The maps lead from the keys to the variables, which stand in
-- the state by their addresses; `callbacks` has the keys of `include_parse`, the one callback of the
-- class itself. The contents of the files are an argument.
use toolchain_cpp.Common.{
  ℕ, zero, suc, Bool, true, false, ◌||◌, List, [], ◌∷◌, ◌++◌, Option, none, some, leb, ◌==◌,
  if◌then◌else◌, Bytes, codes, same, length, Outcome, returns, throws, aborts, faults,
}
use toolchain_cpp.Common.Int.{ℤ}
use toolchain_cpp.Paths.{path_split}
use toolchain_cpp.Config.{LineRead, line_read, line_strip, scan_key, value_of, atoi}

-- `atof` and `printf` of `%lf`.
pub record Reals (D : Type 0) : Type 0 where
  pub atof : Bytes → D
  pub lf : D → Bytes

-- A `std::map` from keys to variables, in the order of its keys.
abbrev pub Variables : Type 0
Variables = List (Bytes × ℕ)

unfoldable pub find : Variables → Bytes → Option ℕ
find [] key = none
find ((k, address) ∷ entries) key =
    let rest = find entries key in if same k key then some address else rest

unfoldable pub has_key : List Bytes → Bytes → Bool
has_key [] key = false
has_key (k ∷ keys) key = same k key || has_key keys key

unfoldable pub write_at {ℓ} : {A : Type ℓ} → (ℕ → A) → ℕ → A → ℕ → A
write_at f address v a = if a == address then v else f a

-- The texts of `error`, and of `usage`.
pub data Message : Type 0 where
  cannot_read_file cannot_write_file error_reading_file cannot_interpret_line : Message
  incorrect_parameter unknown_parameter cannot_parse_parameter : Bytes → Message
  usage_text : Message

-- `messages` holds what was printed.
pub record ConfigParser (D : Type 0) : Type 0 where
  pub exceptions_enabled : Bool
  pub my_filename : Bytes
  pub my_name : Bytes
  pub my_folder : Bytes
  pub strings : Variables
  pub ints : Variables
  pub bools : Variables
  pub reals : Variables
  pub callbacks : List Bytes
  pub file : Option Bytes
  pub line_num : ℕ
  pub skip_lines : ℕ
  pub eof : Bool
  pub texts : ℕ → Bytes
  pub numbers : ℕ → ℤ
  pub flags : ℕ → Bool
  pub doubles : ℕ → D
  pub messages : List Message

-- A computation that ran out of fuel is none.
abbrev pub Run : Type 0 → Type 0
Run D = Option (Outcome (ConfigParser D))

abbrev pub then_run : {D : Type 0} → Run D → (ConfigParser D → Run D) → Run D
then_run (some (returns p)) f = f p
then_run (some (throws p)) f = some (throws p)
then_run (some aborts) f = some aborts
then_run (some faults) f = some faults
then_run none f = none

abbrev pub bool_value : Bytes → Option Bool
bool_value val =
    if same val (codes "0") || same val (codes "false") || same val (codes "off")
    then some false
    else if same val (codes "1") || same val (codes "true") || same val (codes "on")
    then some true
    else none

module _ {D : Type 0} where
  abbrev pub say : ConfigParser D → Message → ConfigParser D
  say p text = record p { messages = p.messages ++ text ∷ [] }

  unfoldable pub error : ConfigParser D → Message → Bool → Outcome (ConfigParser D)
  error p text force_stop =
      if p.exceptions_enabled || force_stop
      then throws (record p { eof = true; file = none })
      else returns (say p text)

  abbrev pub set_text : ConfigParser D → ℕ → Bytes → ConfigParser D
  set_text p address val = record p { texts = write_at p.texts address val }

  abbrev pub set_number : ConfigParser D → ℕ → Bytes → ConfigParser D
  set_number p address val = record p { numbers = write_at p.numbers address (atoi val) }

  abbrev pub set_double : Reals D → ConfigParser D → ℕ → Bytes → ConfigParser D
  set_double c p address val = record p { doubles = write_at p.doubles address (c.atof val) }

  abbrev pub set_flag : ConfigParser D → ℕ → Bool → ConfigParser D
  set_flag p address b = record p { flags = write_at p.flags address b }

  abbrev pub set_bool : ConfigParser D → ℕ → Bytes → ConfigParser D
  set_bool p address val = elim (bool_value val) [ none ↦ p | some b ↦ set_flag p address b ]

-- One line of a file, and the files; `c` has the conversions of the C library.
module _ {D : Type 0} (c : Reals D) where
  -- A line that is no more than its key, which is not one of the strings.
  abbrev pub key_only : ConfigParser D → Bytes → Outcome (ConfigParser D)
  key_only p key = elim (find p.bools key) [
    | some address ↦ returns (set_flag p address true)
    | none ↦ error p (incorrect_parameter key) false
  ]

  -- The kinds of parameters behind the strings; `callback` is the call of the callback.
  abbrev pub set_other : Run D → ConfigParser D → Bytes → Bytes → Run D
  set_other callback p key val = elim (find p.ints key) [
    | some address ↦ some (returns (set_number p address val))
    | none ↦ elim (find p.reals key) [
      | some address ↦ some (returns (set_double c p address val))
      | none ↦ elim (has_key p.callbacks key) [
        | true ↦ callback
        | false ↦ elim (find p.bools key) [
          | some address ↦ some (returns (set_bool p address val))
          | none ↦ some (error p (unknown_parameter key) false)
        ]
      ]
    ]
  ]

  -- The body of the loop of `read` behind the `sscanf` for the key. `char key[2048]` holds 2047 characters.
  abbrev pub process_key :
      (ConfigParser D → Bytes → Run D) → ConfigParser D → Bytes → Bytes → Bytes → Run D
  process_key callback p line key val =
      if leb 2048 (length key)
      then some faults
      else if leb (length key) 0
      then some (error p cannot_interpret_line false)
      else elim (find p.strings key) [
        | some address ↦ some (returns (set_text p address val))
        | none ↦
            if leb (length line) (length key)
            then some (key_only p key)
            else set_other (callback p val) p key val
      ]

  -- The body for a line that is not skipped.
  unfoldable pub process_line : (ConfigParser D → Bytes → Run D) → ConfigParser D → Bytes → Run D
  process_line callback p line =
      process_key callback p line (scan_key line) (value_of (scan_key line) line)

  -- `read` without its loop.
  unfoldable pub read_with :
      (ConfigParser D → Run D) → (Bytes → Option Bytes) → ConfigParser D → Run D
  read_with loop files p = elim (files p.my_filename) [
    | none ↦ some (error (record p { file = none }) cannot_read_file true)
    | some contents ↦ loop (record p { file = some contents; line_num = 1; eof = false })
  ]

  -- The handler of `include_parse` for an exception of the file that it reads.
  abbrev pub catch_error : Run D → Run D
  catch_error (some (throws p)) = some (error p error_reading_file false)
  catch_error (some (returns p)) = some (returns p)
  catch_error (some aborts) = some aborts
  catch_error (some faults) = some faults
  catch_error none = none

  unfoldable pub include_parse : (ConfigParser D → Run D) → ConfigParser D → Bytes → Run D
  include_parse read p val =
      then_run
        (catch_error
          (read (record p { file = none; my_filename = p.my_folder ++ val; skip_lines = 0 })))
        λ q. read (record q { file = none; my_filename = p.my_filename; skip_lines = p.line_num })

  abbrev pub is_skipped : Bytes → ℕ → ℕ → Bool
  is_skipped line line_num skip_lines = leb (length line) 0 || leb line_num skip_lines

  abbrev pub after_read : ConfigParser D → LineRead → ConfigParser D
  after_read p r = record p { file = some r.unread; line_num = r.line_num; eof = r.eof }

  -- The loop of `read`, with `read` itself for the callback.
  unfoldable pub read_lines : ℕ → (Bytes → Option Bytes) → ConfigParser D → Run D
  read_lines zero files p = none
  read_lines (suc fuel) files p = elim p.file [
    | none ↦ some (returns p)
    | some contents ↦ elim p.eof [
      | true ↦ some (returns (record p { file = none }))
      | false ↦
          let r = line_read contents p.line_num in
          let line = line_strip r.text in
          elim (is_skipped line r.line_num p.skip_lines) [
            | true ↦ read_lines fuel files (after_read p r)
            | false ↦
                then_run
                  (process_line (include_parse (read_with (read_lines fuel files) files))
                    (after_read p r) line)
                  (read_lines fuel files)
          ]
    ]
  ]

  unfoldable pub read : ℕ → (Bytes → Option Bytes) → ConfigParser D → Run D
  read fuel files = read_with (read_lines fuel files) files

module _ {D : Type 0} where
  pub set_file : ConfigParser D → Bytes → ConfigParser D
  set_file p filename =
      let (folder, name) = path_split filename in
      record p { my_filename = filename; my_folder = folder; my_name = name }

  -- `read` of a file by its name.
  pub read_file : Reals D → ℕ → (Bytes → Option Bytes) → ConfigParser D → Bytes → Run D
  read_file c fuel files p filename = read c fuel files (set_file p filename)

  -- The constructor; the variables are the caller's.
  pub initial : Bool → (ℕ → Bytes) → (ℕ → ℤ) → (ℕ → Bool) → (ℕ → D) → ConfigParser D
  initial generate_exceptions texts numbers flags doubles = record {
    exceptions_enabled = generate_exceptions;
    my_filename = [];
    my_name = [];
    my_folder = [];
    strings = [];
    ints = [];
    bools = [];
    reals = [];
    callbacks = codes "!include" ∷ [];
    file = none;
    line_num = 0;
    skip_lines = 0;
    eof = true;
    texts = texts;
    numbers = numbers;
    flags = flags;
    doubles = doubles;
    messages = [];
  }
