-- ===== src/Config/Args.antt =====
-- common/conf-parser.cpp: `read_args`, and the arguments that set the variables.
use toolchain_cpp.Common.{
  ℕ, ◌+◌, Bool, true, false, List, [], ◌∷◌, Option, none, some, ◌≡◌, refl, ap, if◌then◌else◌, ltb,
  ◌==◌, Bytes, codes, same, length, drop, get_or, All, Outcome, returns, throws, aborts, faults,
  arith,
}
use toolchain_cpp.Config.Decimal.{atoi-print_int}
use toolchain_cpp.Config.Parser.{
  Reals, ConfigParser, cannot_parse_parameter, usage_text, say, error, find, set_text, set_number,
  set_double, set_flag, set_bool,
}
use toolchain_cpp.Config.RoundTrip.{
  Cell, text, number, flag, double, printed, Agrees, IsEntry, SameMaps, SameMaps-store, store,
  store-Agrees, store_keeps, set_bool-print_bool,
}
use toolchain_cpp.Config.Write.{print_bool}
use toolchain_cpp.Paths.{path_split}

-- What one argument does: it takes the next one as its value, stands alone, or is no parameter.
pub data ArgStep (D : Type 0) : Type 0 where
  takes_value stands_alone : ConfigParser D → ArgStep D
  rejected : ArgStep D

abbrev pub is_hyphen : Bytes → ℕ → Bool
is_hyphen arg i = get_or arg i 0 == b'-'

abbrev one_if : Bool → ℕ
one_if true = 1
one_if false = 0

-- The name behind the hyphens, of an argument of three characters or more.
unfoldable pub param_name : Bytes → Bytes
param_name arg = drop (one_if (is_hyphen arg 0) + one_if (is_hyphen arg 1)) arg

print_bool_is_no_name : (b : Bool) → is_hyphen (print_bool b) 0 ≡ false
print_bool_is_no_name true = refl
print_bool_is_no_name false = refl

module _ {D : Type 0} (c : Reals D) where
  -- A parameter that may have a value: the next argument, when there is one.
  abbrev pub flag_step : ConfigParser D → Bytes → Option Bytes → ArgStep D
  flag_step p name next = elim (find p.bools name) [
    | none ↦ rejected
    | some address ↦ elim next [
      | none ↦ stands_alone (set_flag p address true)
      | some val ↦
          if is_hyphen val 0
          then stands_alone (set_flag p address true)
          else takes_value (set_bool p address val)
    ]
  ]

  unfoldable pub arg_step : ConfigParser D → Bytes → Option Bytes → ArgStep D
  arg_step p name none = flag_step p name none
  arg_step p name (some val) = elim (find p.strings name) [
    | some address ↦ takes_value (set_text p address val)
    | none ↦ elim (find p.ints name) [
      | some address ↦ takes_value (set_number p address val)
      | none ↦ elim (find p.reals name) [
        | some address ↦ takes_value (set_double c p address val)
        | none ↦ flag_step p name (some val)
      ]
    ]
  ]

  abbrev then_outcome :
      Outcome (ConfigParser D)
      → (ConfigParser D → Outcome (ConfigParser D))
      → Outcome (ConfigParser D)
  then_outcome (returns p) f = f p
  then_outcome (throws p) f = throws p
  then_outcome aborts f = aborts
  then_outcome faults f = faults

  -- An argument that cannot be parsed, and the arguments behind it.
  abbrev refuse :
      ConfigParser D
      → Bytes
      → (ConfigParser D → Outcome (ConfigParser D))
      → Outcome (ConfigParser D)
  refuse p arg f = then_outcome (error p (cannot_parse_parameter arg) false) f

  -- The loop of `read_args`.
  unfoldable pub args_loop : Bool → ConfigParser D → List Bytes → Outcome (ConfigParser D)
  args_loop have_error p [] = returns (if have_error then say p usage_text else p)
  args_loop have_error p (arg ∷ []) = elim (ltb (length arg) 3) [
    | true ↦ refuse p arg (λ q. returns (say q usage_text))
    | false ↦ elim (same (param_name arg) (codes "help")) [
      | true ↦ returns (say p usage_text)
      | false ↦ elim (arg_step p (param_name arg) none) [
        | takes_value q ↦ returns (if have_error then say q usage_text else q)
        | stands_alone q ↦ returns (if have_error then say q usage_text else q)
        | rejected ↦ refuse p arg (λ q. returns (say q usage_text))
      ]
    ]
  ]
  args_loop have_error p (arg ∷ next ∷ args) = elim (ltb (length arg) 3) [
    | true ↦ refuse p arg (λ q. args_loop true q (next ∷ args))
    | false ↦ elim (same (param_name arg) (codes "help")) [
      | true ↦ returns (say p usage_text)
      | false ↦ elim (arg_step p (param_name arg) (some next)) [
        | takes_value q ↦ args_loop have_error q args
        | stands_alone q ↦ args_loop have_error q (next ∷ args)
        | rejected ↦ refuse p arg (λ q. args_loop true q (next ∷ args))
      ]
    ]
  ]

  pub read_args : ConfigParser D → Bytes → List Bytes → Outcome (ConfigParser D)
  read_args p program args =
      let (folder, name) = path_split program in
      args_loop false (record p { my_folder = folder; my_name = name }) args

  -- Each variable as two arguments.
  unfoldable pub args_of : ConfigParser D → List (Bytes × Cell) → List Bytes
  args_of p [] = []
  args_of p (e ∷ es) = (b'-' ∷ b'-' ∷ e.0) ∷ printed c p e.1 ∷ args_of p es

  arg_step-store :
      (p q : ConfigParser D) (key : Bytes) (cell : Cell)
      → IsEntry c p (key, cell)
      → SameMaps c p q
      → arg_step q key (some (printed c p cell)) ≡ takes_value (store c p q cell)
  unfolding arg_step
  arg_step-store p q key (text a) e s =
      let of_strings : find q.strings key ≡ some a = rw s.strings e.leads in
      rw (arg_step, of_strings) refl
  arg_step-store p q key (number a) e s =
      let of_strings : find q.strings key ≡ none = rw s.strings e.leads.0 in
      let of_ints : find q.ints key ≡ some a = rw s.ints e.leads.1 in
      rw (arg_step, of_strings, of_ints, atoi-print_int (p.numbers a)) refl
  arg_step-store p q key (flag a) e s =
      let of_strings : find q.strings key ≡ none = rw s.strings e.leads.0 in
      let of_ints : find q.ints key ≡ none = rw s.ints e.leads.1 in
      let of_reals : find q.reals key ≡ none = rw s.reals e.leads.2 in
      let of_bools : find q.bools key ≡ some a = rw s.bools e.leads.4 in
      rw
        (
          arg_step,
          of_strings,
          of_ints,
          of_reals,
          flag_step,
          of_bools,
          print_bool_is_no_name (p.flags a),
        )
        (ap (λ r. takes_value r) (set_bool-print_bool c q a (p.flags a)))
  arg_step-store p q key (double a) e s =
      let of_strings : find q.strings key ≡ none = rw s.strings e.leads.0 in
      let of_ints : find q.ints key ≡ none = rw s.ints e.leads.1 in
      let of_reals : find q.reals key ≡ some a = rw s.reals e.leads.2 in
      rw (arg_step, of_strings, of_ints, of_reals, e.converts.2) refl

  -- What the arguments leave.
  pub record SetsAll (p q : ConfigParser D) (es : List (Bytes × Cell))
      (out : Outcome (ConfigParser D)) : Type 0 where
    pub final : ConfigParser D
    pub returned : out ≡ returns final
    pub keeps : (cell : Cell) → Agrees c p q cell → Agrees c p final cell
    pub set : All (λ (e : Bytes × Cell). Agrees c p final e.1) es

  args_loop-SetsAll :
      (p q : ConfigParser D) (es : List (Bytes × Cell))
      → All (IsEntry c p) es
      → All (λ (e : Bytes × Cell). same e.0 (codes "help") ≡ false) es
      → SameMaps c p q
      → SetsAll p q es (args_loop false q (args_of p es))
  unfolding args_loop args_of param_name
  args_loop-SetsAll p q [] h g s = record {
    final = q;
    returned = refl;
    keeps = λ cell a. a;
    set = tt;
  }
  args_loop-SetsAll p q ((key, cell) ∷ es) (entry, entries) (help, helps) s =
      let later =
        args_loop-SetsAll p (store c p q cell) es entries helps
          (SameMaps-store c p q q.file q.line_num q.eof cell s) in
      let not_short : ltb (length (b'-' ∷ b'-' ∷ key)) 3 ≡ false =
        let n = entry.key.not_empty in ground arith in
      record {
        final = later.final;
        returned =
            rw (args_loop, not_short, help, arg_step-store p q key cell entry s) later.returned;
        keeps = λ other a. later.keeps other (store_keeps c p q cell other a);
        set = (later.keeps cell (store-Agrees c p q cell), later.set);
      }

  Agrees-named :
      (p q : ConfigParser D) (folder name : Bytes) (cell : Cell)
      → Agrees c p q cell
      → Agrees c p (record q { my_folder = folder; my_name = name }) cell
  Agrees-named p q folder name (text a) h = h
  Agrees-named p q folder name (number a) h = h
  Agrees-named p q folder name (flag a) h = h
  Agrees-named p q folder name (double a) h = h

  -- The variables of `p`, each given as `--key value`, are set by `read_args` of a parser with the same maps, which returns,
  -- with or without exceptions; no variable loses the value of `p`. The maps are as in `read-write`, and no key is `help`.
  pub read_args-SetsAll :
      (p q : ConfigParser D) (program : Bytes) (es : List (Bytes × Cell))
      → All (IsEntry c p) es
      → All (λ (e : Bytes × Cell). same e.0 (codes "help") ≡ false) es
      → SameMaps c p q
      → SetsAll p q es (read_args q program (args_of p es))
  unfolding read_args
  read_args-SetsAll p q program es h g s =
      let (folder, name) = path_split program in
      let r =
        args_loop-SetsAll p (record q { my_folder = folder; my_name = name }) es h g
          (record {
            strings = s.strings;
            ints = s.ints;
            bools = s.bools;
            reals = s.reals;
            callbacks = s.callbacks;
          }) in
      record {
        final = r.final;
        returned = r.returned;
        keeps = λ cell a. r.keeps cell (Agrees-named p q folder name cell a);
        set = r.set;
      }
