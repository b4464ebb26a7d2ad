-- ===== src/Config/RoundTrip.antt =====
-- A parser that reads what a parser with the same maps has written.
use toolchain_cpp.Common.{
  ℕ, ◌<◌, Bool, true, false, List, [], ◌∷◌, ◌++◌, Option, none, some, ◌≡◌, refl, ap, ◌∙◌, Bytes,
  codes, same, length, returns, arith, map,
}
use toolchain_cpp.Common.Int.{ℤ}
use toolchain_cpp.Config.{value_of}
use toolchain_cpp.Config.Lines.{
  IsKey, IsValue, line_of, stripped, scan_key-stripped, value_of-stripped, stripped_longer,
}
use toolchain_cpp.Config.Decimal.{
  print_int, atoi-print_int, print_int-IsValue, print_int_not_empty, solid-IsValue,
}
use toolchain_cpp.Config.Parser.{
  Reals, ConfigParser, Run, find, has_key, write_at, set_text, set_bool, set_other, process_key,
  process_line,
}
use toolchain_cpp.Config.Write.{print_bool}

-- A variable: its kind and its address.
pub data Cell : Type 0 where
  text number flag double : ℕ → Cell

module _ {D : Type 0} (c : Reals D) where
  abbrev pub printed : ConfigParser D → Cell → Bytes
  printed p (text a) = p.texts a
  printed p (number a) = print_int (p.numbers a)
  printed p (flag a) = print_bool (p.flags a)
  printed p (double a) = c.lf (p.doubles a)

  -- The variable has the same value in both parsers.
  abbrev pub Agrees : ConfigParser D → ConfigParser D → Cell → Type 0
  Agrees p q (text a) = q.texts a ≡ p.texts a
  Agrees p q (number a) = q.numbers a ≡ p.numbers a
  Agrees p q (flag a) = q.flags a ≡ p.flags a
  Agrees p q (double a) = q.doubles a ≡ p.doubles a

  -- The maps lead from the key to the variable.
  abbrev pub Leads : ConfigParser D → Bytes → Cell → Type 0
  Leads p key (text a) = find p.strings key ≡ some a
  Leads p key (number a) = (find p.strings key ≡ none) × (find p.ints key ≡ some a)
  Leads p key (flag a) =
      (find p.strings key ≡ none)
      × (find p.ints key ≡ none)
      × (find p.reals key ≡ none)
      × (has_key p.callbacks key ≡ false)
      × (find p.bools key ≡ some a)
  Leads p key (double a) =
      (find p.strings key ≡ none) × (find p.ints key ≡ none) × (find p.reals key ≡ some a)

  -- What a conversion must do with the value of the variable.
  abbrev pub Converts : ConfigParser D → Cell → Type 0
  Converts p (double a) =
      IsValue (c.lf (p.doubles a))
      × (0 < length (c.lf (p.doubles a)))
      × (c.atof (c.lf (p.doubles a)) ≡ p.doubles a)
  Converts p (text a) = IsValue (p.texts a)
  Converts p (number a) = Unit
  Converts p (flag a) = Unit

  pub Agrees-record :
      (p q : ConfigParser D) (file : Option Bytes) (n : ℕ) (eof : Bool) (cell : Cell)
      → Agrees p q cell
      → Agrees p (record q { file = file; line_num = n; eof = eof }) cell
  Agrees-record p q file n eof (text a) h = h
  Agrees-record p q file n eof (number a) h = h
  Agrees-record p q file n eof (flag a) h = h
  Agrees-record p q file n eof (double a) h = h

  pub record IsEntry (p : ConfigParser D) (entry : Bytes × Cell) : Type 0 where
    pub key : IsKey entry.0
    pub leads : Leads p entry.0 entry.1
    pub converts : Converts p entry.1

  -- The entries in the order in which `write` goes over them.
  unfoldable pub entries : ConfigParser D → List (Bytes × Cell)
  entries p =
      map (λ e. (e.0, text e.1)) p.strings
      ++ map (λ e. (e.0, number e.1)) p.ints
      ++ map (λ e. (e.0, flag e.1)) p.bools
      ++ map (λ e. (e.0, double e.1)) p.reals

  unfoldable pub lines_text : ConfigParser D → List (Bytes × Cell) → Bytes
  lines_text p [] = []
  lines_text p (e ∷ es) = line_of e.0 (printed p e.1) ++ b'\n' ∷ lines_text p es

  pub record SameMaps (p q : ConfigParser D) : Type 0 where
    pub strings : q.strings ≡ p.strings
    pub ints : q.ints ≡ p.ints
    pub bools : q.bools ≡ p.bools
    pub reals : q.reals ≡ p.reals
    pub callbacks : q.callbacks ≡ p.callbacks

  -- The line of an entry stores the value of the variable.
  abbrev store_text : Cell → (ℕ → Bytes) → (ℕ → Bytes) → ℕ → Bytes
  store_text (text a) from to = write_at to a (from a)
  store_text _ from to = to

  abbrev store_number : Cell → (ℕ → ℤ) → (ℕ → ℤ) → ℕ → ℤ
  store_number (number a) from to = write_at to a (from a)
  store_number _ from to = to

  abbrev store_flag : Cell → (ℕ → Bool) → (ℕ → Bool) → ℕ → Bool
  store_flag (flag a) from to = write_at to a (from a)
  store_flag _ from to = to

  abbrev store_double : Cell → (ℕ → D) → (ℕ → D) → ℕ → D
  store_double (double a) from to = write_at to a (from a)
  store_double _ from to = to

  abbrev pub store : ConfigParser D → ConfigParser D → Cell → ConfigParser D
  store p q cell = record q {
    texts = store_text cell p.texts q.texts;
    numbers = store_number cell p.numbers q.numbers;
    flags = store_flag cell p.flags q.flags;
    doubles = store_double cell p.doubles q.doubles;
  }

  pub store-Agrees : (p q : ConfigParser D) (cell : Cell) → Agrees p (store p q cell) cell
  unfolding write_at
  store-Agrees p q (text a) = ground arith
  store-Agrees p q (number a) = ground arith
  store-Agrees p q (flag a) = ground arith
  store-Agrees p q (double a) = ground arith

  write_at_keeps {ℓ} :
      {A : Type ℓ} (from to : ℕ → A) (a b : ℕ) → to b ≡ from b → write_at to a (from a) b ≡ from b
  unfolding write_at
  write_at_keeps from to a b h = ground arith

  pub store_keeps :
      (p q : ConfigParser D) (cell other : Cell)
      → Agrees p q other
      → Agrees p (store p q cell) other
  store_keeps p q (text a) (text b) h = write_at_keeps p.texts q.texts a b h
  store_keeps p q (number a) (number b) h = write_at_keeps p.numbers q.numbers a b h
  store_keeps p q (flag a) (flag b) h = write_at_keeps p.flags q.flags a b h
  store_keeps p q (double a) (double b) h = write_at_keeps p.doubles q.doubles a b h
  store_keeps p q (text a) (number b) h = h
  store_keeps p q (text a) (flag b) h = h
  store_keeps p q (text a) (double b) h = h
  store_keeps p q (number a) (text b) h = h
  store_keeps p q (number a) (flag b) h = h
  store_keeps p q (number a) (double b) h = h
  store_keeps p q (flag a) (text b) h = h
  store_keeps p q (flag a) (number b) h = h
  store_keeps p q (flag a) (double b) h = h
  store_keeps p q (double a) (text b) h = h
  store_keeps p q (double a) (number b) h = h
  store_keeps p q (double a) (flag b) h = h

  pub SameMaps-store :
      (p q : ConfigParser D) (file : Option Bytes) (n : ℕ) (eof : Bool) (cell : Cell)
      → SameMaps p q
      → SameMaps p (store p (record q { file = file; line_num = n; eof = eof }) cell)
  SameMaps-store p q file n eof cell s = record {
    strings = s.strings;
    ints = s.ints;
    bools = s.bools;
    reals = s.reals;
    callbacks = s.callbacks;
  }

  print_bool-IsValue : (b : Bool) → IsValue (print_bool b)
  print_bool-IsValue true = solid-IsValue (codes "1") (refl, tt)
  print_bool-IsValue false = solid-IsValue (codes "0") (refl, tt)

  pub printed-IsValue :
      (p : ConfigParser D) (cell : Cell) → Converts p cell → IsValue (printed p cell)
  printed-IsValue p (text a) h = h
  printed-IsValue p (number a) h = print_int-IsValue (p.numbers a)
  printed-IsValue p (flag a) h = print_bool-IsValue (p.flags a)
  printed-IsValue p (double a) h = h.0

  pub set_bool-print_bool :
      (q : ConfigParser D) (a : ℕ) (b : Bool)
      → set_bool q a (print_bool b) ≡ record q { flags = write_at q.flags a b }
  unfolding same
  set_bool-print_bool q a true = refl
  set_bool-print_bool q a false = refl

  print_bool_not_empty : (b : Bool) → 0 < length (print_bool b)
  print_bool_not_empty true = omega arith
  print_bool_not_empty false = omega arith

  module _ (callback : ConfigParser D → Bytes → Run D) (p q : ConfigParser D) (key : Bytes) where
    process_line-process_key :
        (val : Bytes)
        → IsKey key
        → IsValue val
        → process_line c callback q (stripped key val)
          ≡ process_key c callback q (stripped key val) key val
    unfolding process_line
    process_line-process_key val k v =
        let scanned = scan_key-stripped key val k v in
        ap (λ w. process_key c callback q (stripped key val) w (value_of w (stripped key val)))
          scanned
        ∙ ap (λ w. process_key c callback q (stripped key val) key w)
            (value_of-stripped key val k v)

    -- The line of a value, for a key that is none of the strings.
    process_line-other :
        (val : Bytes)
        → IsKey key
        → IsValue val
        → 0 < length val
        → find q.strings key ≡ none
        → process_line c callback q (stripped key val) ≡ set_other c (callback q val) q key val
    process_line-other val k v n h =
        let fits = k.fits in
        let not_empty = k.not_empty in
        process_line-process_key val k v ∙ rw (h, stripped_longer key val n) (ground arith)

    process_line-text :
        (val : Bytes) (a : ℕ)
        → IsKey key
        → IsValue val
        → find q.strings key ≡ some a
        → process_line c callback q (stripped key val) ≡ some (returns (set_text q a val))
    process_line-text val a k v h =
        let fits = k.fits in
        let not_empty = k.not_empty in process_line-process_key val k v ∙ rw h (ground arith)

    pub process_line-store :
        (cell : Cell)
        → IsEntry p (key, cell)
        → SameMaps p q
        → process_line c callback q (stripped key (printed p cell))
          ≡ some (returns (store p q cell))
    process_line-store (text a) e s =
        process_line-text (p.texts a) a e.key e.converts (rw s.strings e.leads)
    process_line-store (number a) e s =
        let of_ints : find q.ints key ≡ some a = rw s.ints e.leads.1 in
        process_line-other (print_int (p.numbers a)) e.key (print_int-IsValue (p.numbers a))
          (print_int_not_empty (p.numbers a)) (rw s.strings e.leads.0)
        ∙ rw (set_other, of_ints, atoi-print_int (p.numbers a)) refl
    process_line-store (flag a) e s =
        let of_ints : find q.ints key ≡ none = rw s.ints e.leads.1 in
        let of_reals : find q.reals key ≡ none = rw s.reals e.leads.2 in
        let of_callbacks : has_key q.callbacks key ≡ false = rw s.callbacks e.leads.3 in
        let of_bools : find q.bools key ≡ some a = rw s.bools e.leads.4 in
        process_line-other (print_bool (p.flags a)) e.key (print_bool-IsValue (p.flags a))
          (print_bool_not_empty (p.flags a)) (rw s.strings e.leads.0)
        ∙ rw (set_other, of_ints, of_reals, of_callbacks, of_bools)
            (ap (λ r. some (returns r)) (set_bool-print_bool q a (p.flags a)))
    process_line-store (double a) e s =
        let of_ints : find q.ints key ≡ none = rw s.ints e.leads.1 in
        let of_reals : find q.reals key ≡ some a = rw s.reals e.leads.2 in
        process_line-other (c.lf (p.doubles a)) e.key e.converts.0 e.converts.1
          (rw s.strings e.leads.0)
        ∙ rw (set_other, of_ints, of_reals, e.converts.2) refl
