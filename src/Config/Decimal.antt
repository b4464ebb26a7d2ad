-- ===== src/Config/Decimal.antt =====
-- `%d` of `printf`, and that `atoi` reads it back.
use toolchain_cpp.Common.{
  ℕ, zero, suc, ◌+◌, ◌-◌, ◌*◌, ◌/◌, ◌%◌, ◌<◌, Bool, true, not, ◌&&◌, [], ◌∷◌, ◌++◌, ltb, ◌≡◌, refl,
  if◌then◌else◌, Bytes, length, length-append, All, All-append, arith, ap, ◌∙◌, Bool-cases, inl,
  inr,
}
use toolchain_cpp.Common.Int.{ℤ, pos, negsuc, sub_ℕ}
use toolchain_cpp.Http.Text.{is_digit, skip_spaces, digits_value}
use toolchain_cpp.Config.{atoi, atoi_digits, is_delim, skip_delims}
use toolchain_cpp.Config.Strip.{drop_last_delim}
use toolchain_cpp.Config.Lines.{is_plain, Plain, IsValue}

-- The digits of a number, with as much fuel as there are digits.
unfoldable pub digits : ℕ → ℕ → Bytes
digits zero n = []
digits (suc fuel) n =
    let front = digits fuel (n / 10) in (if ltb n 10 then [] else front) ++ (b'0' + n % 10) ∷ []

unfoldable pub print_int : ℤ → Bytes
unfolding digits
print_int (pos n) = digits (suc n) n
print_int (negsuc n) = b'-' ∷ digits (suc (suc n)) (suc n)

pub Digits : Bytes → Type 0
Digits ds = All (λ c. is_digit c ≡ true) ds

pub digits-Digits : (fuel n : ℕ) → Digits (digits fuel n)
unfolding digits Digits
digits-Digits zero n = tt
digits-Digits (suc fuel) n = elim (Bool-cases (ltb n 10)) [
  | inl small ↦ rw small (ground arith, tt)
  | inr large ↦ rw large (
      All-append _ (digits fuel (n / 10)) ((b'0' + n % 10) ∷ []) (digits-Digits fuel (n / 10))
        (ground arith, tt))
]

digits_value-concat :
    (ds : Bytes) (acc c : ℕ)
    → Digits ds
    → is_digit c ≡ true
    → digits_value acc (ds ++ c ∷ []) ≡ digits_value acc ds * 10 + (c - b'0')
unfolding digits_value Digits
digits_value-concat [] acc c h d = ground arith
digits_value-concat (x ∷ ds) acc c h d =
    ground (arith, digits_value-concat ds (acc * 10 + (x - b'0')) c h.1 d)

pub digits_value-digits : (fuel n : ℕ) → n < fuel → digits_value 0 (digits fuel n) ≡ n
unfolding digits digits_value
digits_value-digits zero n h = absurd (omega arith)
digits_value-digits (suc fuel) n h = elim (Bool-cases (ltb n 10)) [
  | inl small ↦ rw small (ground arith)
  | inr large ↦
      rw
        (
          large,
          digits_value-concat (digits fuel (n / 10)) 0 (b'0' + n % 10) (digits-Digits fuel (n / 10))
              (ground arith),
          digits_value-digits fuel (n / 10) (ground arith),
        )
        (ground arith)
]

atoi-Digits : (ds : Bytes) → Digits ds → atoi ds ≡ pos (digits_value 0 ds)
unfolding atoi atoi_digits skip_spaces Digits digits_value
atoi-Digits [] h = refl
atoi-Digits (c ∷ ds) h = ground arith

-- A number printed by `%d` is read back by `atoi`.
pub atoi-print_int : (z : ℤ) → atoi (print_int z) ≡ z
unfolding print_int
atoi-print_int (pos n) =
    atoi-Digits (digits (suc n) n) (digits-Digits (suc n) n)
    ∙ ap pos (digits_value-digits (suc n) n (omega arith))
atoi-print_int (negsuc n) =
    unfold atoi atoi_digits skip_spaces in
    ap (sub_ℕ 0) (digits_value-digits (suc (suc n)) (suc n) (omega arith)) ∙ (ground arith)

-- Characters that are neither blanks nor special make a value.
abbrev pub is_solid : ℕ → Bool
is_solid c = is_plain c && not (is_delim c)

solid-Plain : (v : Bytes) → All (λ c. is_solid c ≡ true) v → Plain v
solid-Plain [] h = tt
solid-Plain (x ∷ v) h = (ground arith, solid-Plain v h.1)

solid-no_blank_behind : (v : Bytes) → All (λ c. is_solid c ≡ true) v → drop_last_delim v ≡ v
unfolding drop_last_delim
solid-no_blank_behind [] h = refl
solid-no_blank_behind (x ∷ []) h = ground arith
solid-no_blank_behind (x ∷ y ∷ v) h = ap (λ l. x ∷ l) (solid-no_blank_behind (y ∷ v) h.1)

solid-no_blank_before : (v : Bytes) → All (λ c. is_solid c ≡ true) v → skip_delims v ≡ v
unfolding skip_delims
solid-no_blank_before [] h = refl
solid-no_blank_before (x ∷ v) h = ground arith

pub solid-IsValue : (v : Bytes) → All (λ c. is_solid c ≡ true) v → IsValue v
solid-IsValue v h = record {
  plain = solid-Plain v h;
  no_blank_before = solid-no_blank_before v h;
  no_blank_behind = solid-no_blank_behind v h;
}

Digits-solid : (ds : Bytes) → Digits ds → All (λ c. is_solid c ≡ true) ds
unfolding Digits
Digits-solid [] h = tt
Digits-solid (c ∷ ds) h = (ground arith, Digits-solid ds h.1)

pub print_int-IsValue : (z : ℤ) → IsValue (print_int z)
unfolding print_int
print_int-IsValue (pos n) =
    solid-IsValue (digits (suc n) n) (Digits-solid (digits (suc n) n) (digits-Digits (suc n) n))
print_int-IsValue (negsuc n) =
    solid-IsValue (b'-' ∷ digits (suc (suc n)) (suc n))
      (refl, Digits-solid (digits (suc (suc n)) (suc n)) (digits-Digits (suc (suc n)) (suc n)))

digits_not_empty : (fuel n : ℕ) → 0 < length (digits (suc fuel) n)
unfolding digits
digits_not_empty fuel n = elim (Bool-cases (ltb n 10)) [
  | inl small ↦ rw small (omega arith)
  | inr large ↦
      rw (large, length-append (digits fuel (n / 10)) ((b'0' + n % 10) ∷ [])) (omega arith)
]

pub print_int_not_empty : (z : ℤ) → 0 < length (print_int z)
unfolding print_int
print_int_not_empty (pos n) = digits_not_empty n n
print_int_not_empty (negsuc n) = omega arith
