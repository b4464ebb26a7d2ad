-- ===== src/Base64/RoundTrip.antt =====
-- `decode` reads back what `encode` wrote.
use toolchain_cpp.Common.{
  ℕ, suc, ◌+◌, ◌-◌, ◌*◌, ◌/◌, ◌%◌, ◌^◌, ◌≤◌, ◌<◌, ◌≡◌, ◌≢◌, ◌↔◌, refl, ap, ◌∙◌, arith, [], ◌∷◌,
  ◌++◌, Bytes, length, get_or, take, take-nil, All, ok, raised, ◌>>=◌, ◌==◌, false,
}
use toolchain_cpp.Base64.{
  symbol, triple, quad, sextet, word, octets, decode_loop, shortage, encode, decode,
}
use toolchain_cpp.Base64.Table.{sextet-symbol, symbol-ne-pad}
use toolchain_cpp.Base64.Shape.{encoded, encode-encoded, length-encoded}

abbrev pub IsByte : ℕ → Type 0
IsByte a = a < 256

word-split :
    (t : ℕ) → t < 2 ^ 24 → word (t / 2 ^ 18 % 64) (t / 2 ^ 12 % 64) (t / 2 ^ 6 % 64) (t % 64) ≡ t
unfolding word
word-split t h = omega arith

octets-triple :
    (a b c : ℕ) → IsByte a → IsByte b → IsByte c → octets (triple a b c) ≡ a ∷ b ∷ c ∷ []
unfolding octets triple
octets-triple a b c ha hb hc = ground arith

triple-lt : (a b c : ℕ) → IsByte a → IsByte b → IsByte c → triple a b c < 2 ^ 24
unfolding triple
triple-lt a b c ha hb hc = omega arith

sextet-pad : sextet b'=' ≡ ok 0
unfolding sextet
sextet-pad = refl

-- Four characters whose sextets make up the word of three octets.
decode_loop-group :
    (room w x y z i j k l a b c : ℕ) (rest : Bytes)
    → sextet w ≡ ok i
    → sextet x ≡ ok j
    → sextet y ≡ ok k
    → sextet z ≡ ok l
    → word i j k l ≡ triple a b c
    → IsByte a
    → IsByte b
    → IsByte c
    → decode_loop room (w ∷ x ∷ y ∷ z ∷ rest)
      ≡ (decode_loop (room - 3) rest >>= λ written. ok (take room (a ∷ b ∷ c ∷ []) ++ written))
unfolding decode_loop
decode_loop-group room w x y z i j k l a b c rest hw hx hy hz e ha hb hc =
    rw (hw, hx, hy, hz, e, octets-triple a b c ha hb hc)

decode_loop-nil : (room : ℕ) → decode_loop room [] ≡ ok []
unfolding decode_loop
decode_loop-nil room = refl

decode_loop-encoded :
    (src : Bytes) → All IsByte src → decode_loop (length src) (encoded src) ≡ ok src
unfolding quad
decode_loop-encoded [] h = decode_loop-nil 0
decode_loop-encoded (a ∷ []) h =
    let t = triple a 0 0 in
    let small : t < 2 ^ 24 = triple-lt a 0 0 h.0 (omega arith) (omega arith) in
    decode_loop-group 1 _ _ _ _ _ _ 0 0 a 0 0 [] (sextet-symbol (t / 2 ^ 18 % 64) (omega arith))
      (sextet-symbol (t / 2 ^ 12 % 64) (omega arith)) sextet-pad sextet-pad
      (unfold word triple in omega arith) h.0 (omega arith) (omega arith)
    ∙ rw (decode_loop-nil (1 - 3))
decode_loop-encoded (a ∷ b ∷ []) h =
    let t = triple a b 0 in
    let small : t < 2 ^ 24 = triple-lt a b 0 h.0 h.1.0 (omega arith) in
    decode_loop-group 2 _ _ _ _ _ _ _ 0 a b 0 [] (sextet-symbol (t / 2 ^ 18 % 64) (omega arith))
      (sextet-symbol (t / 2 ^ 12 % 64) (omega arith)) (sextet-symbol (t / 2 ^ 6 % 64) (omega arith))
      sextet-pad (unfold word triple in omega arith) h.0 h.1.0 (omega arith)
    ∙ rw (decode_loop-nil (2 - 3))
decode_loop-encoded (a ∷ b ∷ c ∷ rest) h =
    let t = triple a b c in
    decode_loop-group (length (a ∷ b ∷ c ∷ rest)) _ _ _ _ _ _ _ _ a b c (encoded rest)
      (sextet-symbol (t / 2 ^ 18 % 64) (omega arith))
      (sextet-symbol (t / 2 ^ 12 % 64) (omega arith)) (sextet-symbol (t / 2 ^ 6 % 64) (omega arith))
      (sextet-symbol (t % 64) (omega arith)) (word-split t (triple-lt a b c h.0 h.1.0 h.1.1.0)) h.0
      h.1.0 h.1.1.0
    ∙ (let n = length rest in
        let left : suc (suc (suc n)) - 3 ≡ n = omega arith in
        rw (left, decode_loop-encoded rest h.1.1.1, take-nil n))

-- The room that `decode` computes from the last two characters.
abbrev room : Bytes → ℕ
room src =
    length src / 4 * 3
    - shortage (get_or src (length src - 1) 0)
    - shortage (get_or src (length src - 2) 0)

shortage-symbol : (i : ℕ) → i < 64 → shortage (symbol i) ≡ 0
unfolding shortage
shortage-symbol i h = ground (arith, symbol-ne-pad i h)

shortage-le : (c : ℕ) → shortage c < 2
unfolding shortage
shortage-le c = ground arith

suc-sub-one : (n : ℕ) → suc n - 1 ≡ n
suc-sub-one n = omega arith

suc-suc-sub-two : (n : ℕ) → suc (suc n) - 2 ≡ n
suc-suc-sub-two n = omega arith

-- A group in front leaves the last two characters alone.
room-cons : (w x y z : ℕ) (src : Bytes) → 4 ≤ length src → room (w ∷ x ∷ y ∷ z ∷ src) ≡ 3 + room src
room-cons w x y z [] h = absurd (omega arith)
room-cons w x y z (p ∷ []) h = absurd (omega arith)
room-cons w x y z (p ∷ q ∷ rest) h =
    rw (suc-sub-one, suc-suc-sub-two, suc-sub-one, suc-suc-sub-two)
      (let n = length rest in
        omega (arith, shortage-le (get_or (q ∷ rest) n 0), shortage-le (get_or (p ∷ q ∷ rest) n 0)))

room-encoded : (a : ℕ) (src : Bytes) → room (encoded (a ∷ src)) ≡ length (a ∷ src)
unfolding quad
room-encoded a [] = unfold shortage in refl
room-encoded a (b ∷ []) =
    let t = triple a b 0 in
    rw (shortage-symbol (t / 2 ^ 6 % 64) (omega arith)) (unfold shortage in refl)
room-encoded a (b ∷ c ∷ []) =
    let t = triple a b c in
    rw (shortage-symbol (t / 2 ^ 6 % 64) (omega arith), shortage-symbol (t % 64) (omega arith)) refl
room-encoded a (b ∷ c ∷ d ∷ rest) =
    room-cons _ _ _ _ (encoded (d ∷ rest)) (omega (arith, length-encoded (d ∷ rest)))
    ∙ omega (arith, room-encoded d rest)

length-ne-zero : (src : Bytes) → src ≢ [] → (length src == 0) ≡ false
length-ne-zero [] ne = absurd (ne refl)
length-ne-zero (c ∷ src) ne = ground arith

decode_lem : (src : Bytes) → length src % 4 ≡ 0 → src ≢ [] → decode src ≡ decode_loop (room src) src
unfolding decode
decode_lem src h ne =
    let some_input : (length src == 0) ≡ false = length-ne-zero src ne in rw (h, some_input)

-- Every sequence of octets that is not empty and has at most 1610612733 of them comes back from its encoding.
pub decode-encode :
    (src : Bytes)
    → src ≢ []
    → length src ≤ 1610612733
    → All IsByte src
    → (encode src >>= λ text. decode text) ≡ ok src
decode-encode [] ne l h = absurd (ne refl)
decode-encode (a ∷ src) ne l h = rw (encode-encoded (a ∷ src) l) (
    decode_lem (encoded (a ∷ src)) (omega (arith, length-encoded (a ∷ src)))
      (λ e. absurd (omega (arith, ap length e, length-encoded (a ∷ src))))
    ∙ rw (room-encoded a src) (decode_loop-encoded (a ∷ src) h))

sextet-ne-raised : (c : ℕ) → sextet c ≢ raised
unfolding sextet
sextet-ne-raised c = ground arith

decode_loop-ne-raised : (n : ℕ) (src : Bytes) → decode_loop n src ≢ raised
unfolding decode_loop
decode_loop-ne-raised n (a ∷ b ∷ c ∷ d ∷ rest) = ground (
  arith,
  sextet-ne-raised a,
  sextet-ne-raised b,
  sextet-ne-raised c,
  sextet-ne-raised d,
  decode_loop-ne-raised (n - 3) rest,
)
decode_loop-ne-raised n _ = ground arith

decode-ne-raised : (src : Bytes) → length src % 4 ≡ 0 → decode src ≢ raised
decode-ne-raised [] h = unfold decode in λ e. cc
decode-ne-raised (c ∷ src) h = rw (decode_lem (c ∷ src) h (λ e. cc)) (decode_loop-ne-raised _ _)

decode_odd : (src : Bytes) → length src % 4 ≢ 0 → decode src ≡ raised
unfolding decode
decode_odd src h = let odd : (length src % 4 == 0) ≡ false = ground arith in rw odd

-- `decode` throws exactly when the length of the text is no multiple of four.
pub decode-eq-raised_iff : (src : Bytes) → (decode src ≡ raised) ↔ (length src % 4 ≢ 0)
decode-eq-raised_iff src = (λ e h. decode-ne-raised src h e, decode_odd src)
