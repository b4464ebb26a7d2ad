-- ===== src/Cache/Octets.antt =====
-- The octets of a list of samples of one size.
use toolchain_cpp.Common.{
  ℕ, zero, suc, ◌*◌, ◌≤◌, ◌≡◌, refl, sym, ap, ◌∙◌, arith, List, [], ◌∷◌, ◌++◌, append_assoc,
  append-nil, some, Bytes, length, length-append, take, drop, take-append, drop-append, All,
  get_elem?,
}
use native.Mathlib.Nat.{zero-mul, suc-mul}

unfoldable pub octets : List Bytes → Bytes
octets [] = []
octets (x ∷ xs) = x ++ octets xs

pub octets-append : (xs ys : List Bytes) → octets (xs ++ ys) ≡ octets xs ++ octets ys
unfolding octets
octets-append [] ys = refl
octets-append (x ∷ xs) ys =
    ap (λ zs. x ++ zs) (octets-append xs ys) ∙ sym (append_assoc x (octets xs) (octets ys))

module _ (size : ℕ) where
  abbrev pub Sized : List Bytes → Type 0
  Sized xs = All (λ x. length x ≡ size) xs

  pub length-octets : (xs : List Bytes) → Sized xs → length (octets xs) ≡ length xs * size
  unfolding octets
  length-octets [] h = omega arith
  length-octets (x ∷ xs) h =
      omega
        (arith, length-append x (octets xs), length-octets xs h.1, suc-mul (length xs) size, h.0)

  pub drop-octets :
      (i : ℕ) (xs : List Bytes)
      → Sized xs
      → i ≤ length xs
      → drop (i * size) (octets xs) ≡ octets (drop i xs)
  unfolding octets
  drop-octets zero xs h k = rw (zero-mul size)
  drop-octets (suc i) [] h k = absurd (omega arith)
  drop-octets (suc i) (x ∷ xs) h k =
      drop-append x (octets xs) (suc i * size) (i * size) (omega (arith, suc-mul i size, h.0))
      ∙ drop-octets i xs h.1 (omega arith)

  pub take-octets :
      (i : ℕ) (xs : List Bytes)
      → Sized xs
      → i ≤ length xs
      → take (i * size) (octets xs) ≡ octets (take i xs)
  unfolding octets
  take-octets zero xs h k = rw (zero-mul size)
  take-octets (suc i) [] h k = absurd (omega arith)
  take-octets (suc i) (x ∷ xs) h k =
      take-append x (octets xs) (suc i * size) (i * size) (omega (arith, suc-mul i size, h.0))
      ∙ ap (λ zs. x ++ zs) (take-octets i xs h.1 (omega arith))

  -- The octets of the sample at `i`.
  pub octets-get_elem? :
      (i : ℕ) (xs : List Bytes) (x : Bytes)
      → Sized xs
      → get_elem? xs i ≡ some x
      → take size (drop (i * size) (octets xs)) ≡ x
  unfolding octets
  octets-get_elem? i [] x h e = cc
  octets-get_elem? zero (y ∷ xs) x h e =
      rw (zero-mul size) (take-append y (octets xs) size 0 (omega (arith, h.0)) ∙ append-nil y ∙ cc)
  octets-get_elem? (suc i) (y ∷ xs) x h e =
      ap (take size)
        (drop-append y (octets xs) (suc i * size) (i * size) (omega (arith, suc-mul i size, h.0)))
      ∙ octets-get_elem? i xs x h.1 e

  pub Sized-drop : (i : ℕ) (xs : List Bytes) → Sized xs → Sized (drop i xs)
  Sized-drop zero xs h = h
  Sized-drop (suc i) [] h = tt
  Sized-drop (suc i) (x ∷ xs) h = Sized-drop i xs h.1

  pub Sized-take : (i : ℕ) (xs : List Bytes) → Sized xs → Sized (take i xs)
  Sized-take zero xs h = tt
  Sized-take (suc i) [] h = tt
  Sized-take (suc i) (x ∷ xs) h = (h.0, Sized-take i xs h.1)
