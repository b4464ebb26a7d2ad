-- ===== src/Adjacency/Swaps.antt =====
-- Neighbours exchanged in a list, and how that lowers the number of inversions.
use toolchain_cpp.Common.{
  ℕ, zero, suc, ◌+◌, ◌*◌, ◌≤◌, ◌≡◌, refl, ap, arith, Bool, true, false, List, [], ◌∷◌, map, some,
  if◌then◌else◌, length, get_elem?, set, replicate, All,
}

module _ {A : Type 0} where
  -- The places `i` and `i + 1` are exchanged.
  abbrev pub adj : ℕ → List A → List A
  adj i [] = []
  adj zero (a ∷ []) = a ∷ []
  adj zero (a ∷ b ∷ xs) = b ∷ a ∷ xs
  adj (suc i) (a ∷ xs) = a ∷ adj i xs

module _ {A : Type 0} where
  pub length-adj : (i : ℕ) (xs : List A) → length (adj i xs) ≡ length xs
  length-adj zero [] = refl
  length-adj (suc i) [] = refl
  length-adj zero (a ∷ []) = refl
  length-adj zero (a ∷ b ∷ xs) = refl
  length-adj (suc i) (a ∷ xs) = ap suc (length-adj i xs)

  pub adj-replicate : (i n : ℕ) (a : A) → adj i (replicate n a) ≡ replicate n a
  adj-replicate zero zero a = refl
  adj-replicate (suc i) zero a = refl
  adj-replicate zero (suc zero) a = refl
  adj-replicate zero (suc (suc n)) a = refl
  adj-replicate (suc i) (suc n) a = ap (λ xs. a ∷ xs) (adj-replicate i n a)

  pub set-set-adj :
      (i : ℕ) (xs : List A) (a b : A)
      → get_elem? xs i ≡ some a
      → get_elem? xs (suc i) ≡ some b
      → set (set xs i b) (suc i) a ≡ adj i xs
  set-set-adj zero [] a b h k = refl
  set-set-adj (suc i) [] a b h k = refl
  set-set-adj zero (x ∷ []) a b h k = cc
  set-set-adj zero (x ∷ y ∷ xs) a b h k = cc
  set-set-adj (suc i) (x ∷ xs) a b h k = ap (λ ys. x ∷ ys) (set-set-adj i xs a b h k)

  -- Lists of lists, all of which have the same neighbours exchanged, any number of times.
  pub data Shuffles : List (List A) → List (List A) → Type 0 where
    done : {xss : List (List A)} → Shuffles xss xss
    swap : {xss yss : List (List A)} (i : ℕ) → Shuffles (map (adj i) xss) yss → Shuffles xss yss

  pub Shuffles-trans :
      {xss yss zss : List (List A)} → Shuffles xss yss → Shuffles yss zss → Shuffles xss zss
  Shuffles-trans done k = k
  Shuffles-trans (swap i h) k = swap i (Shuffles-trans h k)

  pub lengths-adj :
      (n i : ℕ) (xss : List (List A))
      → All (λ xs. length xs ≡ n) xss
      → All (λ xs. length xs ≡ n) (map (adj i) xss)
  lengths-adj n i [] h = tt
  lengths-adj n i (xs ∷ xss) h = (omega (arith, length-adj i xs, h.0), lengths-adj n i xss h.1)

module _ {A : Type 0} (less : A → A → Bool) where
  -- The entries that `a` is less than.
  pub above : A → List A → ℕ
  above a [] = 0
  above a (x ∷ xs) = if less a x then suc (above a xs) else above a xs

  pub inversions : List A → ℕ
  inversions [] = 0
  inversions (x ∷ xs) = above x xs + inversions xs

  above-adj : (a : A) (i : ℕ) (xs : List A) → above a (adj i xs) ≡ above a xs
  unfolding above
  above-adj a zero [] = refl
  above-adj a (suc i) [] = refl
  above-adj a zero (x ∷ []) = refl
  above-adj a zero (x ∷ y ∷ xs) = ground arith
  above-adj a (suc i) (x ∷ xs) = rw (above-adj a i xs) refl

  -- Exchanging neighbours that stand the wrong way round takes one inversion away.
  pub inversions-adj :
      (i : ℕ) (xs : List A) (a b : A)
      → get_elem? xs i ≡ some a
      → get_elem? xs (suc i) ≡ some b
      → less a b ≡ true
      → less b a ≡ false
      → suc (inversions (adj i xs)) ≡ inversions xs
  unfolding above inversions
  inversions-adj zero [] a b h k l g = cc
  inversions-adj (suc i) [] a b h k l g = cc
  inversions-adj zero (x ∷ []) a b h k l g = cc
  inversions-adj zero (x ∷ y ∷ xs) a b h k l g =
      let right : less x y ≡ true = cc in
      let wrong : less y x ≡ false = cc in rw (right, wrong) (omega arith)
  inversions-adj (suc i) (x ∷ xs) a b h k l g =
      omega (arith, above-adj x i xs, inversions-adj i xs a b h k l g)

  above-le : (a : A) (xs : List A) → above a xs ≤ length xs
  unfolding above
  above-le a [] = omega arith
  above-le a (x ∷ xs) = let ih = above-le a xs in ground arith

  pub inversions-le : (xs : List A) → inversions xs ≤ length xs * length xs
  unfolding inversions
  inversions-le [] = omega arith
  inversions-le (x ∷ xs) = let ih = inversions-le xs in let l = above-le x xs in omega arith
