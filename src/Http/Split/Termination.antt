-- ===== src/Http/Split/Termination.antt =====
-- The loops of `split_by_substr` end for a delimiter that is not empty, and do not for the empty one.
use toolchain_cpp.Common.{
  ℕ, zero, suc, ◌-◌, ◌≤◌, ◌<◌, ◌≡◌, inl, inr, refl, ap, ◌∙◌, arith, Bool, true, false, ◌&&◌, List,
  [], ◌∷◌, Option, none, some, Bool-cases, Bytes, length, length-drop, take, drop,
}
use toolchain_cpp.Http.Split.{
  is_prefix, find_substr, skip_substr, cut, rest_after, last_piece, split_from, split_by_substr,
}

-- One round of the outer loop.
pub split_from-round :
    (fuel : ℕ) (delim : Bytes) (only_first have_one : Bool) (text r : Bytes)
    → skip_substr (suc (length text)) delim text ≡ some r
    → split_from (suc fuel) delim only_first have_one text
      ≡ cut
          (only_first && have_one)
          r
          (find_substr delim r)
          (split_from fuel delim only_first true (rest_after r (find_substr delim r)))
unfolding split_from
split_from-round fuel delim only_first have_one text r e = rw (e, split_from) refl

module _ (d : ℕ) (ds : Bytes) where
  skip_substr-eq-some :
      (fuel : ℕ) (rest : Bytes)
      → length rest < fuel
      → (r : Bytes) × (skip_substr fuel (d ∷ ds) rest ≡ some r)
        × (length r ≤ length rest)
        × (is_prefix (d ∷ ds) r ≡ false)
  unfolding skip_substr is_prefix
  skip_substr-eq-some zero rest h = absurd (omega arith)
  skip_substr-eq-some (suc fuel) [] h = ([], refl, omega arith, refl)
  skip_substr-eq-some (suc fuel) (x ∷ xs) h = elim (Bool-cases (is_prefix (d ∷ ds) (x ∷ xs))) [
    | inl e ↦
        let (r, f, l, p) =
          skip_substr-eq-some fuel (drop (length ds) xs)
            (omega (arith, length-drop (length ds) xs)) in
        (r, rw e f, omega (arith, l, length-drop (length ds) xs), p)
    | inr e ↦ (x ∷ xs, rw e refl, omega arith, e)
  ]

  -- A delimiter that is found, but not at once, lies further on in a text that is not empty.
  found_later :
      (r : Bytes) (n : ℕ)
      → is_prefix (d ∷ ds) r ≡ false
      → find_substr (d ∷ ds) r ≡ some n
      → (0 < n) × (0 < length r)
  unfolding find_substr is_prefix
  found_later [] n p e = cc
  found_later (x ∷ xs) zero p e = ground arith
  found_later (x ∷ xs) (suc n) p e = (omega arith, omega arith)

  rest_after-shorter :
      (r : Bytes) (next : Option ℕ) (bound : ℕ)
      → is_prefix (d ∷ ds) r ≡ false
      → find_substr (d ∷ ds) r ≡ next
      → length r ≤ bound
      → length (rest_after r next) ≤ bound - 1
  rest_after-shorter r none bound p e l = omega arith
  rest_after-shorter r (some n) bound p e l =
      let (a, b) = found_later r n p e in omega (arith, a, b, length-drop n r, l)

  cut-eq-some :
      (stop : Bool) (r : Bytes) (next : Option ℕ) (later : List Bytes)
      → (pieces : List Bytes) × (cut stop r next (some later) ≡ some pieces)
  cut-eq-some stop r none later = (last_piece r, refl)
  cut-eq-some true r (some n) later = (take n r ∷ [], refl)
  cut-eq-some false r (some n) later = (take n r ∷ later, refl)

  pub split_from-eq-some :
      (fuel : ℕ) (only_first have_one : Bool) (text : Bytes)
      → length text < fuel
      → (pieces : List Bytes) × (split_from fuel (d ∷ ds) only_first have_one text ≡ some pieces)
  unfolding split_from skip_substr find_substr is_prefix
  split_from-eq-some zero only_first have_one text h = absurd (omega arith)
  split_from-eq-some (suc zero) only_first have_one [] h = ([], refl)
  split_from-eq-some (suc zero) only_first have_one (x ∷ xs) h = absurd (omega arith)
  split_from-eq-some (suc (suc fuel)) only_first have_one text h =
      let (r, e, l, p) = skip_substr-eq-some (suc (length text)) text (omega arith) in
      let next = find_substr (d ∷ ds) r in
      let (later, f) =
        split_from-eq-some (suc fuel) only_first true (rest_after r next)
          (omega (arith, rest_after-shorter r next (length text) p refl l)) in
      let (pieces, g) = cut-eq-some (only_first && have_one) r next later in
      (
        pieces,
        split_from-round (suc fuel) (d ∷ ds) only_first have_one text r e
            ∙ ap (cut (only_first && have_one) r next) f
            ∙ g,
      )

  -- With a delimiter that is not empty, `split_by_substr` ends for every text.
  pub split_by_substr-ends :
      (text : Bytes) (only_first : Bool)
      → (pieces : List Bytes) × (split_by_substr text (d ∷ ds) only_first ≡ some pieces)
  unfolding split_by_substr
  split_by_substr-ends text only_first =
      split_from-eq-some (suc (length text)) only_first false text (omega arith)

skip_substr-eq-none : (fuel : ℕ) (text : Bytes) → skip_substr fuel [] text ≡ none
unfolding skip_substr is_prefix
skip_substr-eq-none zero text = refl
skip_substr-eq-none (suc fuel) text = skip_substr-eq-none fuel text

-- With the empty delimiter no number of rounds ends, for any text.
pub empty_delimiter_loops :
    (text : Bytes) (only_first have_one : Bool) (fuel : ℕ)
    → split_from fuel [] only_first have_one text ≡ none
unfolding split_from
empty_delimiter_loops text only_first have_one zero = refl
empty_delimiter_loops text only_first have_one (suc fuel) =
    rw (skip_substr-eq-none (suc (length text)) text, split_from) refl
