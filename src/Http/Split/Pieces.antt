-- ===== src/Http/Split/Pieces.antt =====
-- What `split_by_substr` makes of pieces joined by one character.
use toolchain_cpp.Common.{
  ℕ, zero, suc, ◌≤◌, ◌<◌, ◌≡◌, ◌≢◌, refl, sym, ap, ◌∙◌, arith, Bool, true, false, ◌&&◌, List, [],
  ◌∷◌, ◌++◌, Option, none, some, Bytes, length, length-append, append-nil, subst, drop-append,
  take-append, All,
}
use toolchain_cpp.Http.Split.{
  is_prefix, find_substr, skip_substr, cut, rest_after, last_piece, split_from, split_by_substr,
}
use toolchain_cpp.Http.Split.Termination.{split_from-round}

unfoldable pub join : ℕ → List Bytes → Bytes
join c [] = []
join c (p ∷ []) = p
join c (p ∷ ps) = p ++ c ∷ join c ps

-- A piece: not empty, and without the character.
abbrev pub IsPiece : ℕ → Bytes → Type 0
IsPiece c p = (0 < length p) × All (λ x. x ≢ c) p

module _ (c : ℕ) where
  find_substr-none : (p : Bytes) → All (λ x. x ≢ c) p → find_substr (c ∷ []) p ≡ none
  unfolding find_substr is_prefix
  find_substr-none [] h = refl
  find_substr-none (x ∷ xs) h = rw (find_substr-none xs h.1) (ground (arith, h.0))

  find_substr-some :
      (p rest : Bytes) → All (λ x. x ≢ c) p → find_substr (c ∷ []) (p ++ c ∷ rest) ≡ some (length p)
  unfolding find_substr is_prefix
  find_substr-some [] rest h = ground arith
  find_substr-some (x ∷ xs) rest h = rw (find_substr-some xs rest h.1) (ground (arith, h.0))

  skip-piece :
      (fuel : ℕ) (p rest : Bytes)
      → IsPiece c p
      → skip_substr (suc fuel) (c ∷ []) (p ++ rest) ≡ some (p ++ rest)
  unfolding skip_substr is_prefix
  skip-piece fuel [] rest h = absurd (omega (arith, h.0))
  skip-piece fuel (x ∷ xs) rest h = ground (arith, h.1.0)

  skip-delimiter :
      (fuel : ℕ) (text : Bytes)
      → skip_substr (suc fuel) (c ∷ []) (c ∷ text) ≡ skip_substr fuel (c ∷ []) text
  unfolding skip_substr is_prefix
  skip-delimiter fuel text = ground arith

  -- The text from the first piece on, and the same text behind a delimiter.
  data Begins (ps : List Bytes) : Bytes → Type 0 where
    at_piece : Begins ps (join c ps)
    at_delimiter : Begins ps (c ∷ join c ps)

  join-cons : (p : Bytes) (ps : List Bytes) → 0 < length ps → join c (p ∷ ps) ≡ p ++ c ∷ join c ps
  unfolding join
  join-cons p [] h = absurd (omega arith)
  join-cons p (q ∷ qs) h = refl

  join-begins : (p : Bytes) (ps : List Bytes) → (rest : Bytes) × (join c (p ∷ ps) ≡ p ++ rest)
  unfolding join
  join-begins p [] = ([], sym (append-nil p))
  join-begins p (q ∷ qs) = (c ∷ join c (q ∷ qs), refl)

  skip-Begins :
      (p : Bytes) (ps : List Bytes) (text : Bytes)
      → IsPiece c p
      → Begins (p ∷ ps) text
      → skip_substr (suc (length text)) (c ∷ []) text ≡ some (join c (p ∷ ps))
  skip-Begins p ps text h at_piece =
      let (rest, e) = join-begins p ps in
      subst (λ t. skip_substr (suc (length t)) (c ∷ []) t ≡ some t) (sym e)
        (skip-piece (length (p ++ rest)) p rest h)
  skip-Begins p ps text h at_delimiter =
      let (rest, e) = join-begins p ps in
      skip-delimiter (suc (length (join c (p ∷ ps)))) (join c (p ∷ ps))
      ∙ subst (λ t. skip_substr (suc (length t)) (c ∷ []) t ≡ some t) (sym e)
          (skip-piece (length (p ++ rest)) p rest h)

  last_piece-some : (p : Bytes) → 0 < length p → last_piece p ≡ p ∷ []
  last_piece-some [] h = absurd (omega arith)
  last_piece-some (x ∷ xs) h = refl

  cut-last :
      (p : Bytes) (stop : Bool) (later : Option (List Bytes))
      → IsPiece c p
      → cut stop p (find_substr (c ∷ []) p) later ≡ some (p ∷ [])
  cut-last p stop later h = rw (find_substr-none p h.1) (ap some (last_piece-some p h.0))

  cut-first :
      (fuel : ℕ) (only_first : Bool) (p rest : Bytes) (ps : List Bytes)
      → IsPiece c p
      → split_from fuel (c ∷ []) only_first true (c ∷ rest) ≡ some ps
      → cut false (p ++ c ∷ rest) (find_substr (c ∷ []) (p ++ c ∷ rest)) (
          split_from fuel
            (c ∷ [])
            only_first
            true
            (rest_after (p ++ c ∷ rest) (find_substr (c ∷ []) (p ++ c ∷ rest))))
        ≡ some (p ∷ ps)
  cut-first fuel only_first p rest ps h e =
      rw
        (
          find_substr-some p rest h.1,
          drop-append p (c ∷ rest) (length p) 0 (omega arith),
          e,
          take-append p (c ∷ rest) (length p) 0 (omega arith),
        )
        (ap (λ x. some (x ∷ ps)) (append-nil p))

  split_from-join :
      (fuel : ℕ) (have_one : Bool) (ps : List Bytes) (text : Bytes)
      → 0 < length ps
      → length ps ≤ fuel
      → All (IsPiece c) ps
      → Begins ps text
      → split_from fuel (c ∷ []) false have_one text ≡ some ps
  unfolding join
  split_from-join zero have_one ps text k l h b = absurd (omega arith)
  split_from-join (suc fuel) have_one [] text k l h b = absurd (omega arith)
  split_from-join (suc fuel) have_one (p ∷ []) text k l h b =
      split_from-round fuel (c ∷ []) false have_one text p (skip-Begins p [] text h.0 b)
      ∙ cut-last p (false && have_one)
          (split_from fuel (c ∷ []) false true (rest_after p (find_substr (c ∷ []) p))) h.0
  split_from-join (suc fuel) have_one (p ∷ q ∷ ps) text k l h b =
      split_from-round fuel (c ∷ []) false have_one text (join c (p ∷ q ∷ ps))
        (skip-Begins p (q ∷ ps) text h.0 b)
      ∙ cut-first fuel false p (join c (q ∷ ps)) (q ∷ ps) h.0 (
          split_from-join fuel true (q ∷ ps) (c ∷ join c (q ∷ ps)) (omega arith) (omega arith) h.1
            at_delimiter)

  length-join : (ps : List Bytes) → All (IsPiece c) ps → length ps ≤ length (join c ps)
  unfolding join
  length-join [] h = omega arith
  length-join (p ∷ []) h = omega (arith, h.0.0)
  length-join (p ∷ q ∷ ps) h =
      omega (arith, length-join (q ∷ ps) h.1, length-append p (c ∷ join c (q ∷ ps)))

  -- Pieces that are not empty and do not hold the character, joined by it, are split into the same pieces.
  pub split_by_substr-join :
      (ps : List Bytes) → All (IsPiece c) ps → split_by_substr (join c ps) (c ∷ []) false ≡ some ps
  unfolding split_by_substr join split_from skip_substr find_substr is_prefix
  split_by_substr-join [] h = refl
  split_by_substr-join (p ∷ ps) h =
      split_from-join (suc (length (join c (p ∷ ps)))) false (p ∷ ps) (join c (p ∷ ps))
        (omega arith) (omega (arith, length-join (p ∷ ps) h)) h at_piece

  split-second :
      (fuel : ℕ) (q : Bytes) (only_first : Bool)
      → IsPiece c q
      → split_from (suc fuel) (c ∷ []) only_first true (c ∷ q) ≡ some (q ∷ [])
  unfolding join
  split-second fuel q only_first k =
      split_from-round fuel (c ∷ []) only_first true (c ∷ q) q
        (skip-Begins q [] (c ∷ q) k at_delimiter)
      ∙ cut-last q (only_first && true)
          (split_from fuel (c ∷ []) only_first true (rest_after q (find_substr (c ∷ []) q))) k

  and_false : (b : Bool) → (b && false) ≡ false
  and_false true = refl
  and_false false = refl

  -- Two pieces behind a delimiter are the same two pieces, whether or not only the first cut counts.
  pub two_pieces :
      (p q : Bytes) (only_first : Bool)
      → IsPiece c p
      → IsPiece c q
      → split_by_substr (c ∷ (p ++ c ∷ q)) (c ∷ []) only_first ≡ some (p ∷ q ∷ [])
  unfolding split_by_substr join
  two_pieces p q only_first h k =
      let text = c ∷ (p ++ c ∷ q) in
      let fuel = length (p ++ c ∷ q) in
      let r = p ++ c ∷ q in
      let later =
        split_from (suc fuel) (c ∷ []) only_first true (rest_after r (find_substr (c ∷ []) r)) in
      split_from-round (suc fuel) (c ∷ []) only_first false text r
        (skip-Begins p (q ∷ []) text h at_delimiter)
      ∙ ap (λ stop. cut stop r (find_substr (c ∷ []) r) later) (and_false only_first)
      ∙ cut-first (suc fuel) only_first p q (q ∷ []) h (split-second fuel q only_first k)

module _ (c : ℕ) (ds : Bytes) where
  absent-is_prefix : (p : Bytes) → All (λ x. x ≢ c) p → is_prefix (c ∷ ds) p ≡ false
  unfolding is_prefix
  absent-is_prefix [] h = refl
  absent-is_prefix (x ∷ xs) h = ground (arith, h.0)

  absent-find_substr : (p : Bytes) → All (λ x. x ≢ c) p → find_substr (c ∷ ds) p ≡ none
  unfolding find_substr is_prefix
  absent-find_substr [] h = refl
  absent-find_substr (x ∷ xs) h = rw (absent-find_substr xs h.1) (ground (arith, h.0))

  absent-skip_substr :
      (fuel : ℕ) (p : Bytes) → All (λ x. x ≢ c) p → skip_substr (suc fuel) (c ∷ ds) p ≡ some p
  unfolding skip_substr
  absent-skip_substr fuel p h = rw (absent-is_prefix p h) refl

  -- A text without the first character of the delimiter is one piece.
  pub split_by_substr-whole :
      (p : Bytes) (only_first : Bool)
      → 0 < length p
      → All (λ x. x ≢ c) p
      → split_by_substr p (c ∷ ds) only_first ≡ some (p ∷ [])
  unfolding split_by_substr
  split_by_substr-whole p only_first k h =
      split_from-round (length p) (c ∷ ds) only_first false p p (absent-skip_substr (length p) p h)
      ∙ rw (absent-find_substr p h) (ap some (last_piece-some c p k))
