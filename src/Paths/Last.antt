-- ===== src/Paths/Last.antt =====
-- The last character of a kind in a text.
use toolchain_cpp.Common.{
  ℕ, suc, ◌<◌, ◌≡◌, refl, sym, ap, ◌∙◌, ◌-◌, subst, drop-drop, All-drop, arith, Bool, true, false,
  [], ◌∷◌, ◌++◌, none, some, Option-cases, inl, inr, Bytes, length, drop, All,
}
use toolchain_cpp.Paths.{find_last_of}

module _ (among : ℕ → Bool) where
  abbrev pub Free : Bytes → Type 0
  Free xs = All (λ x. among x ≡ false) xs

  pub find_last_of-eq-none : (xs : Bytes) → Free xs → find_last_of among xs ≡ none
  unfolding find_last_of
  find_last_of-eq-none [] h = refl
  find_last_of-eq-none (x ∷ xs) h = rw (find_last_of-eq-none xs h.1, h.0) refl

  pub none-Free : (xs : Bytes) → find_last_of among xs ≡ none → Free xs
  unfolding find_last_of
  none-Free [] h = tt
  none-Free (x ∷ xs) h = (ground arith, none-Free xs (ground arith))

  -- The character, and what follows it.
  pub record EndsAt (xs : Bytes) (i : ℕ) : Type 0 where
    pub found : ℕ
    pub after : Bytes
    pub one_of : among found ≡ true
    pub cut : drop i xs ≡ found ∷ after
    pub free : Free after

  pub some-EndsAt : (xs : Bytes) (i : ℕ) → find_last_of among xs ≡ some i → EndsAt xs i
  unfolding find_last_of
  some-EndsAt [] i h = cc
  some-EndsAt (x ∷ xs) i h = elim (Option-cases (find_last_of among xs)) [
    | inl e ↦
        let first : 0 ≡ i = ground arith in
        subst (λ j. EndsAt (x ∷ xs) j) first
          (record {
            found = x;
            after = xs;
            one_of = ground arith;
            cut = refl;
            free = none-Free xs e;
          })
    | inr (k, e) ↦
        let later : suc k ≡ i = ground arith in
        let r = some-EndsAt xs k e in
        subst (λ j. EndsAt (x ∷ xs) j) later
          (record {
            found = r.found;
            after = r.after;
            one_of = r.one_of;
            cut = r.cut;
            free = r.free;
          })
  ]

  pub find_last_of-append :
      (dir : Bytes) (c : ℕ) (name : Bytes)
      → among c ≡ true
      → Free name
      → find_last_of among (dir ++ c ∷ name) ≡ some (length dir)
  unfolding find_last_of
  find_last_of-append [] c name h f = rw (find_last_of-eq-none name f, h) refl
  find_last_of-append (x ∷ xs) c name h f = rw (find_last_of-append xs c name h f) refl

  -- Behind a place beyond the last one there is none.
  pub Free-drop : (xs : Bytes) (i k : ℕ) → find_last_of among xs ≡ some i → i < k → Free (drop k xs)
  Free-drop xs i k e h =
      let r = some-EndsAt xs i e in
      let behind : r.after ≡ drop (suc i) xs =
        sym (ap (λ ys. drop 1 ys) r.cut) ∙ drop-drop 1 i (suc i) xs (omega arith) in
      subst (λ ys. Free ys) (drop-drop (k - suc i) (suc i) k xs (omega arith))
        (All-drop _ (k - suc i) (drop (suc i) xs) (subst (λ ys. Free ys) behind r.free))
