-- ===== src/Scales/Finding.antt =====
-- What `scale_find` leaves and finds.
use toolchain_cpp.Common.{
  ℕ, Bool, true, Bool-cases, inl, inr, List, [], ◌∷◌, ◌++◌, ap, Option, none, some, Option-cases,
  ◌≡◌, refl, arith, ◌∙◌, ◌⊎◌, sym, subst,
}
use toolchain_cpp.Images.{Conversions}
use toolchain_cpp.Scales.{Scale, Scales, find_scale, has_size, new_scale, scale_find}

module _ (conversions : Conversions) where
  abbrev pub live : Scales conversions → List (Scale conversions)
  live [] = []
  live (none ∷ scales) = live scales
  live (some r ∷ scales) = r ∷ live scales

  pub live-find_scale :
      (w h : ℕ) (scales : Scales conversions)
      → live (find_scale conversions w h scales).0 ≡ live scales
  unfolding find_scale
  live-find_scale w h [] = refl
  live-find_scale w h (none ∷ scales) = live-find_scale w h scales
  live-find_scale w h (some r ∷ scales) =
      let ih = live-find_scale w h scales in
      elim (Bool-cases (has_size conversions w h r)) [
        | inl e ↦ rw (e, find_scale) refl
        | inr e ↦ rw (e, find_scale) (ap (λ rs. r ∷ rs) ih)
      ]

  -- A second search in what a search leaves.
  find_scale-again :
      (w h : ℕ) (scales : Scales conversions)
      → find_scale conversions w h (find_scale conversions w h scales).0
        ≡ find_scale conversions w h scales
  unfolding find_scale
  find_scale-again w h [] = refl
  find_scale-again w h (none ∷ scales) = find_scale-again w h scales
  find_scale-again w h (some r ∷ scales) = let ih = find_scale-again w h scales in ground arith

  find_scale-has_size :
      (w h : ℕ) (scales : Scales conversions) (r : Scale conversions)
      → (find_scale conversions w h scales).1 ≡ some r
      → (r.width ≡ w) × (r.height ≡ h)
  unfolding find_scale
  find_scale-has_size w h [] r e = cc
  find_scale-has_size w h (none ∷ scales) r e = find_scale-has_size w h scales r e
  find_scale-has_size w h (some q ∷ scales) r e =
      let ih = find_scale-has_size w h scales r in ground arith

  find_scale-append :
      (w h : ℕ) (scales : Scales conversions)
      → (find_scale conversions w h scales).1 ≡ none
      → find_scale conversions w h (scales ++ some (new_scale conversions w h) ∷ []) ≡ (
        (find_scale conversions w h scales).0 ++ some (new_scale conversions w h) ∷ [],
        some (new_scale conversions w h),
      )
  unfolding find_scale
  find_scale-append w h [] e = ground arith
  find_scale-append w h (none ∷ scales) e = find_scale-append w h scales e
  find_scale-append w h (some q ∷ scales) e = let ih = find_scale-append w h scales in ground arith

  live-append : (xs ys : Scales conversions) → live (xs ++ ys) ≡ live xs ++ live ys
  live-append [] ys = refl
  live-append (none ∷ xs) ys = live-append xs ys
  live-append (some r ∷ xs) ys = ap (λ rs. r ∷ rs) (live-append xs ys)

  scale_find-old :
      (w h : ℕ) (create : Bool) (scales : Scales conversions) (r : Scale conversions)
      → (find_scale conversions w h scales).1 ≡ some r
      → scale_find conversions w h create scales ≡ ((find_scale conversions w h scales).0, some r)
  unfolding scale_find
  scale_find-old w h create scales r e = rw (e, scale_find) refl

  scale_find-new :
      (w h : ℕ) (scales : Scales conversions)
      → (find_scale conversions w h scales).1 ≡ none
      → scale_find conversions w h true scales ≡ (
        (find_scale conversions w h scales).0 ++ some (new_scale conversions w h) ∷ [],
        some (new_scale conversions w h),
      )
  unfolding scale_find
  scale_find-new w h scales e = rw (e, scale_find) refl

  -- What a search that creates leaves and finds.
  abbrev pub Finds :
      ℕ → ℕ → Bool → Scales conversions → Scales conversions × Option (Scale conversions) → Type 0
  Finds w h create scales p =
      (r : Scale conversions) × (p.1 ≡ some r)
      × (r.width ≡ w)
      × (r.height ≡ h)
      × (scale_find conversions w h create p.0 ≡ p)
      × ((live p.0 ≡ live scales) ⊎ (live p.0 ≡ live scales ++ r ∷ []))

  found-Finds :
      (w h : ℕ) (create : Bool) (scales : Scales conversions) (r : Scale conversions)
      → (find_scale conversions w h scales).1 ≡ some r
      → Finds w h create scales ((find_scale conversions w h scales).0, some r)
  found-Finds w h create scales r e =
      let again = find_scale-again w h scales in
      let size = find_scale-has_size w h scales r e in
      (
        r,
        refl,
        size.0,
        size.1,
        scale_find-old w h create (find_scale conversions w h scales).0 r (ap (λ p. p.1) again ∙ e)
            ∙ ap (λ p. (p.0, some r)) again,
        inl (live-find_scale w h scales),
      )

  created-Finds :
      (w h : ℕ) (create : Bool) (scales : Scales conversions)
      → (find_scale conversions w h scales).1 ≡ none
      → Finds w h create scales (
        (find_scale conversions w h scales).0 ++ some (new_scale conversions w h) ∷ [],
        some (new_scale conversions w h),
      )
  created-Finds w h create scales e =
      let left = (find_scale conversions w h scales).0 in
      let new = new_scale conversions w h in
      let again = find_scale-again w h scales in
      let all = left ++ some new ∷ [] in
      let appended = find_scale-append w h left (ap (λ p. p.1) again ∙ e) in
      (
        new,
        refl,
        refl,
        refl,
        scale_find-old w h create all new (ap (λ p. p.1) appended)
            ∙ ap (λ p. (p.0, some new)) appended
            ∙ ap (λ p. (p.0 ++ some new ∷ [], some new)) again,
        inr (
            live-append left (some new ∷ [])
            ∙ ap (λ rs. rs ++ new ∷ []) (live-find_scale w h scales)),
      )

  -- A search that creates what it does not find leads to a live cache of the size. A further search finds it again and leaves
  -- the list as it is. The live caches before the search stay in their order, and at most the found one is added
  -- behind them.
  pub scale_find-again :
      (w h : ℕ) (create : Bool) (scales : Scales conversions)
      → Finds w h create scales (scale_find conversions w h true scales)
  scale_find-again w h create scales = elim (Option-cases (find_scale conversions w h scales).1) [
    | inl e ↦
        subst (Finds w h create scales) (sym (scale_find-new w h scales e))
          (created-Finds w h create scales e)
    | inr (r, e) ↦
        subst (Finds w h create scales) (sym (scale_find-old w h true scales r e))
          (found-Finds w h create scales r e)
  ]
