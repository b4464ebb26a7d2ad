-- ===== src/Scales/Stale.antt =====
-- A cache that `invalidate` passes over.
use toolchain_cpp.Common.{
  ℕ, true, false, List, [], ◌∷◌, ◌++◌, map, none, some, ◌≡◌, refl, arith, All, ok, bind-Passes,
  ok-injective, subst, ◌∙◌,
}
use toolchain_cpp.Images
use toolchain_cpp.Images.{Conversions}
use toolchain_cpp.Scales.{Scale, Scales, find_scale, has_size, invalidate_scales}

module _ (conversions : Conversions) where
  has_size_self : (r : Scale conversions) → has_size conversions r.width r.height r ≡ true
  has_size_self r = ground arith

  find_scale-first :
      (w h : ℕ) (r : Scale conversions) (scales : Scales conversions)
      → has_size conversions w h r ≡ true
      → (find_scale conversions w h (some r ∷ scales)).1 ≡ some r
  unfolding find_scale
  find_scale-first w h r scales e = rw (e, find_scale) refl

  find_scale-later :
      (w h : ℕ) (q : Scale conversions) (scales : Scales conversions)
      → has_size conversions w h q ≡ false
      → (find_scale conversions w h (some q ∷ scales)).1 ≡ (find_scale conversions w h scales).1
  unfolding find_scale
  find_scale-later w h q scales e = rw (e, find_scale) refl

  -- Behind caches of other sizes an expired pointer is followed by a live one. When `invalidate` returns, the live one leads
  -- to the same cache with the same images, ready or not, and a search for its size finds it.
  pub invalidate_scales-stale :
      (before : List (Scale conversions)) (r : Scale conversions)
      (behind scales : Scales conversions)
      → All (λ q. has_size conversions r.width r.height q ≡ false) before
      → invalidate_scales conversions (map (λ q. some q) before ++ none ∷ some r ∷ behind)
        ≡ ok scales
      → (find_scale conversions r.width r.height scales).1 ≡ some r
  unfolding invalidate_scales
  invalidate_scales-stale [] r behind scales other h =
      let p = bind-Passes _ (invalidate_scales conversions behind) h in
      subst (λ rest. (find_scale conversions r.width r.height rest).1 ≡ some r)
        (ok-injective p.after) (find_scale-first r.width r.height r p.between (has_size_self r))
  invalidate_scales-stale (q ∷ before) r behind scales other h =
      let p =
        bind-Passes _
          (invalidate_scales conversions
            (map (λ (c : Scale conversions). some c) before ++ none ∷ some r ∷ behind))
          h in
      let q' = record q { images = Images.invalidate conversions q.images } in
      subst (λ rest. (find_scale conversions r.width r.height rest).1 ≡ some r)
        (ok-injective p.after)
        (find_scale-later r.width r.height q' p.between other.0
          ∙ invalidate_scales-stale before r behind p.between other.1 p.before)
