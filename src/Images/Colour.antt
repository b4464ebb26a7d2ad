-- ===== src/Images/Colour.antt =====
-- What the cache returns for a frame in colour, from any sequence of queries.
use toolchain_cpp.Common.{
  ◌≡◌, ◌⊎◌, inl, inr, refl, sym, ap, ◌∙◌, arith, true, List, [], ◌∷◌, map, none, some, Result, ok,
  ◌>>=◌,
}
use toolchain_cpp.Images.{
  Conversions, Name, gray_8u, rgb_8u, MatCache, set_cv_mat, invalidate, update_image, ready_mat,
  get_gray_8u, get_rgb_8u,
}

pub data Query : Type 0 where
  gray rgb : Query

module _ (conversions : Conversions) where
  open conversions use {Mat, channels, is_8u, bgr_to_rgb, bgra_to_rgb, rgb_to_gray, empty_mat}

  unfoldable pub query : MatCache conversions → Query → Result (MatCache conversions × Mat)
  query m gray = ok (get_gray_8u conversions m)
  query m rgb = get_rgb_8u conversions m

  unfoldable pub queries : MatCache conversions → List Query → Result (List Mat)
  queries m [] = ok []
  queries m (q ∷ qs) = query m q >>= λ r. queries r.0 qs >>= λ mats. ok (r.1 ∷ mats)

  abbrev pub answer : Mat → Mat → Query → Mat
  answer g c gray = g
  answer g c rgb = c

  -- The colour image is ready, and the gray one is either not ready, or right.
  record Holds (m : MatCache conversions) (g c : Mat) : Type 0 where
    pub colour : ready_mat conversions (m rgb_8u) ≡ some c
    pub shade :
        (ready_mat conversions (m gray_8u) ≡ some g)
        ⊎ ((ready_mat conversions (m gray_8u) ≡ none) × (g ≡ rgb_to_gray c))

  gray_ready :
      (m : MatCache conversions) (g : Mat)
      → ready_mat conversions (m gray_8u) ≡ some g
      → query m gray ≡ ok (m, g)
  unfolding query get_gray_8u
  gray_ready m g h = simp (h, get_gray_8u) refl

  gray_converted :
      (m : MatCache conversions) (c : Mat)
      → ready_mat conversions (m gray_8u) ≡ none
      → ready_mat conversions (m rgb_8u) ≡ some c
      → query m gray ≡ ok (update_image conversions m gray_8u (rgb_to_gray c), rgb_to_gray c)
  unfolding query get_gray_8u
  gray_converted m c h k = simp (h, k, get_gray_8u) refl

  rgb_ready :
      (m : MatCache conversions) (c : Mat)
      → ready_mat conversions (m rgb_8u) ≡ some c
      → query m rgb ≡ ok (m, c)
  unfolding query get_rgb_8u
  rgb_ready m c h = simp (h, get_rgb_8u) refl

  query-Holds :
      (m : MatCache conversions) (g c : Mat) (q : Query)
      → Holds m g c
      → (m' : MatCache conversions) × (query m q ≡ ok (m', answer g c q)) × Holds m' g c
  unfolding update_image
  query-Holds m g c rgb h = (m, rgb_ready m c h.colour, h)
  query-Holds m g c gray h = elim (h.shade) [
    | inl e ↦ (m, gray_ready m g e, h)
    | inr (e, same) ↦ (
      update_image conversions m gray_8u (rgb_to_gray c),
      gray_converted m c e h.colour
          ∙ ap (λ x. ok (update_image conversions m gray_8u (rgb_to_gray c), x)) (sym same),
      record { colour = h.colour; shade = inl (ap some (sym same)) },
    )
  ]

  queries-Holds :
      (m : MatCache conversions) (g c : Mat) (qs : List Query)
      → Holds m g c
      → queries m qs ≡ ok (map (answer g c) qs)
  unfolding queries
  queries-Holds m g c [] h = refl
  queries-Holds m g c (q ∷ qs) h =
      let (m', e, h') = query-Holds m g c q h in rw (e, queries-Holds m' g c qs h')

  pub invalidate-ready_mat :
      (m : MatCache conversions) (name : Name)
      → ready_mat conversions (invalidate conversions m name) ≡ none
  unfolding invalidate
  invalidate-ready_mat m name = ground arith

  -- Whatever the cache held, after a colour image of 8 bits in three channels every sequence of queries returns
  -- this image in RGB and its conversion to gray.
  pub colour_frame :
      (m : MatCache conversions) (image : Mat) (qs : List Query)
      → is_8u image ≡ true
      → channels image ≡ 3
      → (set_cv_mat conversions m image >>= λ m'. queries m' qs)
        ≡ ok (map (answer (rgb_to_gray (bgr_to_rgb image)) (bgr_to_rgb image)) qs)
  unfolding set_cv_mat update_image
  colour_frame m image qs h k =
      rw (h, k, set_cv_mat)
        (queries-Holds
          (update_image conversions (invalidate conversions m) rgb_8u (bgr_to_rgb image)) _ _ qs
          (record { colour = refl; shade = inr (invalidate-ready_mat m gray_8u, refl) }))
