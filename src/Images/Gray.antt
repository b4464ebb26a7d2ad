-- ===== src/Images/Gray.antt =====
-- The colours of frames that come as YUV, and of a gray frame after one.
use toolchain_cpp.Common.{◌≡◌, refl, arith, true, none, some, Result, ok, undefined, ◌>>=◌}
use toolchain_cpp.Images.{
  Conversions, gray_8u, rgb_8u, yuv422_u_8u, yuv422_v_8u, MatCache, set_cv_mat, set_yuv422, clear,
  rgb_from_yuv, invalidate, update_image, ready_mat, mat_at, get_rgb_8u, make_rgb,
}
use toolchain_cpp.Images.Colour.{invalidate-ready_mat}

module _ (conversions : Conversions) where
  open conversions use {Mat, channels, is_8u}

  -- The image that `get_rgb_8u` returns.
  abbrev pub rgb_of : MatCache conversions → Result Mat
  rgb_of m = get_rgb_8u conversions m >>= λ r. ok r.1

  get_rgb-converted :
      (m : MatCache conversions) (y : Mat)
      → ready_mat conversions (m rgb_8u) ≡ none
      → ready_mat conversions (m gray_8u) ≡ some y
      → rgb_of m ≡ (
          mat_at conversions (m yuv422_u_8u) >>= λ u.
          mat_at conversions (m yuv422_v_8u) >>= λ v. rgb_from_yuv conversions y u v)
  unfolding get_rgb_8u make_rgb update_image
  get_rgb-converted m y h k = ground arith

  -- Whatever the cache held, after the three planes of a frame `imgproc::rgb_from_yuv` is called with these planes for the
  -- colours, and returns them or ends as it does. When a gray image of 8 bits follows, it is called with the new gray
  -- image and the two old planes, whatever their sizes; and when the gray image is the first of the cache, the planes are
  -- read past the end of the map.
  pub gray_frame_colours :
      (m : MatCache conversions) (y u v image : Mat)
      → is_8u image ≡ true
      → channels image ≡ 1
      → (rgb_of (set_yuv422 conversions m y u v) ≡ rgb_from_yuv conversions y u v)
        × ((set_cv_mat conversions (set_yuv422 conversions m y u v) image >>= λ m'. rgb_of m')
            ≡ rgb_from_yuv conversions image u v)
        × ((set_cv_mat conversions (clear conversions m) image >>= λ m'. rgb_of m') ≡ undefined)
  unfolding set_cv_mat set_yuv422 update_image clear invalidate
  gray_frame_colours m y u v image h k = (
    get_rgb-converted (set_yuv422 conversions m y u v) y (invalidate-ready_mat conversions m rgb_8u)
        refl,
    rw (h, k, set_cv_mat)
        (get_rgb-converted
          (update_image conversions (invalidate conversions (set_yuv422 conversions m y u v))
            gray_8u image)
          image (invalidate-ready_mat conversions (set_yuv422 conversions m y u v) rgb_8u) refl),
    rw (h, k, set_cv_mat)
        (get_rgb-converted
          (update_image conversions (invalidate conversions (clear conversions m)) gray_8u image)
          image refl refl),
  )
