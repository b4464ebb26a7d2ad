-- ===== src/Images.antt =====
-- imgproc/mat-cache.cpp: `MatCache`, the images of one frame under their names. The names are the four that
-- the code uses. The conversions of OpenCV and of the pixels are an interface.
pub mod Colour
pub mod Gray
mod Examples
use toolchain_cpp.Common.{
  ℕ, ◌/◌, ◌&&◌, Bool, true, false, Option, none, some, ◌==◌, if◌then◌else◌, Result, ok, raised,
  aborted, undefined, ◌>>=◌, ◌>>◌, af_assert,
}

-- `is_8u` and `is_8uc1` test the type. `scale_yuv` is the conversion of libswscale, with which the library is
-- built; none is a context that cannot be had.
pub record Conversions : Type 1 where
  pub Mat : Type 0
  pub channels : Mat → ℕ
  pub is_8u : Mat → Bool
  pub bgr_to_rgb : Mat → Mat
  pub bgra_to_rgb : Mat → Mat
  pub rgb_to_gray : Mat → Mat
  pub cols : Mat → ℕ
  pub rows : Mat → ℕ
  pub is_8uc1 : Mat → Bool
  pub scale_yuv : Mat → Mat → Mat → Option Mat
  pub empty_mat : Mat

pub data Name : Type 0 where
  gray_8u rgb_8u yuv422_u_8u yuv422_v_8u : Name

abbrev pub same_name : Name → Name → Bool
same_name gray_8u gray_8u = true
same_name rgb_8u rgb_8u = true
same_name yuv422_u_8u yuv422_u_8u = true
same_name yuv422_v_8u yuv422_v_8u = true
same_name _ _ = false

pub record CachedMat (Mat : Type 0) : Type 0 where
  pub mat : Mat
  pub ready : Bool

module _ (conversions : Conversions) where
  open conversions use {
    Mat, channels, is_8u, bgr_to_rgb, bgra_to_rgb, rgb_to_gray, cols, rows, is_8uc1, scale_yuv,
    empty_mat,
  }

  -- `images`
  abbrev pub MatCache : Type 0
  MatCache = Name → Option (CachedMat Mat)

  pub invalidate : MatCache → MatCache
  invalidate m name = elim (m name) [
    | none ↦ none
    | some item ↦ some (record item { ready = false })
  ]

  pub clear : MatCache → MatCache
  clear m name = none

  -- The image under `name` is replaced, and ready.
  pub update_image : MatCache → Name → Mat → MatCache
  update_image m name mat n =
      if same_name n name then some (record { mat = mat; ready = true }) else m n

  pub set_cv_mat : MatCache → Mat → Result MatCache
  set_cv_mat m image =
      let m' = invalidate m in
      af_assert (is_8u image)
      >> (if channels image == 1
          then ok (update_image m' gray_8u image)
          else if channels image == 3
          then ok (update_image m' rgb_8u (bgr_to_rgb image))
          else if channels image == 4
          then ok (update_image m' rgb_8u (bgra_to_rgb image))
          else raised)

  pub set_yuv422 : MatCache → Mat → Mat → Mat → MatCache
  set_yuv422 m y u v =
      update_image (update_image (update_image (invalidate m) gray_8u y) yuv422_u_8u u) yuv422_v_8u
        v

  -- An image that is there and ready.
  abbrev pub ready_mat : Option (CachedMat Mat) → Option Mat
  ready_mat none = none
  ready_mat (some item) = if item.ready then some item.mat else none

  -- The image of an iterator; the end of the map has none.
  abbrev pub mat_at : Option (CachedMat Mat) → Result Mat
  mat_at none = undefined
  mat_at (some item) = ok item.mat

  pub get_gray_8u : MatCache → MatCache × Mat
  get_gray_8u m = elim (ready_mat (m gray_8u)) [
    | some gray ↦ (m, gray)
    | none ↦ elim (ready_mat (m rgb_8u)) [
      | none ↦ (m, empty_mat)
      | some rgb ↦ (update_image m gray_8u (rgb_to_gray rgb), rgb_to_gray rgb)
    ]
  ]

  -- A plane of colour has half the width and half the height of the gray one.
  abbrev pub is_half : Mat → Mat → Bool
  is_half plane y = (cols plane == cols y / 2) && (rows plane == rows y / 2) && is_8uc1 plane

  -- The function of imgproc/imgproc.cpp.
  pub rgb_from_yuv : Mat → Mat → Mat → Result Mat
  rgb_from_yuv y u v =
      af_assert (is_8uc1 y)
      >> (af_assert (is_half u y)
          >> (af_assert (is_half v y)
              >> elim (scale_yuv y u v) [ none ↦ raised | some rgb ↦ ok rgb ]))

  -- The private method; it asks three times for the first image, and not for the other two.
  pub make_rgb : MatCache → Result MatCache
  make_rgb m = elim (ready_mat (m gray_8u)) [
    | none ↦ ok m
    | some y ↦ mat_at (m yuv422_u_8u) >>= λ u.
        mat_at (m yuv422_v_8u) >>= λ v. rgb_from_yuv y u v >>= λ rgb. ok (update_image m rgb_8u rgb)
  ]

  pub get_rgb_8u : MatCache → Result (MatCache × Mat)
  get_rgb_8u m = elim (ready_mat (m rgb_8u)) [
    | some rgb ↦ ok (m, rgb)
    | none ↦ make_rgb m >>= λ m'.
        ok (m', elim (ready_mat (m' rgb_8u)) [ none ↦ empty_mat | some rgb ↦ rgb ])
  ]
