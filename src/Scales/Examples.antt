-- ===== src/Scales/Examples.antt =====
-- Lists of sizes with expired pointers, on which the theorems are applied; numbers stand for images.
use toolchain_cpp.Common.{ℕ, ◌+◌, ◌/◌, ◌≡◌, refl, true, false, [], ◌∷◌, Option, none, some}
use toolchain_cpp.Images
use toolchain_cpp.Images.{Conversions, Name, CachedMat, gray_8u}
use toolchain_cpp.Scales.{Scale, Scales, find_scale, invalidate_scales, scale_find}
use toolchain_cpp.Scales.Finding.{Finds, scale_find-again}
use toolchain_cpp.Scales.Stale.{invalidate_scales-stale}

abbrev numbers : Conversions
numbers = record {
  Mat = ℕ;
  channels = λ n. n / 100;
  is_8u = λ n. true;
  bgr_to_rgb = λ n. n + 1;
  bgra_to_rgb = λ n. n + 2;
  rgb_to_gray = λ n. n + 3;
  cols = λ n. 4;
  rows = λ n. 4;
  is_8uc1 = λ n. true;
  scale_yuv = λ y u v. some (y + u + v);
  empty_mat = 0;
}

abbrev gray_image : Name → Option (CachedMat ℕ)
gray_image gray_8u = some (record { mat = 110; ready = true })
gray_image _ = none

abbrev scale : ℕ → ℕ → Scale numbers
scale w h = record { width = w; height = h; images = gray_image }

scale_find-again_example :
    Finds numbers 4 3 false
      (some (scale 8 6) ∷ none ∷ [])
      (scale_find numbers 4 3 true (some (scale 8 6) ∷ none ∷ []))
scale_find-again_example = scale_find-again numbers 4 3 false (some (scale 8 6) ∷ none ∷ [])

-- Only the first cache is invalidated.
abbrev left : Scales numbers
left =
    some (record (scale 8 6) { images = Images.invalidate numbers gray_image })
    ∷ some (scale 4 3)
    ∷ []

invalidate_scales-stale_example : (find_scale numbers 4 3 left).1 ≡ some (scale 4 3)
unfolding invalidate_scales
invalidate_scales-stale_example =
    invalidate_scales-stale numbers (scale 8 6 ∷ []) (scale 4 3) [] left (refl, tt) refl
