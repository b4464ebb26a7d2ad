-- ===== src/Images/Examples.antt =====
-- Numbers that stand for images: the hundreds are the channels, the ones the width and the height.
use toolchain_cpp.Common.{
  ℕ, ◌+◌, ◌/◌, ◌≡◌, refl, true, none, ok, undefined, aborted, ◌%◌, some, ◌>>=◌,
}
use toolchain_cpp.Images.{Conversions, MatCache, rgb_from_yuv, set_cv_mat, set_yuv422, clear}
use toolchain_cpp.Images.Gray.{rgb_of, gray_frame_colours}

abbrev numbers : Conversions
numbers = record {
  Mat = ℕ;
  channels = λ n. n / 100;
  is_8u = λ n. true;
  bgr_to_rgb = λ n. n + 1;
  bgra_to_rgb = λ n. n + 2;
  rgb_to_gray = λ n. n + 3;
  cols = λ n. n % 10;
  rows = λ n. n % 10;
  is_8uc1 = λ n. true;
  scale_yuv = λ y u v. some (y + u + v);
  empty_mat = 0;
}

abbrev empty : MatCache numbers
empty name = none

gray_frame_colours_example :
    (rgb_of numbers (set_yuv422 numbers empty 118 124 134) ≡ ok 376)
    × ((set_cv_mat numbers (set_yuv422 numbers empty 118 124 134) 146 >>= λ m. rgb_of numbers m)
        ≡ aborted)
    × ((set_cv_mat numbers (clear numbers empty) 146 >>= λ m. rgb_of numbers m) ≡ undefined)
unfolding rgb_from_yuv
gray_frame_colours_example = gray_frame_colours numbers empty 118 124 134 146 refl refl
