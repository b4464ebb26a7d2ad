-- ===== src/Median/Examples.antt =====
-- Runs of the median, and the theorems at concrete inputs.
use toolchain_cpp.Common.{◌≡◌, refl, arith, [], ◌∷◌, ok, raised}
use toolchain_cpp.Common.Int.{pos, negsuc}
use toolchain_cpp.Median.{IntStreamMedian, make, push, set_nums_set_size}
use toolchain_cpp.Median.Sorted.{IsValid}
use toolchain_cpp.Median.Rank.{IsMedian, push-IsMedian}
use toolchain_cpp.Median.Resize.{Resizes, set_nums_set_size-Resizes}

abbrev nearly_full : IntStreamMedian
nearly_full = record { set_size = 5; nums = negsuc 3 ∷ pos 1 ∷ pos 1 ∷ pos 9 ∷ []; median = pos 1 }

nearly_full-IsValid : IsValid nearly_full
nearly_full-IsValid = omega arith

push_once :
    push nearly_full (pos 7)
    ≡ ok (record { set_size = 5; nums = pos 1 ∷ pos 1 ∷ pos 7 ∷ []; median = pos 1 })
unfolding push
push_once = refl

make_small : make 2 ≡ raised
unfolding make
make_small = refl

push-IsMedian_example : IsMedian (pos 1) (pos 7 ∷ nearly_full.nums)
push-IsMedian_example = push-IsMedian nearly_full _ (pos 7) nearly_full-IsValid push_once

set_nums_set_size-Resizes_example : Resizes nearly_full 3 (set_nums_set_size nearly_full 3)
set_nums_set_size-Resizes_example = set_nums_set_size-Resizes nearly_full 3 nearly_full-IsValid
