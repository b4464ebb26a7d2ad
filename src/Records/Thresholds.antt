-- ===== src/Records/Thresholds.antt =====
-- When the thresholds of the parameters are reached.
use toolchain_cpp.Common.{ℕ, ◌<◌, ◌≡◌, arith, true, false, ok, undefined, ◌>>=◌}
use toolchain_cpp.Common.Int.{ℤ, pos, ◌+ℤ◌, ◌≤ℤ◌}
use toolchain_cpp.Records.{
  Doubles, utc_timestamp, AbstractMonParam, MonParamDescriptor, MonParamLevel, int64_min, int64_max,
  any_threshold_reached, update, set_int, set_double, add_int64,
}
use toolchain_cpp.Records.Builder.{
  make_int_value_param, make_double_value_param, make_utc_timestamp_param,
}

module _ (doubles : Doubles) where
  open doubles use {Double, ltb_double, zero_double, min_double}

  -- A timestamp that is updated at one time reaches its threshold at no later time, however late, when the
  -- timeout is not negative and the sum of time and timeout stays within `int64_t`.
  pub timestamp_never_late :
      (p : AbstractMonParam) (value timeout now later : ℤ)
      → pos 0 ≤ℤ timeout
      → now ≤ℤ later
      → pos 0 ≤ℤ now
      → (later +ℤ timeout) ≤ℤ int64_max
      → (update {doubles = doubles} (utc_timestamp p value timeout) now >>= λ u.
          any_threshold_reached u later)
        ≡ ok false
  unfolding update any_threshold_reached add_int64 ◌+ℤ◌
  timestamp_never_late p value timeout now later t l n m = ground arith

  -- A timestamp made without a timeout and updated has no defined answer at any time after the epoch: the sum
  -- of the time and the default timeout leaves `int64_t`.
  pub default_timeout_overflows :
      (level : MonParamLevel) (descriptor : MonParamDescriptor) (now : ℤ) (later : ℕ)
      → 0 < later
      → (update {doubles = doubles} (make_utc_timestamp_param level descriptor) now >>= λ u.
          any_threshold_reached u (pos later))
        ≡ undefined
  unfolding update any_threshold_reached add_int64 ◌+ℤ◌
  default_timeout_overflows level descriptor now later h = ground arith

  -- With the thresholds that the builder leaves, an integer parameter set to a value of `int64_t` reaches none,
  -- and a floating-point parameter set to zero reaches the low one, when zero is below the least positive value.
  pub default_thresholds :
      (level : MonParamLevel) (descriptor : MonParamDescriptor) (value now : ℤ)
      → int64_min ≤ℤ value
      → value ≤ℤ int64_max
      → ltb_double zero_double min_double ≡ true
      → ((set_int {doubles = doubles} (make_int_value_param level descriptor) value >>= λ u.
            any_threshold_reached u now)
          ≡ ok false)
        × ((set_double {doubles = doubles} (make_double_value_param level descriptor) zero_double
              >>= λ u. any_threshold_reached u now)
            ≡ ok true)
  unfolding set_int set_double any_threshold_reached
  default_thresholds level descriptor value now low high z = (ground arith, ground arith)
