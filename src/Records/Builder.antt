-- ===== src/Records/Builder.antt =====
-- `MonParamBuilder`: the overloads of each of its methods.
use toolchain_cpp.Common.{ℕ, ◌-◌, Bool, true, false}
use toolchain_cpp.Common.Int.{ℤ, pos}
use toolchain_cpp.Records.{
  Doubles, MonParam, int_value, double_value, counter, utc_timestamp, AbstractMonParam,
  MonParamDescriptor, MonParamLevel, int64_min, int64_max, size_modulus,
}

-- The base of a parameter that the builder makes.
abbrev pub described : MonParamLevel → MonParamDescriptor → Bool → AbstractMonParam
described level descriptor is_null = record {
  is_null = is_null;
  code = descriptor.code;
  description = descriptor.description;
  human_readable_category = descriptor.human_readable_category;
  level = level;
}

module _ {doubles : Doubles} where
  open doubles use {Double, zero_double, min_double, max_double}

  abbrev pub make_int_value_param : MonParamLevel → MonParamDescriptor → MonParam doubles
  make_int_value_param level descriptor =
      int_value (described level descriptor true) (pos 0) int64_min int64_max

  abbrev pub make_int_value_param_of : MonParamLevel → MonParamDescriptor → ℤ → MonParam doubles
  make_int_value_param_of level descriptor value =
      int_value (described level descriptor false) value int64_min int64_max

  abbrev pub make_int_value_param_within :
      MonParamLevel → MonParamDescriptor → ℤ → ℤ → ℤ → MonParam doubles
  make_int_value_param_within level descriptor value low_threshold high_threshold =
      int_value (described level descriptor false) value low_threshold high_threshold

  abbrev pub make_double_value_param : MonParamLevel → MonParamDescriptor → MonParam doubles
  make_double_value_param level descriptor =
      double_value (described level descriptor true) zero_double min_double max_double

  abbrev pub make_double_value_param_of :
      MonParamLevel → MonParamDescriptor → Double → MonParam doubles
  make_double_value_param_of level descriptor value =
      double_value (described level descriptor false) value min_double max_double

  abbrev pub make_double_value_param_within :
      MonParamLevel → MonParamDescriptor → Double → Double → Double → MonParam doubles
  make_double_value_param_within level descriptor value low_threshold high_threshold =
      double_value (described level descriptor false) value low_threshold high_threshold

  abbrev pub make_counter_param : MonParamLevel → MonParamDescriptor → MonParam doubles
  make_counter_param level descriptor =
      counter (described level descriptor true) 0 (size_modulus - 1)

  abbrev pub make_counter_param_of : MonParamLevel → MonParamDescriptor → ℕ → MonParam doubles
  make_counter_param_of level descriptor value =
      counter (described level descriptor false) value (size_modulus - 1)

  abbrev pub make_counter_param_within :
      MonParamLevel → MonParamDescriptor → ℕ → ℕ → MonParam doubles
  make_counter_param_within level descriptor value high_threshold =
      counter (described level descriptor false) value high_threshold

  abbrev pub make_utc_timestamp_param : MonParamLevel → MonParamDescriptor → MonParam doubles
  make_utc_timestamp_param level descriptor =
      utc_timestamp (described level descriptor true) (pos 0) int64_max

  abbrev pub make_utc_timestamp_param_of : MonParamLevel → MonParamDescriptor → ℤ → MonParam doubles
  make_utc_timestamp_param_of level descriptor value =
      utc_timestamp (described level descriptor false) value int64_max

  abbrev pub make_utc_timestamp_param_within :
      MonParamLevel → MonParamDescriptor → ℤ → ℤ → MonParam doubles
  make_utc_timestamp_param_within level descriptor value timeout =
      utc_timestamp (described level descriptor false) value timeout
