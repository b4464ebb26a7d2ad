-- ===== src/Records.antt =====
-- common/state-records.cpp and .hpp: the monitored parameters, a class with four kinds, whose virtual
-- methods are functions by the kind. The clock is an argument, and the doubles are an interface.
pub mod Builder
pub mod Store
pub mod Table
pub mod Counting
pub mod Thresholds
mod Examples
use toolchain_cpp.Common.{
  ℕ, suc, ltb, ◌+◌, ◌-◌, ◌%◌, Bool, true, false, ◌&&◌, ◌||◌, if◌then◌else◌, Bytes, Result, ok,
  raised, undefined, ◌>>=◌,
}
use toolchain_cpp.Common.Int.{ℤ, pos, negsuc, ◌+ℤ◌, ltb_ℤ, leb_ℤ}

-- `double`, with its order, zero, and the values of `numeric_limits`.
pub record Doubles : Type 1 where
  pub Double : Type 0
  pub ltb_double : Double → Double → Bool
  pub zero_double : Double
  pub min_double : Double
  pub max_double : Double

abbrev pub int64_max : ℤ
int64_max = pos 9223372036854775807

abbrev pub int64_min : ℤ
int64_min = negsuc 9223372036854775807

-- 2 ^ 64
abbrev pub size_modulus : ℕ
size_modulus = 18446744073709551616

pub data MonParamType : Type 0 where
  undefined_type counter_type int_value_type double_value_type utc_timestamp_type : MonParamType

pub data MonParamLevel : Type 0 where
  common_level warning_level fail_level : MonParamLevel

pub record MonParamDescriptor : Type 0 where
  pub code : ℕ
  pub type : MonParamType
  pub human_readable_category : Bytes
  pub description : Bytes

-- The fields that every parameter has.
pub record AbstractMonParam : Type 0 where
  pub is_null : Bool
  pub code : ℕ
  pub description : Bytes
  pub human_readable_category : Bytes
  pub level : MonParamLevel

-- The addition of `int64_t`.
pub add_int64 : ℤ → ℤ → Result ℤ
add_int64 a b =
    if leb_ℤ int64_min (a +ℤ b) && leb_ℤ (a +ℤ b) int64_max then ok (a +ℤ b) else undefined

abbrev not_null : AbstractMonParam → AbstractMonParam
not_null b = record b { is_null = false }

-- The conversion of `int64_t` to `size_t`.
pub to_size : ℤ → ℕ
to_size (pos n) = n
to_size (negsuc n) = size_modulus - suc n

module _ (doubles : Doubles) where
  open doubles use {Double, ltb_double}

  pub data MonParam : Type 0 where
    -- The value and the low and the high threshold.
    int_value : AbstractMonParam → ℤ → ℤ → ℤ → MonParam
    double_value : AbstractMonParam → Double → Double → Double → MonParam
    -- The value and the high threshold.
    counter : AbstractMonParam → ℕ → ℕ → MonParam
    -- The value and the timeout.
    utc_timestamp : AbstractMonParam → ℤ → ℤ → MonParam

module _ {doubles : Doubles} where
  open doubles use {Double, ltb_double}

  abbrev pub base : MonParam doubles → AbstractMonParam
  base (int_value b value low high) = b
  base (double_value b value low high) = b
  base (counter b value high) = b
  base (utc_timestamp b value timeout) = b

  pub get_type : MonParam doubles → MonParamType
  get_type (int_value b value low high) = int_value_type
  get_type (double_value b value low high) = double_value_type
  get_type (counter b value high) = counter_type
  get_type (utc_timestamp b value timeout) = utc_timestamp_type

  pub get_level : MonParam doubles → MonParamLevel
  get_level p = (base p).level

  -- At the time `now`.
  pub any_threshold_reached : MonParam doubles → ℤ → Result Bool
  any_threshold_reached (int_value b value low high) now =
      ok (if b.is_null then false else ltb_ℤ high value || ltb_ℤ value low)
  any_threshold_reached (double_value b value low high) now =
      ok (if b.is_null then false else ltb_double high value || ltb_double value low)
  any_threshold_reached (counter b value high) now =
      ok (if b.is_null then false else ltb high value)
  any_threshold_reached (utc_timestamp b value timeout) now =
      if b.is_null then ok false else add_int64 now timeout >>= λ limit. ok (ltb_ℤ limit value)

  pub increment : MonParam doubles → ℤ → Result (MonParam doubles)
  increment (counter b value high) step =
      ok (counter (not_null b) ((value + to_size step) % size_modulus) high)
  increment _ step = raised

  pub set_int : MonParam doubles → ℤ → Result (MonParam doubles)
  set_int (int_value b value low high) val = ok (int_value (not_null b) val low high)
  set_int (utc_timestamp b value timeout) val = ok (utc_timestamp (not_null b) val timeout)
  set_int _ val = raised

  pub set_double : MonParam doubles → Double → Result (MonParam doubles)
  set_double (double_value b value low high) val = ok (double_value (not_null b) val low high)
  set_double _ val = raised

  pub update : MonParam doubles → ℤ → Result (MonParam doubles)
  update (utc_timestamp b value timeout) now = ok (utc_timestamp (not_null b) now timeout)
  update _ now = raised
