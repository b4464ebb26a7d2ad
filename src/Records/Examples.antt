-- ===== src/Records/Examples.antt =====
-- A counter, a timestamp and a table on which the theorems are applied.
use toolchain_cpp.Common.{
  ◌<◌, ℕ, ◌+◌, ◌-◌, ◌%◌, ◌≡◌, ◌≢◌, refl, arith, true, [], ◌∷◌, some, ltb, codes, ok,
}
use toolchain_cpp.Common.Int.{pos, negsuc, ◌≤ℤ◌, ◌+ℤ◌}
use toolchain_cpp.Records.{
  Doubles, MonParam, MonParamDescriptor, counter_type, common_level, size_modulus,
}
use toolchain_cpp.Records.Builder.{described, make_counter_param}
use toolchain_cpp.Records.Store.{RecordsType, find_param}
use toolchain_cpp.Records.Counting.{increments, IsCounter, downs, ups, increments_sum}

-- Tenths of the least positive value stand for the doubles.
abbrev small : Doubles
small = record {
  Double = ℕ;
  ltb_double = ltb;
  zero_double = 0;
  min_double = 10;
  max_double = 1000000;
}

abbrev example_mon_param : MonParamDescriptor
example_mon_param = record {
  code = 1504705707;
  type = counter_type;
  human_readable_category = codes "example";
  description = codes "Example counter";
}

abbrev params : ℕ → MonParam small
params a = make_counter_param common_level example_mon_param

abbrev table : RecordsType
table = (1504705707, 4) ∷ []

table_lem : find_param table 1504705707 ≡ some 4
unfolding find_param
table_lem = refl

increments_sum_example :
    (params' : ℕ → MonParam small) × (value' : ℕ) × (increments params table example_mon_param
        (pos 5 ∷ negsuc 1 ∷ [])
      ≡ ok params')
    × IsCounter params' 4 (size_modulus - 1) value'
    × (value' < size_modulus)
    × ((value' + downs (pos 5 ∷ negsuc 1 ∷ [])) % size_modulus
        ≡ (0 + ups (pos 5 ∷ negsuc 1 ∷ [])) % size_modulus)
    × ((a : ℕ) → a ≢ 4 → params' a ≡ params a)
increments_sum_example =
    increments_sum params table example_mon_param 4 (size_modulus - 1) 0 (pos 5 ∷ negsuc 1 ∷ [])
      table_lem
      (record { counter_base = described common_level example_mon_param true; holds = refl })
      (omega arith) ((omega arith, omega arith), ((omega arith, omega arith), tt))

sum_lem : (pos 900000 +ℤ pos 1000) ≤ℤ pos 9223372036854775807
unfolding ◌+ℤ◌
sum_lem = omega arith
