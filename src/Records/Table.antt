-- ===== src/Records/Table.antt =====
-- What the table of the records finds.
use toolchain_cpp.Common.{ℕ, ◌≡◌, arith, Option, none, some, ◌==◌, if◌then◌else◌}
use toolchain_cpp.Records.{Doubles, MonParam, base}
use toolchain_cpp.Records.Store.{RecordsType, find_param, add_parameter}

abbrev pub or_else : Option ℕ → Option ℕ → Option ℕ
or_else none b = b
or_else (some a) b = some a

-- After a parameter is added, the table finds what it found before, and under the code of the new parameter the
-- new one only if there was none: the first parameter with a code stays.
pub find_param-add_parameter :
    (doubles : Doubles) (params : ℕ → MonParam doubles) (records : RecordsType) (address code : ℕ)
    → find_param (add_parameter params records address) code
      ≡ or_else
          (find_param records code)
          (if (base (params address)).code == code then some address else none)
unfolding add_parameter find_param
find_param-add_parameter doubles params records address code = ground arith
