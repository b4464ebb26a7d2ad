-- ===== src/Cache/Examples.antt =====
-- A manager with two samples on which the theorems are applied.
use toolchain_cpp.Common.{
  ◌≤◌, ◌≡◌, refl, inl, arith, List, [], ◌∷◌, ◌++◌, some, Bytes, length, get_elem?, true, ok,
  aborted,
}
use toolchain_cpp.Cache.{CacheManager, add, get_sample}
use toolchain_cpp.Cache.Octets.{octets}
use toolchain_cpp.Cache.Vector.{Represents, add-Represents}
use toolchain_cpp.Cache.Reading.{get_sample-Represents}

abbrev samples : List Bytes
samples = (1 ∷ 2 ∷ []) ∷ (3 ∷ 4 ∷ []) ∷ []

abbrev manager : CacheManager
manager = record {
  element_size = 2;
  samples_num = 2;
  file = some (record { content = 1 ∷ 2 ∷ 3 ∷ 4 ∷ []; position = 4 });
  file_size = 4;
  file_pos = 4;
  writing_pos = 4;
  can_increase_file = true;
  cache_max_size = 512;
  cache_pos_in_dump = 0;
  cache_data = [];
}

manager-Represents : Represents manager samples
unfolding octets
manager-Represents = record {
  f = record { content = 1 ∷ 2 ∷ 3 ∷ 4 ∷ []; position = 4 };
  held = 0;
  positive = omega arith;
  room = omega arith;
  sized = (refl, (refl, tt));
  opened = refl;
  stored = refl;
  count = refl;
  written = refl;
  writing = refl;
  grows = refl;
  window = refl;
  within = omega arith;
  placed = inl refl;
}

add-Represents_example :
    (m' : CacheManager) × (add manager (5 ∷ 6 ∷ []) ≡ ok m')
    × Represents m' (samples ++ (5 ∷ 6 ∷ []) ∷ [])
add-Represents_example =
    add-Represents manager samples manager-Represents (5 ∷ 6 ∷ []) refl (omega arith) (omega arith)

get_sample-Represents_example :
    ((x : Bytes)
      → get_elem? samples 1 ≡ some x
      → (m' : CacheManager) × (get_sample manager 1 ≡ ok (m', x)) × Represents m' samples)
    × (length samples ≤ 1 → get_sample manager 1 ≡ aborted)
get_sample-Represents_example = get_sample-Represents manager samples 1 manager-Represents
