-- ===== src/Cache.antt =====
-- common/cached-vector.cpp: `CacheManager`, a vector of samples in a file with a window of it in memory. An
-- index is not negative. The file is opened anew (`init` without existing elements), and the octets between
-- its end and a position beyond it are zero.
pub mod Octets
pub mod Vector
pub mod Window
pub mod Reading
mod Examples
use toolchain_cpp.Common.{
  ℕ, ◌+◌, ◌-◌, ◌*◌, ◌/◌, Bool, true, false, ◌&&◌, List, [], ◌∷◌, ◌++◌, Option, none, some, ltb, leb,
  ◌==◌, if◌then◌else◌, Bytes, length, take, drop, replicate, min, Result, ok, aborted, undefined,
  ◌>>=◌, ◌>>◌, af_assert,
}

-- 512 Mb and 30 Gb
abbrev pub cached_vec_max_cache : ℕ
cached_vec_max_cache = 536870912

abbrev pub cached_vec_max_size : ℕ
cached_vec_max_size = 32212254720

-- A file of the C library, open for reading and writing.
pub record File : Type 0 where
  pub content : Bytes
  pub position : ℕ

abbrev pub fseek : File → ℕ → File
fseek f position = record f { position = position }

pub fwrite : File → Bytes → File
fwrite f octets =
    let hole = replicate (f.position - length f.content) 0 in
    record {
      content =
          take f.position f.content
          ++ hole
          ++ octets
          ++ drop (f.position + length octets) f.content;
      position = f.position + length octets;
    }

pub fread : File → ℕ → File × Bytes
fread f n =
    let octets = take n (drop f.position f.content) in
    (record f { position = f.position + length octets }, octets)

pub record CacheManager : Type 0 where
  pub element_size : ℕ
  pub samples_num : ℕ
  pub file : Option File
  pub file_size : ℕ
  pub file_pos : ℕ
  pub writing_pos : ℕ
  pub can_increase_file : Bool
  pub cache_max_size : ℕ
  pub cache_pos_in_dump : ℕ
  pub cache_data : Bytes

abbrev empty_file : File
empty_file = record { content = []; position = 0 }

-- `clear(reopen)` of a manager that has a name.
pub clear : CacheManager → Bool → CacheManager
clear m reopen = record m {
  cache_data = [];
  cache_pos_in_dump = 0;
  samples_num = 0;
  file_size = 0;
  file_pos = 0;
  writing_pos = 0;
  can_increase_file = true;
  file = if reopen then some empty_file else none;
}

-- `init(name, el_size_in_bytes)` after the check of the size.
pub opened : CacheManager → ℕ → CacheManager
opened m el_size_in_bytes = record (clear m false) {
  element_size = el_size_in_bytes;
  cache_max_size = min 512 (cached_vec_max_cache / el_size_in_bytes);
  file = some empty_file;
}

-- The division by zero is undefined.
pub init : CacheManager → ℕ → Result CacheManager
init m el_size_in_bytes =
    if el_size_in_bytes == 0 then undefined else ok (opened m el_size_in_bytes)

pub cache_size : CacheManager → ℕ
cache_size m = length m.cache_data / m.element_size

-- The beginning of `add`: past the greatest size the writing starts again at the beginning of the file.
pub wrapped : CacheManager → CacheManager
wrapped m =
    if ltb cached_vec_max_size (m.writing_pos + m.element_size)
    then record m { writing_pos = 0; can_increase_file = false }
    else m

abbrev pub seek_from : File → ℕ → ℕ → File
seek_from f file_pos position = if file_pos == position then f else fseek f position

-- The rest of `add`.
pub write_sample : CacheManager → File → Bytes → CacheManager
write_sample m f octets = record m {
  file = some (fwrite (seek_from f m.file_pos m.writing_pos) octets);
  file_pos = m.writing_pos + m.element_size;
  writing_pos = m.writing_pos + m.element_size;
  samples_num = if m.can_increase_file then m.samples_num + 1 else m.samples_num;
  file_size = if m.can_increase_file then m.file_size + m.element_size else m.file_size;
}

-- `samples_num` is an `int`, and one more than the greatest is undefined.
abbrev pub overflows : CacheManager → Bool
overflows m = m.can_increase_file && leb 2147483647 m.samples_num

pub add : CacheManager → Bytes → Result CacheManager
add m octets = elim (m.file) [
  | none ↦ aborted
  | some f ↦ if overflows (wrapped m) then undefined else ok (write_sample (wrapped m) f octets)
]

-- `&cache_data[stride]`, and the octets of the sample there.
pub sample_at : CacheManager → ℕ → Bytes
sample_at m stride = take m.element_size (drop stride m.cache_data)

-- `get_sample` for an index outside the window: the window is read anew, from this index on.
pub read_window : CacheManager → File → ℕ → Result (CacheManager × Bytes)
read_window m f index =
    let stride = index * m.element_size in
    let count = min (m.samples_num - index) m.cache_max_size in
    let (f', octets) = fread (seek_from f m.file_pos stride) (count * m.element_size) in
    let m' = record m {
      file = some f';
      file_pos = stride;
      cache_data = octets;
      cache_pos_in_dump = index;
    } in
    af_assert (ltb stride m.file_size)
    >> (if count == 0 then undefined else af_assert (length octets / m.element_size == count))
    >> ok (m', sample_at m' 0)

pub get_sample : CacheManager → ℕ → Result (CacheManager × Bytes)
get_sample m index = elim (m.file) [
  | none ↦ aborted
  | some f ↦
      if leb m.cache_pos_in_dump index && ltb index (m.cache_pos_in_dump + cache_size m)
      then ok (m, sample_at m ((index - m.cache_pos_in_dump) * m.element_size))
      else read_window m f index
]
