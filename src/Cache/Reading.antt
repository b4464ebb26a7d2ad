-- ===== src/Cache/Reading.antt =====
-- Reading a sample from the file, and the two ways of reading together.
use toolchain_cpp.Common.{
  ℕ, ◌-◌, ◌*◌, ◌/◌, ◌≤◌, ◌<◌, ◌≡◌, inl, inr, refl, sym, ap, ◌∙◌, arith, true, false, List, some,
  Bytes, length, take, drop, get_elem?, get_elem?-eq-some, min, ltb, ◌==◌, ==_iff, lt→ltb,
  Bool-cases, ok, aborted, length-drop,
}
use native.Mathlib.Nat.{zero-mul, mul_comm, mul-le-mul_left, div-eq_of_eq-mul_left}
use toolchain_cpp.Cache.{fread, seek_from, CacheManager, get_sample, read_window, sample_at}
use toolchain_cpp.Cache.Octets.{octets, drop-octets, take-octets, Sized-drop}
use toolchain_cpp.Cache.Vector.{Represents, mul-lt, seek_from-position, seek_from-content}
use toolchain_cpp.Cache.Window.{
  is_held, get_sample-missed, window-length, cache_size-held, sample_at-window, read-believed,
  found_held,
}

module _ (m : CacheManager) (samples : List Bytes) (r : Represents m samples) where
  open r use {
    f, held, positive, room, sized, opened, stored, count, written, writing, grows, window, within,
    placed,
  }

  -- Where a read outside the window begins.
  read-position :
      (index : ℕ)
      → is_held m index ≡ false
      → (seek_from f m.file_pos (index * m.element_size)).position ≡ index * m.element_size
  read-position index h =
      seek_from-position f m.file_pos (index * m.element_size) (read-believed m samples r index h)

  abbrev count_of : ℕ → ℕ
  count_of index = min (m.samples_num - index) m.cache_max_size

  read-octets :
      (index : ℕ)
      → is_held m index ≡ false
      → index < length samples
      → (fread
          (seek_from f m.file_pos (index * m.element_size))
          (count_of index * m.element_size)).1
        ≡ octets (take (count_of index) (drop index samples))
  unfolding fread
  read-octets index h k =
      rw
        (
          read-position index h,
          seek_from-content f m.file_pos (index * m.element_size),
          stored,
          drop-octets m.element_size index samples sized (omega arith),
        )
        (take-octets m.element_size (count_of index) (drop index samples)
          (Sized-drop m.element_size index samples sized)
          (omega (arith, count, length-drop index samples)))

  -- The manager after a read outside the window.
  abbrev reread : ℕ → CacheManager
  reread index =
      let file = seek_from f m.file_pos (index * m.element_size) in
      record m {
        file = some (fread file (count_of index * m.element_size)).0;
        file_pos = index * m.element_size;
        cache_data = (fread file (count_of index * m.element_size)).1;
        cache_pos_in_dump = index;
      }

  reread-Represents :
      (index : ℕ)
      → is_held m index ≡ false
      → index < length samples
      → (again : Represents (reread index) samples) × (0 < again.held)
  unfolding fread
  reread-Represents index h k = (
    record {
      f =
          (fread (seek_from f m.file_pos (index * m.element_size))
            (count_of index * m.element_size)).0;
      held = count_of index;
      positive = positive;
      room = room;
      sized = sized;
      opened = refl;
      stored = seek_from-content f m.file_pos (index * m.element_size) ∙ stored;
      count = count;
      written = written;
      writing = writing;
      grows = grows;
      window = read-octets index h k;
      within = omega (arith, count);
      placed = inr (refl, omega (arith, count, room));
    },
    omega (arith, count, room, k),
  )

  stride-within :
      (index : ℕ) → index < length samples → ltb (index * m.element_size) m.file_size ≡ true
  stride-within index k =
      lt→ltb _ _ (omega (arith, written, positive, mul-lt index (length samples) m.element_size k))

  count_of-positive : (index : ℕ) → index < length samples → (count_of index == 0) ≡ false
  count_of-positive index k = ground (arith, count, room, k)

  read-count :
      (index : ℕ)
      → is_held m index ≡ false
      → index < length samples
      → (length
              (fread
                (seek_from f m.file_pos (index * m.element_size))
                (count_of index * m.element_size)).1
            / m.element_size
          == count_of index)
        ≡ true
  read-count index h k = (==_iff _ (count_of index)).1 (
      div-eq_of_eq-mul_left positive (
        ap (λ xs. length xs) (read-octets index h k)
        ∙ window-length m.element_size (count_of index) index samples sized (omega (arith, count))))

  read_window-eq-ok :
      (index : ℕ)
      → is_held m index ≡ false
      → index < length samples
      → read_window m f index ≡ ok (reread index, sample_at (reread index) 0)
  unfolding read_window
  read_window-eq-ok index h k =
      simp (stride-within index k, count_of-positive index k, read-count index h k) refl

  -- An index past the end.
  is_held-past : (index : ℕ) → length samples ≤ index → is_held m index ≡ false
  is_held-past index k = ground (arith, cache_size-held m samples r, within, k)

  stride-past :
      (index : ℕ) → length samples ≤ index → ltb (index * m.element_size) m.file_size ≡ false
  stride-past index k = ground (
    arith,
    written,
    mul_comm m.element_size index,
    mul_comm m.element_size (length samples),
    mul-le-mul_left {m = length samples} {n = index} m.element_size k,
  )

  read_window-past : (index : ℕ) → length samples ≤ index → read_window m f index ≡ aborted
  unfolding read_window
  read_window-past index k = simp (stride-past index k) refl

first-sample :
    (m : CacheManager) (samples : List Bytes) (r : Represents m samples) (x : Bytes)
    → 0 < r.held
    → get_elem? samples m.cache_pos_in_dump ≡ some x
    → sample_at m 0 ≡ x
first-sample m samples r x h e =
    ap (λ n. sample_at m n) (sym (zero-mul m.element_size))
    ∙ sample_at-window m samples r 0 x h
        (ap (λ i. get_elem? samples i) {y = m.cache_pos_in_dump} (omega arith) ∙ e)

found_missed :
    (m : CacheManager) (samples : List Bytes) (r : Represents m samples) (index : ℕ) (x : Bytes)
    → is_held m index ≡ false
    → get_elem? samples index ≡ some x
    → (m' : CacheManager) × (get_sample m index ≡ ok (m', x)) × Represents m' samples
found_missed m samples r index x h e =
    let k = get_elem?-eq-some samples index e in
    let (again, some_held) = reread-Represents m samples r index h k in
    let m' = reread m samples r index in
    (
      m',
      get_sample-missed m r.f index r.opened h
          ∙ read_window-eq-ok m samples r index h k
          ∙ ap (λ xs. ok (m', xs)) (first-sample m' samples again x some_held e),
      again,
    )

-- The sample at an index of the list is returned, from the window or from the file, and the manager goes on to
-- stand for the same list; at an index past the end the assertion fails.
pub get_sample-Represents :
    (m : CacheManager) (samples : List Bytes) (index : ℕ)
    → Represents m samples
    → ((x : Bytes)
        → get_elem? samples index ≡ some x
        → (m' : CacheManager) × (get_sample m index ≡ ok (m', x)) × Represents m' samples)
      × (length samples ≤ index → get_sample m index ≡ aborted)
get_sample-Represents m samples index r = (
  λ x e. elim (Bool-cases (is_held m index)) [
    | inl h ↦ (m, found_held m samples r index x h e, r)
    | inr h ↦ found_missed m samples r index x h e
  ],
  λ k.
      get_sample-missed m r.f index r.opened (is_held-past m samples r index k)
      ∙ read_window-past m samples r index k,
)
