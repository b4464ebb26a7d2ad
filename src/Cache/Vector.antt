-- ===== src/Cache/Vector.antt =====
-- The manager as a vector: while the file may grow, it stands for the list of the samples that were added.
use toolchain_cpp.Common.{
  ℕ, suc, ◌+◌, ◌-◌, ◌*◌, ◌/◌, ◌≤◌, ◌<◌, ◌≡◌, ◌⊎◌, inl, inr, refl, sym, ap, ◌∙◌, arith, true, false,
  List, [], ◌∷◌, ◌++◌, append-nil, some, Bytes, length, length-append, take, drop, All-append, ok,
  take-length, drop-length, window-append,
}
use native.Mathlib.Nat.{one-mul, le-div_iff_mul-le, zero-mul, suc-mul, mul_comm, mul-le-mul_left}
use toolchain_cpp.Cache.{
  File, fwrite, CacheManager, opened, seek_from, cached_vec_max_size, init, add, wrapped,
  write_sample, clear, overflows,
}
use toolchain_cpp.Cache.Octets.{octets, octets-append, Sized, length-octets}

-- The window holds `held` samples from its position on. After the window was read, the position of the file is
-- not the one that the manager believes, but then the next access in the file is at another place.
pub record Represents (m : CacheManager) (samples : List Bytes) : Type 0 where
  pub f : File
  pub held : ℕ
  pub positive : 0 < m.element_size
  pub room : 0 < m.cache_max_size
  pub sized : Sized m.element_size samples
  pub opened : m.file ≡ some f
  pub stored : f.content ≡ octets samples
  pub count : m.samples_num ≡ length samples
  pub written : m.file_size ≡ length samples * m.element_size
  pub writing : m.writing_pos ≡ length samples * m.element_size
  pub grows : m.can_increase_file ≡ true
  pub window : m.cache_data ≡ octets (take held (drop m.cache_pos_in_dump samples))
  pub within : m.cache_pos_in_dump + held ≤ length samples
  pub placed :
      (f.position ≡ m.file_pos) ⊎ ((m.file_pos ≡ m.cache_pos_in_dump * m.element_size) × (0 < held))

pub mul-lt : (i n size : ℕ) → i < n → i * size + size ≤ n * size
mul-lt i n size h = omega (
  arith,
  mul-le-mul_left {m = suc i} {n = n} size (omega arith),
  mul_comm size (suc i),
  mul_comm size n,
  suc-mul i size,
)

div-le : (size : ℕ) → size ≤ 536870912 → 0 < size → 1 ≤ 536870912 / size
div-le size h p =
    (le-div_iff_mul-le {k = size} {x = 1} {y = 536870912} p).1 (omega (arith, one-mul size))

sub_self : (n : ℕ) → n - n ≡ 0
sub_self n = omega arith

-- A new manager stands for the empty list.
pub init-Represents :
    (m : CacheManager) (size : ℕ)
    → 0 < size
    → size ≤ 536870912
    → (m' : CacheManager) × (init m size ≡ ok m') × Represents m' []
unfolding init opened clear octets
init-Represents m size p l = (
  opened m size,
  ground arith,
  record {
    f = record { content = []; position = 0 };
    held = 0;
    positive = p;
    room = omega (arith, div-le size l p);
    sized = tt;
    opened = refl;
    stored = refl;
    count = refl;
    written = sym (zero-mul size);
    writing = sym (zero-mul size);
    grows = refl;
    window = refl;
    within = omega arith;
    placed = inl refl;
  },
)

pub seek_from-position :
    (f : File) (file_pos position : ℕ)
    → (file_pos ≡ position → f.position ≡ file_pos)
    → (seek_from f file_pos position).position ≡ position
seek_from-position f file_pos position h = ground (arith, h)

pub seek_from-content :
    (f : File) (file_pos position : ℕ) → (seek_from f file_pos position).content ≡ f.content
seek_from-content f file_pos position = ground arith

fwrite-end :
    (f : File) (x : Bytes) → f.position ≡ length f.content → (fwrite f x).content ≡ f.content ++ x
unfolding fwrite
fwrite-end f x h =
    rw
      (
        h,
        sub_self (length f.content),
        take-length f.content,
        drop-length (length f.content + length x) f.content (omega arith),
        append-nil (f.content ++ [] ++ x),
        append-nil f.content,
      )
      refl

wrapped-within :
    (m : CacheManager) → m.writing_pos + m.element_size ≤ cached_vec_max_size → wrapped m ≡ m
unfolding wrapped
wrapped-within m h = ground arith

add-eq-ok :
    (m : CacheManager) (f : File) (x : Bytes)
    → m.file ≡ some f
    → wrapped m ≡ m
    → m.samples_num < 2147483647
    → add m x ≡ ok (write_sample m f x)
unfolding add
add-eq-ok m f x h w l = let fits : overflows m ≡ false = ground arith in simp (h, w, fits, add) refl

module _ (m : CacheManager) (samples : List Bytes) (r : Represents m samples) where
  open r use {
    f, held, positive, room, sized, opened, stored, count, written, writing, grows, window, within,
    placed,
  }

  content-length : length f.content ≡ m.writing_pos
  content-length =
      ap (λ xs. length xs) stored ∙ length-octets m.element_size samples sized ∙ sym writing

  believed : m.file_pos ≡ m.writing_pos → f.position ≡ m.file_pos
  believed e = elim placed [
    | inl h ↦ h
    | inr (h, k) ↦ absurd (
        omega (
          arith,
          e,
          writing,
          h,
          positive,
          mul-lt m.cache_pos_in_dump (length samples) m.element_size (omega (arith, within, k)),
        ))
  ]

  -- Adding a sample at the end never finds the file where the manager does not believe it to be.
  write-position : (seek_from f m.file_pos m.writing_pos).position ≡ m.writing_pos
  write-position = seek_from-position f m.file_pos m.writing_pos believed

  abbrev write_file : File
  write_file = seek_from f m.file_pos m.writing_pos

  write-stored : (x : Bytes) → (fwrite write_file x).content ≡ octets (samples ++ x ∷ [])
  unfolding octets
  write-stored x =
      fwrite-end write_file x (
        write-position
        ∙ sym content-length
        ∙ sym (ap (λ xs. length xs) (seek_from-content f m.file_pos m.writing_pos)))
      ∙ ap (λ xs. xs ++ x) (seek_from-content f m.file_pos m.writing_pos ∙ stored)
      ∙ ap (λ xs. octets samples ++ xs) (sym (append-nil x))
      ∙ sym (octets-append samples (x ∷ []))

  next-size :
      (x : Bytes) → length (samples ++ x ∷ []) * m.element_size ≡ m.writing_pos + m.element_size
  next-size x =
      let e : length (samples ++ x ∷ []) ≡ suc (length samples) =
        omega (arith, length-append samples (x ∷ [])) in
      ap (λ k. k * m.element_size) e
      ∙ suc-mul (length samples) m.element_size
      ∙ ap (λ k. k + m.element_size) (sym writing)

  -- While the samples stay within 30 Gb and there are fewer than 2147483648 of them with the new one, adding it leads to the
  -- list with it at the end.
  pub add-Represents :
      (x : Bytes)
      → length x ≡ m.element_size
      → length (samples ++ x ∷ []) * m.element_size ≤ cached_vec_max_size
      → length (samples ++ x ∷ []) < 2147483648
      → (m' : CacheManager) × (add m x ≡ ok m') × Represents m' (samples ++ x ∷ [])
  unfolding write_sample fwrite
  add-Represents x size h few = (
    write_sample m f x,
    add-eq-ok m f x opened (wrapped-within m (omega (arith, h, next-size x)))
        (omega (arith, count, length-append samples (x ∷ []))),
    record {
      f = fwrite write_file x;
      held = held;
      positive = positive;
      room = room;
      sized = All-append _ samples (x ∷ []) sized (size, tt);
      opened = refl;
      stored = write-stored x;
      count = ground (arith, grows, count, length-append samples (x ∷ []));
      written = ground (arith, grows, written, writing, next-size x);
      writing = sym (next-size x);
      grows = grows;
      window =
          window
          ∙ ap (λ xs. octets xs)
              (sym (window-append held m.cache_pos_in_dump samples (x ∷ []) within));
      within = omega (arith, within, length-append samples (x ∷ []));
      placed = inl (omega (arith, write-position, size));
    },
  )
