-- ===== src/Cache/Window.antt =====
-- Reading a sample that the window holds.
use toolchain_cpp.Common.{
  ℕ, ◌+◌, ◌-◌, ◌*◌, ◌≤◌, ◌<◌, ◌≡◌, inl, inr, refl, sym, ap, ◌∙◌, arith, Bool, true, false, ◌&&◌,
  List, some, Bytes, length, take, drop, get_elem?, get_elem?-drop, get_elem?-take, ltb, leb, ok,
  length-take, length-drop,
}
use native.Mathlib.Nat.{mul_comm, eq_of_mul-eq-mul_left, div-eq_of_eq-mul_left}
use toolchain_cpp.Cache.{File, CacheManager, get_sample, read_window, sample_at, cache_size}
use toolchain_cpp.Cache.Octets.{
  octets, Sized, length-octets, octets-get_elem?, Sized-drop, Sized-take,
}
use toolchain_cpp.Cache.Vector.{Represents}

abbrev pub is_held : CacheManager → ℕ → Bool
is_held m index = leb m.cache_pos_in_dump index && ltb index (m.cache_pos_in_dump + cache_size m)

get_sample-held :
    (m : CacheManager) (f : File) (index : ℕ)
    → m.file ≡ some f
    → is_held m index ≡ true
    → get_sample m index ≡ ok (m, sample_at m ((index - m.cache_pos_in_dump) * m.element_size))
unfolding get_sample
get_sample-held m f index h k = simp (h, k, get_sample) refl

pub get_sample-missed :
    (m : CacheManager) (f : File) (index : ℕ)
    → m.file ≡ some f
    → is_held m index ≡ false
    → get_sample m index ≡ read_window m f index
unfolding get_sample
get_sample-missed m f index h k = simp (h, k, get_sample) refl

pub window-length :
    (size held place : ℕ) (samples : List Bytes)
    → Sized size samples
    → place + held ≤ length samples
    → length (octets (take held (drop place samples))) ≡ held * size
window-length size held place samples s h =
    length-octets size (take held (drop place samples))
      (Sized-take size held _ (Sized-drop size place samples s))
    ∙ ap (λ k. k * size)
        (omega (arith, length-take held (drop place samples), length-drop place samples))

window-get_elem? :
    (held place i : ℕ) (samples : List Bytes)
    → i < held
    → get_elem? (take held (drop place samples)) i ≡ get_elem? samples (place + i)
window-get_elem? held place i samples h =
    get_elem?-take held i (drop place samples) h ∙ get_elem?-drop place i (place + i) samples refl

module _ (m : CacheManager) (samples : List Bytes) (r : Represents m samples) where
  open r use {
    f, held, positive, room, sized, opened, stored, count, written, writing, grows, window, within,
    placed,
  }

  pub cache_size-held : cache_size m ≡ held
  unfolding cache_size
  cache_size-held = div-eq_of_eq-mul_left positive (
      ap (λ xs. length xs) window
      ∙ window-length m.element_size held m.cache_pos_in_dump samples sized within)

  -- The sample in the window.
  pub sample_at-window :
      (i : ℕ) (x : Bytes)
      → i < held
      → get_elem? samples (m.cache_pos_in_dump + i) ≡ some x
      → sample_at m (i * m.element_size) ≡ x
  unfolding sample_at
  sample_at-window i x h e =
      ap (λ xs. take m.element_size (drop (i * m.element_size) xs)) window
      ∙ octets-get_elem? m.element_size i _ x
          (Sized-take m.element_size held _
            (Sized-drop m.element_size m.cache_pos_in_dump samples sized))
          (window-get_elem? held m.cache_pos_in_dump i samples h ∙ e)

  pub is_held-first : (index : ℕ) → m.cache_pos_in_dump ≡ index → 0 < held → is_held m index ≡ true
  is_held-first index e k = ground (arith, cache_size-held, e, k)

  same_place :
      (index : ℕ)
      → m.cache_pos_in_dump * m.element_size ≡ index * m.element_size
      → m.cache_pos_in_dump ≡ index
  same_place index e =
      eq_of_mul-eq-mul_left m.element_size positive m.cache_pos_in_dump index
        (mul_comm m.element_size m.cache_pos_in_dump ∙ e ∙ mul_comm index m.element_size)

  -- The manager is right about the position of the file, or the index is in the window.
  pub read-believed :
      (index : ℕ)
      → is_held m index ≡ false
      → m.file_pos ≡ index * m.element_size
      → f.position ≡ m.file_pos
  read-believed index h e = elim placed [
    | inl same ↦ same
    | inr (at, some_held) ↦
        let first = is_held-first index (same_place index (sym at ∙ e)) some_held in absurd cc
  ]

  held-bounds :
      (index : ℕ)
      → is_held m index ≡ true
      → (m.cache_pos_in_dump ≤ index) × (index < m.cache_pos_in_dump + held)
  held-bounds index h = (ground (arith, cache_size-held, h), ground (arith, cache_size-held, h))

  pub found_held :
      (index : ℕ) (x : Bytes)
      → is_held m index ≡ true
      → get_elem? samples index ≡ some x
      → get_sample m index ≡ ok (m, x)
  found_held index x h e =
      let (low, high) = held-bounds index h in
      get_sample-held m f index opened h
      ∙ ap (λ xs. ok (m, xs))
          (sample_at-window (index - m.cache_pos_in_dump) x (omega (arith, low, high))
            (ap (λ i. get_elem? samples i) (omega (arith, low)) ∙ e))
