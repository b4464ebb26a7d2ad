-- ===== src/Scales.antt =====
-- imgproc/scales-handler.cpp: `ScalesHandler`, a list of weak pointers to the images of a frame in several sizes. An
-- expired pointer is none, and a live one is the cache that it points to; sizes are natural numbers. The
-- frames per second, the average image and the channel features are left out.
pub mod Finding
pub mod Stale
mod Examples
use toolchain_cpp.Common.{
  ℕ, Bool, true, false, ◌&&◌, ◌||◌, List, [], ◌∷◌, ◌++◌, Option, none, some, ◌==◌, if◌then◌else◌,
  Result, ok, undefined, ◌>>=◌,
}
use toolchain_cpp.Images
use toolchain_cpp.Images.{Conversions, MatCache, get_gray_8u, get_rgb_8u}

module _ (conversions : Conversions) where
  open conversions use {Mat, empty_mat}

  -- A `MatCache` with its size.
  pub record Scale : Type 0 where
    pub width : ℕ
    pub height : ℕ
    pub images : MatCache conversions

  abbrev pub Scales : Type 0
  Scales = List (Option Scale)

  pub record ScalesHandler : Type 0 where
    pub scales : Scales
    pub orig_w : ℕ
    pub orig_h : ℕ
    pub orig_y : Mat
    pub orig_u : Mat
    pub orig_v : Mat
    pub orig_rgb : Mat

  abbrev pub has_size : ℕ → ℕ → Scale → Bool
  has_size w h r = r.width == w && r.height == h

  -- The loop of `scale_find`: it erases the expired pointers in front of the one that it finds.
  unfoldable pub find_scale : ℕ → ℕ → Scales → Scales × Option Scale
  find_scale w h [] = ([], none)
  find_scale w h (none ∷ scales) = find_scale w h scales
  find_scale w h (some r ∷ scales) =
      let (scales', found) = find_scale w h scales in
      if has_size w h r then (some r ∷ scales, some r) else (some r ∷ scales', found)

  abbrev pub new_scale : ℕ → ℕ → Scale
  new_scale w h = record { width = w; height = h; images = λ name. none }

  unfoldable pub scale_find : ℕ → ℕ → Bool → Scales → Scales × Option Scale
  scale_find w h create_if_not_found scales =
      let (scales', found) = find_scale w h scales in
      elim found [
        | some r ↦ (scales', some r)
        | none ↦
            if create_if_not_found
            then (scales' ++ some (new_scale w h) ∷ [], some (new_scale w h))
            else (scales', none)
      ]

  -- The loop of `invalidate`: an erased pointer leaves the iterator at the next one, which `++x` then passes
  -- over; after the last one it passes the end.
  unfoldable pub invalidate_scales : Scales → Result Scales
  invalidate_scales [] = ok []
  invalidate_scales (some r ∷ scales) = invalidate_scales scales >>= λ rest.
      ok (some (record r { images = Images.invalidate conversions r.images }) ∷ rest)
  invalidate_scales (none ∷ []) = undefined
  invalidate_scales (none ∷ x ∷ scales) = invalidate_scales scales >>= λ rest. ok (x ∷ rest)

  pub invalidate : ScalesHandler → Result ScalesHandler
  invalidate s = invalidate_scales s.scales >>= λ scales. ok (record s {
    scales = scales;
    orig_y = empty_mat;
    orig_u = empty_mat;
    orig_v = empty_mat;
    orig_rgb = empty_mat;
  })

  -- The size of the image is an argument.
  pub set_rgb : ScalesHandler → Mat → ℕ → ℕ → Result ScalesHandler
  set_rgb s mat cols rows =
      invalidate s >>= λ t. ok (record t { orig_rgb = mat; orig_w = cols; orig_h = rows })

  -- The first live pointer of a size leads to a changed cache.
  pub store_scale : Scale → Scales → Scales
  store_scale r [] = []
  store_scale r (none ∷ scales) = none ∷ store_scale r scales
  store_scale r (some q ∷ scales) =
      let later = store_scale r scales in
      if has_size r.width r.height q then some r ∷ scales else some q ∷ later

  abbrev pub asked : ℕ → ℕ → ℕ → ℕ
  asked side other orig = if side == 0 || other == 0 then orig else side

  pub get_img_gray : ScalesHandler → ℕ → ℕ → ScalesHandler × Option Mat
  get_img_gray s w h =
      let (scales, found) = scale_find (asked w h s.orig_w) (asked h w s.orig_h) false s.scales in
      elim found [
        | none ↦ (record s { scales = scales }, none)
        | some r ↦
            let (images, gray) = get_gray_8u conversions r.images in
            (record s { scales = store_scale (record r { images = images }) scales }, some gray)
      ]

  pub get_img_rgb : ScalesHandler → ℕ → ℕ → Result (ScalesHandler × Option Mat)
  get_img_rgb s w h =
      let (scales, found) = scale_find (asked w h s.orig_w) (asked h w s.orig_h) false s.scales in
      elim found [
        | none ↦ ok (record s { scales = scales }, none)
        | some r ↦ get_rgb_8u conversions r.images >>= λ result. ok (
          record s { scales = store_scale (record r { images = result.0 }) scales },
          some result.1,
        )
      ]
