-- ===== src/Format/Strides.antt =====
-- The strides that `drv_stride_from_format` of helpers.c computes.
use native.Mathlib.Nat.{
  mod-eq_of_lt, mul-one, mul-le-mul, mul-le-mul_left, mul-le-mul_right, le_trans, le_of_eq,
}
use minigbm.Base.{
  ℕ, ◌+◌, ◌-◌, ◌*◌, ◌%◌, ◌^◌, ◌≤◌, ◌<◌, ◌≡◌, inl, inr, some, get_or, arith, ◌==◌, if◌then◌else◌,
  Bool-cases, sym, subst,
}
use minigbm.Util.{u32, align, div_round_up}
use minigbm.Util.Align.{align_bounds, div_round_up_bounds}
use minigbm.Fourcc.{drm_format_yvu420_android}
use minigbm.Format.{PlanarLayout, layout_from_format, drv_stride_from_format, packed_stride}
use minigbm.Format.Layouts.{IsValidLayout, layout_from_format-IsValidLayout, get_or-Between}

packed_bounds :
    (width h b : ℕ)
    → (1 ≤ h) × (h ≤ 2)
    → (1 ≤ b) × (b ≤ 8)
    → width < 2 ^ 28
    → let d = div_round_up width h in (width * b ≤ u32 (d * b) * h) × (u32 (d * b) < 2 ^ 32 - 31)
packed_bounds width h b hr br w = (
  subst (λ t. width * b ≤ t * h) (sym exact)
      (le_trans (mul-le-mul_right b up.0) (le_of_eq (grind arith))),
  omega (arith, exact, product),
)
  where
    d : ℕ
    d = div_round_up width h

    up : (width ≤ d * h) × (d * h < width + h)
    up = div_round_up_bounds width h (omega arith) (omega arith)

    d_le : d ≤ width + 1
    d_le = le_trans (le_of_eq (sym (mul-one d))) (omega (arith, up, mul-le-mul_left d hr.0))

    product : d * b ≤ (width + 1) * 8
    product = mul-le-mul d_le br.1

    exact : u32 (d * b) ≡ d * b
    exact = mod-eq_of_lt (omega (arith, product))

pub packed_stride_bounds :
    (l : PlanarLayout) (width plane : ℕ)
    → IsValidLayout l
    → plane < l.num_planes
    → width < 2 ^ 28
    → (width * get_or l.bytes_per_pixel plane 0
        ≤ packed_stride l width plane * get_or l.horizontal_subsampling plane 0)
      × (packed_stride l width plane < 2 ^ 32 - 31)
packed_stride_bounds l width plane v p w =
    packed_bounds width (get_or l.horizontal_subsampling plane 0) (get_or l.bytes_per_pixel plane 0)
      (get_or-Between 1 2 l.horizontal_subsampling plane v.horizontal_range (omega arith))
      (get_or-Between 1 8 l.bytes_per_pixel plane v.bytes_range (omega arith)) w

-- The branch of the Android format, on a stride that does not wrap.
android_stride :
    (packed plane : ℕ)
    → packed < 2 ^ 32 - 31
    → let stride = (if plane == 0 then align packed 32 else align packed 16) in
      (packed ≤ stride) × (stride % 16 ≡ 0) × (plane ≡ 0 → stride % 32 ≡ 0)
android_stride packed plane h = elim (Bool-cases (plane == 0)) [
  | inl first ↦ rw first (
      let b = align_bounds 5 (omega arith) packed (omega arith) in
      (b.1, omega (arith, b.0), λ _. b.0))
  | inr later ↦ rw later (
      let b = align_bounds 4 (omega arith) packed (omega arith) in
      (b.1, b.0, λ e. absurd (ground arith)))
]

padded_stride :
    (packed plane format : ℕ) {stride : ℕ}
    → packed < 2 ^ 32 - 31
    → stride ≡ (
        if format == drm_format_yvu420_android
        then (if plane == 0 then align packed 32 else align packed 16)
        else packed)
    → (packed ≤ stride)
      × (format ≡ drm_format_yvu420_android → (stride % 16 ≡ 0) × (plane ≡ 0 → stride % 32 ≡ 0))
padded_stride packed plane format h e = elim (Bool-cases (format == drm_format_yvu420_android)) [
  | inl android ↦
      let b = android_stride packed plane h in
      let e' = rw android at e in (rw e' b.0, rw e' (λ _. (b.1, b.2)))
  | inr other ↦ (ground arith, λ f. absurd (ground arith))
]

-- What a stride that is returned is.
drv_stride_from_format_cases :
    (format width plane : ℕ) (l : PlanarLayout) {stride : ℕ}
    → layout_from_format format ≡ some l
    → drv_stride_from_format format width plane ≡ some stride
    → (plane < l.num_planes)
      × (stride ≡ (
          if format == drm_format_yvu420_android
          then (if plane == 0
              then align (packed_stride l width plane) 32
              else align (packed_stride l width plane) 16)
          else packed_stride l width plane))
unfolding drv_stride_from_format
drv_stride_from_format_cases format width plane l el e = ground arith

-- For a known format and a width below 2^28, a row of the stride that is returned holds the
-- samples of the plane, and the rows of the Android format are aligned to 16 bytes, to 32 in the
-- first plane.
pub drv_stride_from_format_lem :
    (format width plane : ℕ) {l : PlanarLayout} {stride : ℕ}
    → layout_from_format format ≡ some l
    → width < 2 ^ 28
    → drv_stride_from_format format width plane ≡ some stride
    → (width * get_or l.bytes_per_pixel plane 0 ≤ stride * get_or l.horizontal_subsampling plane 0)
      × (format ≡ drm_format_yvu420_android → (stride % 16 ≡ 0) × (plane ≡ 0 → stride % 32 ≡ 0))
unfolding drv_stride_from_format
drv_stride_from_format_lem format width plane {l} el w e =
    let (p, eq) = drv_stride_from_format_cases format width plane l el e in
    let (row, small) =
      packed_stride_bounds l width plane (layout_from_format-IsValidLayout format el) p w in
    let (grown, aligned) = padded_stride (packed_stride l width plane) plane format small eq in
    (le_trans row (mul-le-mul_right (get_or l.horizontal_subsampling plane 0) grown), aligned)
