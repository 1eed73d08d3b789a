-- ===== src/BoLayout/Contiguous.antt =====
-- The planes of a buffer follow one another without gap or overlap and fill it.
use minigbm.Base.{
  ℕ, zero, suc, ◌+◌, ◌≤◌, ◌<◌, ◌≡◌, ◌↔◌, ◌⊎◌, true, none, some, List, get_or, arith, ap, subst,
  refl, ltb, Option-cases, some-ne-none, inl, inr,
}
use native.Mathlib.Nat.{le_of_eq, le_trans}
use native.Mathlib.Decide.{dec_le}
use minigbm.Util.{u32, u32_mod, align}
use minigbm.Fourcc.{drm_format_yvu420_android}
use minigbm.Types.{Metadata, IsSized}
use minigbm.Format.{PlanarLayout, layout_from_format, drv_num_planes_from_format}
use minigbm.Format.Layouts.{layout_from_format-IsValidLayout, num_planes-eq}
use minigbm.BoLayout.{android_ok, drv_bo_from_format_and_padding}
use minigbm.BoLayout.Loop.{bytes_before, Placed, loop_lem}

-- What a caller of the Android format has to respect.
abbrev pub AndroidFits : Metadata → ℕ → ℕ → ℕ → Type 0
AndroidFits m stride aligned_height format =
    format ≡ drm_format_yvu420_android → (aligned_height ≡ m.height) × (stride ≡ align stride 32)

android_ok_iff :
    (m : Metadata) (stride aligned_height format : ℕ)
    → (android_ok m stride aligned_height format ≡ some tt)
      ↔ AndroidFits m stride aligned_height format
unfolding android_ok
android_ok_iff m stride aligned_height format = (λ e f. ground arith, λ h. ground (arith, h))

-- On metadata with full arrays and a known format, if the rule of the Android format is kept,
-- the layout succeeds: every plane has its subsampled stride, its size with its padding, and the
-- offset at which the planes before it end, and the total is where the last plane ends, offsets
-- and total taken modulo 2^32.
pub drv_bo_from_format_and_padding_lem :
    (m : Metadata) (stride aligned_height format : ℕ) (padding : List ℕ) (l : PlanarLayout)
    → IsSized m
    → layout_from_format format ≡ some l
    → AndroidFits m stride aligned_height format
    → (m' : Metadata) × (drv_bo_from_format_and_padding m stride aligned_height format padding
        ≡ some m')
      × IsSized m'
      × ((p : ℕ) → p < l.num_planes → Placed stride aligned_height format padding l m' p)
      × (m'.total_size ≡ u32 (bytes_before stride aligned_height format padding l l.num_planes))
unfolding drv_bo_from_format_and_padding bytes_before
drv_bo_from_format_and_padding_lem m stride aligned_height format padding l s known fits =
    let v = layout_from_format-IsValidLayout format known in
    let (placed, eq, sized, here, _) =
      loop_lem stride aligned_height format padding l known l.num_planes 0 l.num_planes m s
        (omega arith) (omega arith) v.few_planes in
    let n = num_planes-eq format known in
    (
      record placed {
        total_size = u32 (bytes_before stride aligned_height format padding l l.num_planes);
      },
      rw (n, ltb_pos v.some_plane, (android_ok_iff m stride aligned_height format).1 fits, eq) refl,
      record {
        offsets_full = sized.offsets_full;
        sizes_full = sized.sizes_full;
        strides_full = sized.strides_full;
      },
      λ p h.
          let q = here p (omega arith) h in
          record { at_offset = q.at_offset; at_size = q.at_size; at_stride = q.at_stride },
      refl,
    )
  where
    ltb_pos : {n : ℕ} → 1 ≤ n → ltb 0 n ≡ true
    ltb_pos h = ground arith

-- The layout aborts on an unknown format, and on the Android format where the height or the
-- alignment of the stride breaks its rule.
pub drv_bo_from_format_and_padding_aborts :
    (m : Metadata) (stride aligned_height format : ℕ) (padding : List ℕ)
    → (layout_from_format format ≡ none) ⊎ (¬ AndroidFits m stride aligned_height format)
    → drv_bo_from_format_and_padding m stride aligned_height format padding ≡ none
unfolding drv_bo_from_format_and_padding drv_num_planes_from_format
drv_bo_from_format_and_padding_aborts m stride aligned_height format padding (inl e) =
    rw (e, drv_num_planes_from_format)
drv_bo_from_format_and_padding_aborts m stride aligned_height format padding (inr broken) =
    elim (Option-cases (android_ok m stride aligned_height format)) [
      | inl e ↦ rw e (ground arith)
      | inr (t, e) ↦ absurd (broken ((android_ok_iff m stride aligned_height format).0 e))
    ]

-- The planes follow one another, the first at 0, and the last ends at the total.
pub record IsContiguous (m : Metadata) (planes : ℕ) : Type 0 where
  pub starts : get_or m.offsets 0 0 ≡ 0
  pub follows :
      (p : ℕ)
      → suc p < planes
      → get_or m.offsets (suc p) 0 ≡ get_or m.offsets p 0 + get_or m.sizes p 0
  pub ends : (p : ℕ) → suc p ≡ planes → m.total_size ≡ get_or m.offsets p 0 + get_or m.sizes p 0

module _ (stride height format : ℕ) (padding : List ℕ) (l : PlanarLayout) where
  bytes_before_mono :
      (p q : ℕ)
      → p ≤ q
      → bytes_before stride height format padding l p
        ≤ bytes_before stride height format padding l q
  unfolding bytes_before
  bytes_before_mono p zero h =
      le_of_eq (ap (bytes_before stride height format padding l) {x = p} {y = 0} (omega arith))
  bytes_before_mono p (suc q) h = elim (dec_le p q) [
    | yes le ↦ le_trans (bytes_before_mono p q le) (omega arith)
    | no gt ↦
        le_of_eq
          (ap (bytes_before stride height format padding l) {x = p} {y = suc q} (omega arith))
  ]

  Placed-IsContiguous :
      (m : Metadata)
      → bytes_before stride height format padding l l.num_planes < u32_mod
      → 1 ≤ l.num_planes
      → ((p : ℕ) → p < l.num_planes → Placed stride height format padding l m p)
      → m.total_size ≡ u32 (bytes_before stride height format padding l l.num_planes)
      → IsContiguous m l.num_planes
  unfolding bytes_before
  Placed-IsContiguous m small pos placed total = record {
    starts = (placed 0 pos).at_offset;
    follows = λ p h. omega (
      arith,
      (placed (suc p) h).at_offset,
      (placed p (omega arith)).at_offset,
      (placed p (omega arith)).at_size,
      bytes_before_mono (suc p) l.num_planes (omega arith),
    );
    ends = λ p h. omega (
      arith,
      total,
      ap (bytes_before stride height format padding l) h,
      (placed p (omega arith)).at_offset,
      (placed p (omega arith)).at_size,
    );
  }

returns_fits :
    (m m' : Metadata) (stride aligned_height format : ℕ) (padding : List ℕ)
    → drv_bo_from_format_and_padding m stride aligned_height format padding ≡ some m'
    → AndroidFits m stride aligned_height format
returns_fits m m' stride aligned_height format padding e =
    elim (Option-cases (android_ok m stride aligned_height format)) [
      | inl bad ↦ absurd (
          some-ne-none e (
            drv_bo_from_format_and_padding_aborts m stride aligned_height format padding (
              inr (λ fits.
                some-ne-none ((android_ok_iff m stride aligned_height format).1 fits) bad))))
      | inr (tt, good) ↦ (android_ok_iff m stride aligned_height format).0 good
    ]

-- If the layout of a known format succeeds on metadata with full arrays, and the sizes of the
-- planes with their padding add up below 2^32, then the first plane starts at 0, each further
-- plane starts where the one before it ends, and the total size is where the last one ends.
pub drv_bo_from_format_and_padding-IsContiguous :
    (m m' : Metadata) (stride aligned_height format : ℕ) (padding : List ℕ) (l : PlanarLayout)
    → IsSized m
    → layout_from_format format ≡ some l
    → bytes_before stride aligned_height format padding l l.num_planes < u32_mod
    → drv_bo_from_format_and_padding m stride aligned_height format padding ≡ some m'
    → IsContiguous m' l.num_planes
drv_bo_from_format_and_padding-IsContiguous m m' stride height format padding l s known small e =
    let (m'', eq, _, placed, total) =
      drv_bo_from_format_and_padding_lem m stride height format padding l s known
        (returns_fits m m' stride height format padding e) in
    subst (λ t. IsContiguous t l.num_planes) {x = m''} {y = m'} (cc)
      (Placed-IsContiguous stride height format padding l m'' small
        (layout_from_format-IsValidLayout format known).some_plane placed total)
