-- ===== src/I915/Layout/Tiles.antt =====
-- `i915_bo_from_format` against an independent description: where each plane lies, and that the
-- assertion on its offset never fails.
use minigbm.Base.{
  ℕ, zero, suc, ◌+◌, ◌*◌, ◌/◌, ◌%◌, ◌≤◌, ◌<◌, ◌≡◌, ◌≢◌, inl, inr, refl, ap, ◌∙◌, true, false, ◌||◌,
  Option, none, some, get_or, length-set, get_or-set, arith, ◌==◌, lt→ltb, Bool-cases,
}
use native.Mathlib.Nat.{mul-mod_left, div-add-mod'}
use minigbm.Util.{u32, u32_mod, align, is_aligned}
use minigbm.Util.Align.{align-mod, is_aligned_iff}
use minigbm.Types.{Metadata, IsSized}
use minigbm.Format.{
  PlanarLayout, layout_from_format, drv_stride_from_format, drv_height_from_format,
}
use minigbm.Format.Layouts.{num_planes-eq}
use minigbm.BoLayout.{place_plane}
use minigbm.I915.{I915Drm}
use minigbm.I915.Layout.{alignments, i915_align_dimensions, place_tiled, i915_bo_from_format}

or_zero : Option ℕ → ℕ
or_zero none = 0
or_zero (some n) = n

factors : (a b q r : ℕ) → q * a * (r * b) ≡ q * r * (a * b)
factors a b q r = grind arith

product_mod : (a b s r : ℕ) → s % a ≡ 0 → r % b ≡ 0 → s * r % (a * b) ≡ 0
product_mod a b s r hs hr =
    let s_split : s ≡ s / a * a = omega (arith, div-add-mod' s a) in
    let r_split : r ≡ r / b * b = omega (arith, div-add-mod' r b) in
    ap (λ (t : ℕ). t * r % (a * b)) s_split
    ∙ ap (λ (t : ℕ). s / a * a * t % (a * b)) r_split
    ∙ ap (λ (t : ℕ). t % (a * b)) (factors a b (s / a) (r / b))
    ∙ mul-mod_left (s / a * (r / b)) (a * b)

wrapped_mod : (n : ℕ) → n % 4096 ≡ 0 → u32 n % 4096 ≡ 0
wrapped_mod n h = omega arith

ne_of_test : (a b : ℕ) → (a == b) ≡ false → a ≢ b
ne_of_test a b h = ground arith

module _ (drm : I915Drm) (tiling width height format : ℕ) where
  -- The description: the stride of a plane, its rows, its bytes, and where it starts.
  unfoldable pub row : ℕ → ℕ
  unfolding or_zero
  row p = align (or_zero (drv_stride_from_format format width p)) (alignments drm tiling).0

  unfoldable pub rows : ℕ → ℕ
  unfolding or_zero
  rows p = align (or_zero (drv_height_from_format format height p)) (alignments drm tiling).1

  abbrev pub bytes : ℕ → ℕ
  bytes p = u32 (row p * rows p)

  unfoldable pub start : ℕ → ℕ
  start zero = 0
  start (suc p) = u32 (start p + bytes p)

  -- Plane `p` lies as described.
  pub record IsAt (m : Metadata) (p : ℕ) : Type 0 where
    pub at_offset : get_or m.offsets p 0 ≡ start p
    pub at_size : get_or m.sizes p 0 ≡ bytes p
    pub at_stride : get_or m.strides p 0 ≡ row p

  -- One of the three tilings that the backend sets.
  pub data IsTiling : Type 0 where
    linear : tiling ≡ drm.tiling_none → IsTiling
    x_tiled : tiling ≡ drm.tiling_x → IsTiling
    y_tiled : tiling ≡ drm.tiling_y → IsTiling

  no_tiling :
      (tiling == drm.tiling_x) ≡ false
      → (tiling == drm.tiling_y) ≡ false
      → tiling ≢ drm.tiling_none
      → ¬ IsTiling
  no_tiling not_x not_y ne (linear e) = ne e
  no_tiling not_x not_y ne (x_tiled e) = ne_of_test tiling drm.tiling_x not_x e
  no_tiling not_x not_y ne (y_tiled e) = ne_of_test tiling drm.tiling_y not_y e

  bytes_mod : tiling ≢ drm.tiling_none → IsTiling → (p : ℕ) → bytes p % 4096 ≡ 0
  unfolding row rows alignments
  bytes_mod ne t p =
      let s : Option ℕ = drv_stride_from_format format width p in
      let h : Option ℕ = drv_height_from_format format height p in
      elim (Bool-cases (tiling == drm.tiling_x)) [
        | inl x ↦ rw x (
            wrapped_mod (align (or_zero s) 512 * align (or_zero h) 8) (
              product_mod 512 8 (align (or_zero s) 512) (align (or_zero h) 8)
                (align-mod 9 (omega arith) (or_zero s)) (align-mod 3 (omega arith) (or_zero h))))
        | inr not_x ↦ elim (Bool-cases (tiling == drm.tiling_y)) [
          | inl y ↦
              rw (not_x, y)
                (wrapped_mod (align (or_zero s) 128 * align (or_zero h) 32) (
                  product_mod 128 32 (align (or_zero s) 128) (align (or_zero h) 32)
                    (align-mod 7 (omega arith) (or_zero s))
                    (align-mod 5 (omega arith) (or_zero h))))
          | inr not_y ↦ absurd (no_tiling not_x not_y ne t)
        ]
      ]

  start_mod : tiling ≢ drm.tiling_none → IsTiling → (p : ℕ) → start p % 4096 ≡ 0
  unfolding start
  start_mod ne t zero = omega arith
  start_mod ne t (suc p) = omega (arith, start_mod ne t p, bytes_mod ne t p)

  start_fits : (p : ℕ) → start p < u32_mod
  unfolding start
  start_fits zero = omega arith
  start_fits (suc p) = omega arith

  asserted : IsTiling → (p : ℕ) → (tiling == drm.tiling_none || is_aligned (start p) 4096) ≡ true
  asserted t p = elim (Bool-cases (tiling == drm.tiling_none)) [
    | inl e ↦ rw e refl
    | inr e ↦ rw e (
        (is_aligned_iff 12 (omega arith) (start p) (start_fits p)).1
          (start_mod (ne_of_test tiling drm.tiling_none e) t p))
  ]

  module _ (l : PlanarLayout) (known : layout_from_format format ≡ some l) where
    stride_some :
        (p : ℕ)
        → p < l.num_planes
        → drv_stride_from_format format width p
          ≡ some (or_zero (drv_stride_from_format format width p))
    unfolding drv_stride_from_format or_zero
    stride_some p lt = rw (known, lt→ltb p l.num_planes lt) refl

    height_some :
        (p : ℕ)
        → p < l.num_planes
        → drv_height_from_format format height p
          ≡ some (or_zero (drv_height_from_format format height p))
    unfolding drv_height_from_format or_zero
    height_some p lt = rw (known, lt→ltb p l.num_planes lt) refl

    place_plane-IsSized : (m : Metadata) (p o t z : ℕ) → IsSized m → IsSized (place_plane m p o t z)
    place_plane-IsSized m p o t z s = record {
      offsets_full = length-set m.offsets p o ∙ s.offsets_full;
      sizes_full = length-set m.sizes p z ∙ s.sizes_full;
      strides_full = length-set m.strides p t ∙ s.strides_full;
    }

    -- The planes below `p` lie as described.
    abbrev AtTo : ℕ → Metadata → Type 0
    AtTo p m = (q : ℕ) → q < p → IsAt m q

    placed-AtTo :
        (p : ℕ) (m : Metadata)
        → p < 4
        → IsSized m
        → AtTo p m
        → AtTo (suc p) (place_plane m p (start p) (row p) (bytes p))
    placed-AtTo p m lt s before q small =
        let earlier : p ≢ q → IsAt m q = λ ne. before q (omega arith) in
        record {
          at_offset =
              get_or-set m.offsets p q (start p) 0 (start q) (omega (arith, s.offsets_full))
                (ap start) (λ ne. (earlier ne).at_offset);
          at_size =
              get_or-set m.sizes p q (bytes p) 0 (bytes q) (omega (arith, s.sizes_full)) (ap bytes)
                (λ ne. (earlier ne).at_size);
          at_stride =
              get_or-set m.strides p q (row p) 0 (row q) (omega (arith, s.strides_full)) (ap row)
                (λ ne. (earlier ne).at_stride);
        }

    -- What the loop changes, and what it does not.
    pub record Laid (m m' : Metadata) : Type 0 where
      pub planes_at : (p : ℕ) → p < l.num_planes → IsAt m' p
      pub same_tiling : m'.tiling ≡ m.tiling
      pub same_planes : m'.num_planes ≡ m.num_planes
      pub same_format : m'.format ≡ m.format

    place_tiled_lem :
        (rest p : ℕ) (m : Metadata)
        → IsTiling
        → l.num_planes ≤ 4
        → p + rest ≡ l.num_planes
        → m.tiling ≡ tiling
        → IsSized m
        → AtTo p m
        → (m' : Metadata) × (place_tiled drm 4096 width height format rest p (start p) m
            ≡ some (m', start l.num_planes))
          × Laid m m'
    unfolding place_tiled i915_align_dimensions start row rows
    place_tiled_lem zero p m t few all same s before = (
      m,
      ap (λ (q : ℕ). some (m, start q)) {x = p} {y = l.num_planes} (omega arith),
      record {
        planes_at = λ q lt. before q (omega arith);
        same_tiling = refl;
        same_planes = refl;
        same_format = refl;
      },
    )
    place_tiled_lem (suc rest) p m t few all same s before =
        let (m', e, laid) =
          place_tiled_lem rest (suc p) (place_plane m p (start p) (row p) (bytes p)) t few
            (omega arith) same (place_plane-IsSized m p (start p) (row p) (bytes p) s)
            (placed-AtTo p m (omega arith) s before) in
        let passed : (m.tiling == drm.tiling_none || is_aligned (start p) 4096) ≡ true =
          ap (λ (k : ℕ). k == drm.tiling_none || is_aligned (start p) 4096) same ∙ asserted t p in
        let aligned : alignments drm m.tiling ≡ alignments drm tiling = ap (alignments drm) same in
        (
          m',
          rw (stride_some p (omega arith), height_some p (omega arith), passed, aligned) e,
          record {
            planes_at = laid.planes_at;
            same_tiling = laid.same_tiling;
            same_planes = laid.same_planes;
            same_format = laid.same_format;
          },
        )

    -- For a known format of at most four planes, pages of 4096 bytes, metadata with full arrays
    -- and one of the tilings none, X and Y, the layout of a buffer succeeds, so that its
    -- assertion never fails: each plane has the stride and rows of the format rounded up to the
    -- tiling, starts where the planes before it end modulo 2^32, the total size is that end
    -- rounded up to a page, and the planes of a tiled buffer start on a page.
    pub i915_bo_from_format_lem :
        (m : Metadata)
        → IsTiling
        → l.num_planes ≤ 4
        → m.tiling ≡ tiling
        → IsSized m
        → (m' : Metadata) × (i915_bo_from_format drm 4096 m width height format ≡ some m')
          × Laid m m'
          × (m'.total_size ≡ align (start l.num_planes) 4096)
          × (tiling ≢ drm.tiling_none → (p : ℕ) → p < l.num_planes → start p % 4096 ≡ 0)
    unfolding i915_bo_from_format start
    i915_bo_from_format_lem m t few same s =
        let (m', e, laid) =
          place_tiled_lem l.num_planes 0 m t few (omega arith) same s
            (λ q lt. absurd (omega arith)) in
        (
          record m' { total_size = align (start l.num_planes) 4096 },
          rw (num_planes-eq format known, e) refl,
          record {
            planes_at = λ p lt.
                let at = laid.planes_at p lt in
                record { at_offset = at.at_offset; at_size = at.at_size; at_stride = at.at_stride };
            same_tiling = laid.same_tiling;
            same_planes = laid.same_planes;
            same_format = laid.same_format;
          },
          refl,
          λ ne p lt. start_mod ne t p,
        )
