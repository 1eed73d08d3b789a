-- ===== src/I915/Layout.antt =====
-- i915.c: the layout of a buffer.
pub mod Tiles
use minigbm.Base.{
  ℕ, zero, suc, ◌+◌, ◌-◌, ◌*◌, ◌%◌, Bool, true, false, ◌||◌, Option, none, some, List, [], ◌∷◌, set,
  ◌==◌, ◌!=◌, if◌then◌else◌, ◌>>=◌, ◌>>◌, assert,
}
use minigbm.Util.{u32, align, is_aligned, div_round_up}
use minigbm.Flags.{drm_format_mod_linear}
use minigbm.Fourcc.{drm_format_yvu420_android}
use minigbm.Types.{Bo, Metadata, Combination}
use minigbm.Format.{drv_num_planes_from_format, drv_stride_from_format, drv_height_from_format}
use minigbm.BoLayout.{place_plane, drv_bo_from_format}
use minigbm.Combos.{drv_get_combination}
use minigbm.Modifiers.{drv_pick_modifier}
use minigbm.Driver.{einval}
use minigbm.I915.{I915Drm}

module _ (drm : I915Drm) where
  -- The alignments of `i915_align_dimensions`, of a row and of the number of rows.
  unfoldable pub alignments : ℕ → ℕ × ℕ
  alignments tiling =
      if tiling == drm.tiling_x
      then (512, 8)
      else (if tiling == drm.tiling_y then (128, 32) else (64, 4))

  -- The stride and the height that it writes; its code is always 0.
  unfoldable pub i915_align_dimensions : ℕ → ℕ → ℕ → ℕ × ℕ
  i915_align_dimensions tiling stride height =
      (align stride (alignments tiling).0, align height (alignments tiling).1)

  -- The loop of `i915_bo_from_format` from plane `p` on; it returns the final offset too.
  unfoldable pub place_tiled : ℕ → ℕ → ℕ → ℕ → ℕ → ℕ → ℕ → Metadata → Option (Metadata × ℕ)
  place_tiled pagesize width height format zero p offset m = some (m, offset)
  place_tiled pagesize width height format (suc rest) p offset m = do
    stride ← drv_stride_from_format format width p
    plane_height ← drv_height_from_format format height p
    assert (m.tiling == drm.tiling_none || is_aligned offset pagesize)
    let aligned = i915_align_dimensions m.tiling stride plane_height
    let size = u32 (aligned.0 * aligned.1)
    place_tiled pagesize width height format rest (suc p) (u32 (offset + size))
        (place_plane m p offset aligned.0 size)

  unfoldable pub i915_bo_from_format : ℕ → Metadata → ℕ → ℕ → ℕ → Option Metadata
  i915_bo_from_format pagesize m width height format = do
    laid ← place_tiled pagesize width height format (drv_num_planes_from_format format) 0 0 m
    some (record laid.0 { total_size = align laid.1 pagesize })

  -- The modifier, `none` for `-EINVAL`.
  unfoldable pub choose_modifier : List Combination → ℕ → ℕ → Option (List ℕ) → Option ℕ
  choose_modifier combos format use_flags (some modifiers) =
      some (
        drv_pick_modifier modifiers
          (drm.mod_y_tiled ∷ drm.mod_x_tiled ∷ drm_format_mod_linear ∷ []))
  choose_modifier combos format use_flags none = do
    combo ← drv_get_combination combos format use_flags
    some combo.metadata.modifier

  -- The `switch`.
  unfoldable pub tiling_of_modifier : ℕ → ℕ → ℕ
  tiling_of_modifier modifier tiling =
      if modifier == drm_format_mod_linear
      then drm.tiling_none
      else (if modifier == drm.mod_x_tiled
          then drm.tiling_x
          else (if modifier == drm.mod_y_tiled || modifier == drm.mod_y_tiled_ccs
              then drm.tiling_y
              else tiling))

  -- The branch of `I915_FORMAT_MOD_Y_TILED_CCS`.
  unfoldable pub ccs_layout : Metadata → ℕ → ℕ → Metadata
  ccs_layout m stride height =
      let width_in_tiles = div_round_up stride 128 in
      let height_in_tiles = div_round_up height 32 in
      let size = u32 (u32 (width_in_tiles * height_in_tiles) * 4096) in
      let ccs_width_in_tiles = div_round_up width_in_tiles 32 in
      let ccs_height_in_tiles = div_round_up height_in_tiles 16 in
      let ccs_size = u32 (u32 (ccs_width_in_tiles * ccs_height_in_tiles) * 4096) in
      let main = place_plane m 0 0 (u32 (width_in_tiles * 128)) size in
      let ccs = place_plane main 1 size (u32 (ccs_width_in_tiles * 128)) ccs_size in
      record ccs { num_planes = 2; total_size = u32 (size + ccs_size) }

  -- From the `switch` on.
  unfoldable pub i915_layout : ℕ → Bo → ℕ → ℕ → ℕ → ℕ → Option Bo
  i915_layout pagesize bo width height format modifier =
      let m = record bo.meta {
        tiling = tiling_of_modifier modifier bo.meta.tiling;
        format_modifiers = set bo.meta.format_modifiers 0 modifier;
      } in
      let android = drv_bo_from_format m (align width 32) height format in
      let ccs =
        drv_stride_from_format format width 0 >>= λ stride. some (ccs_layout m stride height) in
      let tiled = i915_bo_from_format pagesize m width height format in
      let laid =
        if format == drm_format_yvu420_android
        then android
        else (if modifier == drm.mod_y_tiled_ccs then ccs else tiled) in
      laid >>= λ m'. some (record bo { meta = m' })

  -- The code and the buffer.
  unfoldable pub i915_bo_compute_metadata :
      ℕ → List Combination → Bo → ℕ → ℕ → ℕ → ℕ → Option (List ℕ) → Option (ℕ × Bo)
  i915_bo_compute_metadata pagesize combos bo width height format use_flags modifiers =
      elim (choose_modifier combos format use_flags modifiers) as (λ _. Option (ℕ × Bo)) [
        | none ↦ some (einval, bo)
        | some modifier ↦
            i915_layout pagesize bo width height format modifier >>= λ bo'. some (0, bo')
      ]
