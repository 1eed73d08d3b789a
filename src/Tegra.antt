-- ===== src/Tegra.antt =====
-- tegra.c: the constants, the table of combinations, and the layout of a buffer.
pub mod Transfer
pub mod Buffers
pub mod BlockHeight
pub mod Swizzle
use minigbm.Base.{
  ℕ, zero, suc, ◌+◌, ◌-◌, ◌*◌, ◌/◌, ◌^◌, Bool, true, false, Option, none, some, List, [], ◌∷◌,
  bit_and, bit_or, leb, if◌then◌else◌, ◌>>=◌,
}
use minigbm.Util.{u32, align, u64_mod}
use minigbm.Flags.{
  bo_use_render_mask, bo_use_cursor, bo_use_scanout, bo_use_sw_write_often, bo_use_sw_read_often,
  bo_use_linear, drm_format_mod_linear,
}
use minigbm.Fourcc.{drm_format_argb8888, drm_format_xrgb8888}
use minigbm.Types.{Combination, FormatMetadata}
use minigbm.Format.{drv_stride_from_format}
use minigbm.Combos.{drv_add_combinations, drv_modify_combination}

abbrev pub nv_blocklinear_gob_height : ℕ
nv_blocklinear_gob_height = 8

abbrev pub nv_blocklinear_gob_width : ℕ
nv_blocklinear_gob_width = 64

abbrev pub nv_default_block_height_log2 : ℕ
nv_default_block_height_log2 = 4

abbrev pub nv_preferred_page_size : ℕ
nv_preferred_page_size = 128 * 1024

-- `enum nv_mem_kind`
abbrev pub nv_mem_kind_pitch : ℕ
nv_mem_kind_pitch = 0

abbrev pub nv_mem_kind_c32_2cra : ℕ
nv_mem_kind_c32_2cra = 0xdb

-- The loop of `compute_block_height_log2`, which stops at 0.
unfoldable pub shrink_block : ℕ → ℕ → ℕ → ℕ
shrink_block zero proposed height = 0
shrink_block (suc log2) proposed height =
    let smaller = shrink_block log2 (proposed / 2) height in
    if leb height proposed then smaller else suc log2

unfoldable pub compute_block_height_log2 : ℕ → ℕ
unfolding shrink_block
compute_block_height_log2 height =
    shrink_block nv_default_block_height_log2
      (nv_blocklinear_gob_height * 2 ^ (nv_default_block_height_log2 - 1)) height

-- The kind, the logarithm of the block height, the stride and the size.
pub record TegraLayout : Type 0 where
  pub kind : ℕ
  pub block_height_log2 : ℕ
  pub stride : ℕ
  pub size : ℕ

unfoldable pub compute_layout_blocklinear : ℕ → ℕ → ℕ → Option TegraLayout
compute_layout_blocklinear width height format = do
  packed ← drv_stride_from_format format width 0
  let pitch = align packed nv_blocklinear_gob_width
  let log2 = compute_block_height_log2 height
  let padded_height = align height (nv_blocklinear_gob_height * 2 ^ log2)
  some (record {
    kind = nv_mem_kind_c32_2cra;
    block_height_log2 = log2;
    stride = pitch;
    size = align (u32 (pitch * padded_height)) nv_preferred_page_size;
  })

unfoldable pub compute_layout_linear : ℕ → ℕ → ℕ → Option TegraLayout
compute_layout_linear width height format = do
  packed ← drv_stride_from_format format width 0
  let stride = align packed 64
  some (record {
    kind = nv_mem_kind_pitch;
    block_height_log2 = 0;
    stride = stride;
    size = u32 (stride * height);
  })

abbrev pub render_target_formats : List ℕ
render_target_formats = drm_format_argb8888 ∷ drm_format_xrgb8888 ∷ []

-- `flags & ~flag`
abbrev pub clear : ℕ → ℕ → ℕ
clear flags flag = bit_and flags (u64_mod - 1 - flag)

unfoldable pub tegra_init : List Combination → List Combination
tegra_init combos =
    let pitch : FormatMetadata = record {
      priority = 1;
      tiling = nv_mem_kind_pitch;
      modifier = drm_format_mod_linear;
    } in
    let block = record pitch { priority = 2; tiling = nv_mem_kind_c32_2cra } in
    let linear = drv_add_combinations combos render_target_formats pitch bo_use_render_mask in
    let xrgb =
      drv_modify_combination linear drm_format_xrgb8888 pitch
        (bit_or bo_use_cursor bo_use_scanout) in
    let argb =
      drv_modify_combination xrgb drm_format_argb8888 pitch (bit_or bo_use_cursor bo_use_scanout) in
    let flags =
      clear (clear (clear bo_use_render_mask bo_use_sw_write_often) bo_use_sw_read_often)
        bo_use_linear in
    let tiled = drv_add_combinations argb render_target_formats block flags in
    let scanned = drv_modify_combination tiled drm_format_xrgb8888 block bo_use_scanout in
    drv_modify_combination scanned drm_format_argb8888 block bo_use_scanout
