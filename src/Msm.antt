-- ===== src/Msm.antt =====
-- msm.c: the layouts of its buffers, its table of combinations, and their memory.
use minigbm.Base.{
  ℕ, zero, suc, ◌+◌, ◌-◌, ◌*◌, ◌/◌, ◌%◌, Bool, ◌&&◌, ◌||◌, Option, none, some, List, [], ◌∷◌, ◌++◌,
  get_or, set, bit_and, bit_or, ltb, ◌==◌, ◌!=◌, if◌then◌else◌, ◌>>=◌, ◌>>◌, assert,
}
use minigbm.Util.{u32, u32_mod, u64_mod, align, is_aligned, div_round_up}
use minigbm.Flags.{
  bo_use_render_mask, bo_use_texture_mask, bo_use_sw_mask, bo_use_scanout, bo_use_renderscript,
  bo_use_linear, bo_use_protected, bo_use_sw_read_often, bo_use_sw_write_often, bo_use_camera_read,
  bo_use_camera_write, bo_use_hw_video_encoder, bo_use_hw_video_decoder, drm_format_mod_linear,
}
use minigbm.Fourcc.{
  drm_format_abgr8888, drm_format_argb8888, drm_format_rgb565, drm_format_xbgr8888,
  drm_format_xrgb8888, drm_format_nv12, drm_format_r8, drm_format_yvu420, drm_format_yvu420_android,
  drm_format_bgr888, drm_format_flex_ycbcr_420_888,
}
use minigbm.Types.{Bo, Vma, Metadata, Combination, FormatMetadata}
use minigbm.Format.{drv_stride_from_format}
use minigbm.BoLayout.{drv_bo_from_format}
use minigbm.Combos.{
  linear_metadata, drv_add_combination, drv_add_combinations, drv_modify_combination,
  drv_modify_linear_combinations, drv_get_combination,
}
use minigbm.Modifiers.{drv_pick_modifier}
use minigbm.Kernel.{Kernel, Request, Sys, call}
use minigbm.Dumb.{set_handles, drv_get_prot}
use minigbm.Driver.{einval}

abbrev pub default_alignment : ℕ
default_alignment = 64

abbrev pub buffer_size_align : ℕ
buffer_size_align = 4096

abbrev pub venus_stride_align : ℕ
venus_stride_align = 128

abbrev pub venus_scanline_align : ℕ
venus_scanline_align = 16

abbrev pub nv12_linear_padding : ℕ
nv12_linear_padding = 12 * 1024

-- `NV12_UBWC_PADDING`
abbrev pub nv12_ubwc_padding : ℕ → ℕ
nv12_ubwc_padding y_stride =
    if ltb (u32 (y_stride * 48)) (16 * 1024) then 16 * 1024 else u32 (y_stride * 48)

abbrev pub msm_ubwc_tiling : ℕ
msm_ubwc_tiling = 1

unfoldable pub get_ubwc_meta_size : ℕ → ℕ → ℕ → ℕ → ℕ
get_ubwc_meta_size width height tile_width tile_height =
    let macrotile_width = align (div_round_up width tile_width) 64 in
    let macrotile_height = align (div_round_up height tile_height) 16 in
    align (u32 (macrotile_width * macrotile_height)) 4096

-- The branch of NV12.
unfoldable pub venus_layout : Metadata → Metadata
venus_layout m =
    let y_stride = align m.width venus_stride_align in
    let uv_stride = align m.width venus_stride_align in
    let y_scanline = align m.height (venus_scanline_align * 2) in
    let uv_scanline = align (div_round_up m.height 2) venus_scanline_align in
    let y_pixels = u32 (y_stride * y_scanline) in
    let uv_pixels = u32 (uv_stride * uv_scanline) in
    let is_ubwc = m.tiling == msm_ubwc_tiling in
    let y_plane =
      if is_ubwc then u32 (y_pixels + get_ubwc_meta_size m.width m.height 32 8) else y_pixels in
    let uv_plane =
      if is_ubwc
      then u32 (uv_pixels + get_ubwc_meta_size (m.width / 2) (m.height / 2) 16 8)
      else uv_pixels in
    let extra_padding = if is_ubwc then nv12_ubwc_padding y_stride else nv12_linear_padding in
    let total_size = align (u32 (u32 (y_plane + uv_plane) + extra_padding)) buffer_size_align in
    record m {
      strides = set (set m.strides 0 y_stride) 1 uv_stride;
      sizes = set (set m.sizes 0 y_plane) 1 ((total_size + u32_mod - y_plane) % u32_mod);
      offsets = set m.offsets 1 y_plane;
      total_size = total_size;
    }

-- The height that the other formats are laid out with.
unfoldable pub aligned_height : ℕ → ℕ → ℕ
aligned_height format height =
    if format == drm_format_yvu420_android || (format == drm_format_r8 && height == 1)
    then height
    else align height default_alignment

-- The end of the other branch, for UBWC.
unfoldable pub add_ubwc_meta : Metadata → ℕ → ℕ → Option Metadata
add_ubwc_meta m width height =
    let size = u32 (get_or m.sizes 0 0 + get_ubwc_meta_size width height 16 4) in
    let enlarged = record m { sizes = set m.sizes 0 size; total_size = size } in
    let checked = assert (is_aligned size buffer_size_align) >> some enlarged in
    if m.tiling == msm_ubwc_tiling then checked else some m

unfoldable pub msm_calculate_layout : Metadata → Option Metadata
msm_calculate_layout m =
    let others = drv_stride_from_format m.format (align m.width default_alignment) 0 >>= λ stride.
    drv_bo_from_format m stride (aligned_height m.format m.height) m.format >>= λ laid.
    add_ubwc_meta laid m.width m.height in
    if m.format == drm_format_nv12 then some (venus_layout m) else others

unfoldable pub is_ubwc_fmt : ℕ → Bool
is_ubwc_fmt format =
    format == drm_format_xbgr8888
    || (format == drm_format_abgr8888
        || (format == drm_format_xrgb8888
            || (format == drm_format_argb8888 || format == drm_format_nv12)))

unfoldable pub msm_add_ubwc_combinations :
    List Combination → List ℕ → FormatMetadata → ℕ → List Combination
msm_add_ubwc_combinations combos [] metadata use_flags = combos
msm_add_ubwc_combinations combos (format ∷ formats) metadata use_flags =
    msm_add_ubwc_combinations
      (if is_ubwc_fmt format
        then combos ++ record { format = format; metadata = metadata; use_flags = use_flags } ∷ []
        else combos)
      formats metadata use_flags

abbrev pub render_target_formats : List ℕ
render_target_formats =
    drm_format_abgr8888 ∷ drm_format_argb8888 ∷ drm_format_rgb565 ∷ drm_format_xbgr8888
    ∷ drm_format_xrgb8888 ∷ []

abbrev pub texture_source_formats : List ℕ
texture_source_formats =
    drm_format_nv12 ∷ drm_format_r8 ∷ drm_format_yvu420 ∷ drm_format_yvu420_android ∷ []

-- `sw_flags`
abbrev pub sw_flags : ℕ
sw_flags = bit_or bo_use_renderscript (
    bit_or bo_use_sw_write_often
      (bit_or bo_use_sw_read_often (bit_or bo_use_linear bo_use_protected)))

-- `compressed` is `DRM_FORMAT_MOD_QCOM_COMPRESSED` of drm_fourcc.h.
unfoldable pub msm_init : ℕ → List Combination → List Combination
msm_init compressed combos =
    let render_use_flags = bit_or bo_use_render_mask bo_use_scanout in
    let texture_use_flags = bit_or bo_use_texture_mask bo_use_hw_video_decoder in
    let camera = bit_or bo_use_camera_read bo_use_camera_write in
    let rendered =
      drv_add_combinations combos render_target_formats linear_metadata render_use_flags in
    let textured =
      drv_add_combinations rendered texture_source_formats linear_metadata texture_use_flags in
    let yvu =
      drv_modify_combination textured drm_format_yvu420 linear_metadata bo_use_hw_video_encoder in
    let nv12 = drv_modify_combination yvu drm_format_nv12 linear_metadata bo_use_hw_video_encoder in
    let nv12_camera =
      drv_modify_combination nv12 drm_format_nv12 linear_metadata (bit_or camera bo_use_scanout) in
    let r8 = drv_modify_combination nv12_camera drm_format_r8 linear_metadata camera in
    let bgr = drv_add_combination r8 drm_format_bgr888 linear_metadata bo_use_sw_mask in
    let linear = drv_modify_linear_combinations bgr in
    let metadata : FormatMetadata = record {
      priority = 2;
      tiling = msm_ubwc_tiling;
      modifier = compressed;
    } in
    let ubwc =
      msm_add_ubwc_combinations linear render_target_formats metadata
        (bit_and render_use_flags (u64_mod - 1 - sw_flags)) in
    msm_add_ubwc_combinations ubwc texture_source_formats metadata
      (bit_and texture_use_flags (u64_mod - 1 - sw_flags))

-- `format_modifiers` of each plane from `p` on.
unfoldable pub set_modifiers : ℕ → ℕ → ℕ → List ℕ → List ℕ
set_modifiers modifier zero p modifiers = modifiers
set_modifiers modifier (suc rest) p modifiers =
    set_modifiers modifier rest (suc p) (set modifiers p modifier)

-- The names of msm_drm.h; `gem_new_flags` is `MSM_BO_WC | MSM_BO_SCANOUT`.
pub record MsmDrm : Type 0 where
  pub compressed : ℕ
  pub ioctl_gem_new : ℕ
  pub gem_new_flags : ℕ
  pub ioctl_gem_info : ℕ

module _ (kernel : Kernel) (drm : MsmDrm) where
  unfoldable pub msm_bo_create_for_modifier : Bo → ℕ → Sys → Option (ℕ × Bo × Sys)
  msm_bo_create_for_modifier bo modifier sys = do
    m ←
        msm_calculate_layout
          (record bo.meta { tiling = if modifier == drm.compressed then msm_ubwc_tiling else 0 })
    let (reply, sys') =
        call kernel (Request.device drm.ioctl_gem_new (drm.gem_new_flags ∷ m.total_size ∷ [])) sys
    let created = record bo {
      handles = set_handles reply.handle m.num_planes 0 bo.handles;
      meta = record m {
        format_modifiers = set_modifiers modifier m.num_planes 0 m.format_modifiers;
      };
    }
    some (if reply.ret != 0 then (sys'.errno, record bo { meta = m }, sys') else (0, created, sys'))

  unfoldable pub msm_bo_create_with_modifiers : Bo → List ℕ → Sys → Option (ℕ × Bo × Sys)
  msm_bo_create_with_modifiers bo modifiers sys =
      msm_bo_create_for_modifier bo
        (drv_pick_modifier modifiers (drm.compressed ∷ drm_format_mod_linear ∷ [])) sys

  unfoldable pub msm_bo_create : List Combination → Bo → ℕ → ℕ → Sys → Option (ℕ × Bo × Sys)
  msm_bo_create combos bo format flags sys =
      elim (drv_get_combination combos format flags) as (λ _. Option (ℕ × Bo × Sys)) [
        | none ↦ some (einval, bo, sys)
        | some combo ↦ msm_bo_create_for_modifier bo combo.metadata.modifier sys
      ]

  unfoldable pub msm_bo_map : Bo → Vma → ℕ → Sys → Option ℕ × Vma × Sys
  msm_bo_map bo vma map_flags sys =
      let (reply, sys') =
        call kernel (Request.device drm.ioctl_gem_info (get_or bo.handles 0 0 ∷ [])) sys in
      let (mapped, sys'') =
        call kernel (Request.mmap bo.meta.total_size (drv_get_prot map_flags) reply.offset) sys' in
      if reply.ret != 0 then (none, vma, sys') else (
        if mapped.ret != 0 then none else some mapped.offset,
        record vma { length = bo.meta.total_size },
        sys'',
      )

unfoldable pub msm_resolve_format : ℕ → ℕ
msm_resolve_format format =
    if format == drm_format_flex_ycbcr_420_888 then drm_format_nv12 else format
