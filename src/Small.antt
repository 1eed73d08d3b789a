-- ===== src/Small.antt =====
-- The backends that are little more than a table of combinations over dumb buffers: vgem.c, evdi.c,
-- meson.c, nouveau.c, radeon.c, synaptics.c, udl.c, and the children for vc4.c and exynos.c.
pub mod Vc4
pub mod Exynos
pub mod Cleanup
use minigbm.Base.{ℕ, ◌^◌, Option, List, [], ◌∷◌, bit_or, ◌==◌, if◌then◌else◌}
use minigbm.Util.{align}
use minigbm.Flags.{bo_use_render_mask, bo_use_texture_mask, bo_use_scanout, bo_use_hw_video_encoder}
use minigbm.Fourcc.{
  drm_format_abgr8888, drm_format_argb8888, drm_format_bgr565, drm_format_bgr888, drm_format_rgb565,
  drm_format_xbgr8888, drm_format_xrgb8888, drm_format_nv12, drm_format_r8, drm_format_yvu420,
  drm_format_yvu420_android, drm_format_flex_implementation_defined, drm_format_flex_ycbcr_420_888,
}
use minigbm.Types.{Bo, Combination}
use minigbm.Combos.{linear_metadata, drv_add_combinations, drv_modify_linear_combinations}
use minigbm.Kernel.{Kernel, Sys}
use minigbm.Dumb.{drv_dumb_bo_create}

-- The two formats of evdi.c, nouveau.c, radeon.c and udl.c.
abbrev pub plain_formats : List ℕ
plain_formats = drm_format_argb8888 ∷ drm_format_xrgb8888 ∷ []

unfoldable pub evdi_init : List Combination → List Combination
evdi_init combos =
    drv_modify_linear_combinations
      (drv_add_combinations combos plain_formats linear_metadata bo_use_render_mask)

unfoldable pub nouveau_init : List Combination → List Combination
nouveau_init combos =
    drv_modify_linear_combinations
      (drv_add_combinations combos plain_formats linear_metadata bo_use_render_mask)

unfoldable pub radeon_init : List Combination → List Combination
radeon_init combos =
    drv_modify_linear_combinations
      (drv_add_combinations combos plain_formats linear_metadata bo_use_render_mask)

unfoldable pub udl_init : List Combination → List Combination
udl_init combos =
    drv_modify_linear_combinations
      (drv_add_combinations combos plain_formats linear_metadata bo_use_render_mask)

abbrev pub meson_formats : List ℕ
meson_formats =
    drm_format_argb8888 ∷ drm_format_xrgb8888 ∷ drm_format_abgr8888 ∷ drm_format_xbgr8888
    ∷ drm_format_bgr888 ∷ drm_format_bgr565 ∷ []

unfoldable pub meson_init : List Combination → List Combination
meson_init combos = drv_modify_linear_combinations (
    drv_add_combinations combos meson_formats linear_metadata
      (bit_or bo_use_render_mask bo_use_scanout))

abbrev pub synaptics_render_formats : List ℕ
synaptics_render_formats = drm_format_argb8888 ∷ drm_format_abgr8888 ∷ drm_format_xrgb8888 ∷ []

abbrev pub synaptics_texture_formats : List ℕ
synaptics_texture_formats =
    drm_format_r8 ∷ drm_format_nv12 ∷ drm_format_yvu420 ∷ drm_format_yvu420_android ∷ []

unfoldable pub synaptics_init : List Combination → List Combination
synaptics_init combos = drv_modify_linear_combinations (
    drv_add_combinations
      (drv_add_combinations combos synaptics_render_formats linear_metadata
        (bit_or bo_use_render_mask bo_use_scanout))
      synaptics_texture_formats linear_metadata
      (bit_or bo_use_texture_mask bo_use_hw_video_encoder))

abbrev pub vgem_render_formats : List ℕ
vgem_render_formats =
    drm_format_abgr8888 ∷ drm_format_argb8888 ∷ drm_format_rgb565 ∷ drm_format_xbgr8888
    ∷ drm_format_xrgb8888 ∷ []

abbrev pub vgem_texture_formats : List ℕ
vgem_texture_formats = drm_format_r8 ∷ drm_format_yvu420 ∷ drm_format_yvu420_android ∷ []

unfoldable pub vgem_init : List Combination → List Combination
vgem_init combos = drv_modify_linear_combinations (
    drv_add_combinations
      (drv_add_combinations combos vgem_render_formats linear_metadata bo_use_render_mask)
      vgem_texture_formats linear_metadata bo_use_texture_mask)

abbrev pub mesa_llvmpipe_tile_size : ℕ
mesa_llvmpipe_tile_size = 2 ^ 6

unfoldable pub vgem_bo_create : Kernel → Bo → ℕ → ℕ → ℕ → Sys → Option (ℕ × Bo × Sys)
vgem_bo_create kernel bo width height format sys =
    drv_dumb_bo_create kernel bo (align width mesa_llvmpipe_tile_size)
      (align height mesa_llvmpipe_tile_size) format sys

unfoldable pub vgem_resolve_format : ℕ → ℕ
vgem_resolve_format format =
    if format == drm_format_flex_implementation_defined
    then drm_format_xbgr8888
    else (if format == drm_format_flex_ycbcr_420_888 then drm_format_yvu420 else format)
