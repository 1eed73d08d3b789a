-- ===== src/Mediatek.antt =====
-- mediatek.c, as it is compiled without `MTK_MT8183`.
pub mod Mapping
use minigbm.Base.{
  ℕ, zero, suc, ◌*◌, ◌/◌, Option, some, List, [], ◌∷◌, set, replicate, bit_and, bit_or, ◌==◌, ◌!=◌,
  if◌then◌else◌, ◌>>=◌,
}
use minigbm.Util.{u32, align}
use minigbm.Flags.{
  bo_use_render_mask, bo_use_texture_mask, bo_use_sw_mask, bo_use_scanout, bo_use_linear,
  bo_use_protected, bo_use_hw_video_encoder, bo_use_hw_video_decoder, drm_format_mod_linear,
}
use minigbm.Fourcc.{
  drm_format_abgr8888, drm_format_argb8888, drm_format_rgb565, drm_format_xbgr8888,
  drm_format_xrgb8888, drm_format_bgr888, drm_format_nv12, drm_format_r8, drm_format_yvu420,
  drm_format_yvu420_android, drm_format_flex_implementation_defined, drm_format_flex_ycbcr_420_888,
}
use minigbm.Types.{Bo, Metadata, Combination, drv_max_planes}
use minigbm.Format.{drv_stride_from_format, drv_vertical_subsampling_from_format}
use minigbm.BoLayout.{drv_bo_from_format, drv_bo_from_format_and_padding}
use minigbm.Combos.{
  linear_metadata, drv_add_combination, drv_add_combinations, drv_modify_combination,
  drv_modify_linear_combinations,
}
use minigbm.Modifiers.{drv_has_modifier}
use minigbm.Kernel.{Kernel, Request, Sys, call}
use minigbm.Dumb.{set_handles}
use minigbm.Driver.{einval}

abbrev pub render_target_formats : List ℕ
render_target_formats =
    drm_format_abgr8888 ∷ drm_format_argb8888 ∷ drm_format_rgb565 ∷ drm_format_xbgr8888
    ∷ drm_format_xrgb8888 ∷ []

abbrev pub texture_source_formats : List ℕ
texture_source_formats = drm_format_yvu420 ∷ drm_format_yvu420_android ∷ drm_format_nv12 ∷ []

-- `metadata` is the linear one.
unfoldable pub mediatek_init : List Combination → List Combination
mediatek_init combos =
    let rendered =
      drv_add_combinations combos render_target_formats linear_metadata
        (bit_or bo_use_render_mask bo_use_scanout) in
    let textured =
      drv_add_combinations rendered texture_source_formats linear_metadata bo_use_texture_mask in
    let r8 =
      drv_add_combination textured drm_format_r8 linear_metadata
        (bit_or bo_use_sw_mask (bit_or bo_use_linear bo_use_protected)) in
    let yvu = drv_modify_combination r8 drm_format_yvu420 linear_metadata bo_use_hw_video_encoder in
    let nv12 = drv_modify_combination yvu drm_format_nv12 linear_metadata bo_use_hw_video_encoder in
    let bgr = drv_add_combination nv12 drm_format_bgr888 linear_metadata bo_use_sw_mask in
    let yvu_decoder =
      drv_modify_combination bgr drm_format_yvu420 linear_metadata bo_use_hw_video_decoder in
    let android_decoder =
      drv_modify_combination yvu_decoder drm_format_yvu420_android linear_metadata
        bo_use_hw_video_decoder in
    drv_modify_linear_combinations (
      drv_modify_combination android_decoder drm_format_nv12 linear_metadata
        bo_use_hw_video_decoder)

-- The loop that fills `padding`, from plane `p` on.
unfoldable pub encoder_padding : ℕ → ℕ → ℕ → ℕ → List ℕ → Option (List ℕ)
encoder_padding format stride zero p padding = some padding
encoder_padding format stride (suc rest) p padding = do
  plane_stride ← drv_stride_from_format format stride p
  subsampling ← drv_vertical_subsampling_from_format format p
  encoder_padding format stride rest (suc p)
      (set padding p (u32 (plane_stride * (32 / subsampling))))

unfoldable pub mediatek_layout : Metadata → ℕ → ℕ → ℕ → Option Metadata
mediatek_layout m width height format = do
  packed ← drv_stride_from_format format width 0
  let stride = align packed 64
  let encoder =
      encoder_padding format stride m.num_planes 0 (replicate drv_max_planes 0) >>= λ padding.
      drv_bo_from_format_and_padding m stride (align height 32) format padding
  let plain = drv_bo_from_format m stride height format
  if bit_and m.use_flags bo_use_hw_video_encoder != 0 then encoder else plain

-- The names of mediatek_drm.h.
pub record MediatekDrm : Type 0 where
  pub ioctl_gem_create : ℕ
  pub ioctl_gem_map_offset : ℕ

module _ (kernel : Kernel) (drm : MediatekDrm) where
  -- From `DRM_IOCTL_MTK_GEM_CREATE` on.
  unfoldable pub mediatek_allocate : Bo → Sys → ℕ × Bo × Sys
  mediatek_allocate bo sys =
      let (reply, sys') =
        call kernel (Request.device drm.ioctl_gem_create (bo.meta.total_size ∷ [])) sys in
      if reply.ret != 0 then (sys'.errno, bo, sys') else (
        0,
        record bo { handles = set_handles reply.handle bo.meta.num_planes 0 bo.handles },
        sys',
      )

  unfoldable pub mediatek_bo_create_with_modifiers :
      Bo → ℕ → ℕ → ℕ → List ℕ → Sys → Option (ℕ × Bo × Sys)
  mediatek_bo_create_with_modifiers bo width height format modifiers sys =
      let created = mediatek_layout bo.meta width height format >>= λ m.
      some (mediatek_allocate (record bo { meta = m }) sys) in
      if drv_has_modifier modifiers drm_format_mod_linear
      then created
      else some (einval, bo, record sys { errno = einval })

  unfoldable pub mediatek_bo_create : Bo → ℕ → ℕ → ℕ → Sys → Option (ℕ × Bo × Sys)
  mediatek_bo_create bo width height format sys =
      mediatek_bo_create_with_modifiers bo width height format (drm_format_mod_linear ∷ []) sys

unfoldable pub mediatek_resolve_format : ℕ → ℕ
mediatek_resolve_format format =
    if format == drm_format_flex_implementation_defined
    then drm_format_xbgr8888
    else (if format == drm_format_flex_ycbcr_420_888 then drm_format_yvu420 else format)
