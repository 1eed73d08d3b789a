-- ===== src/Rockchip.antt =====
-- rockchip.c: the layouts of its buffers, its table of combinations, and their memory. A request
-- that fails answers its `errno`.
use minigbm.Base.{
  ℕ, ◌+◌, ◌*◌, ◌%◌, ◌&&◌, ◌||◌, Option, none, some, List, [], ◌∷◌, get_or, set, bit_and, bit_or,
  leb, ◌==◌, ◌!=◌, if◌then◌else◌, ◌>>=◌,
}
use minigbm.Util.{u32, u64_mod, align, div_round_up}
use minigbm.Flags.{
  bo_use_render_mask, bo_use_texture_mask, bo_use_sw_mask, bo_use_scanout, bo_use_renderscript,
  bo_use_linear, bo_use_protected, bo_use_camera_read, bo_use_camera_write, bo_use_hw_video_encoder,
  bo_use_hw_video_decoder, bo_map_write, drm_format_mod_linear,
}
use minigbm.Fourcc.{
  drm_format_abgr8888, drm_format_argb8888, drm_format_bgr888, drm_format_rgb565,
  drm_format_xbgr8888, drm_format_xrgb8888, drm_format_nv12, drm_format_r8, drm_format_yvu420,
  drm_format_yvu420_android, drm_format_flex_implementation_defined, drm_format_flex_ycbcr_420_888,
}
use minigbm.Types.{Bo, Vma, Metadata, Combination, FormatMetadata}
use minigbm.Format.{drv_stride_from_format}
use minigbm.BoLayout.{place_plane, drv_bo_from_format}
use minigbm.Combos.{
  drv_add_combination, drv_add_combinations, drv_modify_combination, drv_modify_linear_combinations,
}
use minigbm.Modifiers.{drv_has_modifier}
use minigbm.Kernel.{Kernel, Request, Sys, call}
use minigbm.Dumb.{set_handles, drv_get_prot}
use minigbm.Driver.{einval}

-- The names of rockchip_drm.h and drm_fourcc.h.
pub record RockchipDrm : Type 0 where
  pub mod_afbc : ℕ
  pub ioctl_gem_create : ℕ
  pub ioctl_gem_map_offset : ℕ

-- `struct rockchip_private_map_data`
pub record PrivateMapData : Type 0 where
  pub cached_addr : ℕ
  pub gem_addr : ℕ

abbrev pub scanout_render_formats : List ℕ
scanout_render_formats =
    drm_format_abgr8888 ∷ drm_format_argb8888 ∷ drm_format_bgr888 ∷ drm_format_rgb565
    ∷ drm_format_xbgr8888 ∷ drm_format_xrgb8888 ∷ []

abbrev pub texture_only_formats : List ℕ
texture_only_formats = drm_format_nv12 ∷ drm_format_yvu420 ∷ drm_format_yvu420_android ∷ []

unfoldable pub rockchip_init : List Combination → List Combination
rockchip_init combos =
    let metadata : FormatMetadata = record {
      priority = 1;
      tiling = 0;
      modifier = drm_format_mod_linear;
    } in
    let camera = bit_or bo_use_camera_read bo_use_camera_write in
    let rendered =
      drv_add_combinations combos scanout_render_formats metadata
        (bit_or bo_use_render_mask bo_use_scanout) in
    let textured =
      drv_add_combinations rendered texture_only_formats metadata bo_use_texture_mask in
    let yvu = drv_modify_combination textured drm_format_yvu420 metadata bo_use_hw_video_encoder in
    let nv12 = drv_modify_combination yvu drm_format_nv12 metadata (
      bit_or camera
        (bit_or bo_use_hw_video_decoder (bit_or bo_use_hw_video_encoder bo_use_scanout))) in
    let linear = drv_modify_linear_combinations nv12 in
    drv_add_combination linear drm_format_r8 metadata
      (bit_or camera (bit_or bo_use_sw_mask (bit_or bo_use_linear bo_use_protected)))

module _ (drm : RockchipDrm) where
  -- Blocks of 16 by 16 pixels of four bytes, and a header of 16 bytes for each.
  unfoldable pub afbc_bo_from_format : Metadata → ℕ → ℕ → Metadata
  afbc_bo_from_format m width height =
      let width_in_blocks = div_round_up width 16 in
      let height_in_blocks = div_round_up height 16 in
      let total_blocks = u32 (width_in_blocks * height_in_blocks) in
      let header_plane_size = u32 (total_blocks * 16) in
      let body_plane_size = u32 (total_blocks * (16 * 16 * 4)) in
      let body_plane_offset = align header_plane_size 1024 in
      let total_size = u32 (body_plane_offset + body_plane_size) in
      let placed = place_plane m 0 0 (u32 (u32 (width_in_blocks * 16) * 4)) total_size in
      record placed {
        total_size = total_size;
        format_modifiers = set m.format_modifiers 0 drm.mod_afbc;
      }

  -- The branch of NV12.
  unfoldable pub video_layout : Metadata → ℕ → ℕ → ℕ → Option Metadata
  video_layout m width height format = do
    let w_mbs = div_round_up width 16
    let h_mbs = div_round_up height 16
    laid ← drv_bo_from_format m (u32 (w_mbs * 16)) (u32 (h_mbs * 16)) format
    some
        (record laid { total_size = (laid.total_size + u32 (u32 (w_mbs * h_mbs) * 128)) % u64_mod })

  -- The branch of a linear buffer.
  unfoldable pub linear_layout : Metadata → ℕ → ℕ → ℕ → Option Metadata
  linear_layout m width height format = do
    stride ← drv_stride_from_format format width 0
    let is_yv12 = format == drm_format_yvu420 || format == drm_format_yvu420_android
    drv_bo_from_format m (align stride (if is_yv12 then 128 else 64)) height format

  -- The layout; NULL inside if no modifier is usable.
  unfoldable pub rockchip_layout : Metadata → ℕ → ℕ → ℕ → List ℕ → Option (Option Metadata)
  rockchip_layout m width height format modifiers =
      let video = video_layout m width height format >>= λ laid. some (some laid) in
      let linear = linear_layout m width height format >>= λ laid. some (some laid) in
      if format == drm_format_nv12
      then video
      else (if leb width 2560 && drv_has_modifier modifiers drm.mod_afbc
          then some (some (afbc_bo_from_format m width height))
          else (if drv_has_modifier modifiers drm_format_mod_linear then linear else some none))

  module _ (kernel : Kernel) where
    -- From `DRM_IOCTL_ROCKCHIP_GEM_CREATE` on.
    unfoldable pub rockchip_allocate : Bo → Sys → ℕ × Bo × Sys
    rockchip_allocate bo sys =
        let (reply, sys') =
          call kernel (Request.device drm.ioctl_gem_create (bo.meta.total_size ∷ [])) sys in
        if reply.ret != 0 then (sys'.errno, bo, sys') else (
          0,
          record bo { handles = set_handles reply.handle bo.meta.num_planes 0 bo.handles },
          sys',
        )

    -- Without a usable modifier the code is -1, here 1, and `errno` is set.
    unfoldable pub rockchip_bo_create_with_modifiers :
        Bo → ℕ → ℕ → ℕ → List ℕ → Sys → Option (ℕ × Bo × Sys)
    rockchip_bo_create_with_modifiers bo width height format modifiers sys = do
      layout ← rockchip_layout bo.meta width height format modifiers
      some (elim layout as (λ _. ℕ × Bo × Sys) [
        | none ↦ (1, bo, record sys { errno = einval })
        | some m ↦ rockchip_allocate (record bo { meta = m }) sys
      ])

    unfoldable pub rockchip_bo_create : Bo → ℕ → ℕ → ℕ → Sys → Option (ℕ × Bo × Sys)
    rockchip_bo_create bo width height format sys =
        rockchip_bo_create_with_modifiers bo width height format (drm_format_mod_linear ∷ []) sys

    -- `cached` is the address that `calloc` gives. MAP_FAILED is `none`; the code does not test for
    -- it before it takes the cached copy.
    unfoldable pub rockchip_bo_map :
        ℕ → Bo → Vma → ℕ → Sys → Option ℕ × Vma × Option (ℕ × Option ℕ) × Sys
    rockchip_bo_map cached bo vma map_flags sys =
        let (reply, sys') =
          call kernel (Request.device drm.ioctl_gem_map_offset (get_or bo.handles 0 0 ∷ [])) sys in
        let (mapped, sys'') =
          call kernel (Request.mmap bo.meta.total_size (drv_get_prot map_flags) reply.offset)
            sys' in
        let addr = if mapped.ret != 0 then none else some mapped.offset in
        let vma' = record vma { length = bo.meta.total_size } in
        if get_or bo.meta.format_modifiers 0 0 == drm.mod_afbc
        then (none, vma, none, sys)
        else (if reply.ret != 0
            then (none, vma, none, sys')
            else (if bit_and bo.meta.use_flags bo_use_renderscript != 0
                then (some cached, record vma' { priv = cached }, some (cached, addr), sys'')
                else (addr, vma', none, sys'')))

    unfoldable pub rockchip_bo_unmap : Vma → Option PrivateMapData → Sys → ℕ × Vma × Sys
    rockchip_bo_unmap vma none sys =
        let (reply, sys') = call kernel (Request.munmap vma.addr vma.length) sys in
        (reply.ret, vma, sys')
    rockchip_bo_unmap vma (some priv) sys =
        let (reply, sys') = call kernel (Request.munmap priv.gem_addr vma.length) sys in
        (reply.ret, record vma { addr = priv.gem_addr; priv = 0 }, sys')

-- A `memcpy`: where to, where from, and how many bytes.
pub record Copy : Type 0 where
  pub to : ℕ
  pub source : ℕ
  pub bytes : ℕ

unfoldable pub rockchip_bo_invalidate : Bo → Option PrivateMapData → Option Copy
rockchip_bo_invalidate bo none = none
rockchip_bo_invalidate bo (some priv) =
    some (record { to = priv.cached_addr; source = priv.gem_addr; bytes = bo.meta.total_size })

unfoldable pub rockchip_bo_flush : Bo → Vma → Option PrivateMapData → Option Copy
rockchip_bo_flush bo vma none = none
rockchip_bo_flush bo vma (some priv) =
    if bit_and vma.map_flags bo_map_write != 0
    then some (record { to = priv.gem_addr; source = priv.cached_addr; bytes = bo.meta.total_size })
    else none

unfoldable pub rockchip_resolve_format : ℕ → ℕ → ℕ
rockchip_resolve_format format use_flags =
    if format == drm_format_flex_implementation_defined
    then (if bit_and use_flags (bit_or bo_use_camera_read bo_use_camera_write) != 0
        then drm_format_nv12
        else drm_format_xbgr8888)
    else (if format == drm_format_flex_ycbcr_420_888 then drm_format_nv12 else format)
