-- ===== src/Virtio/Buffers.antt =====
-- virtio_gpu.c: creating, destroying and mapping a buffer.
use minigbm.Base.{
  ℕ, zero, suc, ◌-◌, Option, none, some, [], ◌∷◌, get_or, set, bit_and, bit_or, ◌==◌, ◌!=◌,
  if◌then◌else◌, ◌>>=◌, ◌>>◌, assert,
}
use minigbm.Util.{u64_mod, align}
use minigbm.Flags.{
  bo_use_scanout, bo_use_cursor, bo_use_rendering, bo_use_linear, bo_use_texture,
  bo_use_camera_write, bo_use_camera_read, bo_use_sw_read_often, bo_use_sw_read_rarely,
  bo_use_sw_write_often, bo_use_sw_write_rarely, bo_quirk_dumb32bpp,
}
use minigbm.Fourcc.{
  drm_format_r8, drm_format_nv12, drm_format_xbgr8888, drm_format_yvu420_android,
  drm_format_flex_implementation_defined, drm_format_flex_ycbcr_420_888,
}
use minigbm.Types.{Bo, Metadata, Vma}
use minigbm.Format.{drv_stride_from_format}
use minigbm.BoLayout.{drv_bo_from_format}
use minigbm.Kernel.{Kernel, Request, Sys, call}
use minigbm.Gem.{drv_gem_bo_destroy}
use minigbm.Dumb.{
  set_handles, drv_get_prot, drv_dumb_bo_create_ex, drv_dumb_bo_destroy, drv_dumb_bo_map,
}
use minigbm.Virtio.{
  VirtgpuDrm, VirtioGpuPriv, Features, translate_format, virtio_gpu_supports_combination_natively,
  virtio_gpu_supports_combination_through_emulation,
}
use minigbm.Virtio.Emulated.{virtio_gpu_get_emulated_metadata}

abbrev pub mesa_llvmpipe_tile : ℕ
mesa_llvmpipe_tile = 64

abbrev pub page_size : ℕ
page_size = 0x1000

abbrev pub pipe_texture_2d : ℕ
pipe_texture_2d = 2

-- The flags that are left, and the bind.
unfoldable pub handle_flag : ℕ → ℕ → ℕ × ℕ → ℕ × ℕ
handle_flag check_flag virgl_bind state =
    if bit_and (state.0) check_flag != 0
    then (bit_and (state.0) (u64_mod - 1 - check_flag), bit_or (state.1) virgl_bind)
    else state

-- The loop that copies the emulated planes from plane `p` on, `rest` of them.
unfoldable pub copy_planes : Metadata → ℕ → ℕ → Metadata → Metadata
copy_planes emulated zero p m = m
copy_planes emulated (suc rest) p m = copy_planes emulated rest (suc p) (record m {
  strides = set m.strides p (get_or emulated.strides p 0);
  offsets = set m.offsets p (get_or emulated.offsets p 0);
  sizes = set m.sizes p (get_or emulated.sizes p 0);
})

module _ (kernel : Kernel) (drm : VirtgpuDrm) where
  unfoldable pub virtio_dumb_bo_create : Bo → ℕ → ℕ → ℕ → Sys → Option (ℕ × Bo × Sys)
  virtio_dumb_bo_create bo width height format sys =
      if bo.meta.format != drm_format_r8
      then drv_dumb_bo_create_ex kernel bo (align width mesa_llvmpipe_tile)
          (align height mesa_llvmpipe_tile) format bo_quirk_dumb32bpp sys
      else drv_dumb_bo_create_ex kernel bo width height format bo_quirk_dumb32bpp sys

  unfoldable pub use_flags_to_bind : ℕ → ℕ
  use_flags_to_bind use_flags =
      let texture = handle_flag bo_use_texture drm.bind_sampler_view (use_flags, drm.bind_shared) in
      let rendering = handle_flag bo_use_rendering drm.bind_render_target texture in
      let shown = handle_flag bo_use_scanout drm.bind_scanout rendering in
      let cursor = handle_flag bo_use_cursor drm.bind_cursor shown in
      let linear = handle_flag bo_use_linear drm.bind_linear cursor in
      let read_often = handle_flag bo_use_sw_read_often drm.bind_linear linear in
      let read_rarely = handle_flag bo_use_sw_read_rarely drm.bind_linear read_often in
      let write_often = handle_flag bo_use_sw_write_often drm.bind_linear read_rarely in
      let write_rarely = handle_flag bo_use_sw_write_rarely drm.bind_linear write_often in
      let camera_read = handle_flag bo_use_camera_read drm.bind_linear write_rarely in
      (handle_flag bo_use_camera_write drm.bind_linear camera_read).1

  -- From `memset(&res_create, ...)` on; the arguments are the fields that are not constants.
  unfoldable pub create_resource : Bo → ℕ → ℕ → ℕ → ℕ → Sys → ℕ × Bo × Sys
  create_resource bo width height format use_flags sys =
      let (reply, sys') =
        call kernel
          (Request.device drm.ioctl_resource_create (
            pipe_texture_2d
            ∷ translate_format drm format
            ∷ use_flags_to_bind use_flags
            ∷ width
            ∷ height
            ∷ 1
            ∷ 1
            ∷ 0
            ∷ 0
            ∷ align bo.meta.total_size page_size
            ∷ []))
          sys in
      if reply.ret != 0 then (reply.ret, bo, sys') else (
        0,
        record bo { handles = set_handles reply.handle bo.meta.num_planes 0 bo.handles },
        sys',
      )

  unfoldable pub virtio_virgl_bo_create :
      VirtioGpuPriv → Metadata → Bo → ℕ → ℕ → ℕ → ℕ → Sys → Option (ℕ × Bo × Sys)
  virtio_virgl_bo_create priv stack bo width height format use_flags sys =
      let natively = virtio_gpu_supports_combination_natively drm priv format use_flags in
      let native = drv_stride_from_format format width 0 >>= λ stride.
      drv_bo_from_format bo.meta stride height format >>= λ m.
      some (create_resource (record bo { meta = m }) width height format use_flags sys) in
      let e = virtio_gpu_get_emulated_metadata bo stack in
      let m : Metadata = record (copy_planes e e.num_planes 0 bo.meta) {
        total_size = e.total_size;
      } in
      let emulated =
        assert (virtio_gpu_supports_combination_through_emulation drm priv format use_flags)
        >> some
            (create_resource (record bo { meta = m }) e.width e.height e.format use_flags sys) in
      if natively then native else emulated

  unfoldable pub virtio_virgl_bo_map : Bo → Vma → ℕ → ℕ → Sys → Option ℕ × Vma × Sys
  virtio_virgl_bo_map bo vma plane map_flags sys =
      let (reply, sys') =
        call kernel (Request.device drm.ioctl_map (get_or bo.handles 0 0 ∷ [])) sys in
      let (mapped, sys'') =
        call kernel (Request.mmap bo.meta.total_size (drv_get_prot map_flags) reply.offset) sys' in
      if reply.ret != 0 then (none, vma, sys') else (
        if mapped.ret != 0 then none else some mapped.offset,
        record vma { length = bo.meta.total_size },
        sys'',
      )

  unfoldable pub virtio_gpu_bo_create :
      Features → VirtioGpuPriv → Metadata → Bo → ℕ → ℕ → ℕ → ℕ → Sys → Option (ℕ × Bo × Sys)
  virtio_gpu_bo_create features priv stack bo width height format use_flags sys =
      if features.feat_3d != 0
      then virtio_virgl_bo_create priv stack bo width height format use_flags sys
      else virtio_dumb_bo_create bo width height format sys

  unfoldable pub virtio_gpu_bo_destroy : Features → Bo → Sys → ℕ × Sys
  virtio_gpu_bo_destroy features bo sys =
      if features.feat_3d != 0
      then drv_gem_bo_destroy kernel bo sys
      else drv_dumb_bo_destroy kernel bo sys

  unfoldable pub virtio_gpu_bo_map : Features → Bo → Vma → ℕ → ℕ → Sys → Option ℕ × Vma × Sys
  virtio_gpu_bo_map features bo vma plane map_flags sys =
      if features.feat_3d != 0
      then virtio_virgl_bo_map bo vma plane map_flags sys
      else drv_dumb_bo_map kernel bo vma plane map_flags sys

unfoldable pub virtio_gpu_resolve_format : Features → ℕ → ℕ → ℕ
virtio_gpu_resolve_format features format use_flags =
    if format == drm_format_flex_implementation_defined
    then (if bit_and use_flags (bit_or bo_use_camera_read bo_use_camera_write) != 0
        then drm_format_nv12
        else drm_format_xbgr8888)
    else (if format == drm_format_flex_ycbcr_420_888
        then (if features.feat_3d != 0 then drm_format_nv12 else drm_format_yvu420_android)
        else format)
