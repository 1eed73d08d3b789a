-- ===== src/I915/Buffers.antt =====
-- i915.c: the memory of a buffer.
use minigbm.Base.{
  ℕ, ◌&&◌, Option, none, some, List, [], ◌∷◌, get_or, bit_and, bit_or, ◌==◌, ◌!=◌, if◌then◌else◌,
}
use minigbm.Flags.{
  bo_use_scanout, bo_use_renderscript, bo_use_camera_read, bo_use_camera_write, bo_map_write,
}
use minigbm.Types.{Bo, Vma, ImportFdData}
use minigbm.Kernel.{Kernel, Request, Sys, call}
use minigbm.Gem.{drv_gem_bo_destroy, drv_prime_bo_import}
use minigbm.Dumb.{set_handles, drv_get_prot}
use minigbm.I915.{I915Drm}
use minigbm.I915.Device.{I915Device}
use minigbm.I915.Clflush.{i915_clflush}

module _ (kernel : Kernel) (drm : I915Drm) where
  -- The arguments of a request of the device are the fields that the code sets, in its order.
  unfoldable pub i915_bo_create_from_metadata : Bo → Sys → ℕ × Bo × Sys
  i915_bo_create_from_metadata bo sys =
      let (created, sys') =
        call kernel (Request.device drm.ioctl_gem_create (bo.meta.total_size ∷ [])) sys in
      let bo' = record bo {
        handles = set_handles created.handle bo.meta.num_planes 0 bo.handles;
      } in
      let handle = get_or bo'.handles 0 0 in
      let (tiled, sys'') =
        call kernel
          (Request.device drm.ioctl_gem_set_tiling
            (handle ∷ bo.meta.tiling ∷ get_or bo.meta.strides 0 0 ∷ []))
          sys' in
      let closed = (call kernel (Request.gem_close handle) sys'').1 in
      if created.ret != 0
      then (sys'.errno, bo, sys')
      else (if tiled.ret != 0 then (closed.errno, bo', closed) else (0, bo', sys''))

  -- `tiling_mode` is the value of the reply.
  unfoldable pub i915_bo_import : Bo → ImportFdData → Sys → ℕ × Bo × Sys
  i915_bo_import bo imported sys =
      let (ret, bo', sys') = drv_prime_bo_import kernel bo imported.fds sys in
      let (tiling, sys'') =
        call kernel (Request.device drm.ioctl_gem_get_tiling (get_or bo'.handles 0 0 ∷ [])) sys' in
      let destroyed = (drv_gem_bo_destroy kernel bo' sys'').1 in
      if ret != 0
      then (ret, bo', sys')
      else (if tiling.ret != 0
          then (tiling.ret, bo', destroyed)
          else (0, record bo' { meta = record bo'.meta { tiling = tiling.value } }, sys''))

  -- `I915_MMAP_WC`, or none.
  unfoldable pub mmap_flags : Bo → ℕ
  mmap_flags bo =
      if bit_and bo.meta.use_flags bo_use_scanout != 0
        && bit_and bo.meta.use_flags
            (bit_or bo_use_renderscript (bit_or bo_use_camera_read bo_use_camera_write))
          == 0
      then drm.mmap_wc
      else 0

  -- `DRM_IOCTL_I915_GEM_MMAP`, whose `addr_ptr` is the offset of the reply.
  unfoldable pub gem_mmap : Bo → Vma → Sys → Option ℕ × Vma × Sys
  gem_mmap bo vma sys =
      let (reply, sys') =
        call kernel
          (Request.device drm.ioctl_gem_mmap
            (mmap_flags bo ∷ get_or bo.handles 0 0 ∷ 0 ∷ bo.meta.total_size ∷ []))
          sys in
      if reply.ret != 0
      then (none, vma, sys')
      else (some reply.offset, record vma { length = bo.meta.total_size }, sys')

  -- The branch of a tiled buffer: through the aperture, or else as a linear one.
  unfoldable pub gtt_mmap : Bo → Vma → ℕ → Sys → Option ℕ × Vma × Sys
  gtt_mmap bo vma map_flags sys =
      let (reply, sys') =
        call kernel (Request.device drm.ioctl_gem_mmap_gtt (get_or bo.handles 0 0 ∷ [])) sys in
      let (mapped, sys'') =
        call kernel (Request.mmap bo.meta.total_size (drv_get_prot map_flags) reply.offset) sys' in
      let direct = gem_mmap bo vma sys' in
      if reply.ret != 0
      then direct
      else (if mapped.ret != 0
          then (none, vma, sys'')
          else (some mapped.offset, record vma { length = bo.meta.total_size }, sys''))

  unfoldable pub i915_bo_map : Bo → Vma → ℕ → ℕ → Sys → Option ℕ × Vma × Sys
  i915_bo_map bo vma plane map_flags sys =
      let linear = gem_mmap bo vma sys in
      let tiled = gtt_mmap bo vma map_flags sys in
      if get_or bo.meta.format_modifiers 0 0 == drm.mod_y_tiled_ccs
      then (none, vma, sys)
      else (if bo.meta.tiling == drm.tiling_none then linear else tiled)

  unfoldable pub i915_bo_invalidate : Bo → Vma → Sys → ℕ × Sys
  i915_bo_invalidate bo vma sys =
      let domain = if bo.meta.tiling == drm.tiling_none then drm.domain_cpu else drm.domain_gtt in
      let write_domain = if bit_and vma.map_flags bo_map_write != 0 then domain else 0 in
      let (reply, sys') =
        call kernel
          (Request.device drm.ioctl_gem_set_domain
            (get_or bo.handles 0 0 ∷ domain ∷ write_domain ∷ []))
          sys in
      (reply.ret, sys')

  -- The cache lines that are flushed; the code is always 0.
  unfoldable pub i915_bo_flush : I915Device → Bo → Vma → List ℕ
  i915_bo_flush i915 bo vma =
      let lines = i915_clflush vma.addr vma.length in
      if i915.has_llc == 0 && bo.meta.tiling == drm.tiling_none then lines else []
