-- ===== src/Tegra/Buffers.antt =====
-- tegra.c: the memory of a buffer. A failing request of the device answers a code other than 0.
use minigbm.Base.{
  ℕ, ◌*◌, ◌^◌, Option, none, some, List, [], ◌∷◌, get_or, set, bit_and, bit_or, ◌==◌, ◌!=◌,
  if◌then◌else◌, ◌>>=◌,
}
use minigbm.Flags.{
  bo_use_cursor, bo_use_linear, bo_use_sw_read_often, bo_use_sw_write_often, bo_map_write,
}
use minigbm.Types.{Bo, Vma, ImportFdData}
use minigbm.Kernel.{Kernel, Request, Sys, call}
use minigbm.Gem.{drv_gem_bo_destroy, drv_prime_bo_import}
use minigbm.Dumb.{drv_get_prot}
use minigbm.Tegra.{
  TegraLayout, compute_layout_linear, compute_layout_blocklinear, nv_mem_kind_pitch,
  nv_mem_kind_c32_2cra,
}
use minigbm.Tegra.Transfer.{transfer_tiled_memory}

-- The names of tegra_drm.h and drm_fourcc.h that the backend uses; `nv_mod_code` is
-- `fourcc_mod_code(NV, ...)`.
pub record TegraDrm : Type 0 where
  pub nv_mod_code : ℕ → ℕ
  pub tiling_mode_pitch : ℕ
  pub tiling_mode_block : ℕ
  pub ioctl_gem_create : ℕ
  pub gem_set_tiling : ℕ
  pub ioctl_gem_get_tiling : ℕ
  pub gem_mmap : ℕ

-- `struct tegra_private_map_data`
pub record PrivateMapData : Type 0 where
  pub tiled : ℕ
  pub untiled : ℕ

abbrev pub linear_flags : ℕ
linear_flags =
    bit_or bo_use_cursor (bit_or bo_use_linear (bit_or bo_use_sw_read_often bo_use_sw_write_often))

module _ (kernel : Kernel) (drm : TegraDrm) where
  -- From `DRM_IOCTL_TEGRA_GEM_CREATE` on.
  unfoldable pub create_laid_out : Bo → TegraLayout → Sys → ℕ × Bo × Sys
  create_laid_out bo layout sys =
      let (created, sys') =
        call kernel (Request.device drm.ioctl_gem_create (layout.size ∷ 0 ∷ [])) sys in
      let laid = record bo {
        handles = set bo.handles 0 created.handle;
        meta = record bo.meta {
          offsets = set bo.meta.offsets 0 0;
          total_size = layout.size;
          sizes = set bo.meta.sizes 0 layout.size;
          strides = set bo.meta.strides 0 layout.stride;
        };
      } in
      let (tiled, sys'') =
        call kernel
          (Request.device drm.gem_set_tiling
            (created.handle ∷ drm.tiling_mode_block ∷ layout.block_height_log2 ∷ []))
          sys' in
      let destroyed = (drv_gem_bo_destroy kernel laid sys'').1 in
      let tiling =
        bit_or (bit_and layout.kind 0xff) (bit_and layout.block_height_log2 0xf * 2 ^ 8) in
      let marked = record laid {
        meta = record laid.meta {
          tiling = tiling;
          format_modifiers = set laid.meta.format_modifiers 0 (drm.nv_mod_code tiling);
        };
      } in
      if created.ret != 0
      then (sys'.errno, bo, sys')
      else (if layout.kind == nv_mem_kind_pitch
          then (0, laid, sys')
          else (if tiled.ret != 0 then (tiled.ret, laid, destroyed) else (0, marked, sys'')))

  unfoldable pub tegra_bo_create : Bo → ℕ → ℕ → ℕ → ℕ → Sys → Option (ℕ × Bo × Sys)
  tegra_bo_create bo width height format use_flags sys = do
    layout ←
        if bit_and use_flags linear_flags != 0
        then compute_layout_linear width height format
        else compute_layout_blocklinear width height format
    some (create_laid_out bo layout sys)

  -- `none` for the failing `assert(0)` of an unknown mode; `mode` is the value of the reply.
  unfoldable pub tegra_bo_import : Bo → ImportFdData → Sys → Option (ℕ × Bo × Sys)
  tegra_bo_import bo imported sys =
      let (ret, bo', sys') = drv_prime_bo_import kernel bo imported.fds sys in
      let (reply, sys'') =
        call kernel (Request.device drm.ioctl_gem_get_tiling (get_or bo'.handles 0 0 ∷ [])) sys' in
      let destroyed = (drv_gem_bo_destroy kernel bo' sys'').1 in
      let mark : ℕ → ℕ × Bo × Sys = λ tiling. (
        0,
        record bo' {
          meta = record bo'.meta {
            tiling = tiling;
            format_modifiers = set bo'.meta.format_modifiers 0 (drm.nv_mod_code tiling);
          };
        },
        sys'',
      ) in
      if ret != 0
      then some (ret, bo', sys')
      else (if reply.ret != 0
          then some (destroyed.errno, bo', destroyed)
          else (if reply.value == drm.tiling_mode_pitch
              then some (mark nv_mem_kind_pitch)
              else (if reply.value == drm.tiling_mode_block
                  then some (mark nv_mem_kind_c32_2cra)
                  else none)))

  -- `untiled` is the address that `calloc` gives. The pairs are what is copied from the tiled memory.
  unfoldable pub tegra_bo_map :
      ℕ → Bo → Vma → ℕ → Sys → Option (Option ℕ × Vma × Option PrivateMapData × List (ℕ × ℕ) × Sys)
  tegra_bo_map untiled bo vma map_flags sys = do
    let (reply, sys') = call kernel (Request.device drm.gem_mmap (get_or bo.handles 0 0 ∷ [])) sys
    let (mapped, sys'') =
        call kernel (Request.mmap bo.meta.total_size (drv_get_prot map_flags) reply.offset) sys'
    let vma' = record vma { length = bo.meta.total_size }
    let is_tiled = bit_and bo.meta.tiling 0xff == nv_mem_kind_c32_2cra
    let copied = transfer_tiled_memory bo >>= λ pairs. some (
      some untiled,
      record vma' { priv = untiled },
      some (record { tiled = mapped.offset; untiled = untiled }),
      pairs,
      sys'',
    )
    if reply.ret != 0
        then some (none, vma, none, [], sys')
        else (if mapped.ret != 0
            then some (none, vma', none, [], sys'')
            else (if is_tiled then copied else some (some mapped.offset, vma', none, [], sys'')))

  unfoldable pub tegra_bo_unmap : Vma → Option PrivateMapData → Sys → ℕ × Vma × Sys
  tegra_bo_unmap vma none sys =
      let (reply, sys') = call kernel (Request.munmap vma.addr vma.length) sys in
      (reply.ret, vma, sys')
  tegra_bo_unmap vma (some priv) sys =
      let (reply, sys') = call kernel (Request.munmap priv.tiled vma.length) sys in
      (reply.ret, record vma { addr = priv.tiled; priv = 0 }, sys')

-- What is copied back into the tiled memory.
unfoldable pub tegra_bo_flush : Bo → Vma → Option PrivateMapData → Option (List (ℕ × ℕ))
tegra_bo_flush bo vma none = some []
tegra_bo_flush bo vma (some priv) =
    let copied = transfer_tiled_memory bo in
    if bit_and vma.map_flags bo_map_write != 0 then copied else some []
