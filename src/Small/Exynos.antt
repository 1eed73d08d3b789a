-- ===== src/Small/Exynos.antt =====
-- exynos.c: each plane has a buffer of its own.
use minigbm.Base.{
  ℕ, zero, suc, ◌+◌, ◌*◌, ◌/◌, ◌||◌, Option, none, some, List, [], ◌∷◌, get_or, set, ◌==◌, ◌!=◌,
  if◌then◌else◌, ◌>>=◌,
}
use minigbm.Util.{u32, align}
use minigbm.Flags.{bo_use_render_mask, bo_use_texture_mask}
use minigbm.Fourcc.{drm_format_argb8888, drm_format_xrgb8888, drm_format_nv12}
use minigbm.Types.{Bo, Metadata, Combination}
use minigbm.Format.{drv_stride_from_format}
use minigbm.Combos.{linear_metadata, drv_add_combinations, drv_modify_linear_combinations}
use minigbm.Kernel.{Kernel, Request, Sys, call}

abbrev pub exynos_render_formats : List ℕ
exynos_render_formats = drm_format_argb8888 ∷ drm_format_xrgb8888 ∷ []

unfoldable pub exynos_init : List Combination → List Combination
exynos_init combos = drv_modify_linear_combinations (
    drv_add_combinations
      (drv_add_combinations combos exynos_render_formats linear_metadata bo_use_render_mask)
      (drm_format_nv12 ∷ []) linear_metadata bo_use_texture_mask)

-- The layout of NV12.
unfoldable pub mfc_layout : Metadata → ℕ → ℕ → Metadata
mfc_layout m width height =
    let stride = align width 16 in
    let luma_height = align height 32 in
    let chroma_height = align (luma_height / 2) 32 in
    let luma = u32 (u32 (stride * luma_height) + 64) in
    let chroma = u32 (u32 (stride * chroma_height) + 64) in
    record m {
      strides = set (set m.strides 1 stride) 0 stride;
      sizes = set (set m.sizes 0 luma) 1 chroma;
      offsets = set (set m.offsets 1 0) 0 0;
      total_size = u32 (luma + chroma);
    }

-- The layout; `none` for the failing `assert(0)` of another format.
unfoldable pub exynos_layout : Metadata → ℕ → ℕ → ℕ → Option Metadata
exynos_layout m width height format =
    let packed = drv_stride_from_format format width 0 >>= λ stride. some (record m {
      strides = set m.strides 0 stride;
      sizes = set m.sizes 0 (u32 (height * stride));
      offsets = set m.offsets 0 0;
      total_size = u32 (height * stride);
    }) in
    if format == drm_format_nv12
    then some (mfc_layout m width height)
    else (if format == drm_format_xrgb8888 || format == drm_format_argb8888 then packed else none)

-- The names of exynos_drm.h.
pub record ExynosDrm : Type 0 where
  pub ioctl_gem_create : ℕ
  pub bo_noncontig : ℕ

module _ (kernel : Kernel) (drm : ExynosDrm) where
  -- `cleanup_planes`: the handles below a plane are closed, the latest first.
  unfoldable pub cleanup_planes : List ℕ → ℕ → Sys → Sys
  cleanup_planes handles zero sys = sys
  cleanup_planes handles (suc plane) sys =
      cleanup_planes handles plane (call kernel (Request.gem_close (get_or handles plane 0)) sys).1

  -- The loop from a plane on. The code is the `errno` of the failing request.
  unfoldable pub create_planes : ℕ → ℕ → Bo → Sys → ℕ × Bo × Sys
  create_planes zero plane bo sys = (0, bo, sys)
  create_planes (suc rest) plane bo sys =
      let (reply, sys') =
        call kernel
          (Request.device drm.ioctl_gem_create
            (get_or bo.meta.sizes plane 0 ∷ drm.bo_noncontig ∷ []))
          sys in
      let next =
        create_planes rest (suc plane) (record bo { handles = set bo.handles plane reply.handle })
          sys' in
      if reply.ret != 0 then (sys'.errno, bo, cleanup_planes bo.handles plane sys') else next

  unfoldable pub exynos_bo_create : Bo → ℕ → ℕ → ℕ → Sys → Option (ℕ × Bo × Sys)
  exynos_bo_create bo width height format sys = do
    m ← exynos_layout bo.meta width height format
    some (create_planes m.num_planes 0 (record bo { meta = m }) sys)
