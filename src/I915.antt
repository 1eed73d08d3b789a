-- ===== src/I915.antt =====
-- i915.c, as it is compiled without `USE_GRALLOC1`: the constants of the kernel's headers, and what
-- the device is.
pub mod Device
pub mod Formats
pub mod Layout
pub mod Buffers
pub mod Clflush
pub mod Init
use minigbm.Base.{ℕ}

-- The names of i915_drm.h and drm_fourcc.h that the backend uses.
pub record I915Drm : Type 0 where
  pub tiling_none : ℕ
  pub tiling_x : ℕ
  pub tiling_y : ℕ
  pub mod_x_tiled : ℕ
  pub mod_y_tiled : ℕ
  pub mod_y_tiled_ccs : ℕ
  pub param_chipset_id : ℕ
  pub param_has_llc : ℕ
  pub mmap_wc : ℕ
  pub domain_cpu : ℕ
  pub domain_gtt : ℕ
  pub ioctl_getparam : ℕ
  pub ioctl_gem_create : ℕ
  pub ioctl_gem_set_tiling : ℕ
  pub ioctl_gem_get_tiling : ℕ
  pub ioctl_gem_mmap : ℕ
  pub ioctl_gem_mmap_gtt : ℕ
  pub ioctl_gem_set_domain : ℕ
