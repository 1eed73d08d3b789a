-- ===== src/Tests/Tiles.antt =====
-- The backends of i915, tegra and exynos.
use minigbm.Base.{
  ℕ, ◌^◌, ◌/◌, ◌*◌, ◌%◌, ◌+◌, ◌≡◌, ◌≢◌, ◌<◌, refl, arith, false, some, [], ◌∷◌, bit_or,
}
use minigbm.Util.{align}
use minigbm.Fourcc.{drm_format_nv12}
use minigbm.Flags.{bo_use_camera_read, bo_use_texture_mask, drm_format_mod_linear}
use minigbm.Types.{Metadata, Combination}
use minigbm.Format.{layout_from_format, biplanar_yuv_420_layout}
use minigbm.Combos.{
  drv_get_combination, best_of, drv_add_combination, drv_add_combinations, drv_modify_combination,
  drv_modify_linear_combinations,
}
use minigbm.Kernel.{Kernel}
use minigbm.I915.{I915Drm}
use minigbm.I915.Formats.{
  i915_add_combinations, add_linear_combinations, add_x_tiled_combinations,
  add_y_tiled_combinations, tiled_render, x_tiled_scanout, y_tiled_scanout, unset_flags,
}
use minigbm.I915.Formats.LinearOnly.{linear_use_modifier}
use minigbm.I915.Layout.{i915_bo_from_format}
use minigbm.I915.Layout.Tiles.{start, y_tiled, Laid, i915_bo_from_format_lem}
use minigbm.I915.Clflush.{i915_clflush, Covers, i915_clflush_lem}
use minigbm.Tegra.{compute_block_height_log2}
use minigbm.Tegra.Transfer.{transfer_gob_height}
use minigbm.Tegra.BlockHeight.{IsBlock, compute_block_height_log2_lem}
use minigbm.Small.Exynos.{ExynosDrm, create_planes}
use minigbm.Small.Cleanup.{Created, create_planes-Created}
use minigbm.Tests.{nv12_bo, nv12_metadata, no_calls, willing_kernel}

-- Concrete values for the names of the kernel's headers.
abbrev i915_drm : I915Drm
i915_drm = record {
  tiling_none = 0;
  tiling_x = 1;
  tiling_y = 2;
  mod_x_tiled = 2 ^ 56 + 1;
  mod_y_tiled = 2 ^ 56 + 2;
  mod_y_tiled_ccs = 2 ^ 56 + 4;
  param_chipset_id = 4;
  param_has_llc = 17;
  mmap_wc = 1;
  domain_cpu = 1;
  domain_gtt = 64;
  ioctl_getparam = 1;
  ioctl_gem_create = 2;
  ioctl_gem_set_tiling = 3;
  ioctl_gem_get_tiling = 4;
  ioctl_gem_mmap = 5;
  ioctl_gem_mmap_gtt = 6;
  ioctl_gem_set_domain = 7;
}

nv12_known : layout_from_format drm_format_nv12 ≡ some biplanar_yuv_420_layout
unfolding layout_from_format
nv12_known = refl

abbrev y_tiled_metadata : Metadata
y_tiled_metadata = record nv12_metadata { tiling = 2 }

i915_bo_from_format_lem_example :
    (m' : Metadata) × (i915_bo_from_format i915_drm 4096 y_tiled_metadata 64 32 drm_format_nv12
      ≡ some m')
    × Laid i915_drm 2 64 32 drm_format_nv12 biplanar_yuv_420_layout nv12_known y_tiled_metadata m'
    × (m'.total_size ≡ align (start i915_drm 2 64 32 drm_format_nv12 2) 4096)
    × (i915_drm.tiling_y ≢ i915_drm.tiling_none
        → (p : ℕ) → p < 2
        → start i915_drm 2 64 32 drm_format_nv12 p % 4096 ≡ 0)
i915_bo_from_format_lem_example =
    i915_bo_from_format_lem i915_drm 2 64 32 drm_format_nv12 biplanar_yuv_420_layout nv12_known
      y_tiled_metadata (y_tiled refl) (omega arith) refl
      (record { offsets_full = refl; sizes_full = refl; strides_full = refl })

-- The entry of the table that a camera gets for NV12.
abbrev camera_nv12 : Combination
camera_nv12 = record {
  format = drm_format_nv12;
  metadata = record { priority = 1; tiling = 0; modifier = drm_format_mod_linear };
  use_flags = bit_or bo_use_texture_mask 24769;
}

camera_chosen :
    drv_get_combination
      (i915_add_combinations i915_drm false false false false [])
      drm_format_nv12
      bo_use_camera_read
    ≡ some camera_nv12
unfolding drv_get_combination best_of i915_add_combinations add_linear_combinations
    add_x_tiled_combinations add_y_tiled_combinations tiled_render x_tiled_scanout y_tiled_scanout
    unset_flags drv_add_combination drv_add_combinations drv_modify_combination
    drv_modify_linear_combinations
camera_chosen = refl

linear_use_modifier_example : camera_nv12.metadata.modifier ≡ drm_format_mod_linear
linear_use_modifier_example =
    linear_use_modifier i915_drm false false false false drm_format_nv12 bo_use_camera_read
      camera_nv12 (omega arith) (omega arith) camera_chosen

i915_clflush_lem_example : Covers (100 / 64 * 64) (100 + 200) (i915_clflush 100 200)
i915_clflush_lem_example = i915_clflush_lem 100 200 (omega arith)

compute_block_height_log2_lem_example :
    IsBlock 20 (compute_block_height_log2 20)
    × (transfer_gob_height 20 ≡ 8 * 2 ^ compute_block_height_log2 20)
compute_block_height_log2_lem_example = compute_block_height_log2_lem 20 (omega arith)

-- A kernel that refuses the buffer of the second plane.
abbrev refusing_second : Kernel
refusing_second calls request =
    let granted = willing_kernel calls request in
    elim calls [ [] ↦ granted | r ∷ rest ↦ record granted { ret = 1; error = 12 } ]

abbrev exynos_drm : ExynosDrm
exynos_drm = record { ioctl_gem_create = 1; bo_noncontig = 1 }

create_planes-Created_example :
    Created refusing_second exynos_drm nv12_metadata no_calls
      (create_planes refusing_second exynos_drm 2 0 nv12_bo no_calls)
create_planes-Created_example =
    create_planes-Created refusing_second exynos_drm nv12_bo no_calls (omega arith)
