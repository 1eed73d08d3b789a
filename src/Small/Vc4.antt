-- ===== src/Small/Vc4.antt =====
-- vc4.c
use minigbm.Base.{ℕ, Option, none, some, List, [], ◌∷◌, get_or, ◌==◌, ◌!=◌, if◌then◌else◌, ◌>>=◌}
use minigbm.Util.{align}
use minigbm.Flags.{bo_use_render_mask, drm_format_mod_linear}
use minigbm.Fourcc.{drm_format_argb8888, drm_format_rgb565, drm_format_xrgb8888}
use minigbm.Types.{Bo, Vma, Combination}
use minigbm.Format.{drv_stride_from_format}
use minigbm.BoLayout.{drv_bo_from_format}
use minigbm.Combos.{
  linear_metadata, drv_add_combinations, drv_modify_linear_combinations, drv_get_combination,
}
use minigbm.Modifiers.{drv_pick_modifier}
use minigbm.Kernel.{Kernel, Request, Sys, call}
use minigbm.Dumb.{set_handles, drv_get_prot}
use minigbm.Driver.{einval}

abbrev pub vc4_formats : List ℕ
vc4_formats = drm_format_argb8888 ∷ drm_format_rgb565 ∷ drm_format_xrgb8888 ∷ []

unfoldable pub vc4_init : List Combination → List Combination
vc4_init combos =
    drv_modify_linear_combinations
      (drv_add_combinations combos vc4_formats linear_metadata bo_use_render_mask)

-- The names of vc4_drm.h.
pub record Vc4Drm : Type 0 where
  pub ioctl_create_bo : ℕ
  pub mmap_bo : ℕ

module _ (kernel : Kernel) (drm : Vc4Drm) where
  -- Only linear buffers are created.
  unfoldable pub vc4_bo_create_for_modifier : Bo → ℕ → ℕ → ℕ → ℕ → Sys → Option (ℕ × Bo × Sys)
  vc4_bo_create_for_modifier bo width height format modifier sys =
      let created = drv_stride_from_format format width 0 >>= λ stride.
      drv_bo_from_format bo.meta (align stride 64) height format >>= λ m.
      let (reply, sys') =
        call kernel (Request.device drm.ioctl_create_bo (m.total_size ∷ [])) sys in
      some (
        if reply.ret != 0 then (sys'.errno, record bo { meta = m }, sys') else (
          0,
          record bo { meta = m; handles = set_handles reply.handle m.num_planes 0 bo.handles },
          sys',
        )) in
      if modifier == drm_format_mod_linear then created else some (einval, bo, sys)

  unfoldable pub vc4_bo_create : List Combination → Bo → ℕ → ℕ → ℕ → ℕ → Sys → Option (ℕ × Bo × Sys)
  vc4_bo_create combos bo width height format use_flags sys =
      elim (drv_get_combination combos format use_flags) as (λ _. Option (ℕ × Bo × Sys)) [
        | none ↦ some (einval, bo, sys)
        | some combo ↦ vc4_bo_create_for_modifier bo width height format combo.metadata.modifier sys
      ]

  unfoldable pub vc4_bo_create_with_modifiers :
      Bo → ℕ → ℕ → ℕ → List ℕ → Sys → Option (ℕ × Bo × Sys)
  vc4_bo_create_with_modifiers bo width height format modifiers sys =
      vc4_bo_create_for_modifier bo width height format
        (drv_pick_modifier modifiers (drm_format_mod_linear ∷ [])) sys

  unfoldable pub vc4_bo_map : Bo → Vma → ℕ → Sys → Option ℕ × Vma × Sys
  vc4_bo_map bo vma map_flags sys =
      let (reply, sys') =
        call kernel (Request.device drm.mmap_bo (get_or bo.handles 0 0 ∷ [])) sys in
      let (mapped, sys'') =
        call kernel (Request.mmap bo.meta.total_size (drv_get_prot map_flags) reply.offset) sys' in
      if reply.ret != 0 then (none, vma, sys') else (
        if mapped.ret != 0 then none else some mapped.offset,
        record vma { length = bo.meta.total_size },
        sys'',
      )
