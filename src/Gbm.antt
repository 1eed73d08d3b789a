-- ===== src/Gbm.antt =====
-- gbm.c and gbm_priv.h: the front end. A device is its driver; `malloc` does not fail. As in the
-- driver, a pointer that may be NULL is an option inside, and an abort is `none` outside.
pub mod Usage
pub mod Name
pub mod Import
pub mod Map
pub mod Supported
use minigbm.Base.{
  ℕ, ◌≡◌, Bool, true, false, ◌&&◌, Option, none, some, List, bit_and, ◌==◌, ◌!=◌, if◌then◌else◌,
  ◌>>=◌,
}
use minigbm.Fourcc.{drm_format_yvu420, drm_format_yvu420_android}
use minigbm.Types.{Bo, Combination}
use minigbm.Format.{drv_bytes_per_pixel_from_format}
use minigbm.Combos.{drv_get_combination}
use minigbm.Kernel.{Kernel, Sys}
use minigbm.Backend.{Backend}
use minigbm.Refcount.{DrmHash}
use minigbm.Mappings.{drv_bo_flush_or_unmap}
use minigbm.Driver.{Driver, drv_bo_create, drv_bo_create_with_modifiers, drv_bo_destroy}
use minigbm.Driver.Query.{
  drv_bo_get_width, drv_bo_get_height, drv_bo_get_num_planes, drv_bo_get_plane_handle,
  drv_bo_get_plane_offset, drv_bo_get_plane_size, drv_bo_get_plane_stride,
  drv_bo_get_plane_format_modifier, drv_bo_get_format, drv_bo_get_plane_fd,
}
use minigbm.Gbm.Usage.{
  gbm_bo_use_cursor, gbm_bo_use_rendering, gbm_bo_use_linear, gbm_convert_usage,
}

-- `struct gbm_bo`; `user_data` is 0 for NULL, and `destroy_user_data` the callback, by its address.
pub record GbmBo : Type 0 where
  pub bo : Bo
  pub gbm_format : ℕ
  pub user_data : ℕ
  pub destroy_user_data : Option ℕ

unfoldable pub gbm_device_is_format_supported : List Combination → ℕ → ℕ → Bool
gbm_device_is_format_supported combos format usage =
    let found = elim (drv_get_combination combos format (gbm_convert_usage usage)) as (λ _. Bool) [
      | none ↦ false
      | some c ↦ true
    ] in
    if bit_and usage gbm_bo_use_cursor != 0 && bit_and usage gbm_bo_use_rendering != 0
    then false
    else found

-- `gbm_bo_new`, with the buffer of the driver that its callers set next.
unfoldable pub gbm_bo_new : ℕ → Bo → GbmBo
gbm_bo_new format bo = record {
  bo = bo;
  gbm_format = format;
  user_data = 0;
  destroy_user_data = none;
}

-- `if (!bo->bo) { free(bo); return NULL; } return bo;`
unfoldable pub wrap : ℕ → Option Bo → Option GbmBo
wrap format none = none
wrap format (some bo) = some (gbm_bo_new format bo)

-- The format that `gbm_bo_create` asks the driver for.
unfoldable pub allocated_format : ℕ → ℕ → ℕ
allocated_format format usage =
    if format == drm_format_yvu420 && bit_and usage gbm_bo_use_linear != 0
    then drm_format_yvu420_android
    else format

module _ (hash : DrmHash) (backend : Backend) where
  unfoldable pub gbm_bo_create :
      Driver hash → ℕ → ℕ → ℕ → ℕ → Sys → Option (Option GbmBo × Driver hash × Sys)
  gbm_bo_create drv width height format usage sys =
      let create =
        drv_bo_create hash backend drv width height (allocated_format format usage)
          (gbm_convert_usage usage) sys
        >>= λ (r : Option Bo × Driver hash × Sys). some (wrap format r.0, r.1, r.2) in
      if gbm_device_is_format_supported drv.combos format usage
      then create
      else some (none, drv, sys)

  unfoldable pub gbm_bo_create_with_modifiers :
      Driver hash → ℕ → ℕ → ℕ → List ℕ → Sys → Option (Option GbmBo × Driver hash × Sys)
  gbm_bo_create_with_modifiers drv width height format modifiers sys =
      drv_bo_create_with_modifiers hash backend drv width height format modifiers sys
      >>= λ (r : Option Bo × Driver hash × Sys). some (wrap format r.0, r.1, r.2)

  -- The call of the user's callback, if any, is the first component: its address and its data.
  unfoldable pub gbm_bo_destroy :
      GbmBo → Driver hash → Sys → Option (Option (ℕ × ℕ) × Driver hash × Sys)
  gbm_bo_destroy bo drv sys =
      let called = elim bo.destroy_user_data as (λ _. Option (ℕ × ℕ)) [
        | none ↦ none
        | some f ↦ some (f, bo.user_data)
      ] in
      drv_bo_destroy hash backend bo.bo drv sys >>= λ (d : Driver hash × Sys).
      some (called, d.0, d.1)

  unfoldable pub gbm_bo_unmap : GbmBo → ℕ → Driver hash → Sys → Option (Driver hash × Sys)
  gbm_bo_unmap bo map_data drv sys = do
    r ← drv_bo_flush_or_unmap backend bo.bo map_data drv.maps sys
    some (record drv { maps = r.1 }, r.2)

unfoldable pub gbm_bo_get_width : GbmBo → ℕ
gbm_bo_get_width bo = drv_bo_get_width bo.bo

unfoldable pub gbm_bo_get_height : GbmBo → ℕ
gbm_bo_get_height bo = drv_bo_get_height bo.bo

unfoldable pub gbm_bo_get_stride_for_plane : GbmBo → ℕ → Option ℕ
gbm_bo_get_stride_for_plane bo plane = drv_bo_get_plane_stride bo.bo plane

unfoldable pub gbm_bo_get_stride : GbmBo → Option ℕ
gbm_bo_get_stride bo = gbm_bo_get_stride_for_plane bo 0

unfoldable pub gbm_bo_get_format : GbmBo → ℕ
gbm_bo_get_format bo = bo.gbm_format

unfoldable pub gbm_bo_get_bpp : GbmBo → Option ℕ
gbm_bo_get_bpp bo = drv_bytes_per_pixel_from_format (drv_bo_get_format bo.bo) 0

unfoldable pub gbm_bo_get_modifier : GbmBo → Option ℕ
gbm_bo_get_modifier bo = drv_bo_get_plane_format_modifier bo.bo 0

unfoldable pub gbm_bo_get_handle_for_plane : GbmBo → ℕ → ℕ
gbm_bo_get_handle_for_plane bo plane = drv_bo_get_plane_handle bo.bo plane

unfoldable pub gbm_bo_get_handle : GbmBo → ℕ
gbm_bo_get_handle bo = gbm_bo_get_handle_for_plane bo 0

unfoldable pub gbm_bo_get_plane_fd : Kernel → GbmBo → ℕ → Sys → Option (ℕ × ℕ × Sys)
gbm_bo_get_plane_fd kernel bo plane sys = drv_bo_get_plane_fd kernel bo.bo plane sys

unfoldable pub gbm_bo_get_fd : Kernel → GbmBo → Sys → Option (ℕ × ℕ × Sys)
gbm_bo_get_fd kernel bo sys = gbm_bo_get_plane_fd kernel bo 0 sys

unfoldable pub gbm_bo_get_plane_count : GbmBo → ℕ
gbm_bo_get_plane_count bo = drv_bo_get_num_planes bo.bo

unfoldable pub gbm_bo_get_offset : GbmBo → ℕ → Option ℕ
gbm_bo_get_offset bo plane = drv_bo_get_plane_offset bo.bo plane

unfoldable pub gbm_bo_get_plane_size : GbmBo → ℕ → Option ℕ
gbm_bo_get_plane_size bo plane = drv_bo_get_plane_size bo.bo plane

unfoldable pub gbm_bo_set_user_data : GbmBo → ℕ → Option ℕ → GbmBo
gbm_bo_set_user_data bo user_data destroy_user_data = record bo {
  user_data = user_data;
  destroy_user_data = destroy_user_data;
}

unfoldable pub gbm_bo_get_user_data : GbmBo → ℕ
gbm_bo_get_user_data bo = bo.user_data
