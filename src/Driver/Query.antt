-- ===== src/Driver/Query.antt =====
-- drv.c: what a caller asks of a driver and of a buffer.
use minigbm.Base.{
  ℕ, true, false, Option, none, some, List, get_or, ltb, ◌==◌, ◌!=◌, if◌then◌else◌, ◌>>◌, assert,
}
use minigbm.Flags.{drm_format_mod_invalid}
use minigbm.Types.{Bo}
use minigbm.Format.{drv_num_planes_from_format}
use minigbm.Kernel.{Kernel, Request, Sys, call}
use minigbm.Backend.{Backend}
use minigbm.Driver.{einval}

unfoldable pub drv_bo_get_width : Bo → ℕ
drv_bo_get_width bo = bo.meta.width

unfoldable pub drv_bo_get_height : Bo → ℕ
drv_bo_get_height bo = bo.meta.height

unfoldable pub drv_bo_get_num_planes : Bo → ℕ
drv_bo_get_num_planes bo = bo.meta.num_planes

unfoldable pub drv_bo_get_plane_handle : Bo → ℕ → ℕ
drv_bo_get_plane_handle bo plane = get_or bo.handles plane 0

-- The queries that assert the plane.
abbrev of_plane : Bo → List ℕ → ℕ → Option ℕ
of_plane bo values plane = do assert (ltb plane bo.meta.num_planes); some (get_or values plane 0)

unfoldable pub drv_bo_get_plane_offset : Bo → ℕ → Option ℕ
drv_bo_get_plane_offset bo plane = of_plane bo bo.meta.offsets plane

unfoldable pub drv_bo_get_plane_size : Bo → ℕ → Option ℕ
drv_bo_get_plane_size bo plane = of_plane bo bo.meta.sizes plane

unfoldable pub drv_bo_get_plane_stride : Bo → ℕ → Option ℕ
drv_bo_get_plane_stride bo plane = of_plane bo bo.meta.strides plane

unfoldable pub drv_bo_get_plane_format_modifier : Bo → ℕ → Option ℕ
drv_bo_get_plane_format_modifier bo plane = of_plane bo bo.meta.format_modifiers plane

unfoldable pub drv_bo_get_format : Bo → ℕ
drv_bo_get_format bo = bo.meta.format

unfoldable pub drv_bo_get_total_size : Bo → ℕ
drv_bo_get_total_size bo = bo.meta.total_size

-- The code and the file descriptor; the second call leaves out `DRM_RDWR`.
unfoldable pub drv_bo_get_plane_fd : Kernel → Bo → ℕ → Sys → Option (ℕ × ℕ × Sys)
drv_bo_get_plane_fd kernel bo plane sys = do
  assert (ltb plane bo.meta.num_planes)
  let handle = get_or bo.handles plane 0
  let (writable, sys') = call kernel (Request.handle_to_fd handle true) sys
  let (again, sys'') = call kernel (Request.handle_to_fd handle false) sys'
  if bo.is_test_buffer
      then some (einval, 0, sys)
      else (if writable.ret == 0
          then some (0, writable.handle, sys')
          else some (again.ret, again.handle, sys''))

unfoldable pub drv_resolve_format : Backend → ℕ → ℕ → ℕ
drv_resolve_format backend format use_flags = elim backend.resolve_format [
  | none ↦ format
  | some f ↦ f format use_flags
]

-- helpers.c
unfoldable pub drv_num_planes_from_modifier : Backend → ℕ → ℕ → ℕ
drv_num_planes_from_modifier backend format modifier =
    let planes = drv_num_planes_from_format format in
    let asked = elim backend.num_planes_from_modifier as (λ _. ℕ) [
      | none ↦ planes
      | some f ↦ if modifier != drm_format_mod_invalid then f format modifier else planes
    ] in
    if planes == 0 then 0 else asked
