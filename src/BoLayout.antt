-- ===== src/BoLayout.antt =====
-- helpers.c: `drv_bo_from_format` and `drv_bo_from_format_and_padding`, which lay the planes of a
-- buffer out one after the other in one kernel buffer.
pub mod Loop
pub mod Contiguous
pub mod Planes
use minigbm.Base.{
  ℕ, zero, suc, ◌+◌, ◌*◌, Option, none, some, List, get_or, set, replicate, ltb, ◌==◌,
  if◌then◌else◌, ◌>>=◌, ◌>>◌, assert,
}
use minigbm.Util.{u32, align}
use minigbm.Fourcc.{drm_format_yvu420_android}
use minigbm.Format.{drv_num_planes_from_format, drv_size_from_format, subsample_stride}
use minigbm.Types.{Metadata, drv_max_planes}

-- One round of the loop: plane `p` at `offset`, with its size already computed.
abbrev pub place_plane : Metadata → ℕ → ℕ → ℕ → ℕ → Metadata
place_plane m p offset stride size = record m {
  offsets = set m.offsets p offset;
  sizes = set m.sizes p size;
  strides = set m.strides p stride;
}

module _ (stride aligned_height format : ℕ) (padding : List ℕ) where
  -- The loop from plane `p` on, with the number of planes left; it returns the final offset too.
  pub place_planes : ℕ → ℕ → ℕ → Metadata → Option (Metadata × ℕ)
  place_planes zero p offset m = some (m, offset)
  place_planes (suc rest) p offset m = do
    let plane_stride = subsample_stride stride format p
    bytes ← drv_size_from_format format plane_stride aligned_height p
    let size = u32 (bytes + get_or padding p 0)
    place_planes rest (suc p) (u32 (offset + size)) (place_plane m p offset plane_stride size)

-- The assertions on the Android format.
unfoldable pub android_ok : Metadata → ℕ → ℕ → ℕ → Option (Unit {0})
android_ok m stride aligned_height format =
    if format == drm_format_yvu420_android
    then (assert (aligned_height == m.height) >> assert (stride == align stride 32))
    else some tt

unfoldable pub drv_bo_from_format_and_padding : Metadata → ℕ → ℕ → ℕ → List ℕ → Option Metadata
unfolding place_planes android_ok
drv_bo_from_format_and_padding m stride aligned_height format padding = do
  let num_planes = drv_num_planes_from_format format
  assert (ltb 0 num_planes)
  android_ok m stride aligned_height format
  placed ← place_planes stride aligned_height format padding num_planes 0 0 m
  some (record (placed.0) { total_size = placed.1 })

unfoldable pub drv_bo_from_format : Metadata → ℕ → ℕ → ℕ → Option Metadata
drv_bo_from_format m stride aligned_height format =
    drv_bo_from_format_and_padding m stride aligned_height format (replicate drv_max_planes 0)
