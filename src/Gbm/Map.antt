-- ===== src/Gbm/Map.antt =====
-- gbm.c: mapping a buffer for a caller.
pub mod Bounds
use minigbm.Base.{
  ℕ, zero, suc, ◌+◌, ◌-◌, ◌*◌, ◌%◌, ◌^◌, ◌≤◌, ◌<◌, ◌≡◌, refl, Bool, true, false, not, ◌&&◌, ◌||◌,
  Option, none, some, get_or, bit_and, bit_or, arith, ◌==◌, ◌!=◌, if◌then◌else◌, ◌>>=◌,
}
use minigbm.Util.{u32}
use minigbm.Flags.{bo_map_none, bo_map_read, bo_map_write}
use minigbm.Types.{Rectangle}
use minigbm.Format.{drv_bytes_per_pixel_from_format}
use minigbm.Kernel.{Sys}
use minigbm.Backend.{Backend}
use minigbm.Mappings.{Maps, Mapped, find_mapping, drv_bo_map}
use minigbm.Gbm.{GbmBo}

-- `GBM_BO_TRANSFER_READ` and `GBM_BO_TRANSFER_WRITE` of gbm.h
abbrev pub gbm_bo_transfer_read : ℕ
gbm_bo_transfer_read = 2 ^ 0

abbrev pub gbm_bo_transfer_write : ℕ
gbm_bo_transfer_write = 2 ^ 1

-- `map_flags`
unfoldable pub transfer_map_flags : ℕ → ℕ
transfer_map_flags transfer_flags =
    bit_or (if bit_and transfer_flags gbm_bo_transfer_read != 0 then bo_map_read else bo_map_none)
      (if bit_and transfer_flags gbm_bo_transfer_write != 0 then bo_map_write else bo_map_none)

-- The address, with `*stride` and `*map_data`.
pub record Region : Type 0 where
  pub addr : ℕ
  pub stride : ℕ
  pub map_data : ℕ

pub data MapResult : Type 0 where
  null : MapResult
  map_failed : MapResult
  region : Region → MapResult

-- `offset`, where the products are of 32 bits.
unfoldable pub map_offset : ℕ → ℕ → ℕ → ℕ → ℕ
map_offset stride x y bytes_per_pixel = u32 (stride * y) + u32 (x * bytes_per_pixel)

-- From the call of `drv_bo_map` on.
unfoldable pub finish_map2 :
    GbmBo → ℕ → ℕ → ℕ → Option Mapped → Maps → Sys → Option (MapResult × Maps × Sys)
finish_map2 bo x y plane none maps sys = some (map_failed, maps, sys)
finish_map2 bo x y plane (some m) maps sys = do
  mapping ← find_mapping m.map_data maps.mappings
  vma ← maps.vmas mapping.vma
  let stride = get_or vma.map_strides plane 0
  bytes ← drv_bytes_per_pixel_from_format bo.gbm_format plane
  some (
    region (record {
      addr = m.addr + map_offset stride x y bytes;
      stride = stride;
      map_data = m.map_data;
    }),
    maps,
    sys,
  )

-- `has_stride` and `has_map_data` tell whether the caller gave the two pointers.
unfoldable pub gbm_bo_map2 :
    Backend → GbmBo → Rectangle → ℕ → Bool → Bool → ℕ → Maps → Sys → Option (MapResult × Maps × Sys)
gbm_bo_map2 backend bo rect transfer_flags has_stride has_map_data plane maps sys =
    let map =
      drv_bo_map backend bo.bo rect (transfer_map_flags transfer_flags) plane maps sys
      >>= λ (r : Option Mapped × Maps × Sys). finish_map2 bo rect.x rect.y plane r.0 r.1 r.2 in
    if rect.width == 0 || (rect.height == 0 || (not has_stride || not has_map_data))
    then some (null, maps, sys)
    else map

-- `gbm_bo_map`
unfoldable pub gbm_bo_map :
    Backend → GbmBo → Rectangle → ℕ → Bool → Bool → ℕ → Maps → Sys → Option (MapResult × Maps × Sys)
gbm_bo_map = gbm_bo_map2
