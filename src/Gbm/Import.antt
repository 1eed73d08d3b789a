-- ===== src/Gbm/Import.antt =====
-- gbm.c: `gbm_bo_import`.
pub mod Describe
use minigbm.Base.{
  ℕ, zero, suc, ◌+◌, ◌-◌, ◌^◌, Bool, true, false, ◌||◌, Option, none, some, List, get_or, set,
  replicate, ltb, ◌==◌, ◌!=◌, if◌then◌else◌, ◌>>=◌, ◌>>◌, assert,
}
use minigbm.Util.{u32_mod}
use minigbm.Flags.{drm_format_mod_invalid}
use minigbm.Types.{Bo, ImportFdData, drv_max_planes}
use minigbm.Kernel.{Kernel, Sys}
use minigbm.Backend.{Backend}
use minigbm.Refcount.{DrmHash}
use minigbm.Driver.{Driver}
use minigbm.Driver.Query.{drv_num_planes_from_modifier}
use minigbm.Driver.Import.{drv_bo_import}
use minigbm.Gbm.{GbmBo, gbm_device_is_format_supported, wrap}
use minigbm.Gbm.Usage.{gbm_convert_usage}

-- `GBM_MAX_PLANES`
abbrev pub gbm_max_planes : ℕ
gbm_max_planes = 4

-- `struct gbm_import_fd_data`
pub record GbmImportFdData : Type 0 where
  pub fd : ℕ
  pub width : ℕ
  pub height : ℕ
  pub stride : ℕ
  pub format : ℕ

-- `struct gbm_import_fd_modifier_data`
pub record GbmImportFdModifierData : Type 0 where
  pub width : ℕ
  pub height : ℕ
  pub format : ℕ
  pub num_fds : ℕ
  pub fds : List ℕ
  pub strides : List ℕ
  pub offsets : List ℕ
  pub modifier : ℕ

-- The `type` and the `buffer` that it says how to read: `GBM_BO_IMPORT_FD`,
-- `GBM_BO_IMPORT_FD_MODIFIER`, or another one.
pub data ImportBuffer : Type 0 where
  import_fd : GbmImportFdData → ImportBuffer
  import_fd_modifier : GbmImportFdModifierData → ImportBuffer
  import_other : ImportBuffer

-- `memset(&drv_data, 0, ...)`, and the first flags.
abbrev pub blank_import : ℕ → ImportFdData
blank_import use_flags = record {
  fds = replicate drv_max_planes 0;
  strides = replicate drv_max_planes 0;
  offsets = replicate drv_max_planes 0;
  format_modifiers = replicate drv_max_planes 0;
  width = 0;
  height = 0;
  format = 0;
  use_flags = use_flags;
}

-- The case of `GBM_BO_IMPORT_FD`.
unfoldable pub fd_import : GbmImportFdData → ImportFdData → ImportFdData
fd_import buffer blank = record blank {
  width = buffer.width;
  height = buffer.height;
  format = buffer.format;
  fds = set blank.fds 0 buffer.fd;
  strides = set blank.strides 0 buffer.stride;
  format_modifiers = replicate gbm_max_planes drm_format_mod_invalid;
}

-- The first loop of the case of `GBM_BO_IMPORT_FD_MODIFIER`, from plane `i` on. A write past the end
-- of the arrays is an abort.
unfoldable pub fill_planes :
    GbmImportFdModifierData → ℕ → ℕ → ℕ → ImportFdData → Option ImportFdData
fill_planes buffer num_planes zero i drv_data = some drv_data
fill_planes buffer num_planes (suc rest) i drv_data =
    assert (ltb i gbm_max_planes)
    >> fill_planes buffer num_planes rest (suc i) (record drv_data {
      fds =
          set drv_data.fds i (get_or buffer.fds (if buffer.num_fds != num_planes then 0 else i) 0);
      offsets = set drv_data.offsets i (get_or buffer.offsets i 0);
      strides = set drv_data.strides i (get_or buffer.strides i 0);
      format_modifiers = set drv_data.format_modifiers i buffer.modifier;
    })

-- Its second loop; -1 is `u32_mod - 1`.
unfoldable pub clear_fds : ℕ → ℕ → List ℕ → List ℕ
clear_fds zero i fds = fds
clear_fds (suc rest) i fds = clear_fds rest (suc i) (set fds i (u32_mod - 1))

-- The case of `GBM_BO_IMPORT_FD_MODIFIER`, for its number of planes.
unfoldable pub fd_modifier_import : GbmImportFdModifierData → ℕ → ImportFdData → Option ImportFdData
fd_modifier_import buffer num_planes blank = do
  filled ←
      fill_planes buffer num_planes num_planes 0
        (record blank { width = buffer.width; height = buffer.height; format = buffer.format })
  some (record filled { fds = clear_fds (gbm_max_planes - num_planes) num_planes filled.fds })

-- The `switch`: what to import, NULL inside if nothing.
unfoldable pub import_data : Backend → ImportBuffer → ℕ → Option (Option ImportFdData)
import_data backend (import_fd buffer) use_flags =
    some (some (fd_import buffer (blank_import use_flags)))
import_data backend (import_fd_modifier buffer) use_flags = do
  let num_planes = drv_num_planes_from_modifier backend buffer.format buffer.modifier
  assert (num_planes != 0)
  let filled =
      fd_modifier_import buffer num_planes (blank_import use_flags) >>= λ (d : ImportFdData).
      some (some d)
  if buffer.num_fds == 0 || ltb num_planes buffer.num_fds then some none else filled
import_data backend import_other use_flags = some none

module _ (hash : DrmHash) (backend : Backend) (kernel : Kernel) where
  -- From the test of the format on.
  unfoldable pub import_supported :
      Option ImportFdData → ℕ → Driver hash → Sys → Option (Option GbmBo × Driver hash × Sys)
  import_supported none usage drv sys = some (none, drv, sys)
  import_supported (some drv_data) usage drv sys =
      let imported =
        drv_bo_import hash backend kernel drv_data drv sys
        >>= λ (r : Option Bo × Driver hash × Sys). some (wrap drv_data.format r.0, r.1, r.2) in
      if gbm_device_is_format_supported drv.combos drv_data.format usage
      then imported
      else some (none, drv, sys)

  unfoldable pub gbm_bo_import :
      ImportBuffer → ℕ → Driver hash → Sys → Option (Option GbmBo × Driver hash × Sys)
  gbm_bo_import buffer usage drv sys = do
    drv_data ← import_data backend buffer (gbm_convert_usage usage)
    import_supported drv_data usage drv sys
