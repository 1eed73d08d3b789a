-- ===== src/Driver/Import.antt =====
-- drv.c: `drv_bo_import`.
pub mod Outcome
pub mod Prime
use minigbm.Base.{
  ℕ, zero, suc, ◌+◌, ◌-◌, ◌%◌, Bool, true, false, ◌||◌, Option, none, some, List, get_or, set, ltb,
  ◌==◌, ◌!=◌, if◌then◌else◌, ◌>>=◌,
}
use minigbm.Util.{u32_mod, u64_mod}
use minigbm.Types.{Bo, Metadata, ImportFdData}
use minigbm.Kernel.{Kernel, Request, Sys, call}
use minigbm.Backend.{Backend}
use minigbm.Refcount.{DrmHash, increment_planes}
use minigbm.Driver.{Driver, drv_bo_new, drv_bo_destroy}

-- `bo->meta.sizes[plane]` of the last loop, from the length of the file.
unfoldable pub import_size : ImportFdData → ℕ → ℕ → ℕ → ℕ
import_size source planes p seek_end =
    let offset = get_or source.offsets p 0 in
    let next = get_or source.offsets (p + 1) 0 in
    if p + 1 == planes || next == 0
    then (seek_end + u64_mod - offset) % u32_mod
    else (next + u32_mod - offset) % u32_mod

-- What the round of a plane writes before it looks at the file.
abbrev copy_plane : ImportFdData → ℕ → Metadata → Metadata
copy_plane source p m = record m {
  strides = set m.strides p (get_or source.strides p 0);
  offsets = set m.offsets p (get_or source.offsets p 0);
  format_modifiers = set m.format_modifiers p (get_or source.format_modifiers p 0);
}

-- The last loop from plane `p` on; `false` is a jump to `destroy_bo`. The position that `lseek`
-- answers is the size of the reply.
unfoldable pub import_layout : Kernel → ImportFdData → ℕ → ℕ → Bo → Sys → Bool × Bo × Sys
import_layout kernel source zero p bo sys = (true, bo, sys)
import_layout kernel source (suc rest) p bo sys =
    let (reply, sys') = call kernel (Request.seek_end (get_or source.fds p 0)) sys in
    let sys'' = (call kernel (Request.seek_set (get_or source.fds p 0)) sys').1 in
    let copied = copy_plane source p bo.meta in
    let size = import_size source bo.meta.num_planes p reply.size in
    let sized = record copied { sizes = set copied.sizes p size } in
    let next =
      import_layout kernel source rest (suc p)
        (record bo { meta = record sized { total_size = (sized.total_size + size) % u64_mod } })
        sys'' in
    if reply.ret != 0
    then (false, record bo { meta = copied }, sys')
    else (if ltb reply.size (get_or source.offsets p 0 + size)
        then (false, record bo { meta = sized }, sys'')
        else next)

module _ (hash : DrmHash) (backend : Backend) (kernel : Kernel) where
  -- From the last loop on.
  unfoldable pub finish_import :
      ImportFdData → Bo → Driver hash → Sys → Option (Option Bo × Driver hash × Sys)
  finish_import source bo drv sys =
      let (done, bo', sys') = import_layout kernel source bo.meta.num_planes 0 bo sys in
      let failed = drv_bo_destroy hash backend bo' drv sys' >>= λ (d : Driver hash × Sys).
      some (none, d.0, d.1) in
      if done then some (some bo', drv, sys') else failed

  -- From the call of the backend on.
  unfoldable pub import_new :
      ImportFdData → Option Bo → Driver hash → Sys → Option (Option Bo × Driver hash × Sys)
  import_new source none drv sys = some (none, drv, sys)
  import_new source (some new) drv sys =
      let (ret, bo, sys') = backend.bo_import new source sys in
      let table = increment_planes hash bo.handles bo.meta.num_planes 0 drv.buffer_table in
      let counted = finish_import source bo (record drv { buffer_table = table }) sys' in
      if ret != 0 then some (none, drv, sys') else counted

  unfoldable pub drv_bo_import :
      ImportFdData → Driver hash → Sys → Option (Option Bo × Driver hash × Sys)
  drv_bo_import source drv sys =
      import_new source (drv_bo_new source.width source.height source.format source.use_flags false)
        drv sys
