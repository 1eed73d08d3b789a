-- ===== src/Dumb.antt =====
-- helpers.c: buffers that the kernel lays out itself (`dumb` buffers), and their mappings.
pub mod Room
pub mod Create
use minigbm.Base.{
  ℕ, zero, suc, ◌+◌, ◌*◌, ◌%◌, Bool, true, false, ◌||◌, Option, none, some, List, get_or, set,
  bit_and, bit_or, ◌==◌, ◌!=◌, if◌then◌else◌, ◌>>=◌,
}
use minigbm.Util.{u32, u64_mod, align, div_round_up}
use minigbm.Flags.{bo_quirk_none, bo_quirk_dumb32bpp, bo_map_write}
use minigbm.Fourcc.{
  drm_format_r16, drm_format_yvu420_android, drm_format_yvu420, drm_format_nv12, drm_format_nv21,
}
use minigbm.Types.{Bo, Metadata, Vma}
use minigbm.Format.{layout_from_format}
use minigbm.Kernel.{Kernel, Request, Sys, call}
use minigbm.BoLayout.{drv_bo_from_format}

-- The `switch` of `drv_dumb_bo_create_ex`: the width, the height that is asked for, and the height
-- that is laid out.
unfoldable pub dumb_size : ℕ → ℕ → ℕ → ℕ → ℕ × ℕ × ℕ
dumb_size width height format bo_height =
    if format == drm_format_r16
    then (align width 16, height, height)
    else (if format == drm_format_yvu420_android
        then (align width 32, u32 (3 * div_round_up bo_height 2), bo_height)
        else (if format == drm_format_yvu420
              || (format == drm_format_nv12 || format == drm_format_nv21)
            then (width, u32 (3 * div_round_up height 2), height)
            else (width, height, height)))

-- `for (plane = 0; ...) bo->handles[plane].u32 = create_dumb.handle`
unfoldable pub set_handles : ℕ → ℕ → ℕ → List ℕ → List ℕ
set_handles handle zero p handles = handles
set_handles handle (suc rest) p handles = set_handles handle rest (suc p) (set handles p handle)

-- `vma->length += bo->meta.sizes[i]` for the planes of the handle of `plane`.
unfoldable pub dumb_length : Bo → ℕ → ℕ → ℕ → ℕ → ℕ
dumb_length bo plane zero i length = length
dumb_length bo plane (suc rest) i length = dumb_length bo plane rest (suc i) (
    if get_or bo.handles i 0 == get_or bo.handles plane 0
    then (length + get_or bo.meta.sizes i 0) % u64_mod
    else length)

-- `PROT_READ` and `PROT_WRITE` of sys/mman.h
abbrev pub prot_read : ℕ
prot_read = 1

abbrev pub prot_write : ℕ
prot_write = 2

unfoldable pub drv_get_prot : ℕ → ℕ
drv_get_prot map_flags =
    if bit_and bo_map_write map_flags != 0 then bit_or prot_write prot_read else prot_read

-- The width and the bits per pixel that the kernel is asked for.
unfoldable pub dumb_pixels : ℕ → ℕ → ℕ → ℕ × ℕ
dumb_pixels aligned_width bytes quirks =
    if bit_and quirks bo_quirk_dumb32bpp != 0
    then (div_round_up (u32 (aligned_width * bytes)) 4, 32)
    else (aligned_width, bytes * 8)

module _ (kernel : Kernel) where
  -- The request of `drv_dumb_bo_create_ex`; a format that is not known is a NULL layout.
  unfoldable pub dumb_request : Bo → ℕ → ℕ → ℕ → ℕ → Option Request
  dumb_request bo width height format quirks = do
    layout ← layout_from_format format
    let size = dumb_size width height format bo.meta.height
    let pixels = dumb_pixels size.0 (get_or layout.bytes_per_pixel 0 0) quirks
    some (Request.mode_create_dumb pixels.0 size.1 pixels.1)

  -- What is done with a successful reply.
  unfoldable pub dumb_created : Bo → ℕ → ℕ → ℕ → ℕ → ℕ → Option Bo
  dumb_created bo pitch height format handle size = do
    meta ← drv_bo_from_format bo.meta pitch height format
    some (record bo {
      meta = record meta { total_size = size };
      handles = set_handles handle meta.num_planes 0 bo.handles;
    })

  unfoldable pub drv_dumb_bo_create_ex : Bo → ℕ → ℕ → ℕ → ℕ → Sys → Option (ℕ × Bo × Sys)
  drv_dumb_bo_create_ex bo width height format quirks sys = do
    request ← dumb_request bo width height format quirks
    let (reply, sys') = call kernel request sys
    let laid_out = (dumb_size width height format bo.meta.height).2
    let created = dumb_created bo reply.pitch laid_out format reply.handle reply.size
    if reply.ret != 0 then some (sys'.errno, bo, sys') else created >>= λ bo'. some (0, bo', sys')

  unfoldable pub drv_dumb_bo_create : Bo → ℕ → ℕ → ℕ → Sys → Option (ℕ × Bo × Sys)
  drv_dumb_bo_create bo width height format sys =
      drv_dumb_bo_create_ex bo width height format bo_quirk_none sys

  unfoldable pub drv_dumb_bo_destroy : Bo → Sys → ℕ × Sys
  drv_dumb_bo_destroy bo sys =
      let (reply, sys') = call kernel (Request.mode_destroy_dumb (get_or bo.handles 0 0)) sys in
      if reply.ret != 0 then (sys'.errno, sys') else (0, sys')

  -- The address that `mmap` returns, `none` for MAP_FAILED, and the area with its length.
  unfoldable pub drv_dumb_bo_map : Bo → Vma → ℕ → ℕ → Sys → Option ℕ × Vma × Sys
  drv_dumb_bo_map bo vma plane map_flags sys =
      let (reply, sys') = call kernel (Request.mode_map_dumb (get_or bo.handles plane 0)) sys in
      let length = dumb_length bo plane bo.meta.num_planes 0 vma.length in
      let (mapped, sys'') =
        call kernel (Request.mmap length (drv_get_prot map_flags) reply.offset) sys' in
      if reply.ret != 0 then (none, vma, sys') else (
        if mapped.ret != 0 then none else some mapped.offset,
        record vma { length = length },
        sys'',
      )

  unfoldable pub drv_bo_munmap : Vma → Sys → ℕ × Sys
  drv_bo_munmap vma sys =
      let (reply, sys') = call kernel (Request.munmap vma.addr vma.length) sys in (reply.ret, sys')
