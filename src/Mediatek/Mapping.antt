-- ===== src/Mediatek/Mapping.antt =====
-- mediatek.c: mapping a buffer, with a cached copy for RenderScript and a prime file.
use minigbm.Base.{ℕ, ◌+◌, Option, none, some, [], ◌∷◌, get_or, bit_and, ◌==◌, ◌!=◌, if◌then◌else◌}
use minigbm.Flags.{bo_use_renderscript, bo_map_read, bo_map_write}
use minigbm.Types.{Bo, Vma}
use minigbm.Kernel.{Kernel, Request, Sys, call}
use minigbm.Dumb.{drv_get_prot}
use minigbm.Driver.Query.{drv_bo_get_plane_fd}
use minigbm.Rockchip.{Copy}
use minigbm.Mediatek.{MediatekDrm}

-- `struct mediatek_private_map_data`; `cached_addr` is 0 for NULL.
pub record PrivateMapData : Type 0 where
  pub cached_addr : ℕ
  pub gem_addr : ℕ
  pub prime_fd : ℕ

-- `POLLIN` and `POLLOUT` of poll.h
abbrev pub pollin : ℕ
pollin = 1

abbrev pub pollout : ℕ
pollout = 4

-- `MAP_FAILED`, the pointer -1
abbrev pub map_failed : ℕ
map_failed = 0xffffffffffffffff

module _ (kernel : Kernel) where
  -- From the call of `mmap` on. `priv` and `cached` are the addresses that `calloc` gives; the
  -- code does not test whether `mmap` failed before it takes the cached copy.
  unfoldable pub map_prime :
      ℕ → ℕ → Bo → Vma → ℕ → ℕ → ℕ → Sys → ℕ × Vma × Option PrivateMapData × Sys
  map_prime priv cached bo vma map_flags offset prime_fd sys =
      let (mapped, sys') =
        call kernel (Request.mmap bo.meta.total_size (drv_get_prot map_flags) offset) sys in
      let addr = if mapped.ret != 0 then map_failed else mapped.offset in
      let vma' = record vma { length = bo.meta.total_size; priv = priv } in
      if bit_and bo.meta.use_flags bo_use_renderscript != 0
      then (
        cached,
        vma',
        some (record { cached_addr = cached; gem_addr = addr; prime_fd = prime_fd }),
        sys',
      )
      else (addr, vma', some (record { cached_addr = 0; gem_addr = 0; prime_fd = prime_fd }), sys')

  unfoldable pub mediatek_bo_map :
      MediatekDrm → ℕ → ℕ → Bo → Vma → ℕ → Sys → Option (ℕ × Vma × Option PrivateMapData × Sys)
  mediatek_bo_map drm priv cached bo vma map_flags sys =
      let (reply, sys') =
        call kernel (Request.device drm.ioctl_gem_map_offset (get_or bo.handles 0 0 ∷ [])) sys in
      let shared =
        elim (drv_bo_get_plane_fd kernel bo 0 sys')
          as (λ _. Option (ℕ × Vma × Option PrivateMapData × Sys)) [
            | none ↦ none
            | some (ret, prime_fd, sys'') ↦ some (
                if ret != 0
                then (map_failed, vma, none, sys'')
                else map_prime priv cached bo vma map_flags reply.offset prime_fd sys'')
          ] in
      if reply.ret != 0 then some (map_failed, vma, none, sys') else shared

  unfoldable pub mediatek_bo_unmap : Vma → Option PrivateMapData → Sys → ℕ × Vma × Sys
  mediatek_bo_unmap vma none sys =
      let (reply, sys') = call kernel (Request.munmap vma.addr vma.length) sys in
      (reply.ret, vma, sys')
  mediatek_bo_unmap vma (some priv) sys =
      let addr = if priv.cached_addr != 0 then priv.gem_addr else vma.addr in
      let sys' = (call kernel (Request.close priv.prime_fd) sys).1 in
      let (reply, sys'') = call kernel (Request.munmap addr vma.length) sys' in
      (reply.ret, record vma { addr = addr; priv = 0 }, sys'')

  -- What is copied, after the wait for the file; the code is always 0.
  unfoldable pub mediatek_bo_invalidate : Bo → Vma → Option PrivateMapData → Sys → Option Copy × Sys
  mediatek_bo_invalidate bo vma none sys = (none, sys)
  mediatek_bo_invalidate bo vma (some priv) sys =
      let writes = if bit_and vma.map_flags bo_map_write != 0 then pollout else 0 in
      let reads = if bit_and vma.map_flags bo_map_read != 0 then pollin else 0 in
      let sys' = (call kernel (Request.poll priv.prime_fd (writes + reads)) sys).1 in
      (
        if priv.cached_addr != 0
            then some (record {
              to = priv.cached_addr;
              source = priv.gem_addr;
              bytes = bo.meta.total_size;
            })
            else none,
        sys',
      )

unfoldable pub mediatek_bo_flush : Bo → Vma → Option PrivateMapData → Option Copy
mediatek_bo_flush bo vma none = none
mediatek_bo_flush bo vma (some priv) =
    if priv.cached_addr == 0
    then none
    else (if bit_and vma.map_flags bo_map_write != 0
        then some
            (record { to = priv.gem_addr; source = priv.cached_addr; bytes = bo.meta.total_size })
        else none)
