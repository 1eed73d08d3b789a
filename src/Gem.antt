-- ===== src/Gem.antt =====
-- helpers.c: the kernel handles of a buffer. A return code is the number `e` for C's `-e`, 0 for
-- success.
pub mod Distinct
pub mod Close
pub mod Import
pub mod Number
use minigbm.Base.{
  ℕ, zero, suc, ◌+◌, ◌-◌, Bool, true, false, List, get_or, set, ◌==◌, ◌!=◌, if◌then◌else◌,
}
use minigbm.Types.{Bo, Metadata}
use minigbm.Kernel.{Kernel, Sys, Request, call}

-- `for (i = 0; i < plane; i++) if (handles[i] == handles[plane]) break;`: where `i` ends.
unfoldable pub first_with : List ℕ → ℕ → ℕ → ℕ → ℕ
first_with handles h zero i = i
first_with handles h (suc rest) i =
    if get_or handles i 0 == h then i else first_with handles h rest (suc i)

-- `i != plane`: an earlier plane has the handle.
abbrev pub is_repeated : List ℕ → ℕ → Bool
is_repeated handles plane = first_with handles (get_or handles plane 0) plane 0 != plane

module _ (kernel : Kernel) where
  -- The loop of `drv_gem_bo_destroy` from a plane on.
  unfoldable pub close_planes : List ℕ → ℕ → ℕ → ℕ → Sys → ℕ × Sys
  close_planes handles zero plane error sys = (error, sys)
  close_planes handles (suc rest) plane error sys =
      let (reply, sys') = call kernel (Request.gem_close (get_or handles plane 0)) sys in
      let skip = close_planes handles rest (suc plane) error sys in
      let closed =
        close_planes handles rest (suc plane) (if reply.ret == 0 then error else sys'.errno) sys' in
      if is_repeated handles plane then skip else closed

  unfoldable pub drv_gem_bo_destroy : Bo → Sys → ℕ × Sys
  drv_gem_bo_destroy bo sys = close_planes bo.handles bo.meta.num_planes 0 0 sys

  -- The loop of `drv_prime_bo_import`.
  unfoldable pub import_planes : List ℕ → ℕ → ℕ → Bo → Sys → ℕ × Bo × Sys
  import_planes fds zero plane bo sys = (0, bo, sys)
  import_planes fds (suc rest) plane bo sys =
      let (reply, sys') = call kernel (Request.prime_fd_to_handle (get_or fds plane 0)) sys in
      let failed : Bo = record bo { meta = record (bo.meta) { num_planes = plane } } in
      let closed = drv_gem_bo_destroy failed sys' in
      let next =
        import_planes fds rest (suc plane)
          (record bo { handles = set bo.handles plane reply.handle }) sys' in
      if reply.ret == 0 then next else (closed.1.errno, failed, closed.1)

  unfoldable pub drv_prime_bo_import : Bo → List ℕ → Sys → ℕ × Bo × Sys
  drv_prime_bo_import bo fds sys = import_planes fds bo.meta.num_planes 0 bo sys

-- `for (p = 0; p < plane; p++) if (handles[p] == handles[plane]) break;` of drv.c: does the loop reach
-- its end? `h` is the handle of the plane, and `rest` the planes from `p` on before it.
unfoldable pub is_first_use : List ℕ → ℕ → ℕ → ℕ → Bool
is_first_use handles h zero p = true
is_first_use handles h (suc rest) p =
    if get_or handles p 0 == h then false else is_first_use handles h rest (suc p)

-- The loop of `drv_num_buffers_per_bo` of drv.c.
unfoldable pub count_buffers : List ℕ → ℕ → ℕ → ℕ → ℕ
count_buffers handles zero plane count = count
count_buffers handles (suc rest) plane count =
    count_buffers handles rest (suc plane)
      (if is_first_use handles (get_or handles plane 0) plane 0 then count + 1 else count)

unfoldable pub drv_num_buffers_per_bo : Bo → ℕ
drv_num_buffers_per_bo bo =
    if bo.is_test_buffer then 0 else count_buffers bo.handles bo.meta.num_planes 0 0
