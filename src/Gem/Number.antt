-- ===== src/Gem/Number.antt =====
-- How many kernel buffers a buffer has: the count of drv.c, and the calls that close them.
use minigbm.Base.{
  ℕ, zero, suc, ◌+◌, ◌<◌, ◌≡◌, refl, false, List, length, get_or, arith, ◌==◌, ltb, ◌&&◌,
  if◌then◌else◌, ap,
}
use minigbm.Types.{Bo}
use minigbm.Handles.{uses, uses-suc}
use minigbm.Kernel.{Kernel, Sys, Request, call}
use minigbm.Gem.{
  is_first_use, close_planes, drv_gem_bo_destroy, count_buffers, drv_num_buffers_per_bo,
}
use minigbm.Gem.Distinct.{is_repeated_lem}

-- How many of the handles below a bound the first planes have.
unfoldable pub in_use : List ℕ → ℕ → ℕ → ℕ
in_use handles planes zero = 0
in_use handles planes (suc h) =
    (if uses handles planes 0 h == 0 then 0 else 1) + in_use handles planes h

in_use_zero : (handles : List ℕ) (bound : ℕ) → in_use handles 0 bound ≡ 0
unfolding in_use uses
in_use_zero handles zero = refl
in_use_zero handles (suc h) = omega (arith, in_use_zero handles h)

-- One plane more counts if no plane before it has its handle.
in_use-plane :
    (handles : List ℕ) (plane bound : ℕ)
    → let h = get_or handles plane 0 in
      in_use handles (suc plane) bound
      ≡ in_use handles plane bound + (if ltb h bound && uses handles plane 0 h == 0 then 1 else 0)
unfolding in_use
in_use-plane handles plane zero = ground arith
in_use-plane handles plane (suc h) =
    ground (arith, in_use-plane handles plane h, uses-suc handles plane 0 plane h (omega arith))

is_first_use_lem :
    (handles : List ℕ) (h rest p : ℕ) → is_first_use handles h rest p ≡ (uses handles rest p h == 0)
unfolding is_first_use uses
is_first_use_lem handles h zero p = refl
is_first_use_lem handles h (suc rest) p = ground (arith, is_first_use_lem handles h rest (suc p))

module _ (handles : List ℕ) (bound n : ℕ)
    (small : (p : ℕ) → p < n → get_or handles p 0 < bound) where
  count_buffers_lem :
      (rest plane count : ℕ)
      → plane + rest ≡ n
      → count_buffers handles rest plane count + in_use handles plane bound
        ≡ count + in_use handles n bound
  unfolding count_buffers
  count_buffers_lem zero plane count all =
      ground (arith, ap (λ (t : ℕ). in_use handles t bound) {x = plane} {y = n})
  count_buffers_lem (suc rest) plane count all =
      let h = get_or handles plane 0 in
      ground (
        arith,
        small plane (omega arith),
        in_use-plane handles plane bound,
        is_first_use_lem handles h plane 0,
        count_buffers_lem rest (suc plane) (count + 1) (omega arith),
        count_buffers_lem rest (suc plane) count (omega arith),
      )

  close_planes-count :
      (kernel : Kernel) (rest plane error : ℕ) (sys : Sys)
      → plane + rest ≡ n
      → length (close_planes kernel handles rest plane error sys).1.calls
          + in_use handles plane bound
        ≡ length sys.calls + in_use handles n bound
  unfolding close_planes call
  close_planes-count kernel zero plane error sys all =
      ground (arith, ap (λ (t : ℕ). in_use handles t bound) {x = plane} {y = n})
  close_planes-count kernel (suc rest) plane error sys all =
      let request = Request.gem_close (get_or handles plane 0) in
      let reply = kernel sys.calls request in
      let sys' = (call kernel request sys).1 in
      ground (
        arith,
        small plane (omega arith),
        in_use-plane handles plane bound,
        is_repeated_lem handles plane,
        close_planes-count kernel rest (suc plane) error sys (omega arith),
        close_planes-count kernel rest (suc plane) (if reply.ret == 0 then error else sys'.errno)
            sys' (omega arith),
      )

-- For a buffer that is no test buffer, whose planes have handles below a bound,
-- `drv_num_buffers_per_bo` is the number of the handles below the bound that a plane has, and
-- destroying the buffer makes as many calls of the kernel, whatever the kernel answers.
pub drv_gem_bo_destroy-count :
    (kernel : Kernel) (bo : Bo) (bound : ℕ) (sys : Sys)
    → bo.is_test_buffer ≡ false
    → ((p : ℕ) → p < bo.meta.num_planes → get_or bo.handles p 0 < bound)
    → (drv_num_buffers_per_bo bo ≡ in_use bo.handles bo.meta.num_planes bound)
      × (length (drv_gem_bo_destroy kernel bo sys).1.calls
          ≡ length sys.calls + in_use bo.handles bo.meta.num_planes bound)
unfolding drv_gem_bo_destroy drv_num_buffers_per_bo
drv_gem_bo_destroy-count kernel bo bound sys real small =
    let n = bo.meta.num_planes in
    let none_yet = in_use_zero bo.handles bound in
    (
      rw real
          (omega (arith, none_yet, count_buffers_lem bo.handles bound n small n 0 0 (omega arith))),
      omega (
        arith,
        none_yet,
        close_planes-count bo.handles bound n small kernel n 0 0 sys (omega arith),
      ),
    )
