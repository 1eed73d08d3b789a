-- ===== src/Gem/Close.antt =====
-- `drv_gem_bo_destroy` closes each handle of a buffer once.
use minigbm.Base.{
  ℕ, zero, suc, ◌+◌, ◌≡◌, ◌≢◌, refl, Bool, false, List, [], ◌∷◌, get_or, arith, ◌==◌, ◌!=◌, ◌&&◌,
  if◌then◌else◌,
}
use minigbm.Types.{Bo}
use minigbm.Handles.{uses, uses-suc}
use minigbm.Kernel.{Kernel, Sys, Request, call}
use minigbm.Kernel.Series.{asked}
use minigbm.Gem.{close_planes, drv_gem_bo_destroy}
use minigbm.Gem.Distinct.{is_repeated_lem}

-- Does the request close the handle?
unfoldable pub is_close : ℕ → Request → Bool
is_close h (Request.gem_close k) = k == h
is_close h other = false

-- How often the calls close a handle.
unfoldable pub closes : ℕ → List Request → ℕ
unfolding is_close
closes h [] = 0
closes h (r ∷ calls) = (if is_close h r then 1 else 0) + closes h calls

-- Requests that close nothing.
pub asked-closes :
    (ask : ℕ → Request) (calls : List Request) (p h : ℕ)
    → ((q : ℕ) → is_close h (ask q) ≡ false)
    → closes h (asked ask calls p) ≡ closes h calls
unfolding asked closes
asked-closes ask calls zero h none_closes = refl
asked-closes ask calls (suc p) h none_closes =
    rw (none_closes p) (omega (arith, asked-closes ask calls p h none_closes))

module _ (kernel : Kernel) where
  close_planes_lem :
      (handles : List ℕ) (h rest plane error : ℕ) (sys : Sys)
      → closes h (close_planes kernel handles rest plane error sys).1.calls
        ≡ closes h sys.calls
          + (if uses handles plane 0 h == 0 && uses handles rest plane h != 0 then 1 else 0)
  unfolding close_planes uses closes call
  close_planes_lem handles h zero plane error sys = ground arith
  close_planes_lem handles h (suc rest) plane error sys =
      let request = Request.gem_close (get_or handles plane 0) in
      let reply = kernel sys.calls request in
      let sys' = (call kernel request sys).1 in
      ground (
        arith,
        is_repeated_lem handles plane,
        uses-suc handles plane 0 plane h (omega arith),
        close_planes_lem handles h rest (suc plane) error sys,
        close_planes_lem handles h rest (suc plane) (if reply.ret == 0 then error else sys'.errno)
            sys',
      )

  -- Whatever the kernel answers, destroying a buffer closes each handle that one of its planes
  -- has exactly once, however many planes share it, and closes no other handle.
  pub drv_gem_bo_destroy-closes :
      (bo : Bo) (sys : Sys) (h : ℕ)
      → closes h (drv_gem_bo_destroy kernel bo sys).1.calls
        ≡ closes h sys.calls + (if uses bo.handles bo.meta.num_planes 0 h == 0 then 0 else 1)
  unfolding drv_gem_bo_destroy uses
  drv_gem_bo_destroy-closes bo sys h =
      ground (arith, close_planes_lem bo.handles h bo.meta.num_planes 0 0 sys)

  -- What libc documents: a call that fails sets `errno`, and not to 0.
  abbrev pub ReportsErrors : Type 0
  ReportsErrors =
      (calls : List Request) (r : Request) → (kernel calls r).ret ≢ 0 → (kernel calls r).error ≢ 0

  abbrev Closes : Type 0
  Closes = (calls : List Request) (h : ℕ) → (kernel calls (Request.gem_close h)).ret ≡ 0

  close_planes-ok :
      (handles : List ℕ) (rest plane error : ℕ) (sys : Sys)
      → Closes
      → ((close_planes kernel handles rest plane error sys).0 ≡ error)
        × ((close_planes kernel handles rest plane error sys).1.errno ≡ sys.errno)
  unfolding close_planes call
  close_planes-ok handles zero plane error sys c = (refl, refl)
  close_planes-ok handles (suc rest) plane error sys c =
      let request = Request.gem_close (get_or handles plane 0) in
      let reply = kernel sys.calls request in
      let sys' = (call kernel request sys).1 in
      ground (
        arith,
        c sys.calls (get_or handles plane 0),
        close_planes-ok handles rest (suc plane) error sys c,
        close_planes-ok handles rest (suc plane) (if reply.ret == 0 then error else sys'.errno) sys'
            c,
      )
