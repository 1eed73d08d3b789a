-- ===== src/Small/Cleanup.antt =====
-- `exynos_bo_create` leaves no handle open when it fails.
use minigbm.Base.{
  ℕ, zero, suc, ◌+◌, ◌<◌, ◌≤◌, ◌≡◌, ◌≢◌, true, false, ap, sym, subst, ◌∙◌, length, set, length-set,
  refl, List, get_or, arith, ◌!=◌, Bool-cases, inl, inr, ◌∷◌, [],
}
use minigbm.Types.{Bo, Metadata}
use minigbm.Handles.{uses, uses-suc}
use minigbm.Kernel.{Kernel, Request, Reply, Sys, call}
use minigbm.Kernel.Series.{asked, answer, TookTo, TookTo-suc, call-answer}
use minigbm.Gem.Close.{is_close, closes, asked-closes}
use minigbm.Small.Exynos.{ExynosDrm, cleanup_planes, create_planes}

ret_ne : (n : ℕ) → (n != 0) ≡ true → n ≢ 0
ret_ne n h = ground arith

ret_eq : (n : ℕ) → (n != 0) ≡ false → n ≡ 0
ret_eq n h = ground arith

module _ (kernel : Kernel) (drm : ExynosDrm) where
  cleanup_planes-closes :
      (handles : List ℕ) (plane h : ℕ) (sys : Sys)
      → closes h (cleanup_planes kernel drm handles plane sys).calls
        ≡ closes h sys.calls + uses handles plane 0 h
  unfolding cleanup_planes closes call uses
  cleanup_planes-closes handles zero h sys = omega arith
  cleanup_planes-closes handles (suc plane) h sys =
      let sys' = (call kernel (Request.gem_close (get_or handles plane 0)) sys).1 in
      ground (
        arith,
        cleanup_planes-closes handles plane h sys',
        uses-suc handles plane 0 plane h (omega arith),
      )

  -- The request for a plane.
  abbrev pub create_plane : Metadata → ℕ → Request
  create_plane m p =
      Request.device drm.ioctl_gem_create (get_or m.sizes p 0 ∷ drm.bo_noncontig ∷ [])

  -- All planes of the layout have the handles of the answers, and nothing is closed; or the request
  -- for a plane fails, those before it have them, and the handle of each of these is closed as often
  -- as it was created.
  pub data Created (m : Metadata) (sys : Sys) : ℕ × Bo × Sys → Type 0 where
    complete :
        (bo : Bo) (sys' : Sys)
        → bo.meta ≡ m
        → TookTo (create_plane m) sys.calls kernel bo.handles m.num_planes
        → sys'.calls ≡ asked (create_plane m) sys.calls m.num_planes
        → Created m sys (0, bo, sys')
    given_up :
        (code plane : ℕ) (bo : Bo) (sys' : Sys)
        → plane < m.num_planes
        → (answer (create_plane m) sys.calls kernel plane).ret ≢ 0
        → bo.meta ≡ m
        → TookTo (create_plane m) sys.calls kernel bo.handles plane
        → ((h : ℕ) → closes h sys'.calls ≡ closes h sys.calls + uses bo.handles plane 0 h)
        → Created m sys (code, bo, sys')

  create_planes_lem :
      (rest plane : ℕ) (bo : Bo) (first sys : Sys)
      → plane + rest ≡ bo.meta.num_planes
      → bo.meta.num_planes ≤ length bo.handles
      → sys.calls ≡ asked (create_plane bo.meta) first.calls plane
      → TookTo (create_plane bo.meta) first.calls kernel bo.handles plane
      → Created bo.meta first (create_planes kernel drm rest plane bo sys)
  unfolding create_planes is_close
  create_planes_lem zero plane bo first sys all fits so_far took =
      let ask = create_plane bo.meta in
      let done : plane ≡ bo.meta.num_planes = omega arith in
      complete bo sys refl (subst (TookTo ask first.calls kernel bo.handles) done took)
        (so_far ∙ ap (λ (t : ℕ). asked ask first.calls t) done)
  create_planes_lem (suc rest) plane bo first sys all fits so_far took =
      let ask = create_plane bo.meta in
      let (reply, sys') = call kernel (ask plane) sys in
      let bo' : Bo = record bo { handles = set bo.handles plane reply.handle } in
      let (same, next) = call-answer ask first.calls kernel plane sys so_far in
      elim (Bool-cases (reply.ret != 0)) [
        | inl failed ↦ rw failed (
            given_up sys'.errno plane bo (cleanup_planes kernel drm bo.handles plane sys')
              (omega arith) (λ e. ret_ne reply.ret failed (ap (λ (t : Reply). t.ret) same ∙ e)) refl
              took
              (λ h. omega (
                arith,
                cleanup_planes-closes bo.handles plane h sys',
                asked-closes ask first.calls (suc plane) h (λ q. refl),
                ap (λ (t : List Request). closes h t) next,
              )))
        | inr made ↦ rw made (
            create_planes_lem rest (suc plane) bo' first sys' (omega arith)
              (omega (arith, length-set bo.handles plane reply.handle)) next
              (subst
                (λ (t : Reply).
                  TookTo ask first.calls kernel (set bo.handles plane t.handle) (suc plane))
                (sym same)
                (TookTo-suc ask first.calls kernel bo.handles plane (omega arith) took
                  (ap (λ (t : Reply). t.ret) (sym same) ∙ ret_eq reply.ret made))))
      ]

  -- Whatever the kernel answers, allocating the planes of a buffer that has room for their
  -- handles either returns 0 after one request for each plane, with the handles that the kernel
  -- answers, or stops at the first request that fails, with the handles that the kernel answered
  -- for the planes before it, and closes the handle of each of these as often as these planes
  -- have it.
  pub create_planes-Created :
      (bo : Bo) (sys : Sys)
      → bo.meta.num_planes ≤ length bo.handles
      → Created bo.meta sys (create_planes kernel drm bo.meta.num_planes 0 bo sys)
  unfolding asked
  create_planes-Created bo sys fits =
      create_planes_lem bo.meta.num_planes 0 bo sys sys (omega arith) fits refl
        (λ q lt. absurd (omega arith))
