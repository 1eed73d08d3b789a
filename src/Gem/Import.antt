-- ===== src/Gem/Import.antt =====
-- `drv_prime_bo_import` imports a handle for every plane, or gives up and closes what it imported.
use minigbm.Base.{
  ℕ, zero, suc, ap, sym, subst, length, length-set, ◌≤◌, true, ◌+◌, ◌<◌, ◌≡◌, ◌≢◌, ◌⊎◌, inl, inr,
  refl, ◌∙◌, false, List, get_or, set, arith, ◌==◌, if◌then◌else◌, Bool-cases,
}
use minigbm.Types.{Bo, Metadata}
use minigbm.Handles.{uses}
use minigbm.Kernel.{Kernel, Sys, Request, Reply, call}
use minigbm.Kernel.Series.{asked, answer, TookTo, TookTo-suc, call-answer}
use minigbm.Gem.{is_repeated, close_planes, drv_gem_bo_destroy, import_planes, drv_prime_bo_import}
use minigbm.Gem.Close.{is_close, closes, asked-closes, drv_gem_bo_destroy-closes, ReportsErrors}

module _ (kernel : Kernel) where
  -- The request for a plane.
  abbrev pub import_plane : List ℕ → ℕ → Request
  import_plane fds p = Request.prime_fd_to_handle (get_or fds p 0)

  -- All planes of the buffer are imported, with the handles of the answers, and nothing is closed;
  -- or the request for a plane fails, those before it are imported, and each handle among them is
  -- closed once.
  pub data Imported (fds : List ℕ) (whole : Metadata) (sys : Sys) : ℕ × Bo × Sys → Type 0 where
    complete :
        (bo : Bo) (sys' : Sys)
        → bo.meta ≡ whole
        → TookTo (import_plane fds) sys.calls kernel bo.handles whole.num_planes
        → sys'.calls ≡ asked (import_plane fds) sys.calls whole.num_planes
        → Imported fds whole sys (0, bo, sys')
    given_up :
        (code plane : ℕ) (bo : Bo) (sys' : Sys)
        → plane < whole.num_planes
        → (answer (import_plane fds) sys.calls kernel plane).ret ≢ 0
        → bo.meta ≡ record whole { num_planes = plane }
        → TookTo (import_plane fds) sys.calls kernel bo.handles plane
        → ((h : ℕ)
            → closes h sys'.calls
              ≡ closes h sys.calls + (if uses bo.handles plane 0 h == 0 then 0 else 1))
        → code ≢ 0
        → Imported fds whole sys (code, bo, sys')

  -- A call that fails leaves an error, and one that succeeds the old one.
  call-errno :
      (r : Request) (sys : Sys)
      → ReportsErrors kernel
      → (sys.errno ≢ 0) ⊎ ((call kernel r sys).0.ret ≢ 0)
      → (call kernel r sys).1.errno ≢ 0
  unfolding call
  call-errno r sys reports h = elim (Bool-cases ((kernel sys.calls r).ret == 0)) [
    | inl z ↦ rw z (elim h [ inl e ↦ e | inr bad ↦ absurd (bad (ground arith)) ])
    | inr z ↦ rw z (reports sys.calls r (ground arith))
  ]

  close_planes-errno :
      (handles : List ℕ) (rest plane error : ℕ) (sys : Sys)
      → ReportsErrors kernel
      → sys.errno ≢ 0
      → (close_planes kernel handles rest plane error sys).1.errno ≢ 0
  unfolding close_planes
  close_planes-errno handles zero plane error sys reports e = e
  close_planes-errno handles (suc rest) plane error sys reports e =
      let request = Request.gem_close (get_or handles plane 0) in
      elim (Bool-cases (is_repeated handles plane)) [
        | inl again ↦ rw again (close_planes-errno handles rest (suc plane) error sys reports e)
        | inr first ↦ rw first (
            close_planes-errno handles rest (suc plane) _ (call kernel request sys).1 reports
              (call-errno request sys reports (inl e)))
      ]

  destroy-errno :
      (bo : Bo) (sys : Sys)
      → ReportsErrors kernel
      → sys.errno ≢ 0
      → (drv_gem_bo_destroy kernel bo sys).1.errno ≢ 0
  unfolding drv_gem_bo_destroy
  destroy-errno bo sys reports e =
      close_planes-errno bo.handles bo.meta.num_planes 0 0 sys reports e

  ret_ne : (n : ℕ) → (n == 0) ≡ false → n ≢ 0
  ret_ne n h = ground arith

  ret_eq : (n : ℕ) → (n == 0) ≡ true → n ≡ 0
  ret_eq n h = ground arith

  import_planes-Imported :
      (fds : List ℕ) (rest plane : ℕ) (bo : Bo) (first sys : Sys)
      → ReportsErrors kernel
      → plane + rest ≡ bo.meta.num_planes
      → bo.meta.num_planes ≤ length bo.handles
      → sys.calls ≡ asked (import_plane fds) first.calls plane
      → TookTo (import_plane fds) first.calls kernel bo.handles plane
      → Imported fds bo.meta first (import_planes kernel fds rest plane bo sys)
  unfolding import_planes is_close
  import_planes-Imported fds zero plane bo first sys reports all fits so_far took =
      let n = bo.meta.num_planes in
      let done : plane ≡ n = omega arith in
      complete bo sys refl
        (subst (TookTo (import_plane fds) first.calls kernel bo.handles) done took)
        (so_far ∙ ap (λ (t : ℕ). asked (import_plane fds) first.calls t) done)
  import_planes-Imported fds (suc rest) plane bo first sys reports all fits so_far took =
      let ask = import_plane fds in
      let (reply, sys') = call kernel (ask plane) sys in
      let failed : Bo = record bo { meta = record (bo.meta) { num_planes = plane } } in
      let bo' : Bo = record bo { handles = set bo.handles plane reply.handle } in
      let (same, next) = call-answer ask first.calls kernel plane sys so_far in
      elim (Bool-cases (reply.ret == 0)) [
        | inl ok ↦ rw ok (
            import_planes-Imported fds rest (suc plane) bo' first sys' reports (omega arith)
              (omega (arith, length-set bo.handles plane reply.handle)) next
              (subst
                (λ (t : Reply).
                  TookTo ask first.calls kernel (set bo.handles plane t.handle) (suc plane))
                (sym same)
                (TookTo-suc ask first.calls kernel bo.handles plane (omega arith) took
                  (ap (λ (t : Reply). t.ret) (sym same) ∙ ret_eq reply.ret ok))))
        | inr bad ↦ rw bad (
            given_up _ plane failed _ (omega arith)
              (λ e. ret_ne reply.ret bad (ap (λ (t : Reply). t.ret) same ∙ e)) refl took
              (λ h. omega (
                arith,
                drv_gem_bo_destroy-closes kernel failed sys' h,
                asked-closes ask first.calls (suc plane) h (λ q. refl),
                ap (λ (t : List Request). closes h t) next,
              ))
              (destroy-errno failed sys' reports
                (call-errno (ask plane) sys reports (inr (ret_ne reply.ret bad)))))
      ]

  -- If a failing call of the kernel reports an error and the buffer has room for the handles of
  -- its planes, importing it either returns 0 after one request for each plane, with the handles
  -- that the kernel answers and the layout as it was, or returns an error after the first
  -- request that fails, with the number of that plane as the number of planes and the handles
  -- that the kernel answered for the planes before it, and has closed each of these exactly once
  -- and no other.
  pub drv_prime_bo_import-Imported :
      (bo : Bo) (fds : List ℕ) (sys : Sys)
      → ReportsErrors kernel
      → bo.meta.num_planes ≤ length bo.handles
      → Imported fds bo.meta sys (drv_prime_bo_import kernel bo fds sys)
  unfolding drv_prime_bo_import asked
  drv_prime_bo_import-Imported bo fds sys reports fits =
      import_planes-Imported fds bo.meta.num_planes 0 bo sys sys reports (omega arith) fits refl
        (λ q lt. absurd (omega arith))

  -- Only handles and the number of planes change.
  import_planes-test :
      (fds : List ℕ) (rest plane : ℕ) (bo : Bo) (sys : Sys)
      → (import_planes kernel fds rest plane bo sys).1.is_test_buffer ≡ bo.is_test_buffer
  unfolding import_planes
  import_planes-test fds zero plane bo sys = refl
  import_planes-test fds (suc rest) plane bo sys =
      let (reply, sys') = call kernel (import_plane fds plane) sys in
      elim (Bool-cases (reply.ret == 0)) [
        | inl ok ↦ rw ok (
            import_planes-test fds rest (suc plane)
              (record bo { handles = set bo.handles plane reply.handle }) sys')
        | inr bad ↦ rw bad refl
      ]

  -- A buffer that is imported has the layout that it had before.
  pub drv_prime_bo_import-layout :
      (bo : Bo) (fds : List ℕ) (sys : Sys)
      → ReportsErrors kernel
      → bo.meta.num_planes ≤ length bo.handles
      → (drv_prime_bo_import kernel bo fds sys).0 ≡ 0
      → ((drv_prime_bo_import kernel bo fds sys).1.meta ≡ bo.meta)
        × ((drv_prime_bo_import kernel bo fds sys).1.is_test_buffer ≡ bo.is_test_buffer)
  drv_prime_bo_import-layout bo fds sys reports fits ok = (
    layout (drv_prime_bo_import-Imported bo fds sys reports fits) ok,
    unfold drv_prime_bo_import in import_planes-test fds bo.meta.num_planes 0 bo sys,
  )
    where
      layout : {r : ℕ × Bo × Sys} → Imported fds bo.meta sys r → r.0 ≡ 0 → r.1.meta ≡ bo.meta
      layout (complete bo' sys' same took all) none_failed = same
      layout (given_up code plane bo' sys' lt bad same took closed error) none_failed =
          absurd (error none_failed)
