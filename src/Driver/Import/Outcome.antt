-- ===== src/Driver/Import/Outcome.antt =====
-- What an import leaves behind: a buffer with its references, or nothing.
use minigbm.Base.{
  ℕ, zero, suc, ◌+◌, ◌-◌, ◌^◌, ◌≤◌, ◌<◌, ◌≡◌, ◌≢◌, inl, inr, refl, ap, ◌∙◌, true, false, Option,
  none, some, List, get_or, set, ltb, arith, ◌==◌, ◌!=◌, Bool-cases, length-set, get_or-set_self,
  get_or-set_ne, Option-cases,
}
use native.Mathlib.Decide.{ℕ_discrete}
use minigbm.Types.{Bo, Metadata, Vma, ImportFdData, IsSized}
use minigbm.Handles.{uses}
use minigbm.Kernel.{Kernel, Request, Sys, call}
use minigbm.Backend.{Backend}
use minigbm.Refcount.{DrmHash, increment_planes, decrement_planes, total_references}
use minigbm.Refcount.Planes.{count-increment_planes, count-decrement_planes}
use minigbm.Mappings.Sound.{IsSound}
use minigbm.Mappings.Destroy.{drv_mapping_destroy_lem}
use minigbm.Driver.{Driver, drv_bo_new, drv_bo_destroy, destroy_last}
use minigbm.Driver.Counts.{count}
use minigbm.Driver.Import.{import_layout, import_size, finish_import, import_new, drv_bo_import}

-- The layout of a plane is the one that the caller gave.
pub record Copied (source : ImportFdData) (m : Metadata) (p : ℕ) : Type 0 where
  pub same_stride : get_or m.strides p 0 ≡ get_or source.strides p 0
  pub same_offset : get_or m.offsets p 0 ≡ get_or source.offsets p 0

module _ (kernel : Kernel) (source : ImportFdData) where
  -- The last loop changes neither the handles nor the number of planes.
  pub record SameBuffer (bo bo' : Bo) : Type 0 where
    pub same_handles : bo'.handles ≡ bo.handles
    pub same_planes : bo'.meta.num_planes ≡ bo.meta.num_planes
    pub same_test : bo'.is_test_buffer ≡ bo.is_test_buffer

  import_layout-SameBuffer :
      (rest p : ℕ) (bo : Bo) (sys : Sys)
      → SameBuffer bo (import_layout kernel source rest p bo sys).1
  unfolding import_layout
  import_layout-SameBuffer zero p bo sys = record {
    same_handles = refl;
    same_planes = refl;
    same_test = refl;
  }
  import_layout-SameBuffer (suc rest) p bo sys =
      let reply = (call kernel (Request.seek_end (get_or source.fds p 0)) sys).0 in
      let size = import_size source bo.meta.num_planes p reply.size in
      elim (Bool-cases (reply.ret != 0)) [
        | inl failed ↦
            rw failed (record { same_handles = refl; same_planes = refl; same_test = refl })
        | inr found ↦ elim (Bool-cases (ltb reply.size (get_or source.offsets p 0 + size))) [
          | inl short ↦
              rw (found, short)
                (record { same_handles = refl; same_planes = refl; same_test = refl })
          | inr fits ↦
              rw (found, fits)
                (let s = import_layout-SameBuffer rest (suc p) _ _ in
                  record {
                    same_handles = s.same_handles;
                    same_planes = s.same_planes;
                    same_test = s.same_test;
                  })
        ]
      ]

  -- The planes up to `p` have the layout that the caller gave.
  abbrev CopiedTo : ℕ → Metadata → Type 0
  CopiedTo p m = (q : ℕ) → q < p → Copied source m q

  copied-CopiedTo :
      (p t : ℕ) (sizes modifiers : List ℕ) (m : Metadata)
      → IsSized m
      → p < 4
      → CopiedTo p m
      → CopiedTo (suc p) (record m {
        strides = set m.strides p (get_or source.strides p 0);
        offsets = set m.offsets p (get_or source.offsets p 0);
        format_modifiers = modifiers;
        sizes = sizes;
        total_size = t;
      })
  copied-CopiedTo p t sizes modifiers m s few before q lt = elim (ℕ_discrete p q) [
    | yes e ↦ rw (← e) (record {
      same_stride = get_or-set_self m.strides p (get_or source.strides p 0) 0 (omega arith);
      same_offset = get_or-set_self m.offsets p (get_or source.offsets p 0) 0 (omega arith);
    })
    | no ne ↦
        let earlier = before q (omega arith) in
        record {
          same_stride =
              get_or-set_ne m.strides p q (get_or source.strides p 0) 0 ne ∙ earlier.same_stride;
          same_offset =
              get_or-set_ne m.offsets p q (get_or source.offsets p 0) 0 ne ∙ earlier.same_offset;
        }
  ]

  -- If the loop is done, all planes have it.
  import_layout-CopiedTo :
      (rest p : ℕ) (bo : Bo) (sys : Sys)
      → IsSized bo.meta
      → p + rest ≤ 4
      → CopiedTo p bo.meta
      → (import_layout kernel source rest p bo sys).0 ≡ true
      → CopiedTo (p + rest) (import_layout kernel source rest p bo sys).1.meta
  unfolding import_layout
  import_layout-CopiedTo zero p bo sys s few before = λ done q lt. before q (omega arith)
  import_layout-CopiedTo (suc rest) p bo sys s few before =
      let reply = (call kernel (Request.seek_end (get_or source.fds p 0)) sys).0 in
      let size = import_size source bo.meta.num_planes p reply.size in
      elim (Bool-cases (reply.ret != 0)) [
        | inl failed ↦ rw failed (λ bad. (cc))
        | inr found ↦ elim (Bool-cases (ltb reply.size (get_or source.offsets p 0 + size))) [
          | inl short ↦ rw (found, short) (λ bad. (cc))
          | inr fits ↦
              rw (found, fits)
                (λ done q lt.
                  import_layout-CopiedTo rest (suc p) _ _
                    (record {
                      offsets_full = length-set bo.meta.offsets p _ ∙ s.offsets_full;
                      sizes_full = length-set bo.meta.sizes p _ ∙ s.sizes_full;
                      strides_full = length-set bo.meta.strides p _ ∙ s.strides_full;
                    })
                    (omega arith) (copied-CopiedTo p _ _ _ bo.meta s (omega arith) before) done q
                    (omega arith))
        ]
      ]

module _ (hash : DrmHash) (backend : Backend) where
  -- If unmapping never fails, destroying a real buffer returns, and drops its references.
  drv_bo_destroy_returns :
      (bo : Bo) (drv : Driver hash) (sys : Sys)
      → bo.is_test_buffer ≡ false
      → 1 ≤ bo.meta.num_planes
      → IsSound drv.maps
      → ((v : Vma) (sys' : Sys) → (backend.bo_unmap bo v sys').0 ≡ 0)
      → (drv' : Driver hash) × (sys' : Sys) × (drv_bo_destroy hash backend bo drv sys
          ≡ some (drv', sys'))
        × IsSound drv'.maps
        × ((h : ℕ) → count hash drv' h ≡ count hash drv h - uses bo.handles bo.meta.num_planes 0 h)
  unfolding drv_bo_destroy destroy_last
  drv_bo_destroy_returns bo drv sys real some_plane sound unmaps =
      let table = decrement_planes hash bo.handles bo.meta.num_planes 0 drv.buffer_table in
      let total = total_references hash bo.handles bo.meta.num_planes 0 table 0 in
      let counted =
        λ (h : ℕ). count-decrement_planes hash bo.handles bo.meta.num_planes 0 drv.buffer_table h in
      elim (Bool-cases (total == 0)) [
        | inl last ↦
            let (s', sys', e, _, sound') =
              drv_mapping_destroy_lem backend bo drv.maps sys sound unmaps some_plane in
            (
              record drv { buffer_table = table; maps = s' },
              (backend.bo_destroy bo sys').1,
              rw (last, e, real) refl,
              sound',
              counted,
            )
        | inr held ↦
            (record drv { buffer_table = table }, sys, rw (held, real) refl, sound, counted)
      ]

-- Why an import returns no buffer: the format is not known, the backend cannot import the buffer, or
-- a file is shorter than its plane or does not tell its length.
pub data Refusal (backend : Backend) (kernel : Kernel) (source : ImportFdData) (sys : Sys)
    : Type 0 where
  unknown_format :
      drv_bo_new source.width source.height source.format source.use_flags false ≡ none
      → Refusal backend kernel source sys
  not_imported :
      (new : Bo)
      → drv_bo_new source.width source.height source.format source.use_flags false ≡ some new
      → (backend.bo_import new source sys).0 ≢ 0
      → Refusal backend kernel source sys
  too_short :
      (new bo : Bo) (sys' : Sys) (ret : ℕ)
      → drv_bo_new source.width source.height source.format source.use_flags false ≡ some new
      → backend.bo_import new source sys ≡ (ret, bo, sys')
      → (import_layout kernel source bo.meta.num_planes 0 bo sys').0 ≡ false
      → Refusal backend kernel source sys

module _ (hash : DrmHash) (backend : Backend) (kernel : Kernel) (source : ImportFdData)
    (drv : Driver hash) (sys : Sys) where
  -- What an import ends in: for a reason no buffer and every count as before, or a buffer that holds
  -- its references and has the layout that the caller gave.
  pub data Imported (drv' : Driver hash) : Option Bo → Type 0 where
    refused :
        Refusal backend kernel source sys
        → ((h : ℕ) → count hash drv' h ≡ count hash drv h)
        → Imported drv' none
    taken :
        (bo : Bo)
        → drv'.maps ≡ drv.maps
        → ((h : ℕ) → count hash drv' h ≡ count hash drv h + uses bo.handles bo.meta.num_planes 0 h)
        → CopiedTo kernel source bo.meta.num_planes bo.meta
        → Imported drv' (some bo)

-- A buffer that owns memory and has its planes.
pub record IsReal (bo : Bo) : Type 0 where
  pub sized : IsSized bo.meta
  pub real : bo.is_test_buffer ≡ false
  pub some_plane : 1 ≤ bo.meta.num_planes
  pub few_planes : bo.meta.num_planes ≤ 4

module _ (hash : DrmHash) (backend : Backend) (kernel : Kernel) (source : ImportFdData)
    (drv : Driver hash) (sound : IsSound drv.maps)
    (unmaps : (b : Bo) (v : Vma) (sys' : Sys) → (backend.bo_unmap b v sys').0 ≡ 0)
    (small : (h : ℕ) → count hash drv h < 2 ^ 60) where
  -- the driver once the planes of a buffer have their references
  abbrev referenced : Bo → Driver hash
  referenced bo = record drv {
    buffer_table = increment_planes hash bo.handles bo.meta.num_planes 0 drv.buffer_table;
  }

  referenced-count :
      (bo : Bo) (h : ℕ)
      → bo.meta.num_planes ≤ 4
      → count hash (referenced bo) h ≡ count hash drv h + uses bo.handles bo.meta.num_planes 0 h
  referenced-count bo h few =
      count-increment_planes hash bo.handles bo.meta.num_planes 0 drv.buffer_table h
        (omega (arith, small h))

  abbrev Outcome : Sys → Option (Option Bo × Driver hash × Sys) → Type 0
  Outcome sys result =
      (r : Option Bo) × (drv' : Driver hash) × (sys' : Sys) × (result ≡ some (r, drv', sys'))
      × IsSound drv'.maps
      × Imported hash backend kernel source drv sys drv' r

  finish_import_lem :
      (bo : Bo) (first sys : Sys)
      → IsReal bo
      → ((import_layout kernel source bo.meta.num_planes 0 bo sys).0 ≡ false
          → Refusal backend kernel source first)
      → Outcome first (finish_import hash backend kernel source bo (referenced bo) sys)
  unfolding finish_import
  finish_import_lem bo first sys whole why =
      let planes = bo.meta.num_planes in
      let (done, bo', sys') = import_layout kernel source planes 0 bo sys in
      let same = import_layout-SameBuffer kernel source planes 0 bo sys in
      elim (Bool-cases done) [
        | inl e ↦ (
          some bo',
          referenced bo,
          sys',
          rw e refl,
          sound,
          taken bo' refl
              (rw (same.same_handles, same.same_planes)
                (λ h. referenced-count bo h whole.few_planes))
              (rw same.same_planes (λ q lt.
                import_layout-CopiedTo kernel source planes 0 bo sys whole.sized
                  (omega (arith, whole.few_planes)) (λ q' lt'. absurd (omega arith)) e q
                  (omega arith))),
        )
        | inr e ↦
            let (drv', sys'', gone, sound', counted) =
              drv_bo_destroy_returns hash backend bo' (referenced bo) sys'
                (same.same_test ∙ whole.real) (rw same.same_planes whole.some_plane) sound
                (unmaps bo') in
            (
              none,
              drv',
              sys'',
              rw (e, gone) refl,
              sound',
              refused (why e) (λ h. omega (
                arith,
                counted h,
                referenced-count bo h whole.few_planes,
                ap (λ (n : ℕ). uses bo'.handles n 0 h) same.same_planes,
                ap (λ (l : List ℕ). uses l planes 0 h) same.same_handles,
              )),
            )
      ]

  import_new_lem :
      (new : Bo) (sys : Sys)
      → drv_bo_new source.width source.height source.format source.use_flags false ≡ some new
      → ((backend.bo_import new source sys).0 ≡ 0 → IsReal (backend.bo_import new source sys).1)
      → Outcome sys (import_new hash backend kernel source (some new) drv sys)
  unfolding import_new
  import_new_lem new sys known whole =
      let (ret, bo, sys') = backend.bo_import new source sys in
      elim (Bool-cases (ret != 0)) [
        | inl failed ↦ (
          none,
          drv,
          sys',
          rw failed refl,
          sound,
          refused (not_imported new known (failed_code ret failed)) (λ h. refl),
        )
        | inr done ↦ rw done (
            finish_import_lem bo sys sys' (whole (done_code ret done))
              (too_short new bo sys' ret known refl))
      ]
    where
      failed_code : (ret : ℕ) → (ret != 0) ≡ true → ret ≢ 0
      failed_code ret h = ground arith

      done_code : (ret : ℕ) → (ret != 0) ≡ false → ret ≡ 0
      done_code ret h = ground arith

  -- If the table of mappings is sound, unmapping never fails, the counts are below 2^60, and the
  -- backend's import, where it returns 0 for the new buffer, leaves a real buffer with full
  -- arrays and one to four planes, then importing never aborts, whatever the kernel answers, and
  -- keeps the table sound: it returns no buffer, with every count as before, only if the format
  -- is not known, the backend fails, or the last loop does, and else a buffer whose planes have
  -- the strides and offsets that the caller gave, with the mappings untouched and for each
  -- handle as many references more as planes use it.
  pub drv_bo_import_lem :
      (sys : Sys)
      → ((new : Bo)
          → drv_bo_new source.width source.height source.format source.use_flags false ≡ some new
          → (backend.bo_import new source sys).0 ≡ 0
          → IsReal (backend.bo_import new source sys).1)
      → (r : Option Bo) × (drv' : Driver hash) × (sys' : Sys) × (drv_bo_import hash backend kernel
            source drv sys
          ≡ some (r, drv', sys'))
        × IsSound drv'.maps
        × Imported hash backend kernel source drv sys drv' r
  unfolding drv_bo_import import_new
  drv_bo_import_lem sys whole =
      elim (Option-cases
        (drv_bo_new source.width source.height source.format source.use_flags false)) [
          | inl e ↦ (none, drv, sys, rw e refl, sound, refused (unknown_format e) (λ h. refl))
          | inr (new, e) ↦ rw e (import_new_lem new sys e (whole new e))
        ]
