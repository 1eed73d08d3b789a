-- ===== src/Driver/Counts.antt =====
-- What creating and destroying a buffer does to the reference counts, the mappings and the kernel.
use minigbm.Base.{
  ℕ, zero, suc, ◌+◌, ◌-◌, ◌^◌, ◌≤◌, ◌<◌, ◌≡◌, ◌≢◌, refl, Bool, true, false, ◌||◌, Option, none,
  some, get_or, leb, arith, ◌==◌, ◌!=◌, ==_ne, ◌↔◌, bit_and,
}
use minigbm.Util.{u64_mod}
use minigbm.Flags.{bo_use_test_alloc}
use minigbm.Types.{Bo, Vma}
use minigbm.Handles.{uses}
use minigbm.Kernel.{Sys}
use minigbm.Backend.{Backend}
use minigbm.Refcount.{
  DrmHash, drv_get_reference_count, increment_planes, decrement_planes, total_references,
}
use minigbm.Refcount.Planes.{count-increment_planes, count-decrement_planes, total_references_zero}
use minigbm.Mappings.Sound.{IsSound}
use minigbm.Mappings.Destroy.{others, drv_mapping_destroy_lem}
use minigbm.Driver.{
  Driver, drv_bo_new, reference_planes, finish_create, allocate, drv_bo_create, create_new,
  destroy_last, drv_bo_destroy,
}

-- The flags of `drv_bo_create`: whether it only tests, and those without the test flag.
abbrev pub is_test : ℕ → Bool
is_test use_flags = bit_and use_flags bo_use_test_alloc != 0

abbrev pub real_flags : ℕ → ℕ
real_flags use_flags = bit_and use_flags (u64_mod - 1 - bo_use_test_alloc)

module _ (hash : DrmHash) where
  open hash use {Table}

  abbrev pub count : Driver hash → ℕ → ℕ
  count drv h = drv_get_reference_count hash drv.buffer_table h

  -- The planes lie in order, as `drv_bo_create` asserts.
  abbrev pub InOrder : Bo → Type 0
  InOrder bo =
      (p : ℕ)
      → suc p < bo.meta.num_planes
      → get_or bo.meta.offsets p 0 ≤ get_or bo.meta.offsets (suc p) 0

  in_order :
      (bo : Bo) (p : ℕ)
      → InOrder bo
      → p < bo.meta.num_planes
      → (p == 0 || leb (get_or bo.meta.offsets (p - 1) 0) (get_or bo.meta.offsets p 0)) ≡ true
  in_order bo zero ordered lt = refl
  in_order bo (suc p) ordered lt = ground (arith, ordered p lt)

  reference_planes_lem :
      (bo : Bo) (rest p : ℕ) (table : Table)
      → InOrder bo
      → p + rest ≤ bo.meta.num_planes
      → reference_planes hash bo rest p table ≡ some (increment_planes hash bo.handles rest p table)
  unfolding reference_planes increment_planes
  reference_planes_lem bo zero p table ordered fits = refl
  reference_planes_lem bo (suc rest) p table ordered fits =
      rw (in_order bo p ordered (omega arith))
        (reference_planes_lem bo rest (suc p) _ ordered (omega arith))

  -- What a created buffer has done to the driver.
  pub data Created (drv : Driver hash) : Option Bo → Driver hash → Type 0 where
    refused : Created drv none drv
    counted :
        (bo : Bo) (drv' : Driver hash)
        → drv'.maps ≡ drv.maps
        → drv'.combos ≡ drv.combos
        → ((h : ℕ) → count drv' h ≡ count drv h + uses bo.handles bo.meta.num_planes 0 h)
        → Created drv (some bo) drv'

  module _ (backend : Backend) where
    module _ (bo : Bo) (drv : Driver hash) (sys : Sys) (real : bo.is_test_buffer ≡ false)
        (small : (h : ℕ) → count drv h < 2 ^ 60) (few : bo.meta.num_planes ≤ 4) where
      -- the table once the references of the buffer are dropped
      dropped : Table
      dropped = decrement_planes hash bo.handles bo.meta.num_planes 0 drv.buffer_table

      dropped-count :
          (h : ℕ)
          → drv_get_reference_count hash dropped h
            ≡ count drv h - uses bo.handles bo.meta.num_planes 0 h
      unfolding dropped
      dropped-count h =
          count-decrement_planes hash bo.handles bo.meta.num_planes 0 drv.buffer_table h

      total : ℕ
      total = total_references hash bo.handles bo.meta.num_planes 0 dropped 0

      total_ne_zero :
          (p : ℕ)
          → p < bo.meta.num_planes
          → uses bo.handles bo.meta.num_planes 0 (get_or bo.handles p 0)
            < count drv (get_or bo.handles p 0)
          → total ≢ 0
      unfolding total
      total_ne_zero p lt held z =
          let un =
            (total_references_zero hash bo.handles bo.meta.num_planes dropped
                (λ h. omega (arith, small h, dropped-count h)) few).0
              z in
          absurd
            (omega (arith, un p (omega arith) (omega arith), dropped-count (get_or bo.handles p 0)))

      -- If another buffer holds a reference to a handle of a real buffer of at most four planes,
      -- and the counts are below 2^60, then destroying the buffer makes no call of the kernel or
      -- the backend and leaves the mappings, and each handle has as many references less as
      -- planes of the buffer use it.
      pub drv_bo_destroy_shared :
          (p : ℕ)
          → p < bo.meta.num_planes
          → uses bo.handles bo.meta.num_planes 0 (get_or bo.handles p 0)
            < count drv (get_or bo.handles p 0)
          → (drv' : Driver hash) × (drv_bo_destroy hash backend bo drv sys ≡ some (drv', sys))
            × (drv'.maps ≡ drv.maps)
            × ((h : ℕ) → count drv' h ≡ count drv h - uses bo.handles bo.meta.num_planes 0 h)
      unfolding drv_bo_destroy dropped total
      drv_bo_destroy_shared p lt held = (
        record drv { buffer_table = dropped },
        rw (==_ne total 0 (total_ne_zero p lt held), real) refl,
        refl,
        dropped-count,
      )

      total_zero :
          ((p : ℕ)
            → p < bo.meta.num_planes
            → count drv (get_or bo.handles p 0)
              ≤ uses bo.handles bo.meta.num_planes 0 (get_or bo.handles p 0))
          → total ≡ 0
      unfolding total
      total_zero own =
          (total_references_zero hash bo.handles bo.meta.num_planes dropped
              (λ h. omega (arith, small h, dropped-count h)) few).1
            (λ q a b. omega (arith, own q (omega arith), dropped-count (get_or bo.handles q 0)))

      -- If a real buffer of one to four planes holds all references of its handles, the counts
      -- are below 2^60, the table of mappings is sound and unmapping never fails, then
      -- destroying it never aborts and calls the backend's destroy: the mappings left are those
      -- of areas with a handle other than that of the first plane, the table is sound, and each
      -- handle has as many references less as planes of the buffer use it.
      pub drv_bo_destroy_last :
          ((p : ℕ)
            → p < bo.meta.num_planes
            → count drv (get_or bo.handles p 0)
              ≤ uses bo.handles bo.meta.num_planes 0 (get_or bo.handles p 0))
          → 1 ≤ bo.meta.num_planes
          → IsSound drv.maps
          → ((v : Vma) (sys' : Sys) → (backend.bo_unmap bo v sys').0 ≡ 0)
          → (drv' : Driver hash) × (sys' : Sys) × (drv_bo_destroy hash backend bo drv sys
              ≡ some (drv', (backend.bo_destroy bo sys').1))
            × (drv'.maps.mappings ≡ others drv.maps.vmas (get_or bo.handles 0 0) drv.maps.mappings)
            × IsSound drv'.maps
            × ((h : ℕ) → count drv' h ≡ count drv h - uses bo.handles bo.meta.num_planes 0 h)
      unfolding drv_bo_destroy dropped total destroy_last
      drv_bo_destroy_last own some_plane sound unmaps =
          let (s', sys', e, left, sound') =
            drv_mapping_destroy_lem backend bo drv.maps sys sound unmaps some_plane in
          (
            record drv { buffer_table = dropped; maps = s' },
            sys',
            rw (total_zero own, e, real) refl,
            left,
            sound',
            dropped-count,
          )

    code_ne_zero : (n : ℕ) → (suc n != 0) ≡ true
    code_ne_zero n = ground arith

    -- The end of a creation: by the code of the backend.
    finish_create_lem :
        (drv : Driver hash) (ret : ℕ) (bo : Bo) (sys : Sys)
        → (ret ≡ 0 → InOrder bo)
        → ((h : ℕ) → count drv h + bo.meta.num_planes < u64_mod)
        → (r : Option Bo) × (drv' : Driver hash) × (finish_create hash drv (ret, bo, sys)
            ≡ some (r, drv', sys))
          × Created drv r drv'
          × ((ret ≡ 0) ↔ (r ≡ some bo))
    unfolding finish_create
    finish_create_lem drv zero bo sys ordered room = (
      some bo,
      record drv {
        buffer_table = increment_planes hash bo.handles bo.meta.num_planes 0 drv.buffer_table;
      },
      rw
          (reference_planes_lem bo bo.meta.num_planes 0 drv.buffer_table (ordered refl)
            (omega arith))
          refl,
      counted bo _ refl refl (λ h.
          count-increment_planes hash bo.handles bo.meta.num_planes 0 drv.buffer_table h (room h)),
      ((λ _. refl), (λ _. refl)),
    )
    finish_create_lem drv (suc ret) bo sys ordered room =
        (none, drv, rw (code_ne_zero ret) refl, refused, ((λ e. absurd (omega arith)), (λ e. cc)))

    -- If the format is known and the backend answers a code and a buffer, with its planes in
    -- order of their offsets where the code is 0, and the counts cannot wrap, then creating a
    -- buffer never aborts, and returns that buffer exactly if the code is 0; a refused creation
    -- leaves the driver as it was, and a successful one changes only the counts, which grow for
    -- each handle by the planes that use it.
    pub drv_bo_create_lem :
        (drv : Driver hash) (width height format use_flags ret : ℕ) (new bo : Bo) (sys sys' : Sys)
        → drv_bo_new width height format (real_flags use_flags) (is_test use_flags) ≡ some new
        → allocate hash backend drv new width height format
            (real_flags use_flags)
            (is_test use_flags)
            sys
          ≡ some (ret, bo, sys')
        → (ret ≡ 0 → InOrder bo)
        → ((h : ℕ) → count drv h + bo.meta.num_planes < u64_mod)
        → (r : Option Bo) × (drv' : Driver hash) × (drv_bo_create hash backend drv width height
              format use_flags sys
            ≡ some (r, drv', sys'))
          × Created drv r drv'
          × ((ret ≡ 0) ↔ (r ≡ some bo))
    unfolding drv_bo_create create_new
    drv_bo_create_lem drv width height format use_flags ret new bo sys sys' known made ordered
          room =
        let (r, drv', e, created, iff) = finish_create_lem drv ret bo sys' ordered room in
        (r, drv', rw (known, made) e, created, iff)
