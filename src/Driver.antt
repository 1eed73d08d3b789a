-- ===== src/Driver.antt =====
-- drv.c: the life cycle of buffers. A pointer that may be NULL is an option inside, and an abort is
-- `none` outside. The buffer that `drv_bo_destroy` frees is not used again.
pub mod Counts
pub mod Query
pub mod Import
pub mod Select
use minigbm.Base.{
  ℕ, zero, suc, ◌+◌, ◌-◌, ◌%◌, ◌≡◌, Bool, true, false, not, ◌&&◌, ◌||◌, Option, none, some, List,
  get_or, set, replicate, bit_and, ltb, leb, ◌==◌, ◌!=◌, if◌then◌else◌, ◌>>=◌, ◌>>◌, assert,
}
use minigbm.Util.{u32, u32_mod, u64_mod}
use minigbm.Flags.{bo_use_none, bo_use_test_alloc}
use minigbm.Types.{Bo, Metadata, Combination, ImportFdData, drv_max_planes}
use minigbm.Format.{drv_num_planes_from_format}
use minigbm.Kernel.{Kernel, Request, Sys, call}
use minigbm.Backend.{Backend}
use minigbm.Refcount.{
  DrmHash, drv_increment_reference_count, increment_planes, decrement_planes, total_references,
}
use minigbm.Mappings.{Maps}
use minigbm.Mappings.Teardown.{drv_mapping_destroy}

-- `EINVAL` and `ENOENT` of errno.h
abbrev pub einval : ℕ
einval = 22

abbrev pub enoent : ℕ
enoent = 2

-- `drv_bo_new`: NULL for a format that is not known.
unfoldable pub drv_bo_new : ℕ → ℕ → ℕ → ℕ → Bool → Option Bo
drv_bo_new width height format use_flags is_test_buffer =
    let bo : Bo = record {
      meta = record {
        width = width;
        height = height;
        format = format;
        tiling = 0;
        num_planes = drv_num_planes_from_format format;
        offsets = replicate drv_max_planes 0;
        sizes = replicate drv_max_planes 0;
        strides = replicate drv_max_planes 0;
        format_modifiers = replicate drv_max_planes 0;
        use_flags = use_flags;
        total_size = 0;
      };
      is_test_buffer = is_test_buffer;
      handles = replicate drv_max_planes 0;
    } in
    if drv_num_planes_from_format format == 0 then none else some bo

module _ (hash : DrmHash) where
  open hash use {Table}

  -- The fields of `struct driver` that the functions change.
  pub record Driver : Type 0 where
    pub combos : List Combination
    pub maps : Maps
    pub buffer_table : Table

  -- The last loop of `drv_bo_create`: the planes lie in order, and each takes a reference.
  unfoldable pub reference_planes : Bo → ℕ → ℕ → Table → Option Table
  reference_planes bo zero p table = some table
  reference_planes bo (suc rest) p table = do
    assert (p == 0 || leb (get_or bo.meta.offsets (p - 1) 0) (get_or bo.meta.offsets p 0))
    reference_planes bo rest (suc p)
        (drv_increment_reference_count hash table (get_or bo.handles p 0))

  -- The end of `drv_bo_create` and `drv_bo_create_with_modifiers`: `if (ret) ...`
  unfoldable pub finish_create : Driver → ℕ × Bo × Sys → Option (Option Bo × Driver × Sys)
  finish_create drv (ret, bo, sys) =
      let counted = reference_planes bo bo.meta.num_planes 0 drv.buffer_table >>= λ table.
      some (some bo, record drv { buffer_table = table }, sys) in
      if ret != 0 then some (none, drv, sys) else counted

  module _ (backend : Backend) where
    -- The call of the backend in `drv_bo_create`; a NULL operation is an abort.
    unfoldable pub allocate : Driver → Bo → ℕ → ℕ → ℕ → ℕ → Bool → Sys → Option (ℕ × Bo × Sys)
    allocate drv bo width height format use_flags is_test_alloc sys =
        elim backend.bo_compute_metadata [
          | some f ↦
              let (ret, bo', sys') = f drv.combos bo width height format use_flags none sys in
              let create = elim backend.bo_create_from_metadata as (λ _. Option (ℕ × Bo × Sys)) [
                | none ↦ none
                | some g ↦ some (g bo' sys')
              ] in
              if not is_test_alloc && ret == 0 then create else some (ret, bo', sys')
          | none ↦
              let create = elim backend.bo_create as (λ _. Option (ℕ × Bo × Sys)) [
                | none ↦ none
                | some g ↦ some (g drv.combos bo width height format use_flags sys)
              ] in
              if is_test_alloc then some (einval, bo, sys) else create
        ]

    -- From `if (!bo)` of `drv_bo_create` on.
    unfoldable pub create_new :
        Driver → ℕ → ℕ → ℕ → ℕ → Bool → Option Bo → Sys → Option (Option Bo × Driver × Sys)
    create_new drv width height format use_flags is_test_alloc none sys = some (none, drv, sys)
    create_new drv width height format use_flags is_test_alloc (some bo) sys =
        allocate drv bo width height format use_flags is_test_alloc sys >>= finish_create drv

    unfoldable pub drv_bo_create : Driver → ℕ → ℕ → ℕ → ℕ → Sys → Option (Option Bo × Driver × Sys)
    drv_bo_create drv width height format use_flags sys =
        let is_test_alloc = bit_and use_flags bo_use_test_alloc != 0 in
        let flags = bit_and use_flags (u64_mod - 1 - bo_use_test_alloc) in
        create_new drv width height format flags is_test_alloc
          (drv_bo_new width height format flags is_test_alloc) sys

    -- The call of the backend in `drv_bo_create_with_modifiers`.
    unfoldable pub allocate_with_modifiers :
        Driver → Bo → ℕ → ℕ → ℕ → List ℕ → Sys → Option (ℕ × Bo × Sys)
    allocate_with_modifiers drv bo width height format modifiers sys =
        elim backend.bo_compute_metadata [
          | some f ↦
              let (ret, bo', sys') =
                f drv.combos bo width height format bo_use_none (some modifiers) sys in
              let create = elim backend.bo_create_from_metadata as (λ _. Option (ℕ × Bo × Sys)) [
                | none ↦ none
                | some g ↦ some (g bo' sys')
              ] in
              if ret == 0 then create else some (ret, bo', sys')
          | none ↦ elim backend.bo_create_with_modifiers as (λ _. Option (ℕ × Bo × Sys)) [
            | none ↦ none
            | some g ↦ some (g drv.combos bo width height format modifiers sys)
          ]
        ]

    -- Neither operation: `errno = ENOENT`.
    unfoldable pub can_modify : Bool
    can_modify = elim backend.bo_create_with_modifiers [
      | some f ↦ true
      | none ↦ elim backend.bo_compute_metadata [ none ↦ false | some f ↦ true ]
    ]

    unfoldable pub drv_bo_create_with_modifiers :
        Driver → ℕ → ℕ → ℕ → List ℕ → Sys → Option (Option Bo × Driver × Sys)
    drv_bo_create_with_modifiers drv width height format modifiers sys =
        let create =
          elim (drv_bo_new width height format bo_use_none false)
            as (λ _. Option (Option Bo × Driver × Sys)) [
              | none ↦ some (none, drv, sys)
              | some bo ↦
                  allocate_with_modifiers drv bo width height format modifiers sys
                  >>= finish_create drv
            ] in
        if can_modify then create else some (none, drv, record sys { errno = enoent })

    -- `if (total == 0)`: the last reference.
    unfoldable pub destroy_last : Bo → Driver → Sys → Option (Driver × Sys)
    destroy_last bo drv sys = do
      destroyed ← drv_mapping_destroy backend bo drv.maps sys
      assert (destroyed.0 == 0)
      some (record drv { maps = destroyed.1 }, (backend.bo_destroy bo destroyed.2).1)

    unfoldable pub drv_bo_destroy : Bo → Driver → Sys → Option (Driver × Sys)
    drv_bo_destroy bo drv sys =
        let table = decrement_planes hash bo.handles bo.meta.num_planes 0 drv.buffer_table in
        let drv' = record drv { buffer_table = table } in
        let total = total_references hash bo.handles bo.meta.num_planes 0 table 0 in
        let last = destroy_last bo drv' sys in
        if bo.is_test_buffer
        then some (drv, sys)
        else (if total == 0 then last else some (drv', sys))
