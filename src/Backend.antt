-- ===== src/Backend.antt =====
-- drv_priv.h: `struct backend`, the operations of one kernel driver. A pointer that may be NULL is an
-- option. An operation is given what it reads of the driver and returns what it writes: its code,
-- 0 for success, the buffer or the mapped area, and the state of the kernel calls. A
-- `struct mapping` comes with the area that it points to. Left out are `init`, which
-- `drv_init` takes as an argument, and `close` and `resource_info`, whose callers are not modelled.
use minigbm.Base.{ℕ, Option, List}
use minigbm.Types.{Bo, Combination, ImportFdData, Mapping, Vma}
use minigbm.Kernel.{Sys}

pub record Backend : Type 0 where
  pub bo_create : Option (List Combination → Bo → ℕ → ℕ → ℕ → ℕ → Sys → ℕ × Bo × Sys)
  pub bo_create_with_modifiers :
      Option (List Combination → Bo → ℕ → ℕ → ℕ → List ℕ → Sys → ℕ × Bo × Sys)
  pub bo_compute_metadata :
      Option (List Combination → Bo → ℕ → ℕ → ℕ → ℕ → Option (List ℕ) → Sys → ℕ × Bo × Sys)
  pub bo_create_from_metadata : Option (Bo → Sys → ℕ × Bo × Sys)
  pub bo_destroy : Bo → Sys → ℕ × Sys
  pub bo_import : Bo → ImportFdData → Sys → ℕ × Bo × Sys
  pub bo_map : Bo → Vma → ℕ → ℕ → Sys → Option ℕ × Vma × Sys
  pub bo_unmap : Bo → Vma → Sys → ℕ × Sys
  pub bo_invalidate : Option (Bo → Mapping → Vma → Sys → ℕ × Sys)
  pub bo_flush : Option (Bo → Mapping → Vma → Sys → ℕ × Sys)
  pub resolve_format : Option (ℕ → ℕ → ℕ)
  pub num_planes_from_modifier : Option (ℕ → ℕ → ℕ)
