-- ===== src/Tests.antt =====
-- Concrete inputs for the theorems, and the theorems at them.
pub mod Mapping
pub mod Buffers
pub mod Tables
pub mod References
pub mod Lifecycle
pub mod DumbBuffers
pub mod Frontend
pub mod Tiles
pub mod Host
use minigbm.Base.{
  ℕ, ◌≡◌, refl, Bool, true, false, Option, none, some, List, [], ◌∷◌, ◌==◌, if◌then◌else◌,
}
use minigbm.Fourcc.{drm_format_nv12}
use minigbm.Flags.{bo_use_none}
use minigbm.Types.{Bo, Metadata, Rectangle, IsSized}
use minigbm.Kernel.{Kernel, Sys}
use minigbm.Backend.{Backend}
use minigbm.Refcount.{DrmHash}

-- The metadata of an NV12 buffer of 64 by 32 before its layout is known.
abbrev pub nv12_metadata : Metadata
nv12_metadata = record {
  width = 64;
  height = 32;
  format = drm_format_nv12;
  tiling = 0;
  num_planes = 2;
  offsets = 0 ∷ 0 ∷ 0 ∷ 0 ∷ [];
  sizes = 0 ∷ 0 ∷ 0 ∷ 0 ∷ [];
  strides = 0 ∷ 0 ∷ 0 ∷ 0 ∷ [];
  format_modifiers = 0 ∷ 0 ∷ 0 ∷ 0 ∷ [];
  use_flags = bo_use_none;
  total_size = 0;
}

abbrev pub nv12_IsSized : IsSized nv12_metadata
nv12_IsSized = record { offsets_full = refl; sizes_full = refl; strides_full = refl }

-- Its two planes lie in one kernel buffer.
abbrev pub nv12_bo : Bo
nv12_bo = record { meta = nv12_metadata; is_test_buffer = false; handles = 7 ∷ 7 ∷ 0 ∷ 0 ∷ [] }

-- A kernel on which every call succeeds.
abbrev pub willing_kernel : Kernel
willing_kernel calls request = record {
  ret = 0;
  error = 0;
  handle = 7;
  pitch = 256;
  size = 8192;
  offset = 0;
  value = 0;
}

abbrev pub no_calls : Sys
no_calls = record { calls = []; errno = 0 }

-- A backend that maps every buffer at 4096.
abbrev pub simple_backend : Backend
simple_backend = record {
  bo_create = some (λ combos bo width height format flags sys. (0, bo, sys));
  bo_create_with_modifiers = none;
  bo_compute_metadata = none;
  bo_create_from_metadata = none;
  bo_destroy = λ bo sys. (0, sys);
  bo_import = λ bo imported sys. (0, bo, sys);
  bo_map = λ bo vma plane flags sys. (some 4096, vma, sys);
  bo_unmap = λ bo vma sys. (0, sys);
  bo_invalidate = none;
  bo_flush = none;
  resolve_format = none;
  num_planes_from_modifier = none;
}

-- A hash table as a function.
abbrev pub function_hash : DrmHash
function_hash = record {
  Table = ℕ → Option ℕ;
  create = λ j. none;
  lookup = λ t j. t j;
  delete = λ t k j. if k == j then none else t j;
  insert = λ t k v j. if k == j then some v else t j;
  lookup-create = λ j. refl;
  lookup-delete = λ t k j. refl;
  lookup-insert = λ t k v j h. refl;
}
