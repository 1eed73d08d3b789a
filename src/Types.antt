-- ===== src/Types.antt =====
-- The data of drv.h and drv_priv.h. A fixed array of `DRV_MAX_PLANES` entries is a list of that
-- length (`IsSized` below), read by `get_or` and written by `set`.
use minigbm.Base.{ℕ, ◌≡◌, Bool, List, length}

abbrev pub drv_max_planes : ℕ
drv_max_planes = 4

-- `struct bo_metadata`
pub record Metadata : Type 0 where
  pub width : ℕ
  pub height : ℕ
  pub format : ℕ
  pub tiling : ℕ
  pub num_planes : ℕ
  pub offsets : List ℕ
  pub sizes : List ℕ
  pub strides : List ℕ
  pub format_modifiers : List ℕ
  pub use_flags : ℕ
  pub total_size : ℕ

-- `struct bo`; the driver that it points to is passed beside it, and of `union bo_handle` the code
-- uses the member `u32`.
pub record Bo : Type 0 where
  pub meta : Metadata
  pub is_test_buffer : Bool
  pub handles : List ℕ

-- `struct format_metadata`
pub record FormatMetadata : Type 0 where
  pub priority : ℕ
  pub tiling : ℕ
  pub modifier : ℕ

-- `struct combination`
pub record Combination : Type 0 where
  pub format : ℕ
  pub metadata : FormatMetadata
  pub use_flags : ℕ

-- `struct drv_import_fd_data`
pub record ImportFdData : Type 0 where
  pub fds : List ℕ
  pub strides : List ℕ
  pub offsets : List ℕ
  pub format_modifiers : List ℕ
  pub width : ℕ
  pub height : ℕ
  pub format : ℕ
  pub use_flags : ℕ

-- `struct rectangle`
pub record Rectangle : Type 0 where
  pub x : ℕ
  pub y : ℕ
  pub width : ℕ
  pub height : ℕ

-- `struct vma`; `priv` is 0 for NULL, and `refcount` is the 32 bits of an `int32_t`.
pub record Vma : Type 0 where
  pub addr : ℕ
  pub length : ℕ
  pub handle : ℕ
  pub map_flags : ℕ
  pub refcount : ℕ
  pub map_strides : List ℕ
  pub priv : ℕ

-- `struct mapping`, an item of `drv->mappings`: `address` is where the item lies, the pointer that
-- callers hold, and `vma` the pointer that it stores.
pub record Mapping : Type 0 where
  pub address : ℕ
  pub vma : ℕ
  pub rect : Rectangle
  pub refcount : ℕ

-- The arrays of `struct bo_metadata` that hold the layout of the planes have their full length.
pub record IsSized (m : Metadata) : Type 0 where
  pub offsets_full : length m.offsets ≡ drv_max_planes
  pub sizes_full : length m.sizes ≡ drv_max_planes
  pub strides_full : length m.strides ≡ drv_max_planes
