-- ===== src/Refcount.antt =====
-- The reference counts of kernel buffers, `drv->buffer_table`: helpers.c over the hash table of
-- libdrm (xf86drm.h), which is a parameter.
pub mod Count
pub mod Planes
use minigbm.Base.{
  ℕ, zero, suc, ◌+◌, ◌-◌, ◌%◌, ◌≡◌, Option, none, some, List, get_or, ltb, ◌==◌, if◌then◌else◌,
}
use minigbm.Util.{u64_mod}

-- What libdrm documents of `drmHashCreate`, `drmHashLookup`, `drmHashDelete` and `drmHashInsert`:
-- deleting a key that is absent changes nothing, and inserting one that is absent adds it.
pub record DrmHash : Type 1 where
  pub Table : Type 0
  pub create : Table
  pub lookup : Table → ℕ → Option ℕ
  pub delete : Table → ℕ → Table
  pub insert : Table → ℕ → ℕ → Table
  pub lookup-create : (j : ℕ) → lookup create j ≡ none
  pub lookup-delete :
      (t : Table) (k j : ℕ) → lookup (delete t k) j ≡ (if k == j then none else lookup t j)
  pub lookup-insert :
      (t : Table) (k v j : ℕ)
      → lookup t k ≡ none
      → lookup (insert t k v) j ≡ (if k == j then some v else lookup t j)

module _ (hash : DrmHash) where
  open hash use {Table, lookup, delete, insert}

  -- `drv_get_reference_count`, of `bo->handles[plane].u32`.
  unfoldable pub drv_get_reference_count : Table → ℕ → ℕ
  drv_get_reference_count table handle = elim (lookup table handle) [ none ↦ 0 | some num ↦ num ]

  unfoldable pub drv_increment_reference_count : Table → ℕ → Table
  drv_increment_reference_count table handle =
      let num = drv_get_reference_count table handle in
      insert (delete table handle) handle ((num + 1) % u64_mod)

  unfoldable pub drv_decrement_reference_count : Table → ℕ → Table
  drv_decrement_reference_count table handle =
      let num = drv_get_reference_count table handle in
      let deleted = delete table handle in
      if ltb 0 num then insert deleted handle (num - 1) else deleted

  -- The loops of drv.c over the planes of a buffer, from plane `p` with `rest` planes to go.
  unfoldable pub increment_planes : List ℕ → ℕ → ℕ → Table → Table
  increment_planes handles zero p table = table
  increment_planes handles (suc rest) p table =
      increment_planes handles rest (suc p)
        (drv_increment_reference_count table (get_or handles p 0))

  unfoldable pub decrement_planes : List ℕ → ℕ → ℕ → Table → Table
  decrement_planes handles zero p table = table
  decrement_planes handles (suc rest) p table =
      decrement_planes handles rest (suc p)
        (drv_decrement_reference_count table (get_or handles p 0))

  -- `total += drv_get_reference_count(drv, bo, plane)`
  unfoldable pub total_references : List ℕ → ℕ → ℕ → Table → ℕ → ℕ
  total_references handles zero p table total = total
  total_references handles (suc rest) p table total =
      total_references handles rest (suc p) table
        ((total + drv_get_reference_count table (get_or handles p 0)) % u64_mod)
