-- ===== src/Refcount/Count.antt =====
-- One step up or down in the table of reference counts.
use minigbm.Base.{ℕ, ◌+◌, ◌-◌, ◌%◌, ◌≡◌, arith, ◌==◌, if◌then◌else◌}
use minigbm.Util.{u64_mod}
use minigbm.Refcount.{
  DrmHash, drv_get_reference_count, drv_increment_reference_count, drv_decrement_reference_count,
}

module _ (hash : DrmHash) where
  open hash use {Table, lookup, delete, insert, lookup-delete, lookup-insert}

  -- Taking a reference counts one more for its handle, and leaves the others.
  pub count-increment :
      (table : Table) (k j : ℕ)
      → drv_get_reference_count hash (drv_increment_reference_count hash table k) j ≡ (
          if k == j
          then (drv_get_reference_count hash table k + 1) % u64_mod
          else drv_get_reference_count hash table j)
  unfolding drv_get_reference_count drv_increment_reference_count
  count-increment table k j = ground (
    arith,
    lookup-delete table k k,
    lookup-delete table k j,
    lookup-insert (delete table k) k ((drv_get_reference_count hash table k + 1) % u64_mod) j,
  )

  -- Dropping one counts one less, and stays at none.
  pub count-decrement :
      (table : Table) (k j : ℕ)
      → drv_get_reference_count hash (drv_decrement_reference_count hash table k) j ≡ (
          if k == j
          then drv_get_reference_count hash table k - 1
          else drv_get_reference_count hash table j)
  unfolding drv_get_reference_count drv_decrement_reference_count
  count-decrement table k j = ground (
    arith,
    lookup-delete table k k,
    lookup-delete table k j,
    lookup-insert (delete table k) k (drv_get_reference_count hash table k - 1) j,
  )
