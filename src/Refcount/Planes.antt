-- ===== src/Refcount/Planes.antt =====
-- The reference counts over all planes of a buffer.
use minigbm.Base.{
  ℕ, zero, suc, ◌+◌, ◌-◌, ◌*◌, ◌%◌, ◌^◌, ◌≤◌, ◌<◌, ◌≡◌, ◌↔◌, refl, List, get_or, arith,
}
use native.Mathlib.Decide.{ℕ_discrete}
use minigbm.Util.{u64_mod}
use minigbm.Handles.{uses}
use minigbm.Refcount.{
  DrmHash, drv_get_reference_count, drv_increment_reference_count, drv_decrement_reference_count,
  increment_planes, decrement_planes, total_references,
}
use minigbm.Refcount.Count.{count-increment, count-decrement}

module _ (hash : DrmHash) where
  open hash use {Table}

  abbrev count : Table → ℕ → ℕ
  count table h = drv_get_reference_count hash table h

  -- Taking a reference for each plane counts, for every handle, the planes that use it.
  pub count-increment_planes :
      (handles : List ℕ) (rest p : ℕ) (table : Table) (h : ℕ)
      → drv_get_reference_count hash table h + rest < u64_mod
      → drv_get_reference_count hash (increment_planes hash handles rest p table) h
        ≡ drv_get_reference_count hash table h + uses handles rest p h
  unfolding increment_planes uses
  count-increment_planes handles zero p table h fits = omega arith
  count-increment_planes handles (suc rest) p table h fits = ground (
    arith,
    count-increment hash table (get_or handles p 0) h,
    count-increment_planes handles rest (suc p)
        (drv_increment_reference_count hash table (get_or handles p 0)) h,
  )

  -- Dropping them counts as many less.
  pub count-decrement_planes :
      (handles : List ℕ) (rest p : ℕ) (table : Table) (h : ℕ)
      → drv_get_reference_count hash (decrement_planes hash handles rest p table) h
        ≡ drv_get_reference_count hash table h - uses handles rest p h
  unfolding decrement_planes uses
  count-decrement_planes handles zero p table h = omega arith
  count-decrement_planes handles (suc rest) p table h = ground (
    arith,
    count-decrement hash table (get_or handles p 0) h,
    count-decrement_planes handles rest (suc p)
        (drv_decrement_reference_count hash table (get_or handles p 0)) h,
  )

  -- With a hash table that does what libdrm documents, taking a reference for each plane of a
  -- buffer and dropping it again leaves the count of any handle as it was, however the planes
  -- share handles, if the count cannot wrap.
  pub decrement_planes-increment_planes :
      (handles : List ℕ) (planes : ℕ) (table : Table) (h : ℕ)
      → drv_get_reference_count hash table h + planes < u64_mod
      → drv_get_reference_count hash
          (decrement_planes hash handles planes 0 (increment_planes hash handles planes 0 table))
          h
        ≡ drv_get_reference_count hash table h
  decrement_planes-increment_planes handles planes table h fits = omega (
    arith,
    count-decrement_planes handles planes 0 (increment_planes hash handles planes 0 table) h,
    count-increment_planes handles planes 0 table h fits,
  )

  -- No plane from `p` on has a reference left.
  abbrev pub Unreferenced : List ℕ → ℕ → ℕ → Table → Type 0
  Unreferenced handles rest p table =
      (q : ℕ) → p ≤ q → q < p + rest → drv_get_reference_count hash table (get_or handles q 0) ≡ 0

  first_plane :
      (handles : List ℕ) (rest p : ℕ) (table : Table)
      → drv_get_reference_count hash table (get_or handles p 0) ≡ 0
      → Unreferenced handles rest (suc p) table
      → Unreferenced handles (suc rest) p table
  first_plane handles rest p table z others q a b = elim (ℕ_discrete q p) [
    | yes here ↦ rw here z
    | no there ↦ others q (omega arith) (omega arith)
  ]

  total_zero :
      (handles : List ℕ) (rest p : ℕ) (table : Table) (total : ℕ)
      → ((h : ℕ) → drv_get_reference_count hash table h < 2 ^ 60)
      → total + rest * 2 ^ 60 < u64_mod
      → (total_references hash handles rest p table total ≡ 0)
        ↔ ((total ≡ 0) × Unreferenced handles rest p table)
  unfolding total_references
  total_zero handles zero p table total small fits =
      (λ e. (e, λ q a b. absurd (omega arith)), λ e. e.0)
  total_zero handles (suc rest) p table total small fits =
      let h : ℕ = get_or handles p 0 in
      let c : ℕ = drv_get_reference_count hash table h in
      let sum : (total + c) % u64_mod ≡ total + c = omega (arith, small h) in
      let next : (total_references hash handles rest (suc p) table ((total + c) % u64_mod) ≡ 0)
          ↔ (((total + c) % u64_mod ≡ 0) × Unreferenced handles rest (suc p) table) =
        total_zero handles rest (suc p) table ((total + c) % u64_mod) small
          (omega (arith, sum, small h)) in
      (
        λ e.
            let both : ((total + c) % u64_mod ≡ 0) × Unreferenced handles rest (suc p) table =
              next.0 e in
            (
              omega (arith, both.0, sum),
              first_plane handles rest p table (omega (arith, both.0, sum)) both.1,
            ),
        λ e. next.1 (
          omega (arith, sum, e.0, e.1 p (omega arith) (omega arith)),
          λ q a b. e.1 q (omega arith) (omega arith),
        ),
      )

  -- For a buffer of at most four planes and counts below 2^60, the sum that decides whether a
  -- buffer is destroyed is 0 exactly when no plane of it has a reference left.
  pub total_references_zero :
      (handles : List ℕ) (planes : ℕ) (table : Table)
      → ((h : ℕ) → drv_get_reference_count hash table h < 2 ^ 60)
      → planes ≤ 4
      → (total_references hash handles planes 0 table 0 ≡ 0) ↔ Unreferenced handles planes 0 table
  total_references_zero handles planes table small few =
      let e = total_zero handles planes 0 table 0 small (omega arith) in
      (λ z. (e.0 z).1, λ u. e.1 (refl, u))
