-- ===== src/Mappings/Unmap.antt =====
-- `drv_bo_unmap` drops one reference, and frees an area with its last mapping.
use minigbm.Base.{
  ℕ, ◌+◌, ◌-◌, ◌^◌, ◌≤◌, ◌<◌, ◌≡◌, ap, subst, true, false, Option, none, some, arith, ◌==◌, ◌!=◌,
}
use minigbm.Types.{Mapping, Vma, Bo}
use native.Mathlib.Decide.{dec_lt}
use minigbm.Kernel.{Sys}
use minigbm.Backend.{Backend}
use minigbm.Mappings.{
  Maps, find_mapping, set_refcount, remove_mapping, update, decrement32, drv_bo_unmap,
}
use minigbm.Mappings.Sound.{
  IsSound, refs, refcount_of, refs-remove, items_at-remove-le, All-remove, All-find, refs-find,
  area_of_ref, set_refcount-IsSound,
}

-- The last reference to a mapping goes, and with it one of the area.
unfoldable pub removed : Maps → ℕ → ℕ → Option Vma → Maps
removed s a p new = record s { vmas = update s.vmas p new; mappings = remove_mapping a s.mappings }

pub removed-IsSound :
    (s : Maps) (a : ℕ) (m : Mapping) (new : Option Vma)
    → IsSound s
    → find_mapping a s.mappings ≡ some m
    → refcount_of new + 1 ≡ refs m.vma s.mappings
    → ((v : Vma) → new ≡ some v → 1 ≤ v.refcount)
    → IsSound (removed s a m.vma new)
unfolding removed
removed-IsSound s a m new v found count pos = record {
  counted = λ p. ground (arith, refs-remove p a s.mappings m found, v.counted p);
  in_use = λ p w e. ground (arith, v.in_use p w, pos w);
  held = All-remove _ a s.mappings v.held;
  small = λ p. omega (arith, refs-remove p a s.mappings m found, v.small p);
  apart = λ b. omega (arith, items_at-remove-le b a s.mappings, v.apart b);
  fresh_area = λ p h. ground (arith, v.fresh_area p h, v.counted p);
  fresh_item = λ b h. omega (arith, items_at-remove-le b a s.mappings, v.fresh_item b h);
}

pub decrement32_lem : (n : ℕ) → 1 ≤ n → n < 2 ^ 32 → decrement32 n ≡ n - 1
decrement32_lem n h lt = omega arith

pub pos_ne : (n : ℕ) → 1 ≤ n → (n != 0) ≡ true
pos_ne n h = ground arith

pub min_ne : (n : ℕ) → n < 2 ^ 31 → (n != 2 ^ 31) ≡ true
min_ne n h = ground arith

pos_eq : (n : ℕ) → 1 ≤ n → (n == 0) ≡ false
pos_eq n h = ground arith

module _ (backend : Backend) where
  -- What `drv_bo_unmap` does to a mapping that a caller holds: it drops one of several references,
  -- or removes the mapping and counts one less for its area, or removes it with the area, which the
  -- backend then unmaps.
  pub data Unmapped (bo : Bo) (a : ℕ) (s : Maps) (sys : Sys) (m : Mapping)
      : ℕ → Maps → Sys → Type 0 where
    kept :
        1 < m.refcount
        → Unmapped bo a s sys m 0
            (record s { mappings = set_refcount a (m.refcount - 1) s.mappings })
            sys
    shared :
        (v : Vma)
        → m.refcount ≡ 1
        → s.vmas m.vma ≡ some v
        → 1 < v.refcount
        → Unmapped bo a s sys m 0
            (record s {
              vmas = update s.vmas m.vma (some (record v { refcount = v.refcount - 1 }));
              mappings = remove_mapping a s.mappings;
            })
            sys
    freed :
        (v : Vma)
        → m.refcount ≡ 1
        → s.vmas m.vma ≡ some v
        → v.refcount ≡ 1
        → Unmapped bo a s sys m
            (backend.bo_unmap bo (record v { refcount = 0 }) sys).0
            (record s { vmas = update s.vmas m.vma none; mappings = remove_mapping a s.mappings })
            (backend.bo_unmap bo (record v { refcount = 0 }) sys).1

  kept_eq :
      (bo : Bo) (a : ℕ) (s : Maps) (sys : Sys) (m : Mapping)
      → find_mapping a s.mappings ≡ some m
      → 1 < m.refcount
      → m.refcount < 2 ^ 32
      → drv_bo_unmap backend bo a s sys
        ≡ some (0, record s { mappings = set_refcount a (m.refcount - 1) s.mappings }, sys)
  unfolding drv_bo_unmap
  kept_eq bo a s sys m found more lt =
      rw (found, decrement32_lem m.refcount (omega arith) lt, pos_ne (m.refcount - 1) (omega arith))

  shared_eq :
      (bo : Bo) (a : ℕ) (s : Maps) (sys : Sys) (m : Mapping) (w : Vma)
      → find_mapping a s.mappings ≡ some m
      → m.refcount ≡ 1
      → s.vmas m.vma ≡ some w
      → 1 < w.refcount
      → w.refcount < 2 ^ 31
      → drv_bo_unmap backend bo a s sys
        ≡ some (
          0,
          record s {
            vmas = update s.vmas m.vma (some (record w { refcount = w.refcount - 1 }));
            mappings = remove_mapping a s.mappings;
          },
          sys,
        )
  unfolding drv_bo_unmap
  shared_eq bo a s sys m w found one e more lt = rw (
    found,
    one,
    e,
    min_ne w.refcount lt,
    decrement32_lem w.refcount (omega arith) (omega arith),
    pos_eq (w.refcount - 1) (omega arith),
  )

  freed_eq :
      (bo : Bo) (a : ℕ) (s : Maps) (sys : Sys) (m : Mapping) (w : Vma)
      → find_mapping a s.mappings ≡ some m
      → m.refcount ≡ 1
      → s.vmas m.vma ≡ some w
      → w.refcount ≡ 1
      → drv_bo_unmap backend bo a s sys
        ≡ some (
          (backend.bo_unmap bo (record w { refcount = 0 }) sys).0,
          record s { vmas = update s.vmas m.vma none; mappings = remove_mapping a s.mappings },
          (backend.bo_unmap bo (record w { refcount = 0 }) sys).1,
        )
  unfolding drv_bo_unmap
  freed_eq bo a s sys m w found one e last = rw (found, one, e, last)

  -- In a sound table, unmapping a mapping that stands in it never aborts, whatever the backend
  -- answers, and takes one of three ways: with several references it drops one; with the last
  -- one it removes the mapping and counts one less for its area; and if that was the area's last
  -- mapping, it has the backend unmap the area and frees it.
  pub drv_bo_unmap-Unmapped :
      (bo : Bo) (a : ℕ) (s : Maps) (sys : Sys) (m : Mapping)
      → IsSound s
      → find_mapping a s.mappings ≡ some m
      → (ret : ℕ) × (s' : Maps) × (sys' : Sys) × (drv_bo_unmap backend bo a s sys
          ≡ some (ret, s', sys'))
        × Unmapped bo a s sys m ret s' sys'
  drv_bo_unmap-Unmapped bo a s sys m v found =
      let (pos, lt) = All-find _ a s.mappings m v.held found in
      let (w, e, c) = area_of_ref s m.vma v (refs-find a s.mappings m found) in
      elim (dec_lt 1 m.refcount) [
        | yes more ↦ (_, _, _, kept_eq bo a s sys m found more lt, kept more)
        | no last ↦
            let one : m.refcount ≡ 1 = omega (arith, pos) in
            elim (dec_lt 1 w.refcount) [
              | yes more ↦ (
                _,
                _,
                _,
                shared_eq bo a s sys m w found one e more (omega (arith, c, v.small m.vma)),
                shared w one e more,
              )
              | no only ↦
                  let single : w.refcount ≡ 1 = omega (arith, v.in_use m.vma w e) in
                  (_, _, _, freed_eq bo a s sys m w found one e single, freed w one e single)
            ]
      ]

  Unmapped-IsSound :
      {bo : Bo} {a : ℕ} {s : Maps} {sys : Sys} {m : Mapping} {ret : ℕ} {s' : Maps} {sys' : Sys}
      → IsSound s
      → find_mapping a s.mappings ≡ some m
      → Unmapped bo a s sys m ret s' sys'
      → IsSound s'
  unfolding removed
  Unmapped-IsSound {a = a} {s = s} {m = m} v found (kept more) =
      set_refcount-IsSound s a (m.refcount - 1) v (omega arith)
        (omega (arith, All-find _ a s.mappings m v.held found))
  Unmapped-IsSound {a = a} {s = s} {m = m} v found (shared w one e more) =
      removed-IsSound s a m (some (record w { refcount = w.refcount - 1 })) v found
        (omega (arith, v.counted m.vma, ap refcount_of e)) (λ u q. omega (arith, ap refcount_of q))
  Unmapped-IsSound {a = a} {s = s} {m = m} v found (freed w one e last) =
      removed-IsSound s a m none v found (omega (arith, v.counted m.vma, ap refcount_of e))
        (λ u q. cc)

  -- If the table is sound, so that every area counts its mappings, it is sound after a mapping
  -- that stands in it is unmapped.
  pub drv_bo_unmap-IsSound :
      (bo : Bo) (a : ℕ) (s s' : Maps) (sys sys' : Sys) (m : Mapping) (ret : ℕ)
      → IsSound s
      → find_mapping a s.mappings ≡ some m
      → drv_bo_unmap backend bo a s sys ≡ some (ret, s', sys')
      → IsSound s'
  drv_bo_unmap-IsSound bo a s s' sys sys' m ret v found e =
      let (ret', t, sys'', e', way) = drv_bo_unmap-Unmapped bo a s sys m v found in
      subst IsSound {x = t} {y = s'} (cc) (Unmapped-IsSound v found way)
