-- ===== src/Mappings/Destroy.antt =====
-- Which mappings `drv_mapping_destroy` takes away.
use minigbm.Base.{
  ℕ, zero, suc, ◌+◌, ◌-◌, ◌^◌, ◌≤◌, ◌<◌, ◌≡◌, refl, ap, ◌∙◌, sym, subst, Bool, true, false, Option,
  none, some, List, [], ◌∷◌, ◌++◌, get_or, arith, ◌==◌, ◌!=◌, if◌then◌else◌, Bool-cases, ==_refl,
  inl, inr, ◌⊎◌,
}
use native.Mathlib.Decide.{dec_lt}
use mathlib.Core.List.{append_assoc, append-nil}
use minigbm.Types.{Mapping, Vma, Bo}
use minigbm.Kernel.{Sys}
use minigbm.Backend.{Backend}
use minigbm.Mappings.{Maps, find_mapping, remove_mapping, update}
use minigbm.Mappings.Teardown.{Walk, destroy_items, destroy_planes, drv_mapping_destroy}
use minigbm.Mappings.Sound.{IsSound, refs, items_at, refcount_of, refs-find, area_of_ref}
use minigbm.Mappings.Unmap.{removed, removed-IsSound, decrement32_lem, pos_ne, min_ne}

items_at-middle : (xs ys : List Mapping) (m : Mapping) → 1 ≤ items_at m.address (xs ++ m ∷ ys)
unfolding items_at
items_at-middle [] ys m = rw (==_refl m.address) (omega arith)
items_at-middle (x ∷ xs) ys m = omega (arith, items_at-middle xs ys m)

-- An item that stands in the middle of an array without its like is found there, and removed.
find-middle :
    (xs ys : List Mapping) (m : Mapping)
    → ((a : ℕ) → items_at a (xs ++ m ∷ ys) ≤ 1)
    → (find_mapping m.address (xs ++ m ∷ ys) ≡ some m)
      × (remove_mapping m.address (xs ++ m ∷ ys) ≡ xs ++ ys)
unfolding find_mapping remove_mapping items_at
find-middle [] ys m apart = (rw (==_refl m.address) refl, rw (==_refl m.address) refl)
find-middle (x ∷ xs) ys m apart =
    let other : (x.address == m.address) ≡ false =
      ground (arith, apart m.address, items_at-middle xs ys m) in
    let (found, removed_eq) = find-middle xs ys m (λ a. omega (arith, apart a)) in
    (rw other found, rw other (ap (λ t. x ∷ t) removed_eq))

refs-middle : (xs ys : List Mapping) (m : Mapping) → refs m.vma ys + 1 ≤ refs m.vma (xs ++ m ∷ ys)
unfolding refs
refs-middle [] ys m = rw (==_refl m.vma) (omega arith)
refs-middle (x ∷ xs) ys m = omega (arith, refs-middle xs ys m)

-- The items whose area has another handle.
unfoldable pub has_handle : ℕ → Option Vma → Bool
has_handle handle none = false
has_handle handle (some v) = v.handle == handle

unfoldable pub others : (ℕ → Option Vma) → ℕ → List Mapping → List Mapping
others heap handle [] = []
others heap handle (m ∷ ms) =
    if has_handle handle (heap m.vma) then others heap handle ms else m ∷ others heap handle ms

-- A write to an area changes nothing here if it keeps the handle, or if no item refers to the area.
others-update :
    (heap : ℕ → Option Vma) (handle p : ℕ) (new : Option Vma) (ms : List Mapping)
    → (has_handle handle new ≡ has_handle handle (heap p)) ⊎ (refs p ms ≡ 0)
    → others (update heap p new) handle ms ≡ others heap handle ms
unfolding others refs
others-update heap handle p new [] h = refl
others-update heap handle p new (m ∷ ms) (inl same) = elim (Bool-cases (p == m.vma)) [
  | inl here ↦
      let at : has_handle handle new ≡ has_handle handle (heap m.vma) =
        same ∙ ap (λ q. has_handle handle (heap q)) {x = p} {y = m.vma} (ground arith) in
      rw (here, at, others-update heap handle p new ms (inl same)) refl
  | inr there ↦ rw (there, others-update heap handle p new ms (inl same)) refl
]
others-update heap handle p new (m ∷ ms) (inr unused) =
    let there : (p == m.vma) ≡ false = ground arith in
    rw (there, others-update heap handle p new ms (inr (omega arith))) refl

module _ (backend : Backend) (bo : Bo) (next handle : ℕ) where
  -- The table while the loop runs.
  abbrev table : List Mapping → (ℕ → Option Vma) → Maps
  table ms heap = record { mappings = ms; vmas = heap; next = next }

  -- How the loop ends if no unmapping fails: with the items of other handles, in a sound table.
  abbrev Ends : List Mapping → Option Walk → Type 0
  Ends left walk =
      (heap : ℕ → Option Vma) × (sys : Sys) × (walk
        ≡ some (record { code = 0; passed = left; rest = []; heap = heap; sys = sys }))
      × IsSound (table left heap)

  others_skip :
      (heap : ℕ → Option Vma) (m : Mapping) (ms : List Mapping) (w : Vma)
      → heap m.vma ≡ some w
      → (w.handle == handle) ≡ false
      → others heap handle (m ∷ ms) ≡ m ∷ others heap handle ms
  unfolding others has_handle
  others_skip heap m ms w e other = rw (e, other) refl

  others_drop :
      (heap : ℕ → Option Vma) (m : Mapping) (ms : List Mapping) (w : Vma)
      → heap m.vma ≡ some w
      → (w.handle == handle) ≡ true
      → others heap handle (m ∷ ms) ≡ others heap handle ms
  unfolding others has_handle
  others_drop heap m ms w e same = rw (e, same) refl

  -- The three rounds of the loop.
  skip_eq :
      (passed ms : List Mapping) (m : Mapping) (w : Vma) (heap : ℕ → Option Vma) (sys : Sys)
      → heap m.vma ≡ some w
      → (w.handle != handle) ≡ true
      → destroy_items backend bo handle passed (m ∷ ms) heap sys
        ≡ destroy_items backend bo handle (passed ++ m ∷ []) ms heap sys
  unfolding destroy_items
  skip_eq passed ms m w heap sys e other = rw (e, other) refl

  counted_eq :
      (passed ms : List Mapping) (m : Mapping) (w : Vma) (heap : ℕ → Option Vma) (sys : Sys)
      → heap m.vma ≡ some w
      → (w.handle != handle) ≡ false
      → 1 < w.refcount
      → w.refcount < 2 ^ 31
      → destroy_items backend bo handle passed (m ∷ ms) heap sys
        ≡ destroy_items backend bo handle passed ms
            (update heap m.vma (some (record w { refcount = w.refcount - 1 })))
            sys
  unfolding destroy_items
  counted_eq passed ms m w heap sys e same more small =
      rw
        (
          e,
          same,
          min_ne w.refcount small,
          decrement32_lem w.refcount (omega arith) (omega arith),
          pos_ne (w.refcount - 1) (omega arith),
        )
        refl

  freed_eq :
      (passed ms : List Mapping) (m : Mapping) (w : Vma) (heap : ℕ → Option Vma) (sys : Sys)
      → heap m.vma ≡ some w
      → (w.handle != handle) ≡ false
      → w.refcount ≡ 1
      → (backend.bo_unmap bo (record w { refcount = 0 }) sys).0 ≡ 0
      → destroy_items backend bo handle passed (m ∷ ms) heap sys
        ≡ destroy_items backend bo handle passed ms
            (update heap m.vma none)
            (backend.bo_unmap bo (record w { refcount = 0 }) sys).1
  unfolding destroy_items
  freed_eq passed ms m w heap sys e same one ok = rw (e, same, one, ok) refl

  has_handle_kept :
      (heap : ℕ → Option Vma) (p n : ℕ) (w : Vma)
      → heap p ≡ some w
      → has_handle handle (some (record w { refcount = n })) ≡ has_handle handle (heap p)
  unfolding has_handle
  has_handle_kept heap p n w e = rw e refl

  -- The round that takes an item away keeps the table sound.
  taken-IsSound :
      (passed ms : List Mapping) (m : Mapping) (heap : ℕ → Option Vma) (new : Option Vma)
      → IsSound (table (passed ++ m ∷ ms) heap)
      → refcount_of new + 1 ≡ refs m.vma (passed ++ m ∷ ms)
      → ((v : Vma) → new ≡ some v → 1 ≤ v.refcount)
      → IsSound (table (passed ++ ms) (update heap m.vma new))
  unfolding removed
  taken-IsSound passed ms m heap new v count pos =
      let (found, gone) = find-middle passed ms m v.apart in
      subst (λ t. IsSound (table t (update heap m.vma new))) gone
        (removed-IsSound (table (passed ++ m ∷ ms) heap) m.address m new v found count pos)

  module _ (unmaps : (v : Vma) (sys : Sys) → (backend.bo_unmap bo v sys).0 ≡ 0) where
    destroy_nothing :
        (passed : List Mapping) (heap : ℕ → Option Vma) (sys : Sys)
        → IsSound (table (passed ++ []) heap)
        → Ends
            (passed ++ others heap handle [])
            (destroy_items backend bo handle passed [] heap sys)
    unfolding destroy_items others
    destroy_nothing passed heap sys v = (heap, sys, rw (append-nil passed) refl, v)

    -- The inner loop leaves the items of other handles.
    destroy_items_lem :
        (passed ms : List Mapping) (heap : ℕ → Option Vma) (sys : Sys)
        → IsSound (table (passed ++ ms) heap)
        → Ends
            (passed ++ others heap handle ms)
            (destroy_items backend bo handle passed ms heap sys)
    destroy_items_lem passed [] heap sys v = destroy_nothing passed heap sys v
    destroy_items_lem passed (m ∷ ms) heap sys v =
        let (found, gone) = find-middle passed ms m v.apart in
        let (w, e, count) =
          area_of_ref (table (passed ++ m ∷ ms) heap) m.vma v
            (refs-find m.address (passed ++ m ∷ ms) m found) in
        elim (Bool-cases (w.handle == handle)) [
          | inl same ↦ elim (dec_lt 1 w.refcount) [
            | yes more ↦
                let left : Vma = record w { refcount = w.refcount - 1 } in
                let w' = update heap m.vma (some left) in
                rw
                  (
                    counted_eq passed ms m w heap sys e (ground arith) more
                        (omega (arith, count, v.small m.vma)),
                    others_drop heap m ms w e same,
                  )
                  (subst
                    (λ t. Ends (passed ++ t) (destroy_items backend bo handle passed ms w' sys))
                    (others-update heap handle m.vma (some left) ms
                      (inl (has_handle_kept heap m.vma (w.refcount - 1) w e)))
                    (destroy_items_lem passed ms w' sys (
                      taken-IsSound passed ms m heap (some left) v (omega (arith, count))
                        (λ u q. omega (arith, ap refcount_of q)))))
            | no last ↦
                let one : w.refcount ≡ 1 = omega (arith, v.in_use m.vma w e) in
                let w' = update heap m.vma none in
                let sys' = (backend.bo_unmap bo (record w { refcount = 0 }) sys).1 in
                rw
                  (
                    freed_eq passed ms m w heap sys e (ground arith) one
                        (unmaps (record w { refcount = 0 }) sys),
                    others_drop heap m ms w e same,
                  )
                  (subst
                    (λ t. Ends (passed ++ t) (destroy_items backend bo handle passed ms w' sys'))
                    (others-update heap handle m.vma none ms
                      (inr (omega (arith, count, refs-middle passed ms m))))
                    (destroy_items_lem passed ms w' sys'
                      (taken-IsSound passed ms m heap none v (omega (arith, count)) (λ u q. cc))))
          ]
          | inr other ↦
              rw (skip_eq passed ms m w heap sys e (ground arith), others_skip heap m ms w e other)
                (subst
                  (λ t. Ends t (destroy_items backend bo handle (passed ++ m ∷ []) ms heap sys))
                  (append_assoc passed (m ∷ []) (others heap handle ms))
                  (destroy_items_lem (passed ++ m ∷ []) ms heap sys (
                    subst (λ t. IsSound (table t heap)) (sym (append_assoc passed (m ∷ []) ms)) v)))
        ]

-- Once `idx` is at the end, the planes that are left change nothing.
destroy_planes_over :
    (backend : Backend) (bo : Bo) (rounds p : ℕ) (passed : List Mapping) (heap : ℕ → Option Vma)
    (sys : Sys)
    → let w : Walk = record { code = 0; passed = passed; rest = []; heap = heap; sys = sys } in
      destroy_planes backend bo rounds p w ≡ some w
unfolding destroy_planes destroy_items
destroy_planes_over backend bo zero p passed heap sys = refl
destroy_planes_over backend bo (suc rounds) p passed heap sys =
    destroy_planes_over backend bo rounds (suc p) passed heap sys

-- So the first plane decides.
destroy_planes_first :
    (backend : Backend) (bo : Bo) (rounds : ℕ) (start : Walk) (left : List Mapping)
    (heap : ℕ → Option Vma) (sys : Sys)
    → 1 ≤ rounds
    → destroy_items backend bo (get_or bo.handles 0 0) start.passed start.rest start.heap start.sys
      ≡ some (record { code = 0; passed = left; rest = []; heap = heap; sys = sys })
    → destroy_planes backend bo rounds 0 start
      ≡ some (record { code = 0; passed = left; rest = []; heap = heap; sys = sys })
unfolding destroy_planes
destroy_planes_first backend bo zero start left heap sys pos e = absurd (omega arith)
destroy_planes_first backend bo (suc rounds) start left heap sys pos e =
    rw e (destroy_planes_over backend bo rounds 1 left heap sys)

-- In a sound table, if unmapping never fails, `drv_mapping_destroy` of a buffer with a plane
-- succeeds and leaves exactly the mappings of areas with a handle other than that of the first
-- plane, those of its other planes included, in a sound table.
pub drv_mapping_destroy_lem :
    (backend : Backend) (bo : Bo) (s : Maps) (sys : Sys)
    → IsSound s
    → ((v : Vma) (sys' : Sys) → (backend.bo_unmap bo v sys').0 ≡ 0)
    → 1 ≤ bo.meta.num_planes
    → (s' : Maps) × (sys' : Sys) × (drv_mapping_destroy backend bo s sys ≡ some (0, s', sys'))
      × (s'.mappings ≡ others s.vmas (get_or bo.handles 0 0) s.mappings)
      × IsSound s'
unfolding drv_mapping_destroy
drv_mapping_destroy_lem backend bo s sys v unmaps some_plane =
    let left = others s.vmas (get_or bo.handles 0 0) s.mappings in
    let start : Walk = record {
      code = 0;
      passed = [];
      rest = s.mappings;
      heap = s.vmas;
      sys = sys;
    } in
    let (heap, sys', e, v') =
      destroy_items_lem backend bo s.next (get_or bo.handles 0 0) unmaps [] s.mappings s.vmas sys
        v in
    (
      record { mappings = left ++ []; vmas = heap; next = s.next },
      sys',
      rw (destroy_planes_first backend bo bo.meta.num_planes start left heap sys' some_plane e)
          refl,
      append-nil left,
      subst (λ t. IsSound (record { mappings = t; vmas = heap; next = s.next }))
          (sym (append-nil left)) v',
    )
