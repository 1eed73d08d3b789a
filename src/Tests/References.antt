-- ===== src/Tests/References.antt =====
-- Kernel handles and their reference counts.
use minigbm.Base.{
  ℕ, zero, suc, ◌<◌, get_or, ◌+◌, ◌^◌, ◌<◌, ◌≡◌, ◌↔◌, refl, arith, Option, none, [], ◌∷◌, length,
  ◌==◌, if◌then◌else◌,
}
use minigbm.Handles.{uses}
use minigbm.Gem.{drv_prime_bo_import, drv_gem_bo_destroy, drv_num_buffers_per_bo}
use minigbm.Gem.Import.{Imported, drv_prime_bo_import-Imported}
use minigbm.Gem.Close.{ReportsErrors, closes, drv_gem_bo_destroy-closes}
use minigbm.Gem.Number.{in_use, drv_gem_bo_destroy-count}
use minigbm.Refcount.{drv_get_reference_count, increment_planes, decrement_planes, total_references}
use minigbm.Refcount.Planes.{decrement_planes-increment_planes, Unreferenced, total_references_zero}
use minigbm.Tests.{nv12_bo, willing_kernel, no_calls, function_hash}

drv_gem_bo_destroy-closes_example :
    closes 7 (drv_gem_bo_destroy willing_kernel nv12_bo no_calls).1.calls
    ≡ closes 7 [] + (if uses (7 ∷ 7 ∷ 0 ∷ 0 ∷ []) 2 0 7 == 0 then 0 else 1)
drv_gem_bo_destroy-closes_example = drv_gem_bo_destroy-closes willing_kernel nv12_bo no_calls 7

nv12_handles_small : (p : ℕ) → p < 2 → get_or nv12_bo.handles p 0 < 8
nv12_handles_small zero h = omega arith
nv12_handles_small (suc zero) h = omega arith
nv12_handles_small (suc (suc p)) h = absurd (omega arith)

drv_gem_bo_destroy-count_example :
    (drv_num_buffers_per_bo nv12_bo ≡ in_use nv12_bo.handles 2 8)
    × (length (drv_gem_bo_destroy willing_kernel nv12_bo no_calls).1.calls
        ≡ 0 + in_use nv12_bo.handles 2 8)
drv_gem_bo_destroy-count_example =
    drv_gem_bo_destroy-count willing_kernel nv12_bo 8 no_calls refl nv12_handles_small

abbrev unused : ℕ → Option ℕ
unused j = none

unused_zero : (h : ℕ) → drv_get_reference_count function_hash unused h ≡ 0
unfolding drv_get_reference_count
unused_zero h = refl

decrement_planes-increment_planes_example :
    drv_get_reference_count function_hash
      (decrement_planes function_hash
        (7 ∷ 7 ∷ [])
        2
        0
        (increment_planes function_hash (7 ∷ 7 ∷ []) 2 0 unused))
      7
    ≡ drv_get_reference_count function_hash unused 7
decrement_planes-increment_planes_example =
    decrement_planes-increment_planes function_hash (7 ∷ 7 ∷ []) 2 unused 7
      (omega (arith, unused_zero 7))

unused_small : (h : ℕ) → drv_get_reference_count function_hash unused h < 2 ^ 60
unused_small h = omega (arith, unused_zero h)

total_references_zero_example :
    (total_references function_hash (7 ∷ 7 ∷ []) 2 0 unused 0 ≡ 0)
    ↔ Unreferenced function_hash (7 ∷ 7 ∷ []) 2 0 unused
total_references_zero_example =
    total_references_zero function_hash (7 ∷ 7 ∷ []) 2 unused unused_small (omega arith)

willing_kernel-ReportsErrors : ReportsErrors willing_kernel
willing_kernel-ReportsErrors calls r bad = absurd (bad refl)

drv_prime_bo_import-Imported_example :
    Imported willing_kernel
      (3 ∷ 4 ∷ [])
      nv12_bo.meta
      no_calls
      (drv_prime_bo_import willing_kernel nv12_bo (3 ∷ 4 ∷ []) no_calls)
drv_prime_bo_import-Imported_example =
    drv_prime_bo_import-Imported willing_kernel nv12_bo (3 ∷ 4 ∷ []) no_calls
      willing_kernel-ReportsErrors (omega arith)
