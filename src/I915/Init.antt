-- ===== src/I915/Init.antt =====
-- i915.c: `i915_init`, from what `cpuid` and the kernel answer.
use minigbm.Base.{ℕ, Bool, Option, List, bit_and, ◌!=◌, if◌then◌else◌}
use minigbm.Types.{Combination}
use minigbm.Kernel.{Kernel, Sys}
use minigbm.I915.{I915Drm}
use minigbm.I915.Device.{I915Device, vm_type, hypertype_type_kvm, i915_probe}
use minigbm.I915.Formats.{i915_add_combinations}

-- The code, the device, and the combinations of the driver.
unfoldable pub i915_init :
    Kernel
    → I915Drm
    → Option ℕ
    → List ℕ
    → Bool
    → Bool
    → List Combination
    → Sys
    → ℕ × I915Device × List Combination × Sys
i915_init kernel drm ecx text has_dgpu y_tiled_nv12 combos sys =
    let (ret, i915, sys') = i915_probe kernel drm sys in
    let is_kvm = bit_and (vm_type ecx text) hypertype_type_kvm != 0 in
    let added = i915_add_combinations drm is_kvm i915.is_adlp has_dgpu y_tiled_nv12 combos in
    if ret != 0 then (ret, i915, combos, sys') else (0, i915, added, sys')
