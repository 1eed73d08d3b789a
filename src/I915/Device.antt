-- ===== src/I915/Device.antt =====
-- i915.c: the generation of a device, and its start.
pub mod Family
use minigbm.Base.{
  ℕ, ◌+◌, ◌-◌, ◌/◌, ◌%◌, ◌^◌, ◌≡◌, ◌⊎◌, inl, inr, refl, Bool, true, false, ◌&&◌, ◌||◌, Option, none,
  some, List, [], ◌∷◌, take, bit_and, bit_or, ◌==◌, ◌!=◌, if◌then◌else◌, Bool-cases,
}
use minigbm.Kernel.{Kernel, Request, Sys, call}
use minigbm.Driver.{einval}
use minigbm.Driver.Select.{same_name}
use minigbm.I915.{I915Drm}

-- `struct i915_device`
pub record I915Device : Type 0 where
  pub gen : ℕ
  pub has_llc : ℕ
  pub device_id : ℕ
  pub is_adlp : Bool

abbrev pub gen9_ids : List ℕ
gen9_ids =
    0x1902 ∷ 0x1906 ∷ 0x190a ∷ 0x190b ∷ 0x190e ∷ 0x1912 ∷ 0x1913 ∷ 0x1915 ∷ 0x1916 ∷ 0x1917 ∷ 0x191a
    ∷ 0x191b ∷ 0x191d ∷ 0x191e ∷ 0x1921 ∷ 0x1923 ∷ 0x1926 ∷ 0x1927 ∷ 0x192a ∷ 0x192b ∷ 0x192d
    ∷ 0x1932 ∷ 0x193a ∷ 0x193b ∷ 0x193d ∷ 0x0a84 ∷ 0x1a84 ∷ 0x1a85 ∷ 0x5a84 ∷ 0x5a85 ∷ 0x3184
    ∷ 0x3185 ∷ 0x5902 ∷ 0x5906 ∷ 0x590a ∷ 0x5908 ∷ 0x590b ∷ 0x590e ∷ 0x5913 ∷ 0x5915 ∷ 0x5917
    ∷ 0x5912 ∷ 0x5916 ∷ 0x591a ∷ 0x591b ∷ 0x591d ∷ 0x591e ∷ 0x5921 ∷ 0x5923 ∷ 0x5926 ∷ 0x5927
    ∷ 0x593b ∷ 0x591c ∷ 0x87c0 ∷ 0x87ca ∷ 0x3e90 ∷ 0x3e93 ∷ 0x3e99 ∷ 0x3e9c ∷ 0x3e91 ∷ 0x3e92
    ∷ 0x3e96 ∷ 0x3e98 ∷ 0x3e9a ∷ 0x3e9b ∷ 0x3e94 ∷ 0x3ea9 ∷ 0x3ea5 ∷ 0x3ea6 ∷ 0x3ea7 ∷ 0x3ea8
    ∷ 0x3ea1 ∷ 0x3ea4 ∷ 0x3ea0 ∷ 0x3ea3 ∷ 0x3ea2 ∷ 0x9b21 ∷ 0x9ba0 ∷ 0x9ba2 ∷ 0x9ba4 ∷ 0x9ba5
    ∷ 0x9ba8 ∷ 0x9baa ∷ 0x9bab ∷ 0x9bac ∷ 0x9b41 ∷ 0x9bc0 ∷ 0x9bc2 ∷ 0x9bc4 ∷ 0x9bc5 ∷ 0x9bc6
    ∷ 0x9bc8 ∷ 0x9bca ∷ 0x9bcb ∷ 0x9bcc ∷ 0x9be6 ∷ 0x9bf6 ∷ []

abbrev pub gen12_ids : List ℕ
gen12_ids =
    0x4c8a ∷ 0x4c8b ∷ 0x4c8c ∷ 0x4c90 ∷ 0x4c9a ∷ 0x4680 ∷ 0x4681 ∷ 0x4682 ∷ 0x4683 ∷ 0x4688 ∷ 0x4689
    ∷ 0x4690 ∷ 0x4691 ∷ 0x4692 ∷ 0x4693 ∷ 0x4698 ∷ 0x4699 ∷ 0x4626 ∷ 0x4628 ∷ 0x462a ∷ 0x46a0
    ∷ 0x46a1 ∷ 0x46a2 ∷ 0x46a3 ∷ 0x46a6 ∷ 0x46a8 ∷ 0x46aa ∷ 0x46b0 ∷ 0x46b1 ∷ 0x46b2 ∷ 0x46b3
    ∷ 0x46c0 ∷ 0x46c1 ∷ 0x46c2 ∷ 0x46c3 ∷ 0x9a40 ∷ 0x9a49 ∷ 0x9a59 ∷ 0x9a60 ∷ 0x9a68 ∷ 0x9a70
    ∷ 0x9a78 ∷ 0x9ac0 ∷ 0x9ac9 ∷ 0x9ad9 ∷ 0x9af8 ∷ 0x4905 ∷ 0x4906 ∷ 0x4907 ∷ 0x4908 ∷ []

abbrev pub adlp_ids : List ℕ
adlp_ids =
    0x46a0 ∷ 0x46a1 ∷ 0x46a2 ∷ 0x46a3 ∷ 0x46a6 ∷ 0x46a8 ∷ 0x46aa ∷ 0x462a ∷ 0x4626 ∷ 0x4628 ∷ 0x46b0
    ∷ 0x46b1 ∷ 0x46b2 ∷ 0x46b3 ∷ 0x46c0 ∷ 0x46c1 ∷ 0x46c2 ∷ 0x46c3 ∷ 0x46d0 ∷ 0x46d1 ∷ 0x46d2 ∷ []

-- A loop over one of the arrays: is the device in it?
pub is_listed : List ℕ → ℕ → Bool
is_listed [] device_id = false
is_listed (n ∷ ids) device_id = if n == device_id then true else is_listed ids device_id

unfoldable pub i915_info_from_device_id : I915Device → I915Device
i915_info_from_device_id i915 =
    if is_listed gen9_ids i915.device_id
    then record i915 { gen = 9; is_adlp = false }
    else (if is_listed adlp_ids i915.device_id
        then record i915 { gen = 12; is_adlp = true }
        else record i915 { gen = 12; is_adlp = false })

-- `HYPERTYPE_...`
abbrev pub hypertype_none : ℕ
hypertype_none = 0

abbrev pub hypertype_any : ℕ
hypertype_any = 1

abbrev pub hypertype_type_acrn : ℕ
hypertype_type_acrn = 2

abbrev pub hypertype_type_kvm : ℕ
hypertype_type_kvm = 4

-- `vm_type`: `ecx` is what `__get_cpuid` answers for leaf 1, if it answers, and `text` the characters
-- of the three registers of leaf 0x40000000.
unfoldable pub vm_type : Option ℕ → List ℕ → ℕ
vm_type none text = hypertype_none
vm_type (some ecx) text =
    if ecx / 2 ^ 31 % 2 == 1
    then (if same_name (take 12 text)
          (b'A' ∷ b'C' ∷ b'R' ∷ b'N' ∷ b'A' ∷ b'C' ∷ b'R' ∷ b'N' ∷ b'A' ∷ b'C' ∷ b'R' ∷ b'N' ∷ [])
        then bit_or hypertype_any hypertype_type_acrn
        else (if same_name (take 9 text)
                (b'K' ∷ b'V' ∷ b'M' ∷ b'K' ∷ b'V' ∷ b'M' ∷ b'K' ∷ b'V' ∷ b'M' ∷ [])
              || same_name (take 12 text) (
                  b'E' ∷ b'V' ∷ b'M' ∷ b'M' ∷ b'E' ∷ b'V' ∷ b'M' ∷ b'M' ∷ b'E' ∷ b'V' ∷ b'M' ∷ b'M'
                  ∷ [])
            then bit_or hypertype_any hypertype_type_kvm
            else hypertype_any))
    else hypertype_none

-- What `i915_init` asks of the kernel: the code, and the device if it is 0.
unfoldable pub i915_probe : Kernel → I915Drm → Sys → ℕ × I915Device × Sys
i915_probe kernel drm sys =
    let blank : I915Device = record { gen = 0; has_llc = 0; device_id = 0; is_adlp = false } in
    let (chipset, sys') =
      call kernel (Request.device drm.ioctl_getparam (drm.param_chipset_id ∷ [])) sys in
    let known = i915_info_from_device_id (record blank { device_id = chipset.value }) in
    let (llc, sys'') =
      call kernel (Request.device drm.ioctl_getparam (drm.param_has_llc ∷ [])) sys' in
    if chipset.ret != 0
    then (einval, blank, sys')
    else (if llc.ret != 0
        then (einval, known, sys'')
        else (0, record known { has_llc = llc.value }, sys''))
