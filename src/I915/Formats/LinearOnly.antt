-- ===== src/I915/Formats/LinearOnly.antt =====
-- Which entries of the table of i915 software, cameras and linear users can get.
use minigbm.Base.{
  ℕ, ◌≡◌, ◌≢◌, ◌⊎◌, inl, inr, refl, ap, ◌∙◌, Bool, true, false, some, List, [], ◌∷◌, All,
  All-append, bit_and, arith, if◌then◌else◌, Bool-cases, bit_or, subst, testbit, testbit_ext,
  testbit-bit_and, testbit_zero,
}
use minigbm.Fourcc.{drm_format_none}
use minigbm.Combos.Best.{Serves, Found, best, drv_get_combination-Found, All-middle}
use minigbm.Flags.{bo_use_texture, bo_use_hw_video_decoder, bo_use_scanout, drm_format_mod_linear}
use minigbm.Types.{Combination, FormatMetadata}
use minigbm.Combos.{
  drv_add_combination, drv_add_combinations, drv_modify_combination, drv_modify_linear_combinations,
  is_same_entry, add_flags, drv_get_combination,
}
use minigbm.I915.{I915Drm}
use minigbm.I915.Formats.{
  linear_mask, camera_mask, scanout_render_formats, render_formats, texture_only_formats,
  add_linear_combinations, add_x_tiled_combinations, add_y_tiled_combinations,
  i915_add_combinations, tiled_render, x_tiled_scanout, y_tiled_scanout, unset_flags,
}

-- The uses that only a linear buffer serves.
abbrev pub linear_uses : ℕ
linear_uses = bit_or linear_mask camera_mask

-- An entry is linear, or has none of these uses.
pub data LinearOnly (c : Combination) : Type 0 where
  is_linear : c.metadata.modifier ≡ drm_format_mod_linear → LinearOnly c
  no_linear_use : bit_and linear_uses c.use_flags ≡ 0 → LinearOnly c

add_combinations-linear :
    (combos : List Combination) (formats : List ℕ) (md : FormatMetadata) (flags : ℕ)
    → ((c : Combination) → c.metadata ≡ md → c.use_flags ≡ flags → LinearOnly c)
    → All LinearOnly combos
    → All LinearOnly (drv_add_combinations combos formats md flags)
unfolding drv_add_combinations drv_add_combination
add_combinations-linear combos [] md flags fits all = all
add_combinations-linear combos (f ∷ formats) md flags fits all =
    add_combinations-linear _ formats md flags fits
      (All-append LinearOnly combos _ all (fits _ refl refl, tt))

same_modifier :
    (c : Combination) (format : ℕ) (md : FormatMetadata)
    → is_same_entry c format md ≡ true
    → c.metadata.modifier ≡ md.modifier
same_modifier c format md h = ground arith

modify-linear :
    (combos : List Combination) (format : ℕ) (md : FormatMetadata) (flags : ℕ)
    → md.modifier ≡ drm_format_mod_linear
    → All LinearOnly combos
    → All LinearOnly (drv_modify_combination combos format md flags)
unfolding drv_modify_combination
modify-linear [] format md flags e all = tt
modify-linear (c ∷ combos) format md flags e (first, all) =
    (modified (Bool-cases (is_same_entry c format md)), modify-linear combos format md flags e all)
  where
    modified :
        (is_same_entry c format md ≡ true) ⊎ (is_same_entry c format md ≡ false)
        → LinearOnly (add_flags c format md flags)
    modified (inl same) = rw same (is_linear (same_modifier c format md same ∙ e))
    modified (inr other) = rw other first

linear_combinations : (drm : I915Drm) → All LinearOnly (add_linear_combinations drm [])
unfolding add_linear_combinations drv_modify_linear_combinations drv_add_combination
linear_combinations drm = modify-linear _ _ _ _ refl (
    All-append LinearOnly _ _
      (modify-linear _ _ _ _ refl (
        modify-linear _ _ _ _ refl (
          modify-linear _ _ _ _ refl (
            modify-linear _ _ _ _ refl (
              add_combinations-linear _ texture_only_formats _ _ linear_entry (
                add_combinations-linear _ render_formats _ _ linear_entry
                  (add_combinations-linear [] scanout_render_formats _ _ linear_entry tt)))))))
      (is_linear refl, tt))
  where
    linear_entry :
        {flags : ℕ} (c : Combination)
        → c.metadata
          ≡ record { priority = 1; tiling = drm.tiling_none; modifier = drm_format_mod_linear }
        → c.use_flags ≡ flags
        → LinearOnly c
    linear_entry c e f = is_linear (ap (λ (m : FormatMetadata). m.modifier) e)

tiled_render_lem : bit_and linear_uses tiled_render ≡ 0
unfolding tiled_render unset_flags
tiled_render_lem = refl

x_tiled_scanout_lem :
    (is_kvm is_adlp : Bool) → bit_and linear_uses (x_tiled_scanout is_kvm is_adlp) ≡ 0
unfolding x_tiled_scanout unset_flags
x_tiled_scanout_lem true true = refl
x_tiled_scanout_lem true false = refl
x_tiled_scanout_lem false is_adlp = refl

y_tiled_scanout_lem :
    (is_kvm is_adlp has_dgpu : Bool)
    → bit_and linear_uses (y_tiled_scanout is_kvm is_adlp has_dgpu) ≡ 0
unfolding x_tiled_scanout y_tiled_scanout unset_flags
y_tiled_scanout_lem true true true = refl
y_tiled_scanout_lem true true false = refl
y_tiled_scanout_lem true false true = refl
y_tiled_scanout_lem true false false = refl
y_tiled_scanout_lem false is_adlp true = refl
y_tiled_scanout_lem false is_adlp false = refl

tiled_entry :
    (flags : ℕ) (md : FormatMetadata) (c : Combination)
    → bit_and linear_uses flags ≡ 0
    → c.metadata ≡ md
    → c.use_flags ≡ flags
    → LinearOnly c
tiled_entry flags md c e m f = no_linear_use (ap (bit_and linear_uses) f ∙ e)

-- Every entry of the table is linear, or serves none of these uses.
i915_add_combinations-LinearOnly :
    (drm : I915Drm) (is_kvm is_adlp has_dgpu y_tiled_nv12 : Bool)
    → All LinearOnly (i915_add_combinations drm is_kvm is_adlp has_dgpu y_tiled_nv12 [])
unfolding i915_add_combinations add_x_tiled_combinations add_y_tiled_combinations
    drv_add_combination
i915_add_combinations-LinearOnly drm is_kvm is_adlp has_dgpu y_tiled_nv12 =
    add_combinations-linear _ scanout_render_formats _ _
      (λ c. tiled_entry _ _ c (y_tiled_scanout_lem is_kvm is_adlp has_dgpu))
      (add_combinations-linear _ render_formats _ _ (λ c. tiled_entry _ _ c tiled_render_lem)
        (All-append LinearOnly _ _
          (All-append LinearOnly _ _
            (add_combinations-linear _ scanout_render_formats _ _
              (λ c. tiled_entry _ _ c (x_tiled_scanout_lem is_kvm is_adlp))
              (add_combinations-linear _ render_formats _ _
                (λ c. tiled_entry _ _ c tiled_render_lem) (linear_combinations drm)))
            (no_linear_use (nv12_lem y_tiled_nv12), tt))
          (no_linear_use refl, tt)))
  where
    nv12_lem :
        (b : Bool)
        → bit_and linear_uses (
            if b
            then bit_or (bit_or bo_use_texture bo_use_hw_video_decoder) bo_use_scanout
            else bit_or bo_use_texture bo_use_hw_video_decoder)
          ≡ 0
    nv12_lem true = refl
    nv12_lem false = refl

-- A set of uses within one that has none of the linear uses has none of them either.
within :
    (have flags : ℕ)
    → flags ≡ bit_and have flags
    → bit_and linear_uses have ≡ 0
    → bit_and linear_uses flags ≡ 0
within have flags e none_in = testbit_ext _ _ λ i. omega (
  arith,
  testbit-bit_and i linear_uses flags,
  testbit-bit_and i linear_uses have,
  testbit-bit_and i have flags,
  ap (λ (t : ℕ). testbit t i) e,
  ap (λ (t : ℕ). testbit t i) none_in,
  testbit_zero i,
)

module _ (drm : I915Drm) (is_kvm is_adlp has_dgpu y_tiled_nv12 : Bool) (format use_flags : ℕ) where
  abbrev table : List Combination
  table = i915_add_combinations drm is_kvm is_adlp has_dgpu y_tiled_nv12 []

  -- Whatever the machine, a request to the table of i915 for a format other than none and flags
  -- with a linear, protected, RenderScript, frequent software or camera use is only served by an
  -- entry with the linear modifier.
  pub linear_use_modifier :
      (c : Combination)
      → format ≢ drm_format_none
      → bit_and linear_uses use_flags ≢ 0
      → drv_get_combination table format use_flags ≡ some c
      → c.metadata.modifier ≡ drm_format_mod_linear
  linear_use_modifier c known used e = chosen (
      subst (Found format use_flags table) e (
        drv_get_combination-Found format use_flags table known
          (λ z. used (ap (bit_and linear_uses) z))))
    where
      decide :
          LinearOnly c → Serves format use_flags c → c.metadata.modifier ≡ drm_format_mod_linear
      decide (is_linear m) s = m
      decide (no_linear_use z) s = absurd (used (within c.use_flags use_flags s.1 z))

      chosen : Found format use_flags table (some c) → c.metadata.modifier ≡ drm_format_mod_linear
      chosen (best _ b) =
          decide
            (All-middle format use_flags LinearOnly b.before b.after c (
              subst (All LinearOnly) b.stands
                (i915_add_combinations-LinearOnly drm is_kvm is_adlp has_dgpu y_tiled_nv12)))
            b.does_serve
