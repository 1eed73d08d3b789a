-- ===== src/Gbm/Supported.antt =====
-- What a device supports, and what creating and importing do.
use minigbm.Base.{
  ℕ, ◌+◌, ◌<◌, ◌≡◌, ◌≢◌, ◌↔◌, inl, inr, refl, Bool, true, false, ◌&&◌, Option, none, some, List,
  bit_and, ◌!=◌, Bool-cases, Option-cases,
}
use minigbm.Util.{u64_mod}
use minigbm.Flags.{bo_use_none}
use minigbm.Fourcc.{drm_format_none}
use minigbm.Types.{Bo, Combination}
use minigbm.Combos.{drv_get_combination}
use minigbm.Combos.Best.{IsBest, Found, best, drv_get_combination-Found}
use minigbm.Kernel.{Sys}
use minigbm.Backend.{Backend}
use minigbm.Refcount.{DrmHash}
use minigbm.Driver.{Driver, drv_bo_new, allocate}
use minigbm.Driver.Counts.{count, InOrder, Created, is_test, real_flags, drv_bo_create_lem}
use minigbm.Gbm.Usage.{gbm_bo_use_cursor, gbm_bo_use_rendering, gbm_convert_usage}
use minigbm.Gbm.{wrap, gbm_device_is_format_supported, allocated_format, gbm_bo_create}

-- Both a cursor and a target of rendering.
abbrev cursor_and_rendering : ℕ → Bool
cursor_and_rendering usage =
    bit_and usage gbm_bo_use_cursor != 0 && bit_and usage gbm_bo_use_rendering != 0

-- What the device answers.
data Answer (combos : List Combination) (format usage : ℕ) : Bool → Type 0 where
  refused_both : cursor_and_rendering usage ≡ true → Answer combos format usage false
  unserved :
      drv_get_combination combos format (gbm_convert_usage usage) ≡ none
      → Answer combos format usage false
  served :
      (c : Combination)
      → cursor_and_rendering usage ≡ false
      → IsBest format (gbm_convert_usage usage) combos c
      → Answer combos format usage true

-- For a format and uses other than none, the device answers yes exactly with the best entry of the
-- table that serves them, and never for a cursor that is a target of rendering.
gbm_device_is_format_supported-Answer :
    (combos : List Combination) (format usage : ℕ)
    → format ≢ drm_format_none
    → gbm_convert_usage usage ≢ bo_use_none
    → Answer combos format usage (gbm_device_is_format_supported combos format usage)
unfolding gbm_device_is_format_supported
gbm_device_is_format_supported-Answer combos format usage known used =
    elim (Bool-cases (cursor_and_rendering usage)) [
      | inl both ↦ rw both (refused_both both)
      | inr one ↦
          elim (Option-cases (drv_get_combination combos format (gbm_convert_usage usage))) [
            | inl e ↦ rw (one, e) (unserved e)
            | inr (c, e) ↦
                rw (one, e)
                  (served c one (
                    is_best c (
                      rw e at (
                        drv_get_combination-Found format (gbm_convert_usage usage) combos known
                          used))))
          ]
    ]
  where
    is_best :
        (c : Combination)
        → Found format (gbm_convert_usage usage) combos (some c)
        → IsBest format (gbm_convert_usage usage) combos c
    is_best c (best d w) = w

module _ (hash : DrmHash) (backend : Backend) where
  -- For a supported format, `gbm_bo_create` is `drv_bo_create` on the format that is allocated, and
  -- the buffer keeps the format that the caller asked for.
  gbm_bo_create_lem :
      (drv : Driver hash) (width height format usage ret : ℕ) (new bo : Bo) (sys sys' : Sys)
      → gbm_device_is_format_supported drv.combos format usage ≡ true
      → drv_bo_new width height
          (allocated_format format usage)
          (real_flags (gbm_convert_usage usage))
          (is_test (gbm_convert_usage usage))
        ≡ some new
      → allocate hash backend drv new width height
          (allocated_format format usage)
          (real_flags (gbm_convert_usage usage))
          (is_test (gbm_convert_usage usage))
          sys
        ≡ some (ret, bo, sys')
      → (ret ≡ 0 → InOrder hash bo)
      → ((h : ℕ) → count hash drv h + bo.meta.num_planes < u64_mod)
      → (r : Option Bo) × (drv' : Driver hash) × (gbm_bo_create hash backend drv width height format
            usage sys
          ≡ some (wrap format r, drv', sys'))
        × Created hash drv r drv'
        × ((ret ≡ 0) ↔ (r ≡ some bo))
  unfolding gbm_bo_create
  gbm_bo_create_lem drv width height format usage ret new bo sys sys' supported known made ordered
        room =
      let (r, drv', e, created, iff) =
        drv_bo_create_lem hash backend drv width height (allocated_format format usage)
          (gbm_convert_usage usage) ret new bo sys sys' known made ordered room in
      (r, drv', rw (supported, e) refl, created, iff)
