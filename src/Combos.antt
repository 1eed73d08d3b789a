-- ===== src/Combos.antt =====
-- The table of what a driver can allocate, `drv->combos`: helpers.c fills it and drv.c searches it.
-- The array is the list of its items (see Array/Refine): `drv_array_append` adds at the end, and a
-- loop over `drv_array_at_idx` goes through the list.
pub mod Best
pub mod Modify
use minigbm.Base.{
  ℕ, ◌<◌, Bool, true, false, ◌&&◌, ◌||◌, Option, none, some, List, [], ◌∷◌, ◌++◌, bit_and, bit_or,
  ltb, ◌==◌, if◌then◌else◌,
}
use minigbm.Fourcc.{drm_format_none, drm_format_xrgb8888, drm_format_argb8888}
use minigbm.Flags.{bo_use_none, bo_use_cursor, bo_use_scanout, drm_format_mod_linear}
use minigbm.Types.{Combination, FormatMetadata}

unfoldable pub drv_add_combination : List Combination → ℕ → FormatMetadata → ℕ → List Combination
drv_add_combination combos format metadata use_flags =
    combos ++ record { format = format; metadata = metadata; use_flags = use_flags } ∷ []

unfoldable pub drv_add_combinations :
    List Combination → List ℕ → FormatMetadata → ℕ → List Combination
drv_add_combinations combos [] metadata use_flags = combos
drv_add_combinations combos (format ∷ formats) metadata use_flags =
    drv_add_combinations
      (combos ++ record { format = format; metadata = metadata; use_flags = use_flags } ∷ [])
      formats metadata use_flags

-- The test of `drv_modify_combination`.
abbrev pub is_same_entry : Combination → ℕ → FormatMetadata → Bool
is_same_entry combo format metadata =
    combo.format == format
    && (combo.metadata.tiling == metadata.tiling && combo.metadata.modifier == metadata.modifier)

-- The body of its loop.
abbrev pub add_flags : Combination → ℕ → FormatMetadata → ℕ → Combination
add_flags combo format metadata use_flags =
    if is_same_entry combo format metadata
    then record combo { use_flags = bit_or combo.use_flags use_flags }
    else combo

unfoldable pub drv_modify_combination : List Combination → ℕ → FormatMetadata → ℕ → List Combination
drv_modify_combination [] format metadata use_flags = []
drv_modify_combination (combo ∷ combos) format metadata use_flags =
    add_flags combo format metadata use_flags
    ∷ drv_modify_combination combos format metadata use_flags

abbrev pub linear_metadata : FormatMetadata
linear_metadata = record { priority = 1; tiling = 0; modifier = drm_format_mod_linear }

unfoldable pub drv_modify_linear_combinations : List Combination → List Combination
drv_modify_linear_combinations combos =
    let xrgb =
      drv_modify_combination combos drm_format_xrgb8888 linear_metadata
        (bit_or bo_use_cursor bo_use_scanout) in
    drv_modify_combination xrgb drm_format_argb8888 linear_metadata
      (bit_or bo_use_cursor bo_use_scanout)

-- The tests of `drv_get_combination`: does the entry serve, and is it better than the best so far?
abbrev pub serves : ℕ → ℕ → Combination → Bool
serves format use_flags curr =
    format == curr.format && use_flags == bit_and curr.use_flags use_flags

abbrev pub is_better : Option Combination → Combination → Bool
is_better none curr = true
is_better (some best) curr = ltb best.metadata.priority curr.metadata.priority

unfoldable pub best_of : ℕ → ℕ → Option Combination → List Combination → Option Combination
best_of format use_flags best [] = best
best_of format use_flags best (curr ∷ combos) =
    best_of format use_flags
      (if serves format use_flags curr && is_better best curr then some curr else best) combos

unfoldable pub drv_get_combination : List Combination → ℕ → ℕ → Option Combination
drv_get_combination combos format use_flags =
    if format == drm_format_none || use_flags == bo_use_none
    then none
    else best_of format use_flags none combos
