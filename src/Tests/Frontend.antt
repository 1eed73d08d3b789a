-- ===== src/Tests/Frontend.antt =====
-- Importing a buffer, its flags, and the choice of a backend.
use minigbm.Base.{
  ℕ, ◌^◌, ◌+◌, ◌≡◌, ◌≢◌, refl, arith, Bool, true, Option, none, some, List, [], ◌∷◌, bit_and,
}
use minigbm.Fourcc.{drm_format_nv12}
use minigbm.Flags.{bo_use_texture, drm_format_mod_linear}
use minigbm.Types.{Bo, ImportFdData}
use minigbm.Format.{drv_num_planes_from_format, layout_from_format}
use minigbm.Combos.{linear_metadata, drv_get_combination, best_of}
use minigbm.Kernel.{Sys}
use minigbm.Backend.{Backend}
use minigbm.Mappings.Sound.{IsSound}
use minigbm.Driver.{Driver, allocate, allocate_with_modifiers, can_modify}
use minigbm.Driver.Query.{drv_num_planes_from_modifier}
use minigbm.Driver.Import.{drv_bo_import}
use minigbm.Driver.Import.Outcome.{Imported, drv_bo_import_lem}
use minigbm.Driver.Import.Prime.{Delivers, drv_prime_bo_import-IsReal}
use minigbm.Gem.{drv_prime_bo_import}
use minigbm.Driver.Select.{
  drv_get_backend, find_backend, backend_asserts, same_name, drv_get_backend_lem,
}
use minigbm.Gbm.{wrap, gbm_device_is_format_supported}
use minigbm.Gbm.Usage.{gbm_convert_usage}
use minigbm.Gbm.Usage.Mask.{known_uses, gbm_convert_usage_lem}
use minigbm.Gbm.Import.{GbmImportFdModifierData, import_fd_modifier, gbm_bo_import}
use minigbm.Gbm.Import.Describe.{IsHanded, gbm_bo_import_lem}
use minigbm.Tests.{no_calls, willing_kernel, simple_backend, function_hash}
use minigbm.Tests.Mapping.{one_mapped-IsSound}
use minigbm.Tests.Lifecycle.{driver_with, count_small}

-- A backend that imports with `drv_prime_bo_import`, as those of the drivers do.
abbrev importing_backend : Backend
importing_backend = record simple_backend {
  bo_import = λ bo source sys. drv_prime_bo_import willing_kernel bo source.fds sys;
}

importing_backend-Delivers : Delivers importing_backend
importing_backend-Delivers source new sys known ok =
    drv_prime_bo_import-IsReal willing_kernel source.width source.height source.format
      source.use_flags new source.fds sys (λ calls r bad. absurd (bad refl)) known ok

abbrev two_files : ImportFdData
two_files = record {
  fds = 3 ∷ 4 ∷ 0 ∷ 0 ∷ [];
  strides = 64 ∷ 64 ∷ 0 ∷ 0 ∷ [];
  offsets = 0 ∷ 2048 ∷ 0 ∷ 0 ∷ [];
  format_modifiers = 0 ∷ 0 ∷ 0 ∷ 0 ∷ [];
  width = 64;
  height = 32;
  format = drm_format_nv12;
  use_flags = bo_use_texture;
}

drv_bo_import_lem_example :
    (r : Option Bo) × (drv' : Driver function_hash) × (sys' : Sys) × (drv_bo_import function_hash
        importing_backend willing_kernel two_files
        (driver_with 3)
        no_calls
      ≡ some (r, drv', sys'))
    × IsSound drv'.maps
    × Imported function_hash importing_backend willing_kernel two_files
        (driver_with 3)
        no_calls
        drv'
        r
drv_bo_import_lem_example =
    drv_bo_import_lem function_hash importing_backend willing_kernel two_files (driver_with 3)
      one_mapped-IsSound (λ b v sys. refl) (count_small 3 (omega arith)) no_calls
      (λ new. importing_backend-Delivers two_files new no_calls)

-- The same through the front end.
abbrev nv12_buffer : GbmImportFdModifierData
nv12_buffer = record {
  width = 64;
  height = 32;
  format = drm_format_nv12;
  num_fds = 1;
  fds = 3 ∷ 0 ∷ 0 ∷ 0 ∷ [];
  strides = 64 ∷ 64 ∷ 0 ∷ 0 ∷ [];
  offsets = 0 ∷ 2048 ∷ 0 ∷ 0 ∷ [];
  modifier = drm_format_mod_linear;
}

abbrev texturing_driver : Driver function_hash
texturing_driver = record (driver_with 3) {
  combos =
      record { format = drm_format_nv12; metadata = linear_metadata; use_flags = bo_use_texture }
      ∷ [];
}

nv12_planes :
    drv_num_planes_from_modifier importing_backend drm_format_nv12 drm_format_mod_linear ≡ 2
unfolding drv_num_planes_from_modifier drv_num_planes_from_format layout_from_format
nv12_planes = refl

nv12_supported :
    gbm_device_is_format_supported texturing_driver.combos drm_format_nv12 bo_use_texture ≡ true
unfolding gbm_device_is_format_supported gbm_convert_usage drv_get_combination best_of
nv12_supported = refl

gbm_bo_import_lem_example :
    (source : ImportFdData) × (r : Option Bo) × (drv' : Driver function_hash) × (sys' : Sys)
    × (gbm_bo_import function_hash importing_backend willing_kernel
          (import_fd_modifier nv12_buffer)
          bo_use_texture
          texturing_driver
          no_calls
        ≡ some (wrap drm_format_nv12 r, drv', sys'))
    × IsHanded nv12_buffer 2 bo_use_texture source
    × IsSound drv'.maps
    × Imported function_hash importing_backend willing_kernel source texturing_driver no_calls drv'
        r
gbm_bo_import_lem_example =
    gbm_bo_import_lem function_hash importing_backend willing_kernel nv12_buffer 2 bo_use_texture
      texturing_driver no_calls nv12_planes (omega arith) (omega arith) (omega arith) nv12_supported
      one_mapped-IsSound (λ b v sys. refl) (count_small 3 (omega arith)) importing_backend-Delivers

gbm_convert_usage_lem_example :
    gbm_convert_usage (2 ^ 15 + 2 ^ 5) ≡ bit_and (2 ^ 15 + 2 ^ 5) known_uses
gbm_convert_usage_lem_example = gbm_convert_usage_lem (2 ^ 15 + 2 ^ 5)

abbrev backend_list : List (List ℕ × Backend)
backend_list = (b'v' ∷ b'g' ∷ [], importing_backend) ∷ (b'u' ∷ b'd' ∷ [], simple_backend) ∷ []

found_second : drv_get_backend (some (b'u' ∷ b'd' ∷ [])) backend_list ≡ some (some simple_backend)
unfolding drv_get_backend find_backend backend_asserts same_name
found_second = refl

drv_get_backend_lem_example :
    ((drv : Driver function_hash) (bo : Bo) (width height format use_flags : ℕ) (test : Bool)
        (sys : Sys)
      → allocate function_hash simple_backend drv bo width height format use_flags test sys ≢ none)
    × ((drv : Driver function_hash) (bo : Bo) (width height format : ℕ) (modifiers : List ℕ)
          (sys : Sys)
        → can_modify function_hash simple_backend ≡ true
        → allocate_with_modifiers function_hash simple_backend drv bo width height format modifiers
            sys
          ≢ none)
drv_get_backend_lem_example =
    drv_get_backend_lem function_hash (b'u' ∷ b'd' ∷ []) backend_list simple_backend found_second
