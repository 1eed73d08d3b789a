-- ===== src/Tests/Lifecycle.antt =====
-- Creating and destroying a buffer.
use minigbm.Base.{
  ℕ, zero, suc, ◌-◌, ◌^◌, ◌≤◌, ◌<◌, ◌≡◌, ◌↔◌, refl, arith, false, Option, none, some, [], ◌∷◌,
  get_or, ◌==◌, if◌then◌else◌,
}
use minigbm.Types.{Bo}
use minigbm.Fourcc.{drm_format_nv12}
use minigbm.Format.{drv_num_planes_from_format, layout_from_format}
use minigbm.Handles.{uses}
use minigbm.Kernel.{Sys}
use minigbm.Refcount.{drv_get_reference_count}
use minigbm.Mappings.Sound.{IsSound}
use minigbm.Mappings.Destroy.{others}
use minigbm.Driver.{Driver, drv_bo_new, allocate, drv_bo_create, drv_bo_destroy}
use minigbm.Driver.Counts.{
  count, Created, InOrder, is_test, real_flags, drv_bo_create_lem, drv_bo_destroy_shared,
  drv_bo_destroy_last,
}
use minigbm.Tests.{nv12_bo, no_calls, simple_backend, function_hash}
use minigbm.Tests.Mapping.{one_mapped, one_mapped-IsSound}

-- A driver on which the handle 7 has a number of references.
abbrev pub driver_with : ℕ → Driver function_hash
driver_with n = record {
  combos = [];
  maps = one_mapped;
  buffer_table = λ h. if h == 7 then some n else none;
}

pub count_small : (n : ℕ) → n < 2 ^ 60 → (h : ℕ) → count function_hash (driver_with n) h < 2 ^ 60
unfolding drv_get_reference_count
count_small n small h = ground arith

drv_bo_destroy_shared_example :
    (drv' : Driver function_hash) × (drv_bo_destroy function_hash simple_backend nv12_bo
        (driver_with 3)
        no_calls
      ≡ some (drv', no_calls))
    × (drv'.maps ≡ one_mapped)
    × ((h : ℕ)
        → count function_hash drv' h
          ≡ count function_hash (driver_with 3) h - uses (7 ∷ 7 ∷ 0 ∷ 0 ∷ []) 2 0 h)
unfolding uses drv_get_reference_count
drv_bo_destroy_shared_example =
    drv_bo_destroy_shared function_hash simple_backend nv12_bo (driver_with 3) no_calls refl
      (count_small 3 (omega arith)) (omega arith) 0 (omega arith) (omega arith)

own_references :
    (p : ℕ)
    → p < 2
    → count function_hash (driver_with 2) (get_or nv12_bo.handles p 0)
      ≤ uses nv12_bo.handles 2 0 (get_or nv12_bo.handles p 0)
unfolding uses drv_get_reference_count
own_references zero lt = omega arith
own_references (suc zero) lt = omega arith
own_references (suc (suc p)) lt = absurd (omega arith)

drv_bo_destroy_last_example :
    (drv' : Driver function_hash) × (sys' : Sys) × (drv_bo_destroy function_hash simple_backend
        nv12_bo
        (driver_with 2)
        no_calls
      ≡ some (drv', (simple_backend.bo_destroy nv12_bo sys').1))
    × (drv'.maps.mappings ≡ others one_mapped.vmas 7 one_mapped.mappings)
    × IsSound drv'.maps
    × ((h : ℕ)
        → count function_hash drv' h
          ≡ count function_hash (driver_with 2) h - uses (7 ∷ 7 ∷ 0 ∷ 0 ∷ []) 2 0 h)
drv_bo_destroy_last_example =
    drv_bo_destroy_last function_hash simple_backend nv12_bo (driver_with 2) no_calls refl
      (count_small 2 (omega arith)) (omega arith) own_references (omega arith) one_mapped-IsSound
      (λ v sys. refl)

-- What `drv_bo_new` returns for an NV12 buffer.
abbrev new_nv12 : Bo
new_nv12 = record {
  meta = record {
    width = 64;
    height = 32;
    format = drm_format_nv12;
    tiling = 0;
    num_planes = 2;
    offsets = 0 ∷ 0 ∷ 0 ∷ 0 ∷ [];
    sizes = 0 ∷ 0 ∷ 0 ∷ 0 ∷ [];
    strides = 0 ∷ 0 ∷ 0 ∷ 0 ∷ [];
    format_modifiers = 0 ∷ 0 ∷ 0 ∷ 0 ∷ [];
    use_flags = 1;
    total_size = 0;
  };
  is_test_buffer = false;
  handles = 0 ∷ 0 ∷ 0 ∷ 0 ∷ [];
}

nv12_is_new : drv_bo_new 64 32 drm_format_nv12 (real_flags 1) (is_test 1) ≡ some new_nv12
unfolding drv_bo_new drv_num_planes_from_format layout_from_format
nv12_is_new = refl

nv12_allocated :
    allocate function_hash simple_backend
      (driver_with 0)
      new_nv12
      64
      32
      drm_format_nv12
      (real_flags 1)
      (is_test 1)
      no_calls
    ≡ some (0, new_nv12, no_calls)
unfolding allocate
nv12_allocated = refl

nv12_InOrder : InOrder function_hash new_nv12
nv12_InOrder zero lt = omega arith
nv12_InOrder (suc p) lt = absurd (omega arith)

drv_bo_create_lem_example :
    (r : Option Bo) × (drv' : Driver function_hash) × (drv_bo_create function_hash simple_backend
        (driver_with 0)
        64
        32
        drm_format_nv12
        1
        no_calls
      ≡ some (r, drv', no_calls))
    × Created function_hash (driver_with 0) r drv'
    × ((◌≡◌ {A = ℕ} 0 0) ↔ (r ≡ some new_nv12))
drv_bo_create_lem_example =
    drv_bo_create_lem function_hash simple_backend (driver_with 0) 64 32 drm_format_nv12 1 0
      new_nv12 new_nv12 no_calls no_calls nv12_is_new nv12_allocated (λ e. nv12_InOrder)
      (λ h. omega (arith, count_small 0 (omega arith) h))
