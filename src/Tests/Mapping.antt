-- ===== src/Tests/Mapping.antt =====
-- Mapping and unmapping a buffer of two planes.
use minigbm.Base.{ℕ, ◌≡◌, refl, arith, ◌==◌, if◌then◌else◌, Option, none, some, [], ◌∷◌}
use minigbm.Flags.{bo_map_read_write}
use minigbm.Types.{Mapping, Vma, Rectangle}
use minigbm.Kernel.{Sys}
use minigbm.Tests.{nv12_bo, no_calls, simple_backend}
use minigbm.Mappings.Teardown.{drv_mapping_destroy}
use minigbm.Mappings.{Maps, drv_bo_unmap, choose_mapping, find_mapping, remove_mapping}
use minigbm.Mappings.Sound.{IsSound, refs, items_at, add_item-IsSound}
use minigbm.Mappings.Map.{HasRoom, Chosen, choose_mapping-Chosen}
use minigbm.Mappings.Unmap.{Unmapped, drv_bo_unmap-Unmapped, drv_bo_unmap-IsSound}
use minigbm.Mappings.Destroy.{others, drv_mapping_destroy_lem}

abbrev pub whole : Rectangle
whole = record { x = 0; y = 0; width = 64; height = 32 }

abbrev pub nothing_mapped : Maps
nothing_mapped = record { mappings = []; vmas = λ p. none; next = 1 }

pub nothing_mapped-IsSound : IsSound nothing_mapped
unfolding refs items_at
nothing_mapped-IsSound = record {
  counted = λ p. refl;
  in_use = λ p v e. cc;
  held = tt;
  small = λ p. omega arith;
  apart = λ a. omega arith;
  fresh_area = λ p h. refl;
  fresh_item = λ a h. refl;
}

abbrev pub area : Vma
area = record {
  addr = 4096;
  length = 0;
  handle = 7;
  map_flags = bo_map_read_write;
  refcount = 1;
  map_strides = [];
  priv = 0;
}

abbrev pub only : Mapping
only = record { address = 2; vma = 1; rect = whole; refcount = 1 }

abbrev pub one_mapped : Maps
one_mapped = record {
  mappings = only ∷ [];
  vmas = λ p. if 1 == p then some area else none;
  next = 3;
}

pub one_mapped-IsSound : IsSound one_mapped
unfolding refs
one_mapped-IsSound =
    add_item-IsSound nothing_mapped 1 3 area only nothing_mapped-IsSound refl refl (omega arith)
      (omega arith) (omega arith) refl (omega arith)

one_mapped-HasRoom : HasRoom one_mapped
unfolding refs
one_mapped-HasRoom = record { mapping_room = (omega arith, tt); area_room = λ p. ground arith }

choose_mapping-Chosen_example :
    (c : Option (Mapping × Maps)) × (sys' : Sys) × (choose_mapping simple_backend nv12_bo whole
        bo_map_read_write 0 one_mapped no_calls
      ≡ some (c, sys'))
    × Chosen simple_backend nv12_bo whole bo_map_read_write 0 one_mapped no_calls c sys'
choose_mapping-Chosen_example =
    choose_mapping-Chosen simple_backend nv12_bo whole bo_map_read_write 0 one_mapped no_calls
      one_mapped-IsSound one_mapped-HasRoom

one_mapped_found : find_mapping 2 one_mapped.mappings ≡ some only
unfolding find_mapping
one_mapped_found = refl

drv_bo_unmap-Unmapped_example :
    (ret : ℕ) × (s' : Maps) × (sys' : Sys) × (drv_bo_unmap simple_backend nv12_bo 2 one_mapped
        no_calls
      ≡ some (ret, s', sys'))
    × Unmapped simple_backend nv12_bo 2 one_mapped no_calls only ret s' sys'
drv_bo_unmap-Unmapped_example =
    drv_bo_unmap-Unmapped simple_backend nv12_bo 2 one_mapped no_calls only one_mapped-IsSound
      one_mapped_found

abbrev unmapped : Maps
unmapped = record {
  mappings = [];
  vmas = λ q. if 1 == q then none else one_mapped.vmas q;
  next = 3;
}

one_unmapped :
    drv_bo_unmap simple_backend nv12_bo 2 one_mapped no_calls ≡ some (0, unmapped, no_calls)
unfolding drv_bo_unmap find_mapping remove_mapping
one_unmapped = refl

drv_bo_unmap-IsSound_example : IsSound unmapped
drv_bo_unmap-IsSound_example =
    drv_bo_unmap-IsSound simple_backend nv12_bo 2 one_mapped unmapped no_calls no_calls only 0
      one_mapped-IsSound one_mapped_found one_unmapped

drv_mapping_destroy_lem_example :
    (s' : Maps) × (sys' : Sys) × (drv_mapping_destroy simple_backend nv12_bo one_mapped no_calls
      ≡ some (0, s', sys'))
    × (s'.mappings ≡ others one_mapped.vmas 7 one_mapped.mappings)
    × IsSound s'
drv_mapping_destroy_lem_example =
    drv_mapping_destroy_lem simple_backend nv12_bo one_mapped no_calls one_mapped-IsSound
      (λ v sys. refl) (omega arith)
