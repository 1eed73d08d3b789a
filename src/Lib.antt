-- ===== src/Lib.antt =====
-- minigbm, the buffer allocator of ChromeOS: its core, which every backend uses, its GBM front end, and
-- the backends of several kernel drivers.
--
-- A client asks for a buffer of a format and flags (drv.c). The driver searches its table of
-- combinations for one that serves the request, has the backend of the kernel driver lay the planes
-- out and allocate them, and counts a reference for the kernel handle of each plane. A buffer is
-- mapped by rectangle: mappings share the areas that are mapped already, and each area counts its
-- mappings. helpers.c holds what the backends share: the layouts of the formats, the reference counts,
-- the kernel handles, the modifiers; helpers_array.c is the array that the tables lie in.
--
--   Util          util.h: ALIGN, IS_ALIGNED, DIV_ROUND_UP
--   Fourcc, Flags drv.h: the codes of formats and the flags
--   Types         drv.h and drv_priv.h: the structures
--   Format        helpers.c: the layout of each format and the queries on it
--   BoLayout      helpers.c: drv_bo_from_format and drv_bo_from_format_and_padding
--   Array         helpers_array.c
--   Combos        helpers.c and drv.c: drv_add_combinations, drv_modify_combination,
--                 drv_get_combination
--   Modifiers     helpers.c: drv_pick_modifier, drv_has_modifier
--   Handles       how many planes of a buffer use a handle, for the specifications
--   Refcount      helpers.c: drv_get_reference_count and its companions, and the loops of drv.c
--   Kernel        the calls into the kernel, which are a parameter
--   Gem           helpers.c: drv_gem_bo_destroy, drv_prime_bo_import; drv.c: drv_num_buffers_per_bo
--   Backend       drv_priv.h: struct backend, the interface of the backends
--   Mappings      drv.c: drv_bo_map, drv_bo_unmap, drv_bo_invalidate, drv_bo_flush,
--                 drv_bo_flush_or_unmap; helpers.c: drv_mapping_destroy
--   Dumb          helpers.c: drv_dumb_bo_create_ex, drv_dumb_bo_destroy, drv_dumb_bo_map,
--                 drv_bo_munmap
--   Driver        drv.c: drv_bo_new, drv_bo_create, drv_bo_create_with_modifiers, drv_bo_destroy;
--                 its children drv_bo_import, the queries, drv_get_backend and drv_init
--   Gbm           gbm.c and gbm_helpers.c: buffers, their import and mapping, flags, names of formats
--   I915          i915.c without USE_GRALLOC1: devices, combinations, layouts, memory, clflush
--   Tegra         tegra.c: layouts, memory, and the transfer between tiled and linear memory
--   Msm, Rockchip msm.c, rockchip.c
--   Mediatek      mediatek.c without MTK_MT8183: combinations, layouts, memory
--   Virtio        virtio_gpu.c without USE_GRALLOC1: what the host supports, emulated layouts, memory,
--                 transfers
--   Small         vc4.c, exynos.c, vgem.c, evdi.c, meson.c, nouveau.c, radeon.c, synaptics.c, udl.c
--   Base          Booleans, lists as C arrays, bits, and failure as an option
--   Tests         the theorems at concrete inputs
--
-- A failed assertion and a read through a bad pointer are `none`. Numbers are of the width of the
-- source, with their wrap-around written out; the count of an area, an `int32_t`, is its 32 bits,
-- and an overflow of it, which is undefined, is `none`, as is a write past the end of an array in
-- gbm_bo_import. Loops recurse on the number of rounds left, or on fuel: i915_clflush on two rounds
-- more than the lines that fill the area, and the two loops of tegra.c on the at most five halvings
-- of a block. The array of mappings and that of combinations are the lists that the growable array
-- stands for. Allocations are taken to succeed. The kernel, the hash table of libdrm and the backend
-- are parameters: a function from the calls so far to answers, operations with their documented
-- laws, and a record of operations. Driver locks make each function one step, so they are left out.
--
-- The constants and structures of the kernel's headers are parameters: a record of numbers for each
-- backend, and requests with the fields that the code sets.
--
-- Not modelled: freeing a driver and the private data of a backend, drv_resource_info of drv.c, which
-- only calls the backend, the GBM device and surfaces (allocation and stubs), amdgpu.c with dri.c
-- (calls of a DRI driver), i915_private.c, marvell.c, which calls a function that does not exist, and
-- the Android front end in cros_gralloc, which is C++.
pub mod Base
pub mod Util
pub mod Fourcc
pub mod Flags
pub mod Types
pub mod Format
pub mod BoLayout
pub mod Array
pub mod Combos
pub mod Modifiers
pub mod Handles
pub mod Refcount
pub mod Kernel
pub mod Gem
pub mod Backend
pub mod Mappings
pub mod Dumb
pub mod Driver
pub mod Gbm
pub mod I915
pub mod Tegra
pub mod Msm
pub mod Rockchip
pub mod Small
pub mod Mediatek
pub mod Virtio
pub mod Tests
