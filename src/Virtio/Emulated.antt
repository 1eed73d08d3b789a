-- ===== src/Virtio/Emulated.antt =====
-- virtio_gpu.c: the layout of emulated buffers, and the rectangles that are sent to the host.
pub mod Stacked
pub mod Boxes
use minigbm.Base.{
  ℕ, ◌+◌, ◌*◌, Bool, ◌&&◌, ◌||◌, Option, none, some, List, [], ◌∷◌, set, ◌==◌, if◌then◌else◌,
}
use minigbm.Util.{u32, align, div_round_up}
use minigbm.Fourcc.{
  drm_format_nv12, drm_format_nv21, drm_format_r8, drm_format_yvu420, drm_format_yvu420_android,
}
use minigbm.Types.{Bo, Metadata, Rectangle}

-- The cases of the switches on the format.
abbrev pub is_biplanar : ℕ → Bool
is_biplanar format = format == drm_format_nv12 || format == drm_format_nv21

abbrev pub is_triplanar : ℕ → Bool
is_triplanar format = format == drm_format_yvu420 || format == drm_format_yvu420_android

-- Each `emulated_metadata` is a variable that the caller leaves uninitialised: `stack` is what it
-- holds.
unfoldable pub biplanar_metadata : Bo → Metadata → Metadata
biplanar_metadata bo stack =
    let width = bo.meta.width in
    let y_plane_height = bo.meta.height in
    let c_plane_height = div_round_up bo.meta.height 2 in
    let height = u32 (y_plane_height + c_plane_height) in
    let y_size = u32 (width * y_plane_height) in
    record stack {
      format = drm_format_r8;
      num_planes = 2;
      width = width;
      height = height;
      strides = set (set stack.strides 0 width) 1 width;
      offsets = set (set stack.offsets 0 0) 1 y_size;
      sizes = set (set stack.sizes 0 y_size) 1 (u32 (width * c_plane_height));
      total_size = u32 (width * height);
    }

unfoldable pub triplanar_metadata : Bo → Metadata → Metadata
triplanar_metadata bo stack =
    let width = align bo.meta.width 32 in
    let y_plane_height = bo.meta.height in
    let c_plane_height = div_round_up bo.meta.height 2 in
    let height = u32 (y_plane_height + 2 * c_plane_height) in
    let y_size = u32 (width * y_plane_height) in
    let c_size = u32 (width * c_plane_height) in
    record stack {
      format = drm_format_r8;
      num_planes = 3;
      width = width;
      height = height;
      strides = set (set (set stack.strides 0 width) 1 width) 2 width;
      offsets = set (set (set stack.offsets 0 0) 1 y_size) 2 (u32 (y_size + c_size));
      sizes = set (set (set stack.sizes 0 y_size) 1 c_size) 2 c_size;
      total_size = u32 (width * height);
    }

unfoldable pub virtio_gpu_get_emulated_metadata : Bo → Metadata → Metadata
virtio_gpu_get_emulated_metadata bo stack =
    let biplanar = biplanar_metadata bo stack in
    let triplanar = triplanar_metadata bo stack in
    if is_biplanar bo.meta.format
    then biplanar
    else (if is_triplanar bo.meta.format
        then triplanar
        else record stack { format = drm_format_r8 })

unfoldable pub biplanar_boxes : Bo → Rectangle → List Rectangle
biplanar_boxes bo box =
    let chroma : Rectangle = record {
      x = box.x;
      y = u32 (box.y + bo.meta.height);
      width = box.width;
      height = div_round_up box.height 2;
    } in
    box ∷ chroma ∷ []

unfoldable pub triplanar_boxes : Bo → Rectangle → List Rectangle
triplanar_boxes bo box =
    let width = div_round_up box.width 2 in
    let height = div_round_up box.height 2 in
    let y = u32 (box.y + bo.meta.height) in
    let cb : Rectangle = record { x = box.x; y = y; width = width; height = height } in
    let cr : Rectangle = record {
      x = box.x;
      y = u32 (y + div_round_up bo.meta.height 2);
      width = width;
      height = height;
    } in
    box ∷ cb ∷ cr ∷ []

-- The rectangle is the whole of the buffer.
abbrev pub is_whole : Bo → Rectangle → Bool
is_whole bo box =
    box.x == 0 && (box.y == 0 && (box.width == bo.meta.width && box.height == bo.meta.height))

-- The first `xfers_needed` of the boxes; with a format of neither case the number is uninitialised,
-- and reading it is an abort.
unfoldable pub virtio_gpu_get_emulated_transfers_params :
    Bo → Rectangle → Metadata → Option (List Rectangle)
virtio_gpu_get_emulated_transfers_params bo box stack =
    let emulated = virtio_gpu_get_emulated_metadata bo stack in
    let whole : Rectangle = record {
      x = 0;
      y = 0;
      width = emulated.width;
      height = emulated.height;
    } in
    let biplanar = biplanar_boxes bo box in
    let triplanar = triplanar_boxes bo box in
    if is_whole bo box
    then some (whole ∷ [])
    else (if is_biplanar bo.meta.format
        then some biplanar
        else (if is_triplanar bo.meta.format then some triplanar else none))
