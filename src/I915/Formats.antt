-- ===== src/I915/Formats.antt =====
-- i915.c: the table of combinations, and the formats that Android leaves open.
pub mod LinearOnly
use minigbm.Base.{
  ℕ, ◌-◌, Bool, true, false, ◌&&◌, ◌||◌, List, [], ◌∷◌, bit_and, bit_or, ◌==◌, ◌!=◌, if◌then◌else◌,
}
use minigbm.Util.{u64_mod}
use minigbm.Flags.{
  bo_use_render_mask, bo_use_texture_mask, bo_use_sw_mask, bo_use_scanout, bo_use_renderscript,
  bo_use_linear, bo_use_protected, bo_use_sw_read_often, bo_use_sw_write_often,
  bo_use_sw_read_rarely, bo_use_sw_write_rarely, bo_use_camera_read, bo_use_camera_write,
  bo_use_texture, bo_use_hw_video_encoder, bo_use_hw_video_decoder, drm_format_mod_linear,
}
use minigbm.Fourcc.{
  drm_format_abgr2101010, drm_format_abgr8888, drm_format_argb2101010, drm_format_argb8888,
  drm_format_rgb565, drm_format_xbgr2101010, drm_format_xbgr8888, drm_format_xrgb2101010,
  drm_format_xrgb8888, drm_format_abgr16161616f, drm_format_r8, drm_format_nv12, drm_format_p010,
  drm_format_yvu420, drm_format_yvu420_android, drm_format_bgr888,
  drm_format_flex_implementation_defined, drm_format_flex_ycbcr_420_888,
}
use minigbm.Types.{Combination, FormatMetadata}
use minigbm.Combos.{
  drv_add_combination, drv_add_combinations, drv_modify_combination, drv_modify_linear_combinations,
}
use minigbm.I915.{I915Drm}

abbrev pub scanout_render_formats : List ℕ
scanout_render_formats =
    drm_format_abgr2101010 ∷ drm_format_abgr8888 ∷ drm_format_argb2101010 ∷ drm_format_argb8888
    ∷ drm_format_rgb565 ∷ drm_format_xbgr2101010 ∷ drm_format_xbgr8888 ∷ drm_format_xrgb2101010
    ∷ drm_format_xrgb8888 ∷ []

abbrev pub render_formats : List ℕ
render_formats = drm_format_abgr16161616f ∷ []

abbrev pub texture_only_formats : List ℕ
texture_only_formats =
    drm_format_r8 ∷ drm_format_nv12 ∷ drm_format_p010 ∷ drm_format_yvu420
    ∷ drm_format_yvu420_android ∷ []

-- `current_flags & ~mask`
unfoldable pub unset_flags : ℕ → ℕ → ℕ
unset_flags current_flags mask = bit_and current_flags (u64_mod - 1 - mask)

-- `linear_mask` and `camera_mask`
abbrev pub linear_mask : ℕ
linear_mask = bit_or bo_use_renderscript (
    bit_or bo_use_linear
      (bit_or bo_use_protected (bit_or bo_use_sw_read_often bo_use_sw_write_often)))

abbrev pub camera_mask : ℕ
camera_mask = bit_or bo_use_camera_read bo_use_camera_write

-- The entries without tiling, up to the first `unset_flags`.
unfoldable pub add_linear_combinations : I915Drm → List Combination → List Combination
add_linear_combinations drm combos =
    let metadata : FormatMetadata = record {
      priority = 1;
      tiling = drm.tiling_none;
      modifier = drm_format_mod_linear;
    } in
    let scanned =
      drv_add_combinations combos scanout_render_formats metadata
        (bit_or bo_use_render_mask bo_use_scanout) in
    let rendered = drv_add_combinations scanned render_formats metadata bo_use_render_mask in
    let textured =
      drv_add_combinations rendered texture_only_formats metadata bo_use_texture_mask in
    let linear = drv_modify_linear_combinations textured in
    let encoded =
      drv_modify_combination linear drm_format_yvu420 metadata bo_use_hw_video_encoder in
    let camera = drv_modify_combination encoded drm_format_nv12 metadata (
      bit_or bo_use_hw_video_encoder (
        bit_or bo_use_hw_video_decoder
          (bit_or bo_use_camera_read (bit_or bo_use_camera_write bo_use_scanout)))) in
    let software = drv_add_combination camera drm_format_bgr888 metadata bo_use_sw_mask in
    drv_modify_combination software drm_format_r8 metadata
      (bit_or bo_use_camera_read bo_use_camera_write)

-- `render`, and `scanout_and_render` for the entries of `I915_TILING_X`.
unfoldable pub tiled_render : ℕ
unfolding unset_flags
tiled_render = unset_flags bo_use_render_mask (bit_or linear_mask camera_mask)

unfoldable pub x_tiled_scanout : Bool → Bool → ℕ
unfolding unset_flags
x_tiled_scanout is_kvm is_adlp =
    let flags =
      unset_flags (bit_or bo_use_render_mask bo_use_scanout) (bit_or linear_mask camera_mask) in
    if is_kvm && is_adlp then unset_flags flags bo_use_scanout else flags

unfoldable pub add_x_tiled_combinations :
    I915Drm → Bool → Bool → List Combination → List Combination
add_x_tiled_combinations drm is_kvm is_adlp combos =
    let metadata : FormatMetadata = record {
      priority = 2;
      tiling = drm.tiling_x;
      modifier = drm.mod_x_tiled;
    } in
    drv_add_combinations (drv_add_combinations combos render_formats metadata tiled_render)
      scanout_render_formats metadata (x_tiled_scanout is_kvm is_adlp)

-- `scanout_and_render` for the entries of `I915_TILING_Y`; `has_dgpu` is the test of `gpu_grp_type`.
unfoldable pub y_tiled_scanout : Bool → Bool → Bool → ℕ
unfolding unset_flags
y_tiled_scanout is_kvm is_adlp has_dgpu =
    let flags =
      unset_flags (x_tiled_scanout is_kvm is_adlp)
        (bit_or bo_use_sw_read_rarely bo_use_sw_write_rarely) in
    if has_dgpu then unset_flags flags bo_use_scanout else flags

-- `y_tiled_nv12` tells whether `I915_SCANOUT_Y_TILED` is defined.
unfoldable pub add_y_tiled_combinations :
    I915Drm → Bool → Bool → Bool → Bool → List Combination → List Combination
add_y_tiled_combinations drm is_kvm is_adlp has_dgpu y_tiled_nv12 combos =
    let metadata : FormatMetadata = record {
      priority = 3;
      tiling = drm.tiling_y;
      modifier = drm.mod_y_tiled;
    } in
    let decoded = bit_or bo_use_texture bo_use_hw_video_decoder in
    let nv12 =
      drv_add_combination combos drm_format_nv12 metadata
        (if y_tiled_nv12 then bit_or decoded bo_use_scanout else decoded) in
    let p010 = drv_add_combination nv12 drm_format_p010 metadata decoded in
    let rendered = drv_add_combinations p010 render_formats metadata tiled_render in
    drv_add_combinations rendered scanout_render_formats metadata
      (y_tiled_scanout is_kvm is_adlp has_dgpu)

unfoldable pub i915_add_combinations :
    I915Drm → Bool → Bool → Bool → Bool → List Combination → List Combination
i915_add_combinations drm is_kvm is_adlp has_dgpu y_tiled_nv12 combos =
    add_y_tiled_combinations drm is_kvm is_adlp has_dgpu y_tiled_nv12
      (add_x_tiled_combinations drm is_kvm is_adlp (add_linear_combinations drm combos))

unfoldable pub i915_resolve_format : ℕ → ℕ → ℕ
i915_resolve_format format use_flags =
    if format == drm_format_flex_implementation_defined
    then (if bit_and use_flags (bit_or bo_use_camera_read bo_use_camera_write) != 0
        then drm_format_nv12
        else drm_format_xbgr8888)
    else (if format == drm_format_flex_ycbcr_420_888 then drm_format_nv12 else format)
