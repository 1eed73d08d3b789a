-- ===== src/Format.antt =====
-- helpers.c: the layout of the planes of each pixel format, built without `USE_GRALLOC1`.
pub mod Layouts
pub mod Strides
use minigbm.Base.{
  ℕ, ◌*◌, Bool, true, false, ◌||◌, Option, none, some, List, [], ◌∷◌, get_or, ltb, ◌==◌,
  if◌then◌else◌, ◌>>=◌, ◌>>◌, assert,
}
use minigbm.Util.{u32, align, div_round_up}
use minigbm.Fourcc.{
  drm_format_abgr1555, drm_format_abgr16161616f, drm_format_abgr2101010, drm_format_abgr4444,
  drm_format_abgr8888, drm_format_argb1555, drm_format_argb2101010, drm_format_argb4444,
  drm_format_argb8888, drm_format_ayuv, drm_format_bgr233, drm_format_bgr565, drm_format_bgr888,
  drm_format_bgra1010102, drm_format_bgra4444, drm_format_bgra5551, drm_format_bgra8888,
  drm_format_bgrx1010102, drm_format_bgrx4444, drm_format_bgrx5551, drm_format_bgrx8888,
  drm_format_c8, drm_format_gr88, drm_format_mtisp_sxyzw10, drm_format_nv12, drm_format_nv21,
  drm_format_p010, drm_format_r16, drm_format_r8, drm_format_rg88, drm_format_rgb332,
  drm_format_rgb565, drm_format_rgb888, drm_format_rgba1010102, drm_format_rgba4444,
  drm_format_rgba5551, drm_format_rgba8888, drm_format_rgbx1010102, drm_format_rgbx4444,
  drm_format_rgbx5551, drm_format_rgbx8888, drm_format_uyvy, drm_format_vyuy, drm_format_xbgr1555,
  drm_format_xbgr2101010, drm_format_xbgr4444, drm_format_xbgr8888, drm_format_xrgb1555,
  drm_format_xrgb2101010, drm_format_xrgb4444, drm_format_xrgb8888, drm_format_yuyv,
  drm_format_yvu420, drm_format_yvu420_android, drm_format_yvyu,
}

-- `struct planar_layout`
pub record PlanarLayout : Type 0 where
  pub num_planes : ℕ
  pub horizontal_subsampling : List ℕ
  pub vertical_subsampling : List ℕ
  pub bytes_per_pixel : List ℕ

abbrev pub packed_1bpp_layout : PlanarLayout
packed_1bpp_layout = record {
  num_planes = 1;
  horizontal_subsampling = 1 ∷ [];
  vertical_subsampling = 1 ∷ [];
  bytes_per_pixel = 1 ∷ [];
}

abbrev pub packed_2bpp_layout : PlanarLayout
packed_2bpp_layout = record {
  num_planes = 1;
  horizontal_subsampling = 1 ∷ [];
  vertical_subsampling = 1 ∷ [];
  bytes_per_pixel = 2 ∷ [];
}

abbrev pub packed_3bpp_layout : PlanarLayout
packed_3bpp_layout = record {
  num_planes = 1;
  horizontal_subsampling = 1 ∷ [];
  vertical_subsampling = 1 ∷ [];
  bytes_per_pixel = 3 ∷ [];
}

abbrev pub packed_4bpp_layout : PlanarLayout
packed_4bpp_layout = record {
  num_planes = 1;
  horizontal_subsampling = 1 ∷ [];
  vertical_subsampling = 1 ∷ [];
  bytes_per_pixel = 4 ∷ [];
}

abbrev pub packed_8bpp_layout : PlanarLayout
packed_8bpp_layout = record {
  num_planes = 1;
  horizontal_subsampling = 1 ∷ [];
  vertical_subsampling = 1 ∷ [];
  bytes_per_pixel = 8 ∷ [];
}

abbrev pub biplanar_yuv_420_layout : PlanarLayout
biplanar_yuv_420_layout = record {
  num_planes = 2;
  horizontal_subsampling = 1 ∷ 2 ∷ [];
  vertical_subsampling = 1 ∷ 2 ∷ [];
  bytes_per_pixel = 1 ∷ 2 ∷ [];
}

abbrev pub triplanar_yuv_420_layout : PlanarLayout
triplanar_yuv_420_layout = record {
  num_planes = 3;
  horizontal_subsampling = 1 ∷ 2 ∷ 2 ∷ [];
  vertical_subsampling = 1 ∷ 2 ∷ 2 ∷ [];
  bytes_per_pixel = 1 ∷ 1 ∷ 1 ∷ [];
}

abbrev pub biplanar_yuv_p010_layout : PlanarLayout
biplanar_yuv_p010_layout = record {
  num_planes = 2;
  horizontal_subsampling = 1 ∷ 2 ∷ [];
  vertical_subsampling = 1 ∷ 2 ∷ [];
  bytes_per_pixel = 2 ∷ 4 ∷ [];
}

pub elem : ℕ → List ℕ → Bool
elem x [] = false
elem x (y ∷ ys) = x == y || elem x ys

-- A `switch`: the value of the first group of labels that holds the number, NULL by default.
pub switch_on : ℕ → List (List ℕ × PlanarLayout) → Option PlanarLayout
switch_on f [] = none
switch_on f ((labels, layout) ∷ rest) = if elem f labels then some layout else switch_on f rest

-- The cases of `layout_from_format`, in its order.
unfoldable pub layout_cases : List (List ℕ × PlanarLayout)
layout_cases =
    (drm_format_bgr233 ∷ drm_format_c8 ∷ drm_format_r8 ∷ drm_format_rgb332 ∷ [], packed_1bpp_layout)
    ∷ (drm_format_r16 ∷ [], packed_2bpp_layout)
    ∷ (drm_format_yvu420 ∷ drm_format_yvu420_android ∷ [], triplanar_yuv_420_layout)
    ∷ (drm_format_nv12 ∷ drm_format_nv21 ∷ [], biplanar_yuv_420_layout)
    ∷ (drm_format_p010 ∷ [], biplanar_yuv_p010_layout)
    ∷ (
      drm_format_abgr1555 ∷ drm_format_abgr4444 ∷ drm_format_argb1555 ∷ drm_format_argb4444
          ∷ drm_format_bgr565 ∷ drm_format_bgra4444 ∷ drm_format_bgra5551 ∷ drm_format_bgrx4444
          ∷ drm_format_bgrx5551 ∷ drm_format_gr88 ∷ drm_format_rg88 ∷ drm_format_rgb565
          ∷ drm_format_rgba4444 ∷ drm_format_rgba5551 ∷ drm_format_rgbx4444 ∷ drm_format_rgbx5551
          ∷ drm_format_uyvy ∷ drm_format_vyuy ∷ drm_format_xbgr1555 ∷ drm_format_xbgr4444
          ∷ drm_format_xrgb1555 ∷ drm_format_xrgb4444 ∷ drm_format_yuyv ∷ drm_format_yvyu
          ∷ drm_format_mtisp_sxyzw10 ∷ [],
      packed_2bpp_layout,
    )
    ∷ (drm_format_bgr888 ∷ drm_format_rgb888 ∷ [], packed_3bpp_layout)
    ∷ (
      drm_format_abgr2101010 ∷ drm_format_abgr8888 ∷ drm_format_argb2101010 ∷ drm_format_argb8888
          ∷ drm_format_ayuv ∷ drm_format_bgra1010102 ∷ drm_format_bgra8888 ∷ drm_format_bgrx1010102
          ∷ drm_format_bgrx8888 ∷ drm_format_rgba1010102 ∷ drm_format_rgba8888
          ∷ drm_format_rgbx1010102 ∷ drm_format_rgbx8888 ∷ drm_format_xbgr2101010
          ∷ drm_format_xbgr8888 ∷ drm_format_xrgb2101010 ∷ drm_format_xrgb8888 ∷ [],
      packed_4bpp_layout,
    )
    ∷ (drm_format_abgr16161616f ∷ [], packed_8bpp_layout)
    ∷ []

unfoldable pub layout_from_format : ℕ → Option PlanarLayout
unfolding elem switch_on layout_cases
layout_from_format format = switch_on format layout_cases

unfoldable pub drv_num_planes_from_format : ℕ → ℕ
drv_num_planes_from_format format = elim (layout_from_format format) [
  | none ↦ 0
  | some layout ↦ layout.num_planes
]

-- `DIV_ROUND_UP(height, layout->vertical_subsampling[plane])`
abbrev pub plane_height : PlanarLayout → ℕ → ℕ → ℕ
plane_height layout height plane = div_round_up height (get_or layout.vertical_subsampling plane 0)

unfoldable pub drv_height_from_format : ℕ → ℕ → ℕ → Option ℕ
drv_height_from_format format height plane = do
  layout ← layout_from_format format
  assert (ltb plane layout.num_planes)
  some (plane_height layout height plane)

unfoldable pub drv_vertical_subsampling_from_format : ℕ → ℕ → Option ℕ
drv_vertical_subsampling_from_format format plane = do
  layout ← layout_from_format format
  assert (ltb plane layout.num_planes)
  some (get_or layout.vertical_subsampling plane 0)

unfoldable pub drv_bytes_per_pixel_from_format : ℕ → ℕ → Option ℕ
drv_bytes_per_pixel_from_format format plane = do
  layout ← layout_from_format format
  assert (ltb plane layout.num_planes)
  some (get_or layout.bytes_per_pixel plane 0)

-- `plane_width * layout->bytes_per_pixel[plane]`
abbrev pub packed_stride : PlanarLayout → ℕ → ℕ → ℕ
packed_stride layout width plane = u32 (
    div_round_up width (get_or layout.horizontal_subsampling plane 0)
    * get_or layout.bytes_per_pixel plane 0)

unfoldable pub drv_stride_from_format : ℕ → ℕ → ℕ → Option ℕ
drv_stride_from_format format width plane = do
  layout ← layout_from_format format
  assert (ltb plane layout.num_planes)
  let stride = packed_stride layout width plane
  some (
      if format == drm_format_yvu420_android
      then (if plane == 0 then align stride 32 else align stride 16)
      else stride)

unfoldable pub drv_size_from_format : ℕ → ℕ → ℕ → ℕ → Option ℕ
drv_size_from_format format stride height plane = do
  plane_rows ← drv_height_from_format format height plane
  some (u32 (stride * plane_rows))

unfoldable pub subsample_stride : ℕ → ℕ → ℕ → ℕ
subsample_stride stride format plane =
    if plane == 0
    then stride
    else if format == drm_format_yvu420 || format == drm_format_yvu420_android
    then div_round_up stride 2
    else stride
