-- ===== src/Tests/Buffers.antt =====
-- The layout of an NV12 buffer, formats, strides and rounding.
use minigbm.Base.{
  ℕ, ◌*◌, ◌%◌, ◌≤◌, ◌<◌, ◌≡◌, ◌≢◌, ◌↔◌, refl, arith, none, some, List, [], ◌∷◌, replicate, inr,
}
use minigbm.Util.{u32, div_round_up}
use minigbm.Fourcc.{drm_format_nv12, drm_format_yvu420_android}
use minigbm.Types.{Metadata, IsSized}
use minigbm.Format.{
  layout_from_format, biplanar_yuv_420_layout, drv_num_planes_from_format, drv_stride_from_format,
  drv_height_from_format, drv_vertical_subsampling_from_format, drv_bytes_per_pixel_from_format,
  drv_size_from_format, subsample_stride,
}
use minigbm.Format.Layouts.{IsValidLayout, layout_from_format-IsValidLayout, queries_total}
use minigbm.Format.Strides.{drv_stride_from_format_lem}
use minigbm.BoLayout.{drv_bo_from_format_and_padding}
use minigbm.BoLayout.Loop.{bytes_before, Placed}
use minigbm.BoLayout.Contiguous.{
  IsContiguous, drv_bo_from_format_and_padding_lem, drv_bo_from_format_and_padding-IsContiguous,
  drv_bo_from_format_and_padding_aborts,
}
use minigbm.Tests.{nv12_metadata, nv12_IsSized}

abbrev no_padding : List ℕ
no_padding = replicate 4 0

nv12_known : layout_from_format drm_format_nv12 ≡ some biplanar_yuv_420_layout
unfolding layout_from_format
nv12_known = refl

drv_bo_from_format_and_padding_lem_example :
    (m' : Metadata) × (drv_bo_from_format_and_padding nv12_metadata 64 32 drm_format_nv12 no_padding
      ≡ some m')
    × IsSized m'
    × ((p : ℕ) → p < 2 → Placed 64 32 drm_format_nv12 no_padding biplanar_yuv_420_layout m' p)
    × (m'.total_size
        ≡ u32 (bytes_before 64 32 drm_format_nv12 no_padding biplanar_yuv_420_layout 2))
drv_bo_from_format_and_padding_lem_example =
    drv_bo_from_format_and_padding_lem nv12_metadata 64 32 drm_format_nv12 no_padding
      biplanar_yuv_420_layout nv12_IsSized nv12_known (λ e. absurd (omega arith))

abbrev nv12_placed : Metadata
nv12_placed = record nv12_metadata {
  offsets = 0 ∷ 2048 ∷ 0 ∷ 0 ∷ [];
  sizes = 2048 ∷ 1024 ∷ 0 ∷ 0 ∷ [];
  strides = 64 ∷ 64 ∷ 0 ∷ 0 ∷ [];
  total_size = 3072;
}

nv12_run :
    drv_bo_from_format_and_padding nv12_metadata 64 32 drm_format_nv12 no_padding ≡ some nv12_placed
unfolding drv_bo_from_format_and_padding drv_num_planes_from_format layout_from_format
    drv_size_from_format drv_height_from_format subsample_stride div_round_up
nv12_run = refl

drv_bo_from_format_and_padding-IsContiguous_example : IsContiguous nv12_placed 2
unfolding bytes_before subsample_stride div_round_up
drv_bo_from_format_and_padding-IsContiguous_example =
    drv_bo_from_format_and_padding-IsContiguous nv12_metadata nv12_placed 64 32 drm_format_nv12
      no_padding biplanar_yuv_420_layout nv12_IsSized nv12_known (omega arith) nv12_run

drv_bo_from_format_and_padding_aborts_example :
    drv_bo_from_format_and_padding nv12_metadata 64 16 drm_format_yvu420_android no_padding ≡ none
drv_bo_from_format_and_padding_aborts_example =
    drv_bo_from_format_and_padding_aborts nv12_metadata 64 16 drm_format_yvu420_android no_padding
      (inr (λ fits. absurd (omega (arith, (fits refl).0))))

layout_from_format-IsValidLayout_example : IsValidLayout biplanar_yuv_420_layout
layout_from_format-IsValidLayout_example =
    layout_from_format-IsValidLayout drm_format_nv12 nv12_known

queries_total_example :
    ((drv_height_from_format drm_format_nv12 64 1 ≢ none)
      ↔ (1 < drv_num_planes_from_format drm_format_nv12))
    × ((drv_vertical_subsampling_from_format drm_format_nv12 1 ≢ none)
        ↔ (1 < drv_num_planes_from_format drm_format_nv12))
    × ((drv_bytes_per_pixel_from_format drm_format_nv12 1 ≢ none)
        ↔ (1 < drv_num_planes_from_format drm_format_nv12))
    × ((drv_stride_from_format drm_format_nv12 64 1 ≢ none)
        ↔ (1 < drv_num_planes_from_format drm_format_nv12))
queries_total_example = queries_total drm_format_nv12 64 1

nv12_stride : drv_stride_from_format drm_format_nv12 64 1 ≡ some 64
unfolding drv_stride_from_format layout_from_format div_round_up
nv12_stride = refl

drv_stride_from_format_lem_example :
    (64 * 2 ≤ 64 * 2)
    × (drm_format_nv12 ≡ drm_format_yvu420_android
        → (64 % 16 ≡ 0) × (◌≡◌ {A = ℕ} 1 0 → 64 % 32 ≡ 0))
drv_stride_from_format_lem_example =
    drv_stride_from_format_lem drm_format_nv12 64 1 nv12_known (omega arith) nv12_stride
