-- ===== src/Fourcc.antt =====
-- The codes of pixel formats, `uint32_t` values of four characters: drv.h, and gbm.h for those that
-- the kernel's drm_fourcc.h shares with it. `DRM_FORMAT_R16` and `DRM_FORMAT_RG88` have the values
-- of drm_fourcc.h.
use minigbm.Base.{ℕ, ◌+◌, ◌*◌, ◌^◌}

-- `__gbm_fourcc_code`; the characters fill disjoint bytes, so that `|` is a sum.
abbrev pub fourcc_code : ℕ → ℕ → ℕ → ℕ → ℕ
fourcc_code a b c d = a + b * 2 ^ 8 + c * 2 ^ 16 + d * 2 ^ 24

abbrev pub drm_format_abgr1555 : ℕ
drm_format_abgr1555 = fourcc_code b'A' b'B' b'1' b'5'

abbrev pub drm_format_abgr16161616f : ℕ
drm_format_abgr16161616f = fourcc_code b'A' b'B' b'4' b'H'

abbrev pub drm_format_abgr2101010 : ℕ
drm_format_abgr2101010 = fourcc_code b'A' b'B' b'3' b'0'

abbrev pub drm_format_abgr4444 : ℕ
drm_format_abgr4444 = fourcc_code b'A' b'B' b'1' b'2'

abbrev pub drm_format_abgr8888 : ℕ
drm_format_abgr8888 = fourcc_code b'A' b'B' b'2' b'4'

abbrev pub drm_format_argb1555 : ℕ
drm_format_argb1555 = fourcc_code b'A' b'R' b'1' b'5'

abbrev pub drm_format_argb2101010 : ℕ
drm_format_argb2101010 = fourcc_code b'A' b'R' b'3' b'0'

abbrev pub drm_format_argb4444 : ℕ
drm_format_argb4444 = fourcc_code b'A' b'R' b'1' b'2'

abbrev pub drm_format_argb8888 : ℕ
drm_format_argb8888 = fourcc_code b'A' b'R' b'2' b'4'

abbrev pub drm_format_ayuv : ℕ
drm_format_ayuv = fourcc_code b'A' b'Y' b'U' b'V'

abbrev pub drm_format_bgr233 : ℕ
drm_format_bgr233 = fourcc_code b'B' b'G' b'R' b'8'

abbrev pub drm_format_bgr565 : ℕ
drm_format_bgr565 = fourcc_code b'B' b'G' b'1' b'6'

abbrev pub drm_format_bgr888 : ℕ
drm_format_bgr888 = fourcc_code b'B' b'G' b'2' b'4'

abbrev pub drm_format_bgra1010102 : ℕ
drm_format_bgra1010102 = fourcc_code b'B' b'A' b'3' b'0'

abbrev pub drm_format_bgra4444 : ℕ
drm_format_bgra4444 = fourcc_code b'B' b'A' b'1' b'2'

abbrev pub drm_format_bgra5551 : ℕ
drm_format_bgra5551 = fourcc_code b'B' b'A' b'1' b'5'

abbrev pub drm_format_bgra8888 : ℕ
drm_format_bgra8888 = fourcc_code b'B' b'A' b'2' b'4'

abbrev pub drm_format_bgrx1010102 : ℕ
drm_format_bgrx1010102 = fourcc_code b'B' b'X' b'3' b'0'

abbrev pub drm_format_bgrx4444 : ℕ
drm_format_bgrx4444 = fourcc_code b'B' b'X' b'1' b'2'

abbrev pub drm_format_bgrx5551 : ℕ
drm_format_bgrx5551 = fourcc_code b'B' b'X' b'1' b'5'

abbrev pub drm_format_bgrx8888 : ℕ
drm_format_bgrx8888 = fourcc_code b'B' b'X' b'2' b'4'

abbrev pub drm_format_c8 : ℕ
drm_format_c8 = fourcc_code b'C' b'8' 32 32

abbrev pub drm_format_gr88 : ℕ
drm_format_gr88 = fourcc_code b'G' b'R' b'8' b'8'

abbrev pub drm_format_mtisp_sxyzw10 : ℕ
drm_format_mtisp_sxyzw10 = fourcc_code b'M' b'B' b'1' b'0'

abbrev pub drm_format_nv12 : ℕ
drm_format_nv12 = fourcc_code b'N' b'V' b'1' b'2'

abbrev pub drm_format_nv21 : ℕ
drm_format_nv21 = fourcc_code b'N' b'V' b'2' b'1'

abbrev pub drm_format_p010 : ℕ
drm_format_p010 = fourcc_code b'P' b'0' b'1' b'0'

abbrev pub drm_format_r16 : ℕ
drm_format_r16 = fourcc_code b'R' b'1' b'6' 32

abbrev pub drm_format_r8 : ℕ
drm_format_r8 = fourcc_code b'R' b'8' 32 32

abbrev pub drm_format_rg88 : ℕ
drm_format_rg88 = fourcc_code b'R' b'G' b'8' b'8'

abbrev pub drm_format_rgb332 : ℕ
drm_format_rgb332 = fourcc_code b'R' b'G' b'B' b'8'

abbrev pub drm_format_rgb565 : ℕ
drm_format_rgb565 = fourcc_code b'R' b'G' b'1' b'6'

abbrev pub drm_format_rgb888 : ℕ
drm_format_rgb888 = fourcc_code b'R' b'G' b'2' b'4'

abbrev pub drm_format_rgba1010102 : ℕ
drm_format_rgba1010102 = fourcc_code b'R' b'A' b'3' b'0'

abbrev pub drm_format_rgba4444 : ℕ
drm_format_rgba4444 = fourcc_code b'R' b'A' b'1' b'2'

abbrev pub drm_format_rgba5551 : ℕ
drm_format_rgba5551 = fourcc_code b'R' b'A' b'1' b'5'

abbrev pub drm_format_rgba8888 : ℕ
drm_format_rgba8888 = fourcc_code b'R' b'A' b'2' b'4'

abbrev pub drm_format_rgbx1010102 : ℕ
drm_format_rgbx1010102 = fourcc_code b'R' b'X' b'3' b'0'

abbrev pub drm_format_rgbx4444 : ℕ
drm_format_rgbx4444 = fourcc_code b'R' b'X' b'1' b'2'

abbrev pub drm_format_rgbx5551 : ℕ
drm_format_rgbx5551 = fourcc_code b'R' b'X' b'1' b'5'

abbrev pub drm_format_rgbx8888 : ℕ
drm_format_rgbx8888 = fourcc_code b'R' b'X' b'2' b'4'

abbrev pub drm_format_uyvy : ℕ
drm_format_uyvy = fourcc_code b'U' b'Y' b'V' b'Y'

abbrev pub drm_format_vyuy : ℕ
drm_format_vyuy = fourcc_code b'V' b'Y' b'U' b'Y'

abbrev pub drm_format_xbgr1555 : ℕ
drm_format_xbgr1555 = fourcc_code b'X' b'B' b'1' b'5'

abbrev pub drm_format_xbgr2101010 : ℕ
drm_format_xbgr2101010 = fourcc_code b'X' b'B' b'3' b'0'

abbrev pub drm_format_xbgr4444 : ℕ
drm_format_xbgr4444 = fourcc_code b'X' b'B' b'1' b'2'

abbrev pub drm_format_xbgr8888 : ℕ
drm_format_xbgr8888 = fourcc_code b'X' b'B' b'2' b'4'

abbrev pub drm_format_xrgb1555 : ℕ
drm_format_xrgb1555 = fourcc_code b'X' b'R' b'1' b'5'

abbrev pub drm_format_xrgb2101010 : ℕ
drm_format_xrgb2101010 = fourcc_code b'X' b'R' b'3' b'0'

abbrev pub drm_format_xrgb4444 : ℕ
drm_format_xrgb4444 = fourcc_code b'X' b'R' b'1' b'2'

abbrev pub drm_format_xrgb8888 : ℕ
drm_format_xrgb8888 = fourcc_code b'X' b'R' b'2' b'4'

abbrev pub drm_format_yuyv : ℕ
drm_format_yuyv = fourcc_code b'Y' b'U' b'Y' b'V'

abbrev pub drm_format_yvu420 : ℕ
drm_format_yvu420 = fourcc_code b'Y' b'V' b'1' b'2'

abbrev pub drm_format_yvu420_android : ℕ
drm_format_yvu420_android = fourcc_code b'9' b'9' b'9' b'7'

abbrev pub drm_format_yvyu : ℕ
drm_format_yvyu = fourcc_code b'Y' b'V' b'Y' b'U'

abbrev pub drm_format_none : ℕ
drm_format_none = fourcc_code b'0' b'0' b'0' b'0'

abbrev pub drm_format_flex_implementation_defined : ℕ
drm_format_flex_implementation_defined = fourcc_code b'9' b'9' b'9' b'8'

abbrev pub drm_format_flex_ycbcr_420_888 : ℕ
drm_format_flex_ycbcr_420_888 = fourcc_code b'9' b'9' b'9' b'9'
