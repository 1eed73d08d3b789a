-- ===== src/Flags.antt =====
-- The flags of drv.h and drv_priv.h, the modifiers and the map flags.
use minigbm.Base.{ℕ, ◌-◌, ◌^◌, bit_or}

abbrev pub bo_use_none : ℕ
bo_use_none = 0

abbrev pub bo_use_scanout : ℕ
bo_use_scanout = 2 ^ 0

abbrev pub bo_use_cursor : ℕ
bo_use_cursor = 2 ^ 1

abbrev pub bo_use_cursor_64x64 : ℕ
bo_use_cursor_64x64 = bo_use_cursor

abbrev pub bo_use_rendering : ℕ
bo_use_rendering = 2 ^ 2

abbrev pub bo_use_linear : ℕ
bo_use_linear = 2 ^ 4

abbrev pub bo_use_texture : ℕ
bo_use_texture = 2 ^ 5

abbrev pub bo_use_camera_write : ℕ
bo_use_camera_write = 2 ^ 6

abbrev pub bo_use_camera_read : ℕ
bo_use_camera_read = 2 ^ 7

abbrev pub bo_use_protected : ℕ
bo_use_protected = 2 ^ 8

abbrev pub bo_use_sw_read_often : ℕ
bo_use_sw_read_often = 2 ^ 9

abbrev pub bo_use_sw_read_rarely : ℕ
bo_use_sw_read_rarely = 2 ^ 10

abbrev pub bo_use_sw_write_often : ℕ
bo_use_sw_write_often = 2 ^ 11

abbrev pub bo_use_sw_write_rarely : ℕ
bo_use_sw_write_rarely = 2 ^ 12

abbrev pub bo_use_hw_video_decoder : ℕ
bo_use_hw_video_decoder = 2 ^ 13

abbrev pub bo_use_hw_video_encoder : ℕ
bo_use_hw_video_encoder = 2 ^ 14

abbrev pub bo_use_test_alloc : ℕ
bo_use_test_alloc = 2 ^ 15

abbrev pub bo_use_renderscript : ℕ
bo_use_renderscript = 2 ^ 16

abbrev pub bo_use_render_mask : ℕ
bo_use_render_mask = bit_or bo_use_linear (
    bit_or bo_use_protected (
      bit_or bo_use_rendering (
        bit_or bo_use_renderscript (
          bit_or bo_use_sw_read_often (
            bit_or bo_use_sw_write_often
              (bit_or bo_use_sw_read_rarely (bit_or bo_use_sw_write_rarely bo_use_texture)))))))

abbrev pub bo_use_texture_mask : ℕ
bo_use_texture_mask = bit_or bo_use_linear (
    bit_or bo_use_protected (
      bit_or bo_use_renderscript (
        bit_or bo_use_sw_read_often (
          bit_or bo_use_sw_write_often
            (bit_or bo_use_sw_read_rarely (bit_or bo_use_sw_write_rarely bo_use_texture))))))

abbrev pub bo_use_sw_mask : ℕ
bo_use_sw_mask =
    bit_or bo_use_sw_read_often
      (bit_or bo_use_sw_write_often (bit_or bo_use_sw_read_rarely bo_use_sw_write_rarely))

abbrev pub bo_map_none : ℕ
bo_map_none = 0

abbrev pub bo_map_read : ℕ
bo_map_read = 1

abbrev pub bo_map_write : ℕ
bo_map_write = 2

abbrev pub bo_map_read_write : ℕ
bo_map_read_write = bit_or bo_map_read bo_map_write

abbrev pub bo_quirk_none : ℕ
bo_quirk_none = 0

abbrev pub bo_quirk_dumb32bpp : ℕ
bo_quirk_dumb32bpp = 1

abbrev pub drm_format_mod_linear : ℕ
drm_format_mod_linear = 0

abbrev pub drm_format_mod_invalid : ℕ
drm_format_mod_invalid = 2 ^ 56 - 1
