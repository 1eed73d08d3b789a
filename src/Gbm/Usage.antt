-- ===== src/Gbm/Usage.antt =====
-- gbm_helpers.c: the flags of a GBM buffer as flags of a driver.
pub mod Mask
use minigbm.Base.{ℕ, ◌^◌, Bool, List, [], ◌∷◌, bit_and, bit_or, ◌!=◌, if◌then◌else◌}
use minigbm.Flags.{
  bo_use_none, bo_use_scanout, bo_use_cursor, bo_use_cursor_64x64, bo_use_rendering, bo_use_texture,
  bo_use_linear, bo_use_camera_write, bo_use_camera_read, bo_use_protected, bo_use_sw_read_often,
  bo_use_sw_read_rarely, bo_use_sw_write_often, bo_use_sw_write_rarely, bo_use_hw_video_decoder,
  bo_use_hw_video_encoder,
}

-- `enum gbm_bo_flags` of gbm.h
abbrev pub gbm_bo_use_scanout : ℕ
gbm_bo_use_scanout = 2 ^ 0

abbrev pub gbm_bo_use_cursor : ℕ
gbm_bo_use_cursor = 2 ^ 1

abbrev pub gbm_bo_use_cursor_64x64 : ℕ
gbm_bo_use_cursor_64x64 = gbm_bo_use_cursor

abbrev pub gbm_bo_use_rendering : ℕ
gbm_bo_use_rendering = 2 ^ 2

abbrev pub gbm_bo_use_linear : ℕ
gbm_bo_use_linear = 2 ^ 4

abbrev pub gbm_bo_use_texturing : ℕ
gbm_bo_use_texturing = 2 ^ 5

abbrev pub gbm_bo_use_camera_write : ℕ
gbm_bo_use_camera_write = 2 ^ 6

abbrev pub gbm_bo_use_camera_read : ℕ
gbm_bo_use_camera_read = 2 ^ 7

abbrev pub gbm_bo_use_protected : ℕ
gbm_bo_use_protected = 2 ^ 8

abbrev pub gbm_bo_use_sw_read_often : ℕ
gbm_bo_use_sw_read_often = 2 ^ 9

abbrev pub gbm_bo_use_sw_read_rarely : ℕ
gbm_bo_use_sw_read_rarely = 2 ^ 10

abbrev pub gbm_bo_use_sw_write_often : ℕ
gbm_bo_use_sw_write_often = 2 ^ 11

abbrev pub gbm_bo_use_sw_write_rarely : ℕ
gbm_bo_use_sw_write_rarely = 2 ^ 12

abbrev pub gbm_bo_use_hw_video_decoder : ℕ
gbm_bo_use_hw_video_decoder = 2 ^ 13

abbrev pub gbm_bo_use_hw_video_encoder : ℕ
gbm_bo_use_hw_video_encoder = 2 ^ 14

-- One `if` of `gbm_convert_usage`.
abbrev pub add_use : ℕ → ℕ → ℕ → ℕ → ℕ
add_use usage flag use_flag use_flags =
    if bit_and usage flag != 0 then bit_or use_flags use_flag else use_flags

-- The `if`s of `gbm_convert_usage`, in their order.
pub add_uses : ℕ → List (ℕ × ℕ) → ℕ → ℕ
add_uses usage [] use_flags = use_flags
add_uses usage ((flag, use_flag) ∷ rest) use_flags =
    add_uses usage rest (add_use usage flag use_flag use_flags)

abbrev pub usage_cases : List (ℕ × ℕ)
usage_cases =
    (gbm_bo_use_scanout, bo_use_scanout)
    ∷ (gbm_bo_use_cursor, bo_use_cursor)
    ∷ (gbm_bo_use_cursor_64x64, bo_use_cursor_64x64)
    ∷ (gbm_bo_use_rendering, bo_use_rendering)
    ∷ (gbm_bo_use_texturing, bo_use_texture)
    ∷ (gbm_bo_use_linear, bo_use_linear)
    ∷ (gbm_bo_use_camera_write, bo_use_camera_write)
    ∷ (gbm_bo_use_camera_read, bo_use_camera_read)
    ∷ (gbm_bo_use_protected, bo_use_protected)
    ∷ (gbm_bo_use_sw_read_often, bo_use_sw_read_often)
    ∷ (gbm_bo_use_sw_read_rarely, bo_use_sw_read_rarely)
    ∷ (gbm_bo_use_sw_write_often, bo_use_sw_write_often)
    ∷ (gbm_bo_use_sw_write_rarely, bo_use_sw_write_rarely)
    ∷ (gbm_bo_use_hw_video_decoder, bo_use_hw_video_decoder)
    ∷ (gbm_bo_use_hw_video_encoder, bo_use_hw_video_encoder)
    ∷ []

unfoldable pub gbm_convert_usage : ℕ → ℕ
unfolding add_uses
gbm_convert_usage usage = add_uses usage usage_cases bo_use_none
