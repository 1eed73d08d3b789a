-- ===== src/Virtio.antt =====
-- virtio_gpu.c, as it is compiled without `USE_GRALLOC1`: what the host supports.
pub mod Emulated
pub mod Buffers
pub mod Transfer
pub mod Init
use minigbm.Base.{
  ℕ, ◌-◌, ◌/◌, ◌%◌, ◌^◌, Bool, true, false, not, ◌&&◌, ◌||◌, List, [], ◌∷◌, get_or, bit_and, bit_or,
  ◌==◌, ◌!=◌, leb, if◌then◌else◌,
}
use minigbm.Util.{u64_mod}
use minigbm.Flags.{bo_use_scanout, bo_use_rendering, bo_use_texture}
use minigbm.Fourcc.{
  drm_format_bgr888, drm_format_rgb888, drm_format_xrgb8888, drm_format_argb8888,
  drm_format_xbgr8888, drm_format_abgr8888, drm_format_abgr16161616f, drm_format_rgb565,
  drm_format_r8, drm_format_rg88, drm_format_nv12, drm_format_nv21, drm_format_yvu420,
  drm_format_yvu420_android,
}
use minigbm.Types.{Combination, FormatMetadata}
use minigbm.Combos.{drv_add_combination}

-- The names of virgl_hw.h and virtgpu_drm.h that the backend uses.
pub record VirtgpuDrm : Type 0 where
  pub r8g8b8_unorm : ℕ
  pub b8g8r8x8_unorm : ℕ
  pub b8g8r8a8_unorm : ℕ
  pub r8g8b8x8_unorm : ℕ
  pub r8g8b8a8_unorm : ℕ
  pub r16g16b16a16_unorm : ℕ
  pub b5g6r5_unorm : ℕ
  pub r8_unorm : ℕ
  pub r8g8_unorm : ℕ
  pub format_nv12 : ℕ
  pub format_nv21 : ℕ
  pub format_yv12 : ℕ
  pub bind_shared : ℕ
  pub bind_sampler_view : ℕ
  pub bind_render_target : ℕ
  pub bind_scanout : ℕ
  pub bind_cursor : ℕ
  pub bind_linear : ℕ
  pub param_3d_features : ℕ
  pub param_capset_query_fix : ℕ
  pub sizeof_caps : ℕ
  pub sizeof_caps_v1 : ℕ
  pub ioctl_getparam : ℕ
  pub ioctl_get_caps : ℕ
  pub ioctl_resource_create : ℕ
  pub ioctl_resource_info : ℕ
  pub ioctl_map : ℕ
  pub ioctl_transfer_from_host : ℕ
  pub ioctl_transfer_to_host : ℕ
  pub ioctl_wait : ℕ

-- The members of `union virgl_caps` that the backend reads; a mask of formats is its words.
pub record VirglCaps : Type 0 where
  pub max_version : ℕ
  pub render : List ℕ
  pub sampler : List ℕ
  pub scanout : List ℕ

-- `struct virtio_gpu_priv`
pub record VirtioGpuPriv : Type 0 where
  pub caps_is_v2 : ℕ
  pub caps : VirglCaps
  pub host_gbm_enabled : Bool

-- The members `enabled` of `features`.
pub record Features : Type 0 where
  pub feat_3d : ℕ
  pub feat_capset_fix : ℕ

module _ (drm : VirtgpuDrm) where
  -- The cases of the switch, in its order.
  unfoldable pub translate_format : ℕ → ℕ
  translate_format f =
      if f == drm_format_bgr888 || f == drm_format_rgb888
      then drm.r8g8b8_unorm
      else (if f == drm_format_xrgb8888
          then drm.b8g8r8x8_unorm
          else (if f == drm_format_argb8888
              then drm.b8g8r8a8_unorm
              else (if f == drm_format_xbgr8888
                  then drm.r8g8b8x8_unorm
                  else (if f == drm_format_abgr8888
                      then drm.r8g8b8a8_unorm
                      else (if f == drm_format_abgr16161616f
                          then drm.r16g16b16a16_unorm
                          else (if f == drm_format_rgb565
                              then drm.b5g6r5_unorm
                              else (if f == drm_format_r8
                                  then drm.r8_unorm
                                  else (if f == drm_format_rg88
                                      then drm.r8g8_unorm
                                      else (if f == drm_format_nv12
                                          then drm.format_nv12
                                          else (if f == drm_format_nv21
                                              then drm.format_nv21
                                              else (if f == drm_format_yvu420
                                                    || f == drm_format_yvu420_android
                                                  then drm.format_yv12
                                                  else 0)))))))))))

  -- A word past the end of the mask, which the formats of virgl_hw.h never ask for, reads as 0.
  unfoldable pub virtio_gpu_bitmask_supports_format : List ℕ → ℕ → Bool
  virtio_gpu_bitmask_supports_format supported drm_format =
      let virgl_format = translate_format drm_format in
      if virgl_format == 0
      then false
      else bit_and (get_or supported (virgl_format / 32) 0) (2 ^ (virgl_format % 32)) != 0

  unfoldable pub virtio_gpu_supports_combination_natively : VirtioGpuPriv → ℕ → ℕ → Bool
  virtio_gpu_supports_combination_natively priv drm_format use_flags =
      if priv.caps.max_version == 0
      then true
      else (if bit_and use_flags bo_use_rendering != 0
            && not (virtio_gpu_bitmask_supports_format priv.caps.render drm_format)
          then false
          else (if bit_and use_flags bo_use_texture != 0
                && not (virtio_gpu_bitmask_supports_format priv.caps.sampler drm_format)
              then false
              else not (
                  bit_and use_flags bo_use_scanout != 0
                  && (priv.caps_is_v2 != 0
                      && not (virtio_gpu_bitmask_supports_format priv.caps.scanout drm_format)))))

  unfoldable pub virtio_gpu_supports_combination_through_emulation : VirtioGpuPriv → ℕ → ℕ → Bool
  virtio_gpu_supports_combination_through_emulation priv drm_format use_flags =
      if priv.host_gbm_enabled
      then false
      else (if bit_and use_flags (bit_or bo_use_rendering bo_use_scanout) != 0
          then false
          else (if not (virtio_gpu_supports_combination_natively priv drm_format_r8 use_flags)
              then false
              else (drm_format == drm_format_nv12
                  || (drm_format == drm_format_nv21
                      || (drm_format == drm_format_yvu420
                          || drm_format == drm_format_yvu420_android)))))

  -- The flags after the test of the scanout.
  unfoldable pub shown_flags : VirtioGpuPriv → ℕ → ℕ → ℕ
  shown_flags priv drm_format use_flags =
      if bit_and use_flags bo_use_scanout != 0
        && (priv.caps_is_v2 != 0
            && not (virtio_gpu_supports_combination_natively priv drm_format use_flags))
      then bit_and use_flags (u64_mod - 1 - bo_use_scanout)
      else use_flags

  unfoldable pub virtio_gpu_add_combination :
      Features → VirtioGpuPriv → List Combination → ℕ → FormatMetadata → ℕ → List Combination
  virtio_gpu_add_combination features priv combos drm_format metadata use_flags =
      let flags = shown_flags priv drm_format use_flags in
      if features.feat_3d != 0 && leb 1 priv.caps.max_version
      then (if virtio_gpu_supports_combination_natively priv drm_format flags
            || virtio_gpu_supports_combination_through_emulation priv drm_format flags
          then drv_add_combination combos drm_format metadata flags
          else combos)
      else drv_add_combination combos drm_format metadata use_flags

  unfoldable pub virtio_gpu_add_combinations :
      Features → VirtioGpuPriv → List Combination → List ℕ → FormatMetadata → ℕ → List Combination
  virtio_gpu_add_combinations features priv combos [] metadata use_flags = combos
  virtio_gpu_add_combinations features priv combos (format ∷ drm_formats) metadata use_flags =
      virtio_gpu_add_combinations features priv
        (virtio_gpu_add_combination features priv combos format metadata use_flags) drm_formats
        metadata use_flags
