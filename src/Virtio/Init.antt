-- ===== src/Virtio/Init.antt =====
-- virtio_gpu.c: what the host supports, and the start of the backend.
use minigbm.Base.{ℕ, false, List, [], ◌∷◌, bit_or, ◌!=◌, if◌then◌else◌}
use minigbm.Flags.{
  bo_use_scanout, bo_use_cursor, bo_use_linear, bo_use_texture, bo_use_camera_write,
  bo_use_camera_read, bo_use_hw_video_decoder, bo_use_hw_video_encoder, bo_use_renderscript,
  bo_use_render_mask, bo_use_texture_mask, bo_use_sw_mask,
}
use minigbm.Fourcc.{
  drm_format_bgr888, drm_format_rgb888, drm_format_xrgb8888, drm_format_argb8888,
  drm_format_xbgr8888, drm_format_abgr8888, drm_format_abgr16161616f, drm_format_rgb565,
  drm_format_r8, drm_format_r16, drm_format_rg88, drm_format_nv12, drm_format_nv21,
  drm_format_yvu420, drm_format_yvu420_android,
}
use minigbm.Types.{Combination}
use minigbm.Combos.{linear_metadata, drv_modify_combination, drv_modify_linear_combinations}
use minigbm.Kernel.{Kernel, Request, Reply, Sys, call}
use minigbm.Virtio.{
  VirtgpuDrm, VirglCaps, VirtioGpuPriv, Features, virtio_gpu_supports_combination_natively,
  virtio_gpu_add_combination, virtio_gpu_add_combinations,
}

abbrev pub render_target_formats : List ℕ
render_target_formats =
    drm_format_abgr8888 ∷ drm_format_argb8888 ∷ drm_format_rgb565 ∷ drm_format_xbgr8888
    ∷ drm_format_xrgb8888 ∷ []

abbrev pub dumb_texture_source_formats : List ℕ
dumb_texture_source_formats =
    drm_format_r8 ∷ drm_format_r16 ∷ drm_format_yvu420 ∷ drm_format_nv12 ∷ drm_format_nv21
    ∷ drm_format_yvu420_android ∷ []

abbrev pub texture_source_formats : List ℕ
texture_source_formats =
    drm_format_nv12 ∷ drm_format_nv21 ∷ drm_format_r8 ∷ drm_format_r16 ∷ drm_format_rg88
    ∷ drm_format_yvu420_android ∷ []

abbrev pub camera_use : ℕ
camera_use = bit_or bo_use_camera_read bo_use_camera_write

abbrev pub decoder_use : ℕ
decoder_use = bit_or camera_use bo_use_hw_video_decoder

abbrev pub video_use : ℕ
video_use = bit_or decoder_use bo_use_hw_video_encoder

-- `read_caps` gives what a successful reply writes at `caps`; a failed call leaves it.
module _ (kernel : Kernel) (drm : VirtgpuDrm) (read_caps : Reply → VirglCaps) where
  unfoldable pub virtio_gpu_get_caps : Features → VirglCaps → Sys → ℕ × VirglCaps × ℕ × Sys
  virtio_gpu_get_caps features caps sys =
      let fixed = features.feat_capset_fix != 0 in
      let set_id = if fixed then 2 else 1 in
      let size = if fixed then drm.sizeof_caps else drm.sizeof_caps_v1 in
      let (reply, sys') =
        call kernel (Request.device drm.ioctl_get_caps (set_id ∷ size ∷ [])) sys in
      let (again, sys'') =
        call kernel (Request.device drm.ioctl_get_caps (1 ∷ drm.sizeof_caps_v1 ∷ [])) sys' in
      let told = if again.ret != 0 then caps else read_caps again in
      if reply.ret != 0
      then (again.ret, told, 0, sys'')
      else (0, read_caps reply, if fixed then 1 else 0, sys')

  -- One of the features: a call that fails leaves it.
  unfoldable pub get_feature : ℕ → ℕ → Sys → ℕ × Sys
  get_feature feature enabled sys =
      let (reply, sys') = call kernel (Request.device drm.ioctl_getparam (feature ∷ [])) sys in
      (if reply.ret != 0 then enabled else reply.value, sys')

  unfoldable pub virtio_gpu_init_features_and_caps :
      Features → VirtioGpuPriv → Sys → Features × VirtioGpuPriv × Sys
  virtio_gpu_init_features_and_caps features priv sys =
      let (feat_3d, sys1) = get_feature drm.param_3d_features features.feat_3d sys in
      let (fix, sys2) = get_feature drm.param_capset_query_fix features.feat_capset_fix sys1 in
      let features' : Features = record { feat_3d = feat_3d; feat_capset_fix = fix } in
      let (ret, caps, is_v2, sys3) = virtio_gpu_get_caps features' priv.caps sys2 in
      let asked : VirtioGpuPriv = record priv { caps = caps; caps_is_v2 = is_v2 } in
      let priv' = if feat_3d != 0 then asked else priv in
      let host_gbm =
        virtio_gpu_supports_combination_natively drm priv' drm_format_nv12 bo_use_texture in
      (features', record priv' { host_gbm_enabled = host_gbm }, if feat_3d != 0 then sys3 else sys2)

module _ (drm : VirtgpuDrm) (features : Features) (priv : VirtioGpuPriv) where
  -- The combinations with 3D.
  unfoldable pub add_3d_combinations : List Combination → List Combination
  add_3d_combinations combos =
      let rendered =
        virtio_gpu_add_combinations drm features priv combos render_target_formats linear_metadata
          (bit_or bo_use_render_mask bo_use_scanout) in
      virtio_gpu_add_combinations drm features priv rendered texture_source_formats linear_metadata
        bo_use_texture_mask

  -- The combinations without it.
  unfoldable pub add_dumb_combinations : List Combination → List Combination
  add_dumb_combinations combos =
      let xrgb =
        virtio_gpu_add_combination drm features priv combos drm_format_xrgb8888 linear_metadata
          (bit_or bo_use_render_mask bo_use_scanout) in
      let argb =
        virtio_gpu_add_combination drm features priv xrgb drm_format_argb8888 linear_metadata
          (bit_or bo_use_render_mask bo_use_cursor) in
      let rendered =
        virtio_gpu_add_combinations drm features priv argb render_target_formats linear_metadata
          bo_use_render_mask in
      let textured =
        virtio_gpu_add_combinations drm features priv rendered dumb_texture_source_formats
          linear_metadata bo_use_texture_mask in
      let nv12 =
        virtio_gpu_add_combination drm features priv textured drm_format_nv12 linear_metadata
          (bit_or bo_use_sw_mask bo_use_linear) in
      virtio_gpu_add_combination drm features priv nv12 drm_format_nv21 linear_metadata
        (bit_or bo_use_sw_mask bo_use_linear)

  -- From the formats of Android's tests on.
  unfoldable pub add_common_combinations : List Combination → List Combination
  add_common_combinations combos =
      let rgb =
        virtio_gpu_add_combination drm features priv combos drm_format_rgb888 linear_metadata
          bo_use_sw_mask in
      let bgr =
        virtio_gpu_add_combination drm features priv rgb drm_format_bgr888 linear_metadata
          bo_use_sw_mask in
      let half =
        virtio_gpu_add_combination drm features priv bgr drm_format_abgr16161616f linear_metadata
          (bit_or bo_use_sw_mask bo_use_texture_mask) in
      let nv12 = drv_modify_combination half drm_format_nv12 linear_metadata video_use in
      let nv21 = drv_modify_combination nv12 drm_format_nv21 linear_metadata video_use in
      let yvu =
        drv_modify_combination nv21 drm_format_yvu420 linear_metadata
          (bit_or video_use bo_use_renderscript) in
      let android =
        drv_modify_combination yvu drm_format_yvu420_android linear_metadata
          (bit_or video_use bo_use_renderscript) in
      let r8 = drv_modify_combination android drm_format_r8 linear_metadata decoder_use in
      drv_modify_linear_combinations
        (drv_modify_combination r8 drm_format_r16 linear_metadata decoder_use)

-- The memory of `calloc`.
abbrev pub cleared : VirtioGpuPriv
cleared = record {
  caps_is_v2 = 0;
  caps = record { max_version = 0; render = []; sampler = []; scanout = [] };
  host_gbm_enabled = false;
}

-- The code that is returned is 0, that of `drv_modify_linear_combinations`.
unfoldable pub virtio_gpu_init :
    Kernel
    → VirtgpuDrm
    → (Reply → VirglCaps)
    → Features
    → List Combination
    → Sys
    → Features × VirtioGpuPriv × List Combination × Sys
virtio_gpu_init kernel drm read_caps features combos sys =
    let (features', priv, sys') =
      virtio_gpu_init_features_and_caps kernel drm read_caps features cleared sys in
    let with_3d = add_3d_combinations drm features' priv combos in
    let dumb = add_dumb_combinations drm features' priv combos in
    let added = if features'.feat_3d != 0 then with_3d else dumb in
    (features', priv, add_common_combinations drm features' priv added, sys')
