-- ===== src/Virtio/Transfer.antt =====
-- virtio_gpu.c: sending the contents of a mapping to the host and back.
use minigbm.Base.{
  ℕ, zero, suc, Bool, true, false, Option, some, List, [], ◌∷◌, get_or, set, bit_and, bit_or, ◌==◌,
  ◌!=◌, if◌then◌else◌, ◌>>=◌, ◌>>◌, assert,
}
use minigbm.Flags.{
  bo_use_scanout, bo_use_rendering, bo_use_camera_write, bo_use_camera_read,
  bo_use_hw_video_decoder, bo_use_hw_video_encoder, bo_map_write,
}
use minigbm.Types.{Bo, Metadata, Rectangle, Vma}
use minigbm.Kernel.{Kernel, Request, Reply, Sys, call}
use minigbm.Virtio.{
  VirtgpuDrm, VirtioGpuPriv, Features, virtio_gpu_supports_combination_natively,
  virtio_gpu_supports_combination_through_emulation,
}
use minigbm.Virtio.Emulated.{virtio_gpu_get_emulated_transfers_params}

abbrev pub bo_use_non_gpu_hw : ℕ
bo_use_non_gpu_hw = bit_or bo_use_scanout (
    bit_or bo_use_camera_write
      (bit_or bo_use_camera_read (bit_or bo_use_hw_video_encoder bo_use_hw_video_decoder)))

-- The loop that copies the layout of the planes from plane `p` on, `rest` of them: `told_strides` and
-- `told_offsets` are what the kernel reports.
unfoldable pub copy_info : List ℕ → List ℕ → ℕ → ℕ → List ℕ × List ℕ → List ℕ × List ℕ
copy_info told_strides told_offsets zero p out = out
copy_info told_strides told_offsets (suc rest) p out =
    copy_info told_strides told_offsets rest (suc p) (
      if get_or told_strides p 0 != 0
      then (set out.0 p (get_or told_strides p 0), set out.1 p (get_or told_offsets p 0))
      else out)

module _ (kernel : Kernel) (drm : VirtgpuDrm) where
  -- The rectangles to transfer.
  unfoldable pub transfer_boxes :
      VirtioGpuPriv → Metadata → Bo → Rectangle → Option (List Rectangle)
  transfer_boxes priv stack bo rect =
      let emulated =
        assert (
          virtio_gpu_supports_combination_through_emulation drm priv bo.meta.format
            bo.meta.use_flags)
        >> virtio_gpu_get_emulated_transfers_params bo rect stack in
      if virtio_gpu_supports_combination_natively drm priv bo.meta.format bo.meta.use_flags
      then some (rect ∷ [])
      else emulated

  -- The loop over the rectangles, which ends at the first failure: did it reach its end?
  unfoldable pub transfer : ℕ → ℕ → ℕ → List Rectangle → Sys → Bool × Sys
  transfer ioctl handle level [] sys = (true, sys)
  transfer ioctl handle level (box ∷ boxes) sys =
      let (reply, sys') =
        call kernel
          (Request.device ioctl (handle ∷ level ∷ box.x ∷ box.y ∷ box.width ∷ box.height ∷ 1 ∷ []))
          sys in
      let rest = transfer ioctl handle level boxes sys' in
      if reply.ret != 0 then (false, sys') else rest

  -- `DRM_IOCTL_VIRTGPU_WAIT`
  unfoldable pub wait : ℕ → Sys → ℕ × Sys
  wait handle sys =
      let (reply, sys') = call kernel (Request.device drm.ioctl_wait (handle ∷ [])) sys in
      if reply.ret != 0 then (sys'.errno, sys') else (0, sys')

  -- The stride of the first plane where the host allocates, and else 0.
  abbrev pub gbm_level : VirtioGpuPriv → Bo → ℕ
  gbm_level priv bo = if priv.host_gbm_enabled then get_or bo.meta.strides 0 0 else 0

  -- `rect` is that of the mapping, and `vma` its area.
  unfoldable pub virtio_gpu_bo_invalidate :
      Features → VirtioGpuPriv → Metadata → Bo → Rectangle → Vma → Sys → Option (ℕ × Sys)
  virtio_gpu_bo_invalidate features priv stack bo rect vma sys =
      let level =
        if bit_and bo.meta.use_flags bo_use_rendering == 0 then gbm_level priv bo else 0 in
      let transferred = transfer_boxes priv stack bo rect >>= λ boxes.
      let sent = transfer drm.ioctl_transfer_from_host vma.handle level boxes sys in
      let waited = wait vma.handle (sent.1) in
      some (if sent.0 then waited else (sent.1.errno, sent.1)) in
      if features.feat_3d == 0
      then some (0, sys)
      else (if bit_and bo.meta.use_flags (
              bit_or bo_use_rendering (
                bit_or bo_use_camera_write
                  (bit_or bo_use_hw_video_encoder bo_use_hw_video_decoder)))
            == 0
          then some (0, sys)
          else transferred)

  unfoldable pub virtio_gpu_bo_flush :
      Features → VirtioGpuPriv → Metadata → Bo → Rectangle → Vma → Sys → Option (ℕ × Sys)
  virtio_gpu_bo_flush features priv stack bo rect vma sys =
      let transferred = transfer_boxes priv stack bo rect >>= λ boxes.
      let sent = transfer drm.ioctl_transfer_to_host vma.handle (gbm_level priv bo) boxes sys in
      let waited = wait vma.handle (sent.1) in
      some (
        if sent.0
        then (if bit_and bo.meta.use_flags bo_use_non_gpu_hw != 0 then waited else (0, sent.1))
        else (sent.1.errno, sent.1)) in
      if features.feat_3d == 0
      then some (0, sys)
      else (if bit_and vma.map_flags bo_map_write == 0 then some (0, sys) else transferred)

  -- `told` gives the arrays of the reply of the kernel, the strides and the offsets.
  unfoldable pub virtio_gpu_resource_info :
      (Reply → List ℕ × List ℕ)
      → Features
      → Bo
      → List ℕ × List ℕ
      → Sys
      → ℕ × (List ℕ × List ℕ) × Sys
  virtio_gpu_resource_info told features bo out sys =
      let (reply, sys') =
        call kernel (Request.device drm.ioctl_resource_info (get_or bo.handles 0 0 ∷ [])) sys in
      let info = told reply in
      let copied = copy_info info.0 info.1 bo.meta.num_planes 0 out in
      if features.feat_3d == 0
      then (0, out, sys)
      else (if reply.ret != 0 then (reply.ret, out, sys') else (0, copied, sys'))
