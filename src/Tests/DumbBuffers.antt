-- ===== src/Tests/DumbBuffers.antt =====
-- Creating an NV12 buffer that the kernel lays out.
use minigbm.Base.{ℕ, ◌≡◌, refl, arith, some}
use minigbm.Types.{Bo}
use minigbm.Fourcc.{drm_format_nv12}
use minigbm.Format.{layout_from_format, biplanar_yuv_420_layout}
use minigbm.Kernel.{Request, Sys}
use minigbm.Dumb.{drv_dumb_bo_create_ex}
use minigbm.Dumb.Room.{IsSize, IsRow}
use minigbm.Dumb.Create.{DumbCreated, drv_dumb_bo_create_ex_lem}
use minigbm.Tests.{nv12_bo, nv12_IsSized, willing_kernel, no_calls}

known : layout_from_format drm_format_nv12 ≡ some biplanar_yuv_420_layout
unfolding layout_from_format
known = refl

drv_dumb_bo_create_ex_lem_example :
    (w asked laid pixels bits : ℕ) × (r : ℕ × Bo × Sys) × (drv_dumb_bo_create_ex willing_kernel
        nv12_bo 64 32 drm_format_nv12 0 no_calls
      ≡ some r)
    × IsSize 64 32 32 drm_format_nv12 w asked laid
    × IsRow w 1 0 pixels bits
    × DumbCreated willing_kernel nv12_bo 64 32 drm_format_nv12 0 no_calls biplanar_yuv_420_layout
        (Request.mode_create_dumb pixels asked bits)
        laid
        r
drv_dumb_bo_create_ex_lem_example =
    drv_dumb_bo_create_ex_lem willing_kernel nv12_bo 64 32 drm_format_nv12 0 no_calls
      biplanar_yuv_420_layout nv12_IsSized refl known refl (omega arith) (omega arith) (omega arith)
      (omega arith) (λ r android. absurd (omega (arith, android)))
