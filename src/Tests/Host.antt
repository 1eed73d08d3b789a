-- ===== src/Tests/Host.antt =====
-- The emulated buffers of virtio_gpu.
use minigbm.Base.{◌+◌, ◌/◌, ◌≤◌, ◌≡◌, ◌↔◌, refl, arith, some, List}
use minigbm.Types.{Rectangle}
use minigbm.Virtio.Emulated.{
  virtio_gpu_get_emulated_metadata, virtio_gpu_get_emulated_transfers_params, biplanar_metadata,
}
use minigbm.Virtio.Emulated.Stacked.{
  IsStacked, start, rows, virtio_gpu_get_emulated_metadata-IsStacked,
}
use minigbm.Virtio.Emulated.Boxes.{InPlanes, virtio_gpu_get_emulated_transfers_params-InPlanes}
use minigbm.Tests.{nv12_bo, nv12_metadata, nv12_IsSized}

virtio_gpu_get_emulated_metadata-IsStacked_example :
    IsStacked 32 (virtio_gpu_get_emulated_metadata nv12_bo nv12_metadata)
unfolding virtio_gpu_get_emulated_metadata biplanar_metadata start rows
virtio_gpu_get_emulated_metadata-IsStacked_example =
    virtio_gpu_get_emulated_metadata-IsStacked nv12_bo nv12_metadata nv12_IsSized (omega arith) refl
      (omega arith)

-- A rectangle in the middle.
abbrev middle : Rectangle
middle = record { x = 16; y = 12; width = 8; height = 8 }

virtio_gpu_get_emulated_transfers_params-InPlanes_example :
    (boxes : List Rectangle) × (virtio_gpu_get_emulated_transfers_params nv12_bo middle
        nv12_metadata
      ≡ some boxes)
    × (InPlanes 32 0 boxes ↔ (12 + (8 + 1) / 2 ≤ (32 + 1) / 2))
virtio_gpu_get_emulated_transfers_params-InPlanes_example =
    virtio_gpu_get_emulated_transfers_params-InPlanes nv12_bo middle (omega arith) (omega arith)
      nv12_metadata refl refl
