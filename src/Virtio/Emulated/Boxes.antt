-- ===== src/Virtio/Emulated/Boxes.antt =====
-- virtio_gpu.c: where the rectangles of a transfer lie.
use minigbm.Base.{
  ℕ, suc, ◌+◌, ◌/◌, ◌^◌, ◌≤◌, ◌<◌, ◌≡◌, ◌↔◌, true, false, ◌||◌, some, List, [], ◌∷◌, arith,
  Bool-cases, inl, inr,
}
use mathlib.Core.Bool.{false≢true}
use native.Mathlib.Nat.{mod-eq_of_lt}
use minigbm.Types.{Bo, Metadata, Rectangle}
use minigbm.Virtio.Emulated.{
  is_biplanar, is_triplanar, biplanar_boxes, triplanar_boxes, is_whole,
  virtio_gpu_get_emulated_transfers_params,
}
use minigbm.Virtio.Emulated.Stacked.{start, rows, half}

-- The rows of the rectangles are rows of the planes from plane `p` on, one for each.
unfoldable pub InPlanes : ℕ → ℕ → List Rectangle → Type 0
InPlanes height p [] = Unit
InPlanes height p (r ∷ boxes) =
    (start height p ≤ r.y) × (r.y + r.height ≤ start height (suc p)) × InPlanes height (suc p) boxes

module _ (bo : Bo) (box : Rectangle) (low : bo.meta.height < 2 ^ 30)
    (inside : box.y + box.height ≤ bo.meta.height) where
  biplanar_boxes-InPlanes :
      InPlanes bo.meta.height 0 (biplanar_boxes bo box)
      ↔ (box.y + (box.height + 1) / 2 ≤ (bo.meta.height + 1) / 2)
  unfolding InPlanes biplanar_boxes start rows
  biplanar_boxes-InPlanes =
      rw
        (
          half box.height (omega arith),
          mod-eq_of_lt {n = box.y + bo.meta.height} {m = 2 ^ 32} (omega arith),
        )
        (
          λ placed. omega (arith, placed.2.1),
          λ fits. (omega arith, omega arith, (omega arith, omega arith, tt)),
        )

  triplanar_boxes-InPlanes :
      InPlanes bo.meta.height 0 (triplanar_boxes bo box)
      ↔ (box.y + (box.height + 1) / 2 ≤ (bo.meta.height + 1) / 2)
  unfolding InPlanes triplanar_boxes start rows
  triplanar_boxes-InPlanes =
      let h = bo.meta.height in
      rw
        (
          half box.height (omega arith),
          half h (omega arith),
          mod-eq_of_lt {n = box.y + h} {m = 2 ^ 32} (omega arith),
          mod-eq_of_lt {n = box.y + h + (h + 1) / 2} {m = 2 ^ 32} (omega arith),
        )
        (
          λ placed. omega (arith, placed.2.1),
          λ fits. (
            omega arith,
            omega arith,
            (omega arith, omega arith, (omega arith, omega arith, tt)),
          ),
        )

  -- If the format is an emulated one, and the rectangle ends within the rows of the image, whose
  -- height is below 2^30, and is not the whole of it, then the transfer has a list of
  -- rectangles, and these lie in the rows of their planes exactly if the first row of the
  -- rectangle, not halved, and the rounded half of its height make at most the rounded half of
  -- the height of the image.
  pub virtio_gpu_get_emulated_transfers_params-InPlanes :
      (stack : Metadata)
      → is_whole bo box ≡ false
      → is_biplanar bo.meta.format || is_triplanar bo.meta.format ≡ true
      → (boxes : List Rectangle) × (virtio_gpu_get_emulated_transfers_params bo box stack
          ≡ some boxes)
        × (InPlanes bo.meta.height 0 boxes
            ↔ (box.y + (box.height + 1) / 2 ≤ (bo.meta.height + 1) / 2))
  unfolding virtio_gpu_get_emulated_transfers_params
  virtio_gpu_get_emulated_transfers_params-InPlanes stack partial known =
      elim (Bool-cases (is_biplanar bo.meta.format)) [
        | inl holds ↦ (biplanar_boxes bo box, rw (partial, holds), biplanar_boxes-InPlanes)
        | inr fails ↦ elim (Bool-cases (is_triplanar bo.meta.format)) [
          | inl holds ↦
              (triplanar_boxes bo box, rw (partial, fails, holds), triplanar_boxes-InPlanes)
          | inr other ↦ absurd (false≢true (rw (fails, other) at known))
        ]
      ]
