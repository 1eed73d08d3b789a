-- ===== src/Virtio/Emulated/Stacked.antt =====
-- virtio_gpu.c: the planes of an emulated buffer.
use minigbm.Base.{
  ℕ, zero, suc, ◌+◌, ◌*◌, ◌/◌, ◌^◌, ◌<◌, ◌≡◌, refl, true, ◌||◌, get_or, set, length, arith, List,
  Bool-cases, inl, inr, [], ◌∷◌,
}
use mathlib.Core.Bool.{false≢true}
use minigbm.Util.{u32, align, div_round_up}
use native.Mathlib.Nat.{mod-eq_of_lt}
use minigbm.Types.{Bo, Metadata, IsSized}
use minigbm.Virtio.Emulated.{
  is_biplanar, is_triplanar, biplanar_metadata, triplanar_metadata,
  virtio_gpu_get_emulated_metadata,
}

-- The rows of a plane, and those above it.
unfoldable pub rows : ℕ → ℕ → ℕ
rows height zero = height
rows height (suc p) = (height + 1) / 2

unfoldable pub start : ℕ → ℕ → ℕ
unfolding rows
start height zero = 0
start height (suc p) = start height p + rows height p

-- The planes stand one below the other in an image of their common stride, of one byte a pixel.
pub record IsStacked (height : ℕ) (m : Metadata) : Type 0 where
  pub strides : (p : ℕ) → p < m.num_planes → get_or m.strides p 0 ≡ m.width
  pub offsets : (p : ℕ) → p < m.num_planes → get_or m.offsets p 0 ≡ m.width * start height p
  pub sizes : (p : ℕ) → p < m.num_planes → get_or m.sizes p 0 ≡ m.width * rows height p
  pub height_eq : m.height ≡ start height m.num_planes
  pub total : m.total_size ≡ m.width * start height m.num_planes

pub half : (h : ℕ) → h < 2 ^ 31 → div_round_up h 2 ≡ (h + 1) / 2
unfolding div_round_up
half h small = omega arith

-- Reads of an array after its first items are written.
read_two :
    (xs : List ℕ) (a b : ℕ)
    → length xs ≡ 4
    → (get_or (set (set xs 0 a) 1 b) 0 0 ≡ a) × (get_or (set (set xs 0 a) 1 b) 1 0 ≡ b)
read_two [] a b full = absurd (omega (arith, full))
read_two (x ∷ []) a b full = absurd (omega (arith, full))
read_two (x ∷ y ∷ xs) a b full = (refl, refl)

read_three :
    (xs : List ℕ) (a b c : ℕ)
    → length xs ≡ 4
    → (get_or (set (set (set xs 0 a) 1 b) 2 c) 0 0 ≡ a)
      × (get_or (set (set (set xs 0 a) 1 b) 2 c) 1 0 ≡ b)
      × (get_or (set (set (set xs 0 a) 1 b) 2 c) 2 0 ≡ c)
read_three [] a b c full = absurd (omega (arith, full))
read_three (x ∷ []) a b c full = absurd (omega (arith, full))
read_three (x ∷ y ∷ []) a b c full = absurd (omega (arith, full))
read_three (x ∷ y ∷ z ∷ xs) a b c full = (refl, refl, refl)

-- A claim on each of the planes.
below_two {ℓ} : (P : ℕ → Type ℓ) → P 0 → P 1 → (p : ℕ) → p < 2 → P p
below_two P p0 p1 zero small = p0
below_two P p0 p1 (suc zero) small = p1
below_two P p0 p1 (suc (suc p)) small = absurd (omega (arith, small))

below_three {ℓ} : (P : ℕ → Type ℓ) → P 0 → P 1 → P 2 → (p : ℕ) → p < 3 → P p
below_three P p0 p1 p2 zero small = p0
below_three P p0 p1 p2 (suc zero) small = p1
below_three P p0 p1 p2 (suc (suc zero)) small = p2
below_three P p0 p1 p2 (suc (suc (suc p))) small = absurd (omega (arith, small))

module _ (bo : Bo) (stack : Metadata) (sized : IsSized stack) (low : bo.meta.height < 2 ^ 31) where
  biplanar-IsStacked :
      bo.meta.width * start bo.meta.height 2 < 2 ^ 32
      → IsStacked bo.meta.height (biplanar_metadata bo stack)
  unfolding biplanar_metadata start rows
  biplanar-IsStacked small =
      let w = bo.meta.width in
      let h = bo.meta.height in
      let c = (bo.meta.height + 1) / 2 in
      let eq = half h low in
      let strides = read_two stack.strides w w sized.strides_full in
      let offsets = read_two stack.offsets 0 (u32 (w * h)) sized.offsets_full in
      let sizes =
        read_two stack.sizes (u32 (w * h)) (u32 (w * div_round_up h 2)) sized.sizes_full in
      record {
        strides = below_two _ (strides.0) (strides.1);
        offsets =
            below_two _ (rw (offsets.0) (omega arith)) (rw (offsets.1) (omega (arith, small)));
        sizes =
            below_two _ (rw (sizes.0) (omega (arith, small)))
              (rw (sizes.1, eq) (omega (arith, small)));
        height_eq = rw eq (omega (arith, low));
        total = rw (eq, mod-eq_of_lt {n = h + c} {m = 2 ^ 32} (omega arith)) (omega (arith, small));
      }

  triplanar-IsStacked :
      align bo.meta.width 32 * start bo.meta.height 3 < 2 ^ 32
      → IsStacked bo.meta.height (triplanar_metadata bo stack)
  unfolding triplanar_metadata start rows
  triplanar-IsStacked small =
      let w = align bo.meta.width 32 in
      let h = bo.meta.height in
      let c = (bo.meta.height + 1) / 2 in
      let eq = half h low in
      let y_size = u32 (w * h) in
      let c_size = u32 (w * div_round_up h 2) in
      let strides = read_three stack.strides w w w sized.strides_full in
      let offsets = read_three stack.offsets 0 y_size (u32 (y_size + c_size)) sized.offsets_full in
      let sizes = read_three stack.sizes y_size c_size c_size sized.sizes_full in
      record {
        strides = below_three _ (strides.0) (strides.1) (strides.2);
        offsets =
            below_three _ (rw (offsets.0) (omega arith)) (rw (offsets.1) (omega (arith, small)))
              (rw (offsets.2, eq) (omega (arith, small)));
        sizes =
            below_three _ (rw (sizes.0) (omega (arith, small)))
              (rw (sizes.1, eq) (omega (arith, small))) (rw (sizes.2, eq) (omega (arith, small)));
        height_eq = rw eq (omega (arith, low));
        total =
            rw (eq, mod-eq_of_lt {n = h + 2 * c} {m = 2 ^ 32} (omega arith)) (omega (arith, small));
      }

  -- If the arrays of the metadata are full, the format is an emulated one, the height is below
  -- 2^31 and the image has below 2^32 bytes, the metadata of an emulated buffer puts its planes
  -- one below the other, the first at its full height and the others at half of it, rounded up,
  -- in an image of one byte a pixel whose width is the stride of each, and the total size is
  -- that of the image.
  pub virtio_gpu_get_emulated_metadata-IsStacked :
      is_biplanar bo.meta.format || is_triplanar bo.meta.format ≡ true
      → (virtio_gpu_get_emulated_metadata bo stack).width
          * start bo.meta.height (virtio_gpu_get_emulated_metadata bo stack).num_planes
        < 2 ^ 32
      → IsStacked bo.meta.height (virtio_gpu_get_emulated_metadata bo stack)
  unfolding virtio_gpu_get_emulated_metadata biplanar_metadata triplanar_metadata
  virtio_gpu_get_emulated_metadata-IsStacked known small =
      elim (Bool-cases (is_biplanar bo.meta.format)) [
        | inl holds ↦ rw holds (biplanar-IsStacked (rw holds at small))
        | inr fails ↦ elim (Bool-cases (is_triplanar bo.meta.format)) [
          | inl holds ↦ rw (fails, holds) (triplanar-IsStacked (rw (fails, holds) at small))
          | inr other ↦ absurd (false≢true (rw (fails, other) at known))
        ]
      ]
