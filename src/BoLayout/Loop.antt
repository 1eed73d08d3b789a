-- ===== src/BoLayout/Loop.antt =====
-- What the loop of `drv_bo_from_format_and_padding` writes, plane by plane.
use minigbm.Base.{
  ℕ, zero, suc, ◌+◌, ◌*◌, ◌≤◌, ◌<◌, ◌≡◌, ◌≢◌, some, List, get_or, arith, ap, sym, subst, length-set,
  get_or-set_self, get_or-set_ne, ◌∙◌,
}
use native.Mathlib.Decide.{ℕ_discrete}
use minigbm.Util.{u32}
use minigbm.Types.{Metadata, IsSized}
use minigbm.Format.{
  PlanarLayout, layout_from_format, drv_height_from_format, drv_size_from_format, subsample_stride,
  plane_height,
}
use minigbm.BoLayout.{place_plane, place_planes}

module _ (stride aligned_height format : ℕ) (padding : List ℕ) (l : PlanarLayout) where
  -- The specification: the stride and the size of a plane, and where it starts.
  abbrev pub plane_stride : ℕ → ℕ
  plane_stride p = subsample_stride stride format p

  abbrev pub plane_size : ℕ → ℕ
  plane_size p = u32 (u32 (plane_stride p * plane_height l aligned_height p) + get_or padding p 0)

  -- the sizes of the planes below `p`, added up without wrapping
  unfoldable pub bytes_before : ℕ → ℕ
  bytes_before zero = 0
  bytes_before (suc p) = bytes_before p + plane_size p

  -- The planes of a range are as specified.
  pub record Placed (m : Metadata) (p : ℕ) : Type 0 where
    pub at_offset : get_or m.offsets p 0 ≡ u32 (bytes_before p)
    pub at_size : get_or m.sizes p 0 ≡ plane_size p
    pub at_stride : get_or m.strides p 0 ≡ plane_stride p

  place_plane-IsSized : (m : Metadata) (p o t z : ℕ) → IsSized m → IsSized (place_plane m p o t z)
  place_plane-IsSized m p o t z s = record {
    offsets_full = length-set m.offsets p o ∙ s.offsets_full;
    sizes_full = length-set m.sizes p z ∙ s.sizes_full;
    strides_full = length-set m.strides p t ∙ s.strides_full;
  }

  -- the metadata after the round of plane `p`
  abbrev placed : Metadata → ℕ → Metadata
  placed m p = place_plane m p (u32 (bytes_before p)) (plane_stride p) (plane_size p)

  placed_here : (m : Metadata) (p : ℕ) → IsSized m → p < 4 → Placed (placed m p) p
  placed_here m p s h = record {
    at_offset = get_or-set_self m.offsets p (u32 (bytes_before p)) 0 (omega arith);
    at_size = get_or-set_self m.sizes p (plane_size p) 0 (omega arith);
    at_stride = get_or-set_self m.strides p (plane_stride p) 0 (omega arith);
  }

  placed_elsewhere : (m : Metadata) (p j : ℕ) → p ≢ j → Placed m j → Placed (placed m p) j
  placed_elsewhere m p j ne q = record {
    at_offset = get_or-set_ne m.offsets p j (u32 (bytes_before p)) 0 ne ∙ q.at_offset;
    at_size = get_or-set_ne m.sizes p j (plane_size p) 0 ne ∙ q.at_size;
    at_stride = get_or-set_ne m.strides p j (plane_stride p) 0 ne ∙ q.at_stride;
  }

  module _ (known : layout_from_format format ≡ some l) where
    size_of_plane :
        (p : ℕ)
        → p < l.num_planes
        → drv_size_from_format format (plane_stride p) aligned_height p
          ≡ some (u32 (plane_stride p * plane_height l aligned_height p))
    unfolding drv_size_from_format drv_height_from_format
    size_of_plane p h = ground (arith, known)

    next_offset : (p : ℕ) → u32 (u32 (bytes_before p) + plane_size p) ≡ u32 (bytes_before (suc p))
    unfolding bytes_before
    next_offset p = omega arith

    -- The loop from `p` up to `q` places the planes between, and leaves those below `p`.
    pub loop_lem :
        (rest p q : ℕ) (m : Metadata)
        → IsSized m
        → p + rest ≡ q
        → q ≤ l.num_planes
        → l.num_planes ≤ 3
        → (m' : Metadata) × (place_planes stride aligned_height format padding rest p
              (u32 (bytes_before p))
              m
            ≡ some (m', u32 (bytes_before q)))
          × IsSized m'
          × ((j : ℕ) → p ≤ j → j < q → Placed m' j)
          × ((j : ℕ) → j < p → Placed m j → Placed m' j)
    unfolding place_planes
    loop_lem zero p q m s e h few = (
      m,
      ap (λ t. some (m, u32 (bytes_before t))) {x = p} {y = q} (omega arith),
      s,
      λ j a b. absurd (omega arith),
      λ j a r. r,
    )
    loop_lem (suc rest) p q m s e h few =
        let (m', eq, sized, after, before) =
          loop_lem rest (suc p) q (placed m p)
            (place_plane-IsSized m p (u32 (bytes_before p)) (plane_stride p) (plane_size p) s)
            (omega arith) h few in
        (
          m',
          rw (size_of_plane p (omega arith), next_offset p) eq,
          sized,
          λ j a b. elim (ℕ_discrete j p) [
            | yes here ↦
                subst (Placed m') (sym here)
                  (before p (omega arith) (placed_here m p s (omega arith)))
            | no other ↦ after j (omega arith) b
          ],
          λ j a r. before j (omega arith) (placed_elsewhere m p j (omega arith) r),
        )
