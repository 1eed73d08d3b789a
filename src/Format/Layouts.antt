-- ===== src/Format/Layouts.antt =====
-- Every layout that helpers.c knows is well formed, and its queries abort on no plane of it.
use minigbm.Base.{
  ℕ, zero, suc, ◌≤◌, ◌<◌, ◌≡◌, ◌≢◌, ◌↔◌, inl, inr, none, some, List, [], ◌∷◌, length, get_or, arith,
  Bool-cases, Option-cases, subst,
}
use minigbm.Format.{
  PlanarLayout, elem, switch_on, layout_cases, layout_from_format, drv_num_planes_from_format,
  drv_height_from_format, drv_vertical_subsampling_from_format, drv_bytes_per_pixel_from_format,
  drv_stride_from_format,
}

-- Every entry lies in the range.
abbrev pub Between : ℕ → ℕ → List ℕ → Type 0
Between lo hi [] = Unit {0}
Between lo hi (x ∷ xs) = (lo ≤ x) × (x ≤ hi) × Between lo hi xs

pub get_or-Between :
    (lo hi : ℕ) (xs : List ℕ) (p : ℕ)
    → Between lo hi xs
    → p < length xs
    → (lo ≤ get_or xs p 0) × (get_or xs p 0 ≤ hi)
get_or-Between lo hi [] p b h = absurd (omega arith)
get_or-Between lo hi (x ∷ xs) zero b h = (b.0, b.1)
get_or-Between lo hi (x ∷ xs) (suc p) b h = get_or-Between lo hi xs p b.2 (omega arith)

-- One to three planes, each with its subsampling of 1 or 2 and its 1 to 8 bytes.
pub record IsValidLayout (l : PlanarLayout) : Type 0 where
  pub some_plane : 1 ≤ l.num_planes
  pub few_planes : l.num_planes ≤ 3
  pub horizontal_full : length l.horizontal_subsampling ≡ l.num_planes
  pub vertical_full : length l.vertical_subsampling ≡ l.num_planes
  pub bytes_full : length l.bytes_per_pixel ≡ l.num_planes
  pub horizontal_range : Between 1 2 l.horizontal_subsampling
  pub vertical_range : Between 1 2 l.vertical_subsampling
  pub bytes_range : Between 1 8 l.bytes_per_pixel

abbrev AllValid : List (List ℕ × PlanarLayout) → Type 0
AllValid [] = Unit {0}
AllValid ((labels, l) ∷ rest) = IsValidLayout l × AllValid rest

layout_cases-AllValid : AllValid layout_cases
unfolding layout_cases
layout_cases-AllValid = omega arith

switch_on-IsValidLayout :
    (f : ℕ) (cases : List (List ℕ × PlanarLayout)) {l : PlanarLayout}
    → AllValid cases
    → switch_on f cases ≡ some l
    → IsValidLayout l
unfolding switch_on
switch_on-IsValidLayout f [] v e = cc
switch_on-IsValidLayout f ((labels, m) ∷ rest) v e = elim (Bool-cases (elem f labels)) [
  | inl here ↦ subst IsValidLayout (ground arith) v.0
  | inr later ↦ switch_on-IsValidLayout f rest v.1 (ground arith)
]

-- Every layout that the table of formats returns has one to three planes, each with subsampling
-- factors of 1 or 2 and 1 to 8 bytes per pixel.
pub layout_from_format-IsValidLayout :
    (format : ℕ) {l : PlanarLayout} → layout_from_format format ≡ some l → IsValidLayout l
unfolding layout_from_format
layout_from_format-IsValidLayout format e =
    switch_on-IsValidLayout format layout_cases layout_cases-AllValid e

pub num_planes-eq :
    (format : ℕ) {l : PlanarLayout}
    → layout_from_format format ≡ some l
    → drv_num_planes_from_format format ≡ l.num_planes
unfolding drv_num_planes_from_format
num_planes-eq format e = rw (e, drv_num_planes_from_format)

-- No format has more planes than the arrays of a buffer hold.
pub drv_num_planes-le : (format : ℕ) → drv_num_planes_from_format format ≤ 3
unfolding drv_num_planes_from_format
drv_num_planes-le format = elim (Option-cases (layout_from_format format)) [
  | inl e ↦ rw (e, drv_num_planes_from_format) (omega arith)
  | inr (l, e) ↦
      rw (e, drv_num_planes_from_format) (layout_from_format-IsValidLayout format e).few_planes
]

-- The height, the vertical subsampling, the bytes per pixel and the stride of a plane are
-- answered exactly for the planes that the format has; otherwise the query aborts.
pub queries_total :
    (format size plane : ℕ)
    → ((drv_height_from_format format size plane ≢ none)
        ↔ (plane < drv_num_planes_from_format format))
      × ((drv_vertical_subsampling_from_format format plane ≢ none)
          ↔ (plane < drv_num_planes_from_format format))
      × ((drv_bytes_per_pixel_from_format format plane ≢ none)
          ↔ (plane < drv_num_planes_from_format format))
      × ((drv_stride_from_format format size plane ≢ none)
          ↔ (plane < drv_num_planes_from_format format))
unfolding drv_num_planes_from_format drv_height_from_format drv_vertical_subsampling_from_format
    drv_bytes_per_pixel_from_format drv_stride_from_format
queries_total format size plane = ground arith
