-- ===== src/BoLayout/Planes.antt =====
-- The layout keeps the number of planes.
use minigbm.Base.{ℕ, zero, suc, ◌≡◌, some, List, replicate, ltb, assert, >>=-eq-some, ap, sym, ◌∙◌}
use minigbm.Types.{Metadata, drv_max_planes}
use minigbm.Format.{drv_num_planes_from_format, drv_size_from_format, subsample_stride}
use minigbm.BoLayout.{place_planes, android_ok, drv_bo_from_format_and_padding, drv_bo_from_format}

-- Laying the planes out does not change how many there are.
place_planes-num_planes :
    (stride height format : ℕ) (padding : List ℕ) (rest p offset : ℕ) (m : Metadata)
    (placed : Metadata × ℕ)
    → place_planes stride height format padding rest p offset m ≡ some placed
    → placed.0.num_planes ≡ m.num_planes
unfolding place_planes
place_planes-num_planes stride height format padding zero p offset m placed e = cc
place_planes-num_planes stride height format padding (suc rest) p offset m placed e =
    let (bytes, _, e') =
      >>=-eq-some (drv_size_from_format format (subsample_stride stride format p) height p) _ e in
    place_planes-num_planes stride height format padding rest (suc p) _ _ placed e'

pub drv_bo_from_format-num_planes :
    (m m' : Metadata) (stride height format : ℕ)
    → drv_bo_from_format m stride height format ≡ some m'
    → m'.num_planes ≡ m.num_planes
unfolding drv_bo_from_format drv_bo_from_format_and_padding
drv_bo_from_format-num_planes m m' stride height format e =
    let (t, _, e1) = >>=-eq-some (assert (ltb 0 (drv_num_planes_from_format format))) _ e in
    let (u, _, e2) = >>=-eq-some (android_ok m stride height format) _ e1 in
    let (placed, e3, e4) =
      >>=-eq-some
        (place_planes stride height format (replicate drv_max_planes 0)
          (drv_num_planes_from_format format) 0 0 m)
        _ e2 in
    let same : placed.0.num_planes ≡ m.num_planes =
      place_planes-num_planes stride height format (replicate drv_max_planes 0)
        (drv_num_planes_from_format format) 0 0 m placed e3 in
    let out : record (placed.0) { total_size = placed.1 } ≡ m' = cc in
    sym (ap (λ (t : Metadata). t.num_planes) out) ∙ same
