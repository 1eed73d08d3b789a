-- ===== src/Tegra/Transfer.antt =====
-- tegra.c: copying between the tiled memory of a buffer and its linear view. What is copied is
-- listed as pairs of offsets, in the tiled and in the linear memory, each of a pixel; the direction
-- is that of the type.
use minigbm.Base.{
  ℕ, zero, suc, ◌+◌, ◌*◌, ◌/◌, ◌^◌, ◌&&◌, ◌||◌, Option, some, List, [], ◌∷◌, ◌++◌, get_or, bit_and,
  bit_or, ltb, leb, if◌then◌else◌, ◌>>=◌,
}
use minigbm.Util.{u32, div_round_up}
use minigbm.Types.{Bo}
use minigbm.Format.{drv_stride_from_format}
use minigbm.Tegra.{
  nv_blocklinear_gob_height, nv_blocklinear_gob_width, nv_default_block_height_log2,
}

-- Where the pixel `k` of a tile lies in it.
unfoldable pub tile_x : ℕ → ℕ
tile_x k = bit_or (bit_or (bit_and (k / 2 ^ 3) 8) (bit_and (k / 2) 4)) (bit_and k 3)

unfoldable pub tile_y : ℕ → ℕ
tile_y k = bit_or (bit_or (k / 2 ^ 7 * 2 ^ 3) (bit_and (k / 2 ^ 3) 6)) (bit_and (k / 2 ^ 2) 1)

-- The loop of `transfer_tile` from `k` on; `tiled` is an offset in the tiled memory.
unfoldable pub transfer_tile : Bo → ℕ → ℕ → ℕ → ℕ → ℕ → ℕ → List (ℕ × ℕ)
transfer_tile bo bytes_per_pixel gob_top gob_left zero k tiled = []
transfer_tile bo bytes_per_pixel gob_top gob_left (suc rest) k tiled =
    let x = u32 (gob_left + tile_x k) in
    let y = u32 (gob_top + tile_y k) in
    let next =
      transfer_tile bo bytes_per_pixel gob_top gob_left rest (suc k) (tiled + bytes_per_pixel) in
    let pixel : ℕ × ℕ = (tiled, u32 (y * get_or bo.meta.strides 0 0) + u32 (x * bytes_per_pixel)) in
    if leb bo.meta.total_size tiled
    then []
    else (if leb bo.meta.width x || leb bo.meta.height y then next else pixel ∷ next)

-- The loop that chooses `gob_height`, on fuel.
unfoldable pub shrink_gob : ℕ → ℕ → ℕ → ℕ
shrink_gob zero gob_height height = gob_height
shrink_gob (suc fuel) gob_height height =
    let smaller = shrink_gob fuel (gob_height / 2) height in
    if ltb nv_blocklinear_gob_height gob_height && leb (u32 (2 * height)) gob_height
    then smaller
    else gob_height

-- It halves 128 at most four times before it is 8.
unfoldable pub transfer_gob_height : ℕ → ℕ
unfolding shrink_gob
transfer_gob_height height =
    shrink_gob 5 (nv_blocklinear_gob_height * 2 ^ nv_default_block_height_log2) height

-- The inner loop of `transfer_tiled_memory`, from column `i` on, and the outer one, from row `j` on.
module _ (bo : Bo) (bytes_per_pixel gob_width gob_height : ℕ) where
  unfoldable pub transfer_row : ℕ → ℕ → ℕ → ℕ → List (ℕ × ℕ)
  transfer_row gob_top zero i offset = []
  transfer_row gob_top (suc rest) i offset =
      transfer_tile bo bytes_per_pixel gob_top (u32 (i * gob_width)) (u32 (gob_height * gob_width))
        0 offset
      ++ transfer_row gob_top rest (suc i)
          (u32 (offset + u32 (gob_height * nv_blocklinear_gob_width)))

  -- The offset after a row of tiles.
  unfoldable pub row_end : ℕ → ℕ → ℕ
  row_end zero offset = offset
  row_end (suc rest) offset =
      row_end rest (u32 (offset + u32 (gob_height * nv_blocklinear_gob_width)))

  unfoldable pub transfer_rows : ℕ → ℕ → ℕ → ℕ → List (ℕ × ℕ)
  transfer_rows gob_count_x zero j offset = []
  transfer_rows gob_count_x (suc rest) j offset =
      transfer_row (u32 (j * gob_height)) gob_count_x 0 offset
      ++ transfer_rows gob_count_x rest (suc j) (row_end gob_count_x offset)

unfoldable pub transfer_tiled_memory : Bo → Option (List (ℕ × ℕ))
transfer_tiled_memory bo = do
  bytes_per_pixel ← drv_stride_from_format bo.meta.format 1 0
  let gob_width = div_round_up nv_blocklinear_gob_width bytes_per_pixel
  let gob_height = transfer_gob_height bo.meta.height
  let gob_count_x = div_round_up (get_or bo.meta.strides 0 0) nv_blocklinear_gob_width
  let gob_count_y = div_round_up bo.meta.height gob_height
  some (transfer_rows bo bytes_per_pixel gob_width gob_height gob_count_x gob_count_y 0 0)
