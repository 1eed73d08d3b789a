-- ===== src/Gbm/Map/Bounds.antt =====
-- Where a mapped rectangle lies in its area.
use minigbm.Base.{ℕ, suc, ◌+◌, ◌*◌, ◌^◌, ◌≤◌, ◌<◌, ◌≡◌, arith}
use native.Mathlib.Nat.{mod-eq_of_lt, mul-le-mul_left, mul-le-mul_right}
use minigbm.Util.{u32}
use minigbm.Gbm.Map.{map_offset}

-- The whole of a rectangle, from its first byte at `start` to the end of its last row, `rows` below.
record InPlane (stride x y width rows bytes size start : ℕ) : Type 0 where
  exact : start ≡ stride * y + x * bytes
  ends_inside : start + rows * stride + width * bytes ≤ size

split_rows : (s y rows : ℕ) → s * (y + suc rows) ≡ s * y + rows * s + s
split_rows s y rows = grind arith

split_columns : (x w b : ℕ) → (x + w) * b ≡ x * b + w * b
split_columns x w b = grind arith

module _ (stride x y width rows bytes plane_width plane_height size : ℕ) where
  -- For a rectangle within a plane that fits 32 bits, the offset is exact and the rectangle ends
  -- within the plane.
  map_offset-InPlane :
      x + width ≤ plane_width
      → y + rows < plane_height
      → plane_width * bytes ≤ stride
      → stride * plane_height ≤ size
      → size < 2 ^ 32
      → InPlane stride x y width rows bytes size (map_offset stride x y bytes)
  unfolding map_offset
  map_offset-InPlane in_width in_height row_fits plane_fits small =
      let below : stride * (y + suc rows) ≤ stride * plane_height =
        mul-le-mul_left {m = y + suc rows} {n = plane_height} stride (omega arith) in
      let across : (x + width) * bytes ≤ plane_width * bytes = mul-le-mul_right bytes in_width in
      let row_start : u32 (stride * y) ≡ stride * y =
        mod-eq_of_lt (omega (arith, below, split_rows stride y rows)) in
      let column : u32 (x * bytes) ≡ x * bytes =
        mod-eq_of_lt
          (omega (arith, across, split_columns x width bytes, below, split_rows stride y rows)) in
      let exact : u32 (stride * y) + u32 (x * bytes) ≡ stride * y + x * bytes =
        omega (arith, row_start, column) in
      record {
        exact = exact;
        ends_inside =
            omega
              (arith, exact, across, split_columns x width bytes, below, split_rows stride y rows);
      }
