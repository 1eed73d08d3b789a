-- ===== src/Tegra/Swizzle.antt =====
-- The pixels of a tile: `transfer_tile` numbers every place of a tile once.
use minigbm.Base.{
  ℕ, zero, suc, ◌+◌, ◌*◌, ◌/◌, ◌%◌, ◌^◌, ◌<◌, ◌≡◌, ap, ◌∙◌, arith, bit_and, bit_or, bit_and-shifted,
  low_mask, bit_or_halves, bit_or-zero,
}
use native.Mathlib.Nat.{pow-suc}
use minigbm.Tegra.Transfer.{tile_x, tile_y}

-- The place of a tile's pixel, read back as its number.
unfoldable pub number_of : ℕ → ℕ → ℕ
number_of x y = y / 8 * 128 + x / 8 * 64 + y / 2 % 4 * 16 + x / 4 % 2 * 8 + y % 2 * 4 + x % 4

-- `|` of a multiple of a power of two and a smaller number is their sum.
or_sum : (n a b : ℕ) → b < 2 ^ n → bit_or (a * 2 ^ n) b ≡ a * 2 ^ n + b
or_sum zero a b h =
    ap (bit_or (a * 2 ^ 0)) {x = b} {y = 0} (omega arith) ∙ bit_or-zero (a * 2 ^ 0) ∙ omega arith
or_sum (suc n) a b h = ground (
  arith,
  pow-suc 2 n,
  ap (λ (t : ℕ). a * t) (pow-suc 2 n),
  bit_or_halves (a * 2 ^ suc n) b,
  or_sum n a (b / 2) (omega (arith, pow-suc 2 n)),
)

tile_x_eq : (k : ℕ) → tile_x k ≡ k / 64 % 2 * 8 + k / 8 % 2 * 4 + k % 4
unfolding tile_x
tile_x_eq k =
    let a : ℕ = k / 64 % 2 in
    let b : ℕ = k / 8 % 2 in
    let c : ℕ = k % 4 in
    let high : bit_and (k / 8) 8 ≡ a * 8 =
      omega (arith, bit_and-shifted 3 (k / 8) 1, low_mask 1 (k / 8 / 8)) in
    let middle : bit_and (k / 2) 4 ≡ b * 4 =
      omega (arith, bit_and-shifted 2 (k / 2) 1, low_mask 1 (k / 2 / 4)) in
    rw (high, middle, low_mask 2 k)
      (ap (λ (t : ℕ). bit_or t c) (or_sum 3 a (b * 4) (omega arith))
        ∙ ap (λ (t : ℕ). bit_or t c) {x = a * 2 ^ 3 + b * 4} {y = (a * 2 + b) * 2 ^ 2} (omega arith)
        ∙ or_sum 2 (a * 2 + b) c (omega arith)
        ∙ omega arith)

tile_y_eq : (k : ℕ) → tile_y k ≡ k / 128 * 8 + k / 16 % 4 * 2 + k / 4 % 2
unfolding tile_y
tile_y_eq k =
    let a : ℕ = k / 128 in
    let b : ℕ = k / 16 % 4 in
    let c : ℕ = k / 4 % 2 in
    let middle : bit_and (k / 8) 6 ≡ b * 2 =
      omega (arith, bit_and-shifted 1 (k / 8) 3, low_mask 2 (k / 8 / 2)) in
    rw (middle, low_mask 1 (k / 4))
      (ap (λ (t : ℕ). bit_or t c) (or_sum 3 a (b * 2) (omega arith))
        ∙ ap (λ (t : ℕ). bit_or t c) {x = a * 2 ^ 3 + b * 2} {y = (a * 4 + b) * 2 ^ 1} (omega arith)
        ∙ or_sum 1 (a * 4 + b) c (omega arith)
        ∙ omega arith)

-- The coordinates of the pixels of a tile lie in columns 0 to 15, and give back the number of
-- the pixel, and every place in these columns is that of exactly the pixel with its number.
pub number_of-tile :
    ((k : ℕ) → (number_of (tile_x k) (tile_y k) ≡ k) × (tile_x k < 16))
    × ((x y : ℕ) → x < 16 → (tile_x (number_of x y) ≡ x) × (tile_y (number_of x y) ≡ y))
unfolding number_of
number_of-tile = (
  λ k. rw (tile_x_eq, tile_y_eq) (omega arith, omega arith),
  λ x y small. rw (tile_x_eq, tile_y_eq) (omega arith, omega arith),
)
