-- ===== src/Tegra/BlockHeight.antt =====
-- The height of a block, as `compute_block_height_log2` and `transfer_tiled_memory` find it.
use minigbm.Base.{
  ℕ, suc, ◌*◌, ◌^◌, ◌≤◌, ◌<◌, ◌≡◌, ◌⊎◌, inl, inr, refl, arith, leb, Bool-cases, leb→le, true, false,
}
use native.Mathlib.Nat.{pow-suc, pow-le-pow_right}
use minigbm.Util.{u32}
use minigbm.Tegra.{compute_block_height_log2, shrink_block}
use minigbm.Tegra.Transfer.{transfer_gob_height, shrink_gob}

-- The logarithm is at most 4, the block of a row of tiles covers the height or is the largest one,
-- and no smaller block covers it.
pub record IsBlock (height log2 : ℕ) : Type 0 where
  pub at_most : log2 ≤ 4
  pub covers : (height ≤ 8 * 2 ^ log2) ⊎ (log2 ≡ 4)
  pub least : (n : ℕ) → n < log2 → 8 * 2 ^ n < height

-- The height lies between two blocks.
data Range (height : ℕ) : Type 0 where
  to_8 : height ≤ 8 → Range height
  to_16 : 8 < height → height ≤ 16 → Range height
  to_32 : 16 < height → height ≤ 32 → Range height
  to_64 : 32 < height → height ≤ 64 → Range height
  beyond : 64 < height → Range height

range : (height : ℕ) → Range height
range height = elim (Bool-cases (leb height 8)) [
  | inl e ↦ to_8 (leb→le height 8 e)
  | inr e8 ↦ elim (Bool-cases (leb height 16)) [
    | inl e ↦ to_16 (above height 8 e8) (leb→le height 16 e)
    | inr e16 ↦ elim (Bool-cases (leb height 32)) [
      | inl e ↦ to_32 (above height 16 e16) (leb→le height 32 e)
      | inr e32 ↦ elim (Bool-cases (leb height 64)) [
        | inl e ↦ to_64 (above height 32 e32) (leb→le height 64 e)
        | inr e64 ↦ beyond (above height 64 e64)
      ]
    ]
  ]
]
  where
    above : (a b : ℕ) → leb a b ≡ false → b < a
    above a b h = ground arith

test_true : (a b : ℕ) → a ≤ b → leb a b ≡ true
test_true a b h = ground arith

test_false : (a b : ℕ) → b < a → leb a b ≡ false
test_false a b h = ground arith

-- What both computations give in a range.
record Agrees (height log2 : ℕ) : Type 0 where
  computed : compute_block_height_log2 height ≡ log2
  transferred : transfer_gob_height height ≡ 8 * 2 ^ log2

module _ (height : ℕ) (small : height < 2 ^ 31) where
  double : u32 (2 * height) ≡ 2 * height
  double = omega arith

  Agrees-0 : height ≤ 8 → Agrees height 0
  unfolding compute_block_height_log2 shrink_block transfer_gob_height shrink_gob
  Agrees-0 h = record {
    computed =
        rw
          (
            test_true height 64 (omega arith),
            test_true height 32 (omega arith),
            test_true height 16 (omega arith),
            test_true height 8 (omega arith),
          )
          refl;
    transferred =
        rw
          (
            double,
            test_true (2 * height) 128 (omega arith),
            test_true (2 * height) 64 (omega arith),
            test_true (2 * height) 32 (omega arith),
            test_true (2 * height) 16 (omega arith),
          )
          refl;
  }

  Agrees-1 : 8 < height → height ≤ 16 → Agrees height 1
  unfolding compute_block_height_log2 shrink_block transfer_gob_height shrink_gob
  Agrees-1 g h = record {
    computed =
        rw
          (
            test_true height 64 (omega arith),
            test_true height 32 (omega arith),
            test_true height 16 (omega arith),
            test_false height 8 (omega arith),
          )
          refl;
    transferred =
        rw
          (
            double,
            test_true (2 * height) 128 (omega arith),
            test_true (2 * height) 64 (omega arith),
            test_true (2 * height) 32 (omega arith),
            test_false (2 * height) 16 (omega arith),
          )
          refl;
  }

  Agrees-2 : 16 < height → height ≤ 32 → Agrees height 2
  unfolding compute_block_height_log2 shrink_block transfer_gob_height shrink_gob
  Agrees-2 g h = record {
    computed =
        rw
          (
            test_true height 64 (omega arith),
            test_true height 32 (omega arith),
            test_false height 16 (omega arith),
          )
          refl;
    transferred =
        rw
          (
            double,
            test_true (2 * height) 128 (omega arith),
            test_true (2 * height) 64 (omega arith),
            test_false (2 * height) 32 (omega arith),
          )
          refl;
  }

  Agrees-3 : 32 < height → height ≤ 64 → Agrees height 3
  unfolding compute_block_height_log2 shrink_block transfer_gob_height shrink_gob
  Agrees-3 g h = record {
    computed = rw (test_true height 64 (omega arith), test_false height 32 (omega arith)) refl;
    transferred =
        rw
          (
            double,
            test_true (2 * height) 128 (omega arith),
            test_false (2 * height) 64 (omega arith),
          )
          refl;
  }

  Agrees-4 : 64 < height → Agrees height 4
  unfolding compute_block_height_log2 shrink_block transfer_gob_height shrink_gob
  Agrees-4 h = record {
    computed = rw (test_false height 64 (omega arith)) refl;
    transferred = rw (double, test_false (2 * height) 128 (omega arith)) refl;
  }

  is_block :
      (log2 : ℕ)
      → log2 ≤ 4
      → (height ≤ 8 * 2 ^ log2) ⊎ (log2 ≡ 4)
      → (log2 ≡ 0) ⊎ (4 * 2 ^ log2 < height)
      → IsBlock height log2
  is_block log2 few covered above = record {
    at_most = few;
    covers = covered;
    least = smaller above;
  }
    where
      smaller : (log2 ≡ 0) ⊎ (4 * 2 ^ log2 < height) → (n : ℕ) → n < log2 → 8 * 2 ^ n < height
      smaller (inl z) n lt = absurd (omega (arith, z))
      smaller (inr above) n lt =
          omega
            (arith, pow-suc 2 n, pow-le-pow_right {n = 2} (omega arith) {i = suc n} {j = log2} lt)

  -- For a height below 2^31, the block height is the least of 8 times 1 to 16 rows that covers
  -- the height, or the largest where none does, and the loop by which the transfer of tiled
  -- memory finds its own height ends with the same.
  pub compute_block_height_log2_lem :
      IsBlock height (compute_block_height_log2 height)
      × (transfer_gob_height height ≡ 8 * 2 ^ compute_block_height_log2 height)
  compute_block_height_log2_lem = elim (range height) [
    | to_8 h ↦ conclude 0 (Agrees-0 h) (is_block 0 (omega arith) (inl (omega arith)) (inl refl))
    | to_16 g h ↦
        conclude 1 (Agrees-1 g h) (is_block 1 (omega arith) (inl (omega arith)) (inr (omega arith)))
    | to_32 g h ↦
        conclude 2 (Agrees-2 g h) (is_block 2 (omega arith) (inl (omega arith)) (inr (omega arith)))
    | to_64 g h ↦
        conclude 3 (Agrees-3 g h) (is_block 3 (omega arith) (inl (omega arith)) (inr (omega arith)))
    | beyond g ↦ conclude 4 (Agrees-4 g) (is_block 4 (omega arith) (inr refl) (inr (omega arith)))
  ]
    where
      conclude :
          (log2 : ℕ)
          → Agrees height log2
          → IsBlock height log2
          → IsBlock height (compute_block_height_log2 height)
            × (transfer_gob_height height ≡ 8 * 2 ^ compute_block_height_log2 height)
      conclude log2 a b = rw a.computed (b, a.transferred)
