-- ===== src/Util.antt =====
-- util.h: the macros on sizes, at the type `uint32_t` at which the drivers use them.
pub mod Align
use minigbm.Base.{ℕ, ◌+◌, ◌-◌, ◌/◌, ◌%◌, ◌^◌, bit_and, Bool, ◌==◌}

-- the modulus of `uint32_t`
abbrev pub u32_mod : ℕ
u32_mod = 2 ^ 32

abbrev pub u64_mod : ℕ
u64_mod = 2 ^ 64

abbrev pub u32 : ℕ → ℕ
u32 n = n % u32_mod

-- `~x`
abbrev pub not32 : ℕ → ℕ
not32 x = u32_mod - 1 - x

-- `ALIGN(A, B)`; `B` is at least 1 wherever it is used, so `B - 1` does not wrap.
unfoldable pub align : ℕ → ℕ → ℕ
align a b = bit_and (u32 (a + (b - 1))) (not32 (b - 1))

-- `IS_ALIGNED(A, B)`
unfoldable pub is_aligned : ℕ → ℕ → Bool
unfolding align
is_aligned a b = align a b == a

-- `DIV_ROUND_UP(n, d)`; the sum is taken in `uint32_t`.
unfoldable pub div_round_up : ℕ → ℕ → ℕ
div_round_up n d = u32 (n + (d - 1)) / d
