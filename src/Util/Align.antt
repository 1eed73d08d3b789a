-- ===== src/Util/Align.antt =====
-- `ALIGN` and `DIV_ROUND_UP` of util.h against their arithmetic meaning.
use minigbm.Base.{
  ℕ, zero, suc, ◌+◌, ◌-◌, ◌*◌, ◌/◌, ◌%◌, ◌^◌, ◌≤◌, ◌<◌, ◌≡◌, ◌↔◌, true, arith, ap, subst, ◌∙◌, sym,
  ◌==◌, two-pow_pos, high_mask, pow-add, ==_iff,
}
use native.Mathlib.Nat.{
  mod-eq_of_lt, mul-mod_left, div-add-mod', div-mul-le_self, lt-div-mul-add, suc-mul,
  mul-le-mul_right, lt_of_mul-lt-mul_right,
}
use minigbm.Util.{u32_mod, u32, not32, align, is_aligned, div_round_up}

pred-mul : (m p : ℕ) → 1 ≤ m → (m - 1) * p + p ≡ m * p
pred-mul zero p h = absurd (omega arith)
pred-mul (suc m) p h = grind arith

step_up : (q m p : ℕ) → q * p < m * p → suc q * p ≤ m * p
step_up q m p h = mul-le-mul_right p (lt_of_mul-lt-mul_right p h)

module _ (k : ℕ) (small : k ≤ 32) where
  word_split : u32_mod ≡ 2 ^ (32 - k) * 2 ^ k
  word_split = ap (λ (t : ℕ). 2 ^ t) {x = 32} (omega arith) ∙ pow-add 2 (32 - k) k

  mask_split : not32 (2 ^ k - 1) ≡ (2 ^ (32 - k) - 1) * 2 ^ k
  mask_split = omega (
    arith,
    word_split,
    two-pow_pos k,
    two-pow_pos (32 - k),
    pred-mul (2 ^ (32 - k)) (2 ^ k) (two-pow_pos (32 - k)),
  )

  -- On powers of two the mask clears the low bits of the wrapped sum.
  pub align_mask : (a : ℕ) → align a (2 ^ k) + u32 (a + (2 ^ k - 1)) % 2 ^ k ≡ u32 (a + (2 ^ k - 1))
  unfolding align
  align_mask a = rw mask_split (
      high_mask k (32 - k) (u32 (a + (2 ^ k - 1)))
        (subst (λ t. u32 (a + (2 ^ k - 1)) < t) word_split (omega arith)))

  module _ (a : ℕ) (fits : a + (2 ^ k - 1) < u32_mod) where
    align_div : align a (2 ^ k) ≡ (a + (2 ^ k - 1)) / 2 ^ k * 2 ^ k
    align_div = omega (
      arith,
      align_mask a,
      mod-eq_of_lt fits,
      ap (λ (t : ℕ). t % 2 ^ k) (mod-eq_of_lt fits),
      div-add-mod' (a + (2 ^ k - 1)) (2 ^ k),
    )

    -- Where the sum does not wrap, rounding up to a power of two gives a multiple of it that is
    -- at least the value and less than one step above it.
    pub align_bounds :
        (align a (2 ^ k) % 2 ^ k ≡ 0) × (a ≤ align a (2 ^ k)) × (align a (2 ^ k) < a + 2 ^ k)
    align_bounds = (
      rw align_div (mul-mod_left ((a + (2 ^ k - 1)) / 2 ^ k) (2 ^ k)),
      omega (arith, align_div, lt-div-mul-add {a = a + (2 ^ k - 1)} (two-pow_pos k), two-pow_pos k),
      omega (arith, align_div, div-mul-le_self (a + (2 ^ k - 1)) (2 ^ k), two-pow_pos k),
    )

    -- It is the least multiple of the alignment that is not below the value.
    pub align_least : (b : ℕ) → a ≤ b * 2 ^ k → align a (2 ^ k) ≤ b * 2 ^ k
    align_least b le =
        grind (arith, align_div, div-mul-le_self (a + (2 ^ k - 1)) (2 ^ k), two-pow_pos k)

module _ (k : ℕ) (small : k ≤ 32) where
  -- Also where the sum wraps, the result is a multiple of the alignment.
  pub align-mod : (a : ℕ) → align a (2 ^ k) % 2 ^ k ≡ 0
  align-mod a =
      ap (λ (t : ℕ). t % 2 ^ k) {x = align a (2 ^ k)} {y = u32 (a + (2 ^ k - 1)) / 2 ^ k * 2 ^ k}
        (omega (arith, align_mask k small a, div-add-mod' (u32 (a + (2 ^ k - 1))) (2 ^ k)))
      ∙ mul-mod_left (u32 (a + (2 ^ k - 1)) / 2 ^ k) (2 ^ k)

  multiple_fits : (q : ℕ) → q * 2 ^ k < u32_mod → q * 2 ^ k + (2 ^ k - 1) < u32_mod
  multiple_fits q h =
      let h' : q * 2 ^ k < 2 ^ (32 - k) * 2 ^ k =
        subst (λ t. q * 2 ^ k < t) (word_split k small) h in
      omega (
        arith,
        word_split k small,
        step_up q (2 ^ (32 - k)) (2 ^ k) h',
        two-pow_pos k,
        suc-mul q (2 ^ k),
      )

  -- For a power of two and a 32-bit value, the alignment test decides divisibility.
  pub is_aligned_iff : (a : ℕ) → a < u32_mod → (is_aligned a (2 ^ k) ≡ true) ↔ (a % 2 ^ k ≡ 0)
  unfolding is_aligned
  is_aligned_iff a h = (forwards, backwards)
    where
      forwards : (align a (2 ^ k) == a) ≡ true → a % 2 ^ k ≡ 0
      forwards e = subst (λ t. t % 2 ^ k ≡ 0) ((==_iff (align a (2 ^ k)) a).0 e) (align-mod a)

      backwards : a % 2 ^ k ≡ 0 → (align a (2 ^ k) == a) ≡ true
      backwards e =
          let q : a / 2 ^ k * 2 ^ k ≡ a = omega (arith, div-add-mod' a (2 ^ k)) in
          let fits : a + (2 ^ k - 1) < u32_mod =
            subst (λ t. t + (2 ^ k - 1) < u32_mod) q
              (multiple_fits (a / 2 ^ k) (subst (λ t. t < u32_mod) (sym q) h)) in
          (==_iff (align a (2 ^ k)) a).1 (
            omega (
              arith,
              align_bounds k small a fits,
              align_least k small a fits (a / 2 ^ k) (omega (arith, q)),
              q,
            ))

-- Where the sum does not wrap, the rounded-up quotient times the divisor is at least the number
-- and less than one divisor above it.
pub div_round_up_bounds :
    (n d : ℕ)
    → 0 < d
    → n + (d - 1) < u32_mod
    → (n ≤ div_round_up n d * d) × (div_round_up n d * d < n + d)
unfolding div_round_up
div_round_up_bounds n d pos fits = rw (mod-eq_of_lt fits) (
  omega (arith, lt-div-mul-add {a = n + (d - 1)} pos),
  omega (arith, div-mul-le_self (n + (d - 1)) d),
)
