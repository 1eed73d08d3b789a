-- ===== src/Gbm/Usage/Mask.antt =====
-- `gbm_convert_usage` keeps the bits that both sets of flags have.
use minigbm.Base.{
  ℕ, ◌-◌, ◌*◌, ◌^◌, ◌≤◌, ◌/◌, ◌≡◌, ◌⊎◌, inl, inr, refl, sym, ◌∙◌, ap, List, [], ◌∷◌, All, bit_and,
  bit_or, arith, bit_and-shifted, low_mask, bit_and-bit_or, two-pow_pos, !=_true, bit_and-zero,
  bit_or-zero,
}
use native.Mathlib.Nat.{one-mul}
use minigbm.Gbm.Usage.{add_use, add_uses, usage_cases, gbm_convert_usage}

-- A flag has one bit, which stands for the same use on both sides.
abbrev IsFlag : ℕ × ℕ → Type 0
IsFlag (m, n) = (k : ℕ) × (m ≡ 2 ^ k) × (n ≡ 2 ^ k)

flag : (k : ℕ) → IsFlag (2 ^ k, 2 ^ k)
flag k = (k, refl, refl)

one_bit : (usage k : ℕ) → (bit_and usage (2 ^ k) ≡ 0) ⊎ (bit_and usage (2 ^ k) ≡ 2 ^ k)
one_bit usage k = elim (parity (usage / 2 ^ k)) [
  | inl e ↦ inl (masked ∙ rw e (omega arith))
  | inr e ↦ inr (masked ∙ rw e (omega arith))
]
  where
    parity : (x : ℕ) → (bit_and x 1 ≡ 0) ⊎ (bit_and x 1 ≡ 1)
    parity x = ground (arith, low_mask 1 x)

    masked : bit_and usage (2 ^ k) ≡ bit_and (usage / 2 ^ k) 1 * 2 ^ k
    masked = ap (λ (t : ℕ). bit_and usage t) (sym (one-mul (2 ^ k))) ∙ bit_and-shifted k usage 1

add_use_lem :
    (usage acc m : ℕ)
    → 1 ≤ m
    → (bit_and usage m ≡ 0) ⊎ (bit_and usage m ≡ m)
    → add_use usage m m (bit_and usage acc) ≡ bit_and usage (bit_or acc m)
add_use_lem usage acc m pos (inl e) = rw (bit_and-bit_or, e) (sym (bit_or-zero (bit_and usage acc)))
add_use_lem usage acc m pos (inr e) = rw (bit_and-bit_or, e, !=_true m pos) refl

-- The bits of a list of flags.
mask_of : List (ℕ × ℕ) → ℕ → ℕ
mask_of [] acc = acc
mask_of ((m, _) ∷ rest) acc = mask_of rest (bit_or acc m)

add_uses_lem :
    (usage : ℕ) (cases : List (ℕ × ℕ)) (acc : ℕ)
    → All IsFlag cases
    → add_uses usage cases (bit_and usage acc) ≡ bit_and usage (mask_of cases acc)
unfolding add_uses mask_of
add_uses_lem usage [] acc flags = refl
add_uses_lem usage ((m, n) ∷ rest) acc ((k, e, e'), flags) =
    rw (e, e', add_use_lem usage acc (2 ^ k) (two-pow_pos k) (one_bit usage k))
      (add_uses_lem usage rest (bit_or acc (2 ^ k)) flags)

-- The flags that `gbm_convert_usage` knows: all below 2^15 but that of `GBM_BO_USE_WRITE`.
abbrev pub known_uses : ℕ
known_uses = 2 ^ 15 - 1 - 2 ^ 3

usage_cases-IsFlag : All IsFlag usage_cases
usage_cases-IsFlag = (
  flag 0,
  (
    flag 1,
    (
      flag 1,
      (
        flag 2,
        (
          flag 5,
          (
            flag 4,
            (
              flag 6,
              (
                flag 7,
                (flag 8, (flag 9, (flag 10, (flag 11, (flag 12, (flag 13, (flag 14, tt))))))),
              ),
            ),
          ),
        ),
      ),
    ),
  ),
)

-- The flags of the driver are those of the GBM buffer with every bit cleared but the fourteen of
-- its known uses, which are the bits 0 to 14 without bit 3.
pub gbm_convert_usage_lem : (usage : ℕ) → gbm_convert_usage usage ≡ bit_and usage known_uses
unfolding gbm_convert_usage mask_of
gbm_convert_usage_lem usage =
    ap (add_uses usage usage_cases) (sym (bit_and-zero usage))
    ∙ add_uses_lem usage usage_cases 0 usage_cases-IsFlag
