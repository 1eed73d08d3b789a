-- ===== src/Base/Bits.antt =====
-- `&` and `|` of C at variables: one equation for the lowest digit, masks as arithmetic, and
-- inclusion of flag sets.
use Prim.Native.Nat.{
  ℕ, zero, suc, ◌+◌, ◌-◌, ◌*◌, ◌/◌, ◌%◌, ◌^◌, ◌≤◌, ◌<◌, min, max, digits, bitwise, bit_and, bit_or,
  bit_and-bitwise, bit_or-bitwise,
}
use mathlib.Core.Path.{◌≡◌, refl, sym, ap, ◌∙◌}
use native.Mathlib.Nat.{
  pow-suc, pow-succ', one-le-pow, div-div-eq-div-mul, mul-one, div-one, pow-zero, add-zero, add-suc,
  div-add-mod', mod-eq_of_lt,
}
use mathlib.Core.Logic.{◌↔◌}
use native.Mathlib.Omega.{arith}

module _ (rest : ℕ → ℕ) (digit : ℕ → ℕ → ℕ) where
  at_zero : (fuel y : ℕ) → digits rest digit fuel 0 y ≡ rest y
  at_zero zero y = refl
  at_zero (suc fuel) y = refl

  -- Fuel beyond the number itself changes nothing.
  spare_fuel :
      (fuel more x y : ℕ)
      → x ≤ fuel
      → fuel ≤ more
      → digits rest digit more x y ≡ digits rest digit fuel x y
  spare_fuel fuel more zero y enough le = at_zero more y ∙ sym (at_zero fuel y)
  spare_fuel zero more (suc x) y enough le = absurd (omega arith)
  spare_fuel (suc fuel) zero (suc x) y enough le = absurd (omega arith)
  spare_fuel (suc fuel) (suc more) (suc x) y enough le =
      rw (spare_fuel fuel more (suc x / 2) (y / 2) (omega arith) (omega arith))

  lowest_digit :
      (x y : ℕ)
      → bitwise rest digit (suc x) y
        ≡ digit (suc x % 2) (y % 2) + 2 * bitwise rest digit (suc x / 2) (y / 2)
  lowest_digit x y =
      omega (arith, spare_fuel (suc x / 2) x (suc x / 2) (y / 2) (omega arith) (omega arith))

bit_and_halves : (x y : ℕ) → bit_and x y ≡ min (x % 2) (y % 2) + 2 * bit_and (x / 2) (y / 2)
bit_and_halves zero y = simp bit_and-bitwise (omega arith)
bit_and_halves (suc x) y = simp bit_and-bitwise (lowest_digit (λ _. 0) min x y)

pub bit_or_halves : (x y : ℕ) → bit_or x y ≡ max (x % 2) (y % 2) + 2 * bit_or (x / 2) (y / 2)
bit_or_halves zero y = simp bit_or-bitwise (omega arith)
bit_or_halves (suc x) y = simp bit_or-bitwise (lowest_digit (λ t. t) max x y)

-- Bit `i` of a number.
pub testbit : ℕ → ℕ → ℕ
testbit a zero = a % 2
testbit a (suc i) = testbit (a / 2) i

pub testbit-bit_and : (i a b : ℕ) → testbit (bit_and a b) i ≡ min (testbit a i) (testbit b i)
unfolding testbit
testbit-bit_and zero a b = omega (arith, bit_and_halves a b)
testbit-bit_and (suc i) a b =
    ap (λ (t : ℕ). testbit t i) (omega (arith, bit_and_halves a b))
    ∙ testbit-bit_and i (a / 2) (b / 2)

pub testbit-bit_or : (i a b : ℕ) → testbit (bit_or a b) i ≡ max (testbit a i) (testbit b i)
unfolding testbit
testbit-bit_or zero a b = omega (arith, bit_or_halves a b)
testbit-bit_or (suc i) a b =
    ap (λ (t : ℕ). testbit t i) (omega (arith, bit_or_halves a b))
    ∙ testbit-bit_or i (a / 2) (b / 2)

testbit_ext_fuel : (n a b : ℕ) → a ≤ n → b ≤ n → ((i : ℕ) → testbit a i ≡ testbit b i) → a ≡ b
unfolding testbit
testbit_ext_fuel zero a b p q h = omega arith
testbit_ext_fuel (suc n) a b p q h =
    omega
      (arith, h 0, testbit_ext_fuel n (a / 2) (b / 2) (omega arith) (omega arith) (λ i. h (suc i)))

-- A number is its bits.
pub testbit_ext : (a b : ℕ) → ((i : ℕ) → testbit a i ≡ testbit b i) → a ≡ b
testbit_ext a b = testbit_ext_fuel (a + b) a b (omega arith) (omega arith)

pub testbit_zero : (i : ℕ) → testbit 0 i ≡ 0
unfolding testbit
testbit_zero zero = refl
testbit_zero (suc i) = testbit_zero i

pub bit_and-zero : (x : ℕ) → bit_and x 0 ≡ 0
bit_and-zero x = testbit_ext _ _ (λ i. omega (arith, testbit-bit_and i x 0, testbit_zero i))

pub two-pow_pos : (k : ℕ) → 1 ≤ 2 ^ k
two-pow_pos k = one-le-pow k 2 (omega arith)

-- A mask of `m` low bits takes the remainder.
masked_sum : (m high low : ℕ) → low < 2 ^ m → bit_and (high * 2 ^ m + low) (2 ^ m - 1) ≡ low
masked_sum zero high low small = rw bit_and-zero (omega arith)
masked_sum (suc m) high low small = ground (
  arith,
  masked_sum m high (low / 2) (omega arith),
  pow-suc 2 m,
  ap (λ (t : ℕ). high * t) (pow-suc 2 m),
  bit_and_halves (high * 2 ^ suc m + low) (2 ^ suc m - 1),
)

pub low_mask : (m x : ℕ) → bit_and x (2 ^ m - 1) ≡ x % 2 ^ m
low_mask m x = ground (arith, masked_sum m (x / 2 ^ m) (x % 2 ^ m), two-pow_pos m)

div-two-pow-suc : (x k : ℕ) → x / 2 ^ suc k ≡ x / 2 / 2 ^ k
div-two-pow-suc x k = ap (λ (t : ℕ). x / t) (pow-succ' 2 k) ∙ sym (div-div-eq-div-mul x 2 (2 ^ k))

-- A mask with `k` low zeros takes the shifted mask of the shifted value.
pub bit_and-shifted : (k x c : ℕ) → bit_and x (c * 2 ^ k) ≡ bit_and (x / 2 ^ k) c * 2 ^ k
bit_and-shifted zero x c = rw (mul-one c, div-one x, mul-one (bit_and x c))
bit_and-shifted (suc k) x c = rw div-two-pow-suc (
    ground (
      arith,
      bit_and_halves x (c * 2 ^ suc k),
      ap (λ (t : ℕ). c * t) (pow-suc 2 k),
      ap (λ (t : ℕ). bit_and (x / 2 / 2 ^ k) c * t) (pow-suc 2 k),
      bit_and-shifted k (x / 2) c,
    ))

-- `x & (2^(m + k) - 2^k)` clears the `k` low bits, if `x` fits `m + k` bits.
pub high_mask : (k m x : ℕ) → x < 2 ^ m * 2 ^ k → bit_and x ((2 ^ m - 1) * 2 ^ k) + x % 2 ^ k ≡ x
high_mask k m x h = ground (
  arith,
  bit_and-shifted k x (2 ^ m - 1),
  low_mask m (x / 2 ^ k),
  mod-eq_of_lt {n = x / 2 ^ k} {m = 2 ^ m} (div-lt k m x h),
  div-add-mod' x (2 ^ k),
)
  where
    div-lt : (k m x : ℕ) → x < 2 ^ m * 2 ^ k → x / 2 ^ k < 2 ^ m
    div-lt k m x h = grind (arith, div-add-mod' x (2 ^ k))

pub pow-add : (b m n : ℕ) → b ^ (m + n) ≡ b ^ m * b ^ n
pow-add b m zero = rw (add-zero, pow-zero) (sym (mul-one (b ^ m)))
pow-add b m (suc n) =
    ap (λ (t : ℕ). b ^ t) (add-suc m n)
    ∙ pow-suc b (m + n)
    ∙ omega (arith, ap (λ (t : ℕ). t * b) (pow-add b m n), ap (λ (t : ℕ). b ^ m * t) (pow-suc b n))

pub bit_and_comm : (a b : ℕ) → bit_and a b ≡ bit_and b a
bit_and_comm a b =
    testbit_ext _ _ (λ i. omega (arith, testbit-bit_and i a b, testbit-bit_and i b a))

pub bit_and-bit_or : (a b c : ℕ) → bit_and a (bit_or b c) ≡ bit_or (bit_and a b) (bit_and a c)
bit_and-bit_or a b c = testbit_ext _ _ λ i. omega (
  arith,
  testbit-bit_and i a (bit_or b c),
  testbit-bit_or i b c,
  testbit-bit_or i (bit_and a b) (bit_and a c),
  testbit-bit_and i a b,
  testbit-bit_and i a c,
)

pub bit_or_idem : (a : ℕ) → bit_or a a ≡ a
bit_or_idem a = testbit_ext _ _ (λ i. omega (arith, testbit-bit_or i a a))

-- `flags == (have & flags)` of C: every bit of `flags` is set in `have`.
pub includes_iff :
    (have flags : ℕ) → (flags ≡ bit_and have flags) ↔ ((i : ℕ) → testbit flags i ≤ testbit have i)
includes_iff have flags = (forwards, backwards)
  where
    forwards : flags ≡ bit_and have flags → (i : ℕ) → testbit flags i ≤ testbit have i
    forwards e i = omega (arith, testbit-bit_and i have flags, ap (λ (t : ℕ). testbit t i) e)

    backwards : ((i : ℕ) → testbit flags i ≤ testbit have i) → flags ≡ bit_and have flags
    backwards h = testbit_ext _ _ (λ i. omega (arith, testbit-bit_and i have flags, h i))

pub bit_or-zero : (x : ℕ) → bit_or x 0 ≡ x
bit_or-zero x = testbit_ext _ _ (λ i. omega (arith, testbit-bit_or i x 0, testbit_zero i))
