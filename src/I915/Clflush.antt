-- ===== src/I915/Clflush.antt =====
-- i915.c: `i915_clflush`, the lines that it flushes. A pointer has 64 bits.
use minigbm.Base.{
  ℕ, zero, suc, ◌+◌, ◌-◌, ◌*◌, ◌/◌, ◌%◌, ◌≤◌, ◌<◌, ◌≡◌, inl, inr, false, List, [], ◌∷◌, All,
  bit_and, ltb, arith, if◌then◌else◌, Bool-cases, All-map, subst, high_mask, ltb→lt,
}
use minigbm.Util.{u64_mod}

abbrev pub i915_cacheline_size : ℕ
i915_cacheline_size = 64

-- `~I915_CACHELINE_MASK`, of 64 bits
abbrev pub cacheline_clear : ℕ
cacheline_clear = u64_mod - 1 - (i915_cacheline_size - 1)

-- The loop, on fuel: the lines in the order in which they are flushed.
unfoldable pub flush_from : ℕ → ℕ → ℕ → List ℕ
flush_from zero p end = []
flush_from (suc fuel) p end =
    let rest = flush_from fuel ((p + i915_cacheline_size) % u64_mod) end in
    if ltb p end then p ∷ rest else []

-- A round is a line, so that two more than fill the area are enough.
unfoldable pub i915_clflush : ℕ → ℕ → List ℕ
i915_clflush start size =
    flush_from (size / i915_cacheline_size + 2) (bit_and start cacheline_clear)
      ((start + size) % u64_mod)

-- The line is flushed.
pub data Flushed (line : ℕ) : List ℕ → Type 0 where
  now : {lines : List ℕ} → Flushed line (line ∷ lines)
  later : {first : ℕ} {lines : List ℕ} → Flushed line lines → Flushed line (first ∷ lines)

-- What is flushed: every line between the two addresses, and nothing else.
pub record Covers (p end : ℕ) (lines : List ℕ) : Type 0 where
  pub complete : (k : ℕ) → p + k * 64 < end → Flushed (p + k * 64) lines
  pub inside : All (λ line. (p ≤ line) × (line < end) × ((line - p) % 64 ≡ 0)) lines

covered :
    (p end : ℕ) (lines : List ℕ) → Covers (p + 64) end lines → p < end → Covers p end (p ∷ lines)
covered p end lines rest lt = record {
  complete = first_or_later;
  inside =
      ((omega arith, lt, omega arith), All-map _ _ lines (λ line h. further line h) rest.inside);
}
  where
    further :
        (line : ℕ)
        → (p + 64 ≤ line) × (line < end) × ((line - (p + 64)) % 64 ≡ 0)
        → (p ≤ line) × (line < end) × ((line - p) % 64 ≡ 0)
    further line (le, small, e) = (omega arith, small, omega arith)

    first_or_later : (k : ℕ) → p + k * 64 < end → Flushed (p + k * 64) (p ∷ lines)
    first_or_later zero small = subst (λ t. Flushed t (p ∷ lines)) {x = p} (omega arith) now
    first_or_later (suc k) small =
        subst (λ t. Flushed t (p ∷ lines)) {x = p + 64 + k * 64} (omega arith)
          (later (rest.complete k (omega arith)))

flush_from_lem :
    (fuel p end : ℕ)
    → end + 64 ≤ u64_mod
    → end ≤ p + fuel * 64
    → Covers p end (flush_from fuel p end)
unfolding flush_from
flush_from_lem zero p end room enough = record {
  complete = λ k small. absurd (omega arith);
  inside = tt;
}
flush_from_lem (suc fuel) p end room enough = elim (Bool-cases (ltb p end)) [
  | inl more ↦
      let lt : p < end = ltb→lt p end more in
      let next : (p + i915_cacheline_size) % u64_mod ≡ p + 64 = omega (arith, lt) in
      rw (more, next) (covered p end _ (flush_from_lem fuel (p + 64) end room (omega arith)) lt)
  | inr done ↦
      let le : end ≤ p = not_below p end done in
      rw done (record { complete = λ k small. absurd (omega (arith, le)); inside = tt })
]
  where
    not_below : (p end : ℕ) → ltb p end ≡ false → end ≤ p
    not_below p end h = ground arith

-- For an area that ends at least a cache line before 2^64, the loop of `i915_clflush` has enough
-- fuel: it flushes every cache line from that of the first byte to the end of the area, and each
-- line that it flushes lies there, on the boundary of a line.
pub i915_clflush_lem :
    (start size : ℕ)
    → start + size + 64 ≤ u64_mod
    → Covers (start / 64 * 64) (start + size) (i915_clflush start size)
unfolding i915_clflush
i915_clflush_lem start size room =
    let cleared : bit_and start cacheline_clear ≡ start / 64 * 64 =
      omega (arith, high_mask 6 58 start (omega arith)) in
    let sum : (start + size) % u64_mod ≡ start + size = omega arith in
    rw (cleared, sum)
      (flush_from_lem (size / 64 + 2) (start / 64 * 64) (start + size) room (omega arith))
