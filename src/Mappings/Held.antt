-- ===== src/Mappings/Held.antt =====
-- How many references the mapping at an address holds.
use minigbm.Base.{
  ℕ, ◌+◌, ◌≡◌, some, List, [], ◌∷◌, ◌++◌, arith, ◌==◌, if◌then◌else◌, Bool-cases, inl, inr, ap,
}
use minigbm.Types.{Mapping}
use minigbm.Mappings.{find_mapping, set_refcount}
use minigbm.Mappings.Sound.{items_at}

unfoldable pub held_at : ℕ → List Mapping → ℕ
held_at a [] = 0
held_at a (m ∷ ms) = if m.address == a then m.refcount else held_at a ms

held_at-found :
    (a : ℕ) (ms : List Mapping) (m : Mapping)
    → find_mapping a ms ≡ some m
    → held_at a ms ≡ m.refcount
unfolding held_at find_mapping
held_at-found a [] m e = cc
held_at-found a (x ∷ ms) m e = elim (Bool-cases (x.address == a)) [
  | inl here ↦ rw here (ap (λ (t : Mapping). t.refcount) {x = x} {y = m} (ground arith))
  | inr there ↦ rw there (held_at-found a ms m (ground arith))
]

-- A write of the count of a mapping that is there changes no other.
held_at-set_refcount :
    (b a n : ℕ) (ms : List Mapping) (m : Mapping)
    → find_mapping a ms ≡ some m
    → held_at b (set_refcount a n ms) ≡ (if a == b then n else held_at b ms)
unfolding held_at find_mapping set_refcount
held_at-set_refcount b a n [] m e = cc
held_at-set_refcount b a n (x ∷ ms) m e = ground (arith, held_at-set_refcount b a n ms m)

pub held_at-reused :
    (b a : ℕ) (ms : List Mapping) (m : Mapping)
    → find_mapping a ms ≡ some m
    → held_at b (set_refcount a (m.refcount + 1) ms) ≡ held_at b ms + (if a == b then 1 else 0)
held_at-reused b a ms m e = ground (
  arith,
  held_at-set_refcount b a (m.refcount + 1) ms m e,
  held_at-found a ms m e,
  ap (λ (t : ℕ). held_at t ms) {x = a} {y = b},
)

-- A new mapping at a free address holds one, and changes no other.
pub held_at-append :
    (b : ℕ) (ms : List Mapping) (item : Mapping)
    → items_at item.address ms ≡ 0
    → item.refcount ≡ 1
    → held_at b (ms ++ item ∷ []) ≡ held_at b ms + (if item.address == b then 1 else 0)
unfolding held_at items_at
held_at-append b [] item free one = ground arith
held_at-append b (x ∷ ms) item free one = ground (arith, held_at-append b ms item)
