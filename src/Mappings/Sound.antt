-- ===== src/Mappings/Sound.antt =====
-- The invariant of the mappings: every area on the heap counts the mappings that refer to it.
use minigbm.Base.{
  ℕ, ◌+◌, ◌^◌, ◌≤◌, ◌<◌, ◌≡◌, refl, ap, ◌∙◌, Option, none, some, List, [], ◌∷◌, ◌++◌, arith, ◌==◌,
  if◌then◌else◌, All, Option-cases, Bool-cases, subst, sym, All-append, inl, inr,
}
use minigbm.Types.{Mapping, Vma}
use minigbm.Mappings.{Maps, find_mapping, set_refcount, remove_mapping, update}

-- How many mappings refer to an area, and how many items lie at an address.
unfoldable pub refs : ℕ → List Mapping → ℕ
refs p [] = 0
refs p (m ∷ ms) = (if m.vma == p then 1 else 0) + refs p ms

unfoldable pub items_at : ℕ → List Mapping → ℕ
items_at a [] = 0
items_at a (m ∷ ms) = (if m.address == a then 1 else 0) + items_at a ms

-- The count that an area holds; one that is not on the heap has none.
abbrev pub refcount_of : Option Vma → ℕ
refcount_of none = 0
refcount_of (some v) = v.refcount

pub record IsSound (s : Maps) : Type 0 where
  -- every area counts its mappings
  pub counted : (p : ℕ) → refcount_of (s.vmas p) ≡ refs p s.mappings
  -- an area on the heap is in use
  pub in_use : (p : ℕ) (v : Vma) → s.vmas p ≡ some v → 1 ≤ v.refcount
  -- so is a mapping; and no count wraps
  pub held : All (λ m. (1 ≤ m.refcount) × (m.refcount < 2 ^ 32)) s.mappings
  pub small : (p : ℕ) → refs p s.mappings < 2 ^ 31
  -- no two items lie at one address, and what `calloc` returns next is fresh
  pub apart : (a : ℕ) → items_at a s.mappings ≤ 1
  pub fresh_area : (p : ℕ) → s.next ≤ p → s.vmas p ≡ none
  pub fresh_item : (a : ℕ) → s.next ≤ a → items_at a s.mappings ≡ 0

pub refs-append :
    (p : ℕ) (ms : List Mapping) (m : Mapping)
    → refs p (ms ++ m ∷ []) ≡ refs p ms + (if m.vma == p then 1 else 0)
unfolding refs
refs-append p [] m = omega arith
refs-append p (x ∷ ms) m = omega (arith, refs-append p ms m)

pub items_at-append :
    (a : ℕ) (ms : List Mapping) (m : Mapping)
    → items_at a (ms ++ m ∷ []) ≡ items_at a ms + (if m.address == a then 1 else 0)
unfolding items_at
items_at-append a [] m = omega arith
items_at-append a (x ∷ ms) m = omega (arith, items_at-append a ms m)

-- A write of a count moves no reference.
pub refs-set_refcount : (p a n : ℕ) (ms : List Mapping) → refs p (set_refcount a n ms) ≡ refs p ms
unfolding refs set_refcount
refs-set_refcount p a n [] = refl
refs-set_refcount p a n (m ∷ ms) = ground (arith, refs-set_refcount p a n ms)

pub items_at-set_refcount :
    (b a n : ℕ) (ms : List Mapping) → items_at b (set_refcount a n ms) ≡ items_at b ms
unfolding items_at set_refcount
items_at-set_refcount b a n [] = refl
items_at-set_refcount b a n (m ∷ ms) = ground (arith, items_at-set_refcount b a n ms)

-- Removing an item takes its reference away.
pub refs-remove :
    (p a : ℕ) (ms : List Mapping) (m : Mapping)
    → find_mapping a ms ≡ some m
    → refs p ms ≡ refs p (remove_mapping a ms) + (if m.vma == p then 1 else 0)
unfolding refs find_mapping remove_mapping
refs-remove p a [] m e = cc
refs-remove p a (x ∷ ms) m e = ground (arith, refs-remove p a ms m)

pub items_at-remove-le :
    (b a : ℕ) (ms : List Mapping) → items_at b (remove_mapping a ms) ≤ items_at b ms
unfolding items_at remove_mapping
items_at-remove-le b a [] = omega arith
items_at-remove-le b a (x ∷ ms) = ground (arith, items_at-remove-le b a ms)

module _ {κ} (P : Mapping → Type κ) where
  pub All-remove : (a : ℕ) (ms : List Mapping) → All P ms → All P (remove_mapping a ms)
  unfolding remove_mapping
  All-remove a [] h = tt
  All-remove a (x ∷ ms) h = elim (Bool-cases (x.address == a)) [
    | inl e ↦ rw e h.1
    | inr e ↦ rw e (h.0, All-remove a ms h.1)
  ]

  pub All-set_refcount :
      (a n : ℕ) (ms : List Mapping)
      → ((m : Mapping) → P m → P (record m { refcount = n }))
      → All P ms
      → All P (set_refcount a n ms)
  unfolding set_refcount
  All-set_refcount a n [] f h = tt
  All-set_refcount a n (x ∷ ms) f h = elim (Bool-cases (x.address == a)) [
    | inl e ↦ rw e (f x h.0, h.1)
    | inr e ↦ rw e (h.0, All-set_refcount a n ms f h.1)
  ]

  pub All-find :
      (a : ℕ) (ms : List Mapping) (m : Mapping) → All P ms → find_mapping a ms ≡ some m → P m
  unfolding find_mapping
  All-find a [] m h e = cc
  All-find a (x ∷ ms) m h e = elim (Bool-cases (x.address == a)) [
    | inl y ↦ subst P (ground arith) h.0
    | inr y ↦ All-find a ms m h.1 (ground arith)
  ]

-- A mapping in the list refers to an area on the heap.
pub refs-find :
    (a : ℕ) (ms : List Mapping) (m : Mapping) → find_mapping a ms ≡ some m → 1 ≤ refs m.vma ms
unfolding refs find_mapping
refs-find a [] m e = cc
refs-find a (x ∷ ms) m e = ground (arith, refs-find a ms m)

pub area_of_ref :
    (s : Maps) (p : ℕ)
    → IsSound s
    → 1 ≤ refs p s.mappings
    → (v : Vma) × (s.vmas p ≡ some v) × (v.refcount ≡ refs p s.mappings)
area_of_ref s p sound h = elim (Option-cases (s.vmas p)) [
  | inl e ↦ absurd (omega (arith, sound.counted p, ap refcount_of e))
  | inr (v, e) ↦ (v, e, omega (arith, sound.counted p, ap refcount_of e))
]

-- A write of a count in range keeps the invariant.
pub set_refcount-IsSound :
    (s : Maps) (a n : ℕ)
    → IsSound s
    → 1 ≤ n
    → n < 2 ^ 32
    → IsSound (record s { mappings = set_refcount a n s.mappings })
set_refcount-IsSound s a n v pos lt = record {
  counted = λ p. v.counted p ∙ sym (refs-set_refcount p a n s.mappings);
  in_use = v.in_use;
  held = All-set_refcount _ a n s.mappings (λ m h. (pos, lt)) v.held;
  small = λ p. omega (arith, refs-set_refcount p a n s.mappings, v.small p);
  apart = λ b. omega (arith, items_at-set_refcount b a n s.mappings, v.apart b);
  fresh_area = v.fresh_area;
  fresh_item = λ b h. items_at-set_refcount b a n s.mappings ∙ v.fresh_item b h;
}

-- So does a new mapping of an area that counts it.
pub add_item-IsSound :
    (s : Maps) (p n : ℕ) (w : Vma) (item : Mapping)
    → IsSound s
    → item.vma ≡ p
    → item.refcount ≡ 1
    → s.next ≤ item.address
    → item.address < n
    → p < n
    → w.refcount ≡ refs p s.mappings + 1
    → w.refcount < 2 ^ 31
    → IsSound
        (record { mappings = s.mappings ++ item ∷ []; vmas = update s.vmas p (some w); next = n })
add_item-IsSound s p n w item v ep er ha hn hp ew hw = record {
  counted = λ q. ground (arith, refs-append q s.mappings item, v.counted q);
  in_use = λ q u e. ground (arith, v.in_use q u);
  held = All-append _ s.mappings (item ∷ []) v.held ((omega arith, omega arith), tt);
  small = λ q. ground (arith, refs-append q s.mappings item, v.small q);
  apart = λ b. ground (arith, items_at-append b s.mappings item, v.apart b, v.fresh_item b);
  fresh_area = λ q h. ground (arith, v.fresh_area q);
  fresh_item = λ b h. ground (arith, items_at-append b s.mappings item, v.fresh_item b);
}
