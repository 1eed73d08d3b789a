-- ===== src/Mappings/Find.antt =====
-- The two searches of `drv_bo_map` through the mappings.
use minigbm.Base.{
  ℕ, ◌≤◌, ◌≡◌, refl, ◌∙◌, sym, Bool, true, false, ◌||◌, Option, none, some, List, [], ◌∷◌, arith,
  ◌!=◌, All, Bool-cases, ==_refl, inl, inr,
}
use mathlib.Core.Bool.{false≢true}
use minigbm.Types.{Mapping, Vma, Rectangle}
use minigbm.Mappings.{Maps, find_mapping, find_exact, find_area, same_rect}
use minigbm.Mappings.Sound.{IsSound, refs, items_at, area_of_ref}

module _ (heap : ℕ → Option Vma) where
  -- The area of a mapping is on the heap.
  abbrev pub IsLive : Mapping → Type 0
  IsLive m = (v : Vma) × (heap m.vma ≡ some v)

  IsLive-All :
      (ms : List Mapping)
      → ((p : ℕ) → 1 ≤ refs p ms → (v : Vma) × (heap p ≡ some v))
      → All IsLive ms
  unfolding refs
  IsLive-All [] f = tt
  IsLive-All (m ∷ ms) f = (f m.vma (ground arith), IsLive-All ms (λ p h. f p (omega arith)))

  -- The area of the mapping is for this handle and these flags.
  abbrev pub OfArea : ℕ → ℕ → Mapping → Type 0
  OfArea handle map_flags m =
      (v : Vma) × (heap m.vma ≡ some v) × (v.handle ≡ handle) × (v.map_flags ≡ map_flags)

pub sound-IsLive : (s : Maps) → IsSound s → All (IsLive s.vmas) s.mappings
sound-IsLive s v =
    IsLive-All s.vmas s.mappings (λ p h. let (w, e, c) = area_of_ref s p v h in (w, e))

items_at-find :
    (a : ℕ) (ms : List Mapping) (m : Mapping)
    → find_mapping a ms ≡ some m
    → (1 ≤ items_at a ms) × (m.address ≡ a)
unfolding items_at find_mapping
items_at-find a [] m e = cc
items_at-find a (x ∷ ms) m e = ground (arith, items_at-find a ms m)

find_further :
    (x : Mapping) (ms : List Mapping) (m : Mapping)
    → ((a : ℕ) → items_at a (x ∷ ms) ≤ 1)
    → find_mapping m.address ms ≡ some m
    → find_mapping m.address (x ∷ ms) ≡ some m
unfolding items_at find_mapping
find_further x ms m apart e = ground (arith, apart m.address, items_at-find m.address ms m e)

find_here : (x : Mapping) (ms : List Mapping) → find_mapping x.address (x ∷ ms) ≡ some x
unfolding find_mapping
find_here x ms = rw (==_refl x.address)

apart_tail :
    (x : Mapping) (ms : List Mapping)
    → ((a : ℕ) → items_at a (x ∷ ms) ≤ 1)
    → (a : ℕ) → items_at a ms ≤ 1
unfolding items_at
apart_tail x ms apart a = omega (arith, apart a)

module _ (heap : ℕ → Option Vma) (handle map_flags : ℕ) where
  -- What a search for an area answers.
  pub data AreaFound (ms : List Mapping) : Option Mapping → Type 0 where
    no_area : All (λ m. ¬ OfArea heap handle map_flags m) ms → AreaFound ms none
    an_area :
        (m : Mapping)
        → find_mapping m.address ms ≡ some m
        → OfArea heap handle map_flags m
        → AreaFound ms (some m)

  -- The test of both loops.
  other_area : (v : Vma) → Bool
  other_area v = v.handle != handle || v.map_flags != map_flags

  other_area_lem :
      (m : Mapping) (v : Vma)
      → heap m.vma ≡ some v
      → other_area v ≡ true
      → ¬ OfArea heap handle map_flags m
  unfolding other_area
  other_area_lem m v e t (w, e', h, f) = ground arith

  same_area_lem :
      (m : Mapping) (v : Vma)
      → heap m.vma ≡ some v
      → other_area v ≡ false
      → OfArea heap handle map_flags m
  unfolding other_area
  same_area_lem m v e t = (v, e, ground arith, ground arith)

  further :
      (r : Option Mapping) (x : Mapping) (ms : List Mapping)
      → AreaFound ms r
      → ((a : ℕ) → items_at a (x ∷ ms) ≤ 1)
      → ¬ OfArea heap handle map_flags x
      → AreaFound (x ∷ ms) r
  further r x ms (no_area h) apart n = no_area (n, h)
  further r x ms (an_area m e o) apart n = an_area m (find_further x ms m apart e) o

  -- The search for an area of the handle and the flags aborts nowhere and misses none.
  pub find_area_lem :
      (ms : List Mapping)
      → All (IsLive heap) ms
      → ((a : ℕ) → items_at a ms ≤ 1)
      → (r : Option Mapping) × (find_area heap handle map_flags ms ≡ some r) × AreaFound ms r
  unfolding find_area other_area
  find_area_lem [] live apart = (none, refl, no_area tt)
  find_area_lem (x ∷ ms) ((v, e), live) apart =
      let (r, eq, found) = find_area_lem ms live (apart_tail x ms apart) in
      elim (Bool-cases (other_area v)) [
        | inl other ↦ (r, rw (e, other) eq, further r x ms found apart (other_area_lem x v e other))
        | inr same ↦
            (some x, rw (e, same) refl, an_area x (find_here x ms) (same_area_lem x v e same))
      ]

  -- An exact match is of the area and of the rectangle.
  abbrev pub IsExact : Rectangle → Mapping → Type 0
  IsExact rect m = OfArea heap handle map_flags m × (same_rect rect m.rect ≡ true)

  pub data ExactFound (rect : Rectangle) (ms : List Mapping) : Option Mapping → Type 0 where
    no_exact : All (λ m. ¬ IsExact rect m) ms → ExactFound rect ms none
    an_exact :
        (m : Mapping)
        → find_mapping m.address ms ≡ some m
        → IsExact rect m
        → ExactFound rect ms (some m)

  exact_further :
      (rect : Rectangle) (r : Option Mapping) (x : Mapping) (ms : List Mapping)
      → ExactFound rect ms r
      → ((a : ℕ) → items_at a (x ∷ ms) ≤ 1)
      → ¬ IsExact rect x
      → ExactFound rect (x ∷ ms) r
  exact_further rect r x ms (no_exact h) apart n = no_exact (n, h)
  exact_further rect r x ms (an_exact m e o) apart n = an_exact m (find_further x ms m apart e) o

  -- So for the search for an exact match.
  pub find_exact_lem :
      (rect : Rectangle) (ms : List Mapping)
      → All (IsLive heap) ms
      → ((a : ℕ) → items_at a ms ≤ 1)
      → (r : Option Mapping) × (find_exact heap handle map_flags rect ms ≡ some r)
        × ExactFound rect ms r
  unfolding find_exact other_area
  find_exact_lem rect [] live apart = (none, refl, no_exact tt)
  find_exact_lem rect (x ∷ ms) ((v, e), live) apart =
      let (r, eq, found) = find_exact_lem rect ms live (apart_tail x ms apart) in
      elim (Bool-cases (other_area v)) [
        | inl other ↦ (
          r,
          rw (e, other) eq,
          exact_further rect r x ms found apart (λ o. other_area_lem x v e other o.0),
        )
        | inr same ↦ elim (Bool-cases (same_rect rect x.rect)) [
          | inl exact ↦ (
            some x,
            rw (e, same, exact) refl,
            an_exact x (find_here x ms) (same_area_lem x v e same, exact),
          )
          | inr not_exact ↦ (
            r,
            rw (e, same, not_exact) eq,
            exact_further rect r x ms found apart (λ o. absurd (false≢true (sym not_exact ∙ o.1))),
          )
        ]
      ]
