-- ===== src/Array/Spec.antt =====
-- What an array of helpers_array.c stands for: the list of its items.
use minigbm.Base.{
  ℕ, zero, suc, ◌+◌, ◌≤◌, ◌<◌, ◌≡◌, refl, ap, Option, none, some, List, [], ◌∷◌, ◌++◌, map, length,
  get_or, get_elem?, replicate, arith, lt→ltb,
}
use native.Mathlib.Decide.{dec_lt}
use minigbm.Array.{DrvArray, drv_array_init, drv_array_at_idx, resize}

module _ {ℓ} {A : Type ℓ} where
  -- The slots hold the items of the list in order, and `allocations` counts the slots.
  pub record Holds (a : DrvArray A) (xs : List A) : Type ℓ where
    pub spare : List (Option A)
    pub slots : a.items ≡ map some xs ++ spare
    pub counted : a.size ≡ length xs
    pub allocated : a.allocations ≡ length xs + length spare
    pub some_slots : 2 ≤ a.allocations

  pub drv_array_init-Holds : Holds drv_array_init []
  unfolding drv_array_init
  drv_array_init-Holds = record {
    spare = replicate 2 none;
    slots = refl;
    counted = refl;
    allocated = refl;
    some_slots = omega arith;
  }

  get_or-slots :
      (xs : List A) (spare : List (Option A)) (i : ℕ)
      → i < length xs
      → get_or (map some xs ++ spare) i none ≡ get_elem? xs i
  get_or-slots [] spare i h = absurd (omega arith)
  get_or-slots (x ∷ xs) spare zero h = refl
  get_or-slots (x ∷ xs) spare (suc i) h = get_or-slots xs spare i (omega arith)

  get_elem?-out : (xs : List A) (i : ℕ) → length xs ≤ i → get_elem? xs i ≡ none
  get_elem?-out [] i h = refl
  get_elem?-out (x ∷ xs) zero h = absurd (omega arith)
  get_elem?-out (x ∷ xs) (suc i) h = get_elem?-out xs i (omega arith)

  -- An access to an array that holds a list reads the item of the list, and aborts out of its
  -- range.
  pub drv_array_at_idx-Holds :
      (a : DrvArray A) (xs : List A) (i : ℕ) → Holds a xs → drv_array_at_idx a i ≡ get_elem? xs i
  unfolding drv_array_at_idx
  drv_array_at_idx-Holds a xs i v = elim (dec_lt i (length xs)) [
    | yes h ↦ rw (v.slots, lt→ltb i a.size (omega (arith, v.counted))) (get_or-slots xs v.spare i h)
    | no h ↦ rw (get_elem?-out xs i (omega arith)) (ground (arith, v.counted))
  ]

  pub length-map-some : (xs : List A) → length (map some xs) ≡ length xs
  length-map-some [] = refl
  length-map-some (x ∷ xs) = ap suc (length-map-some xs)

  pub map-append_some : (xs ys : List A) → map some (xs ++ ys) ≡ map some xs ++ map some ys
  map-append_some [] ys = refl
  map-append_some (x ∷ xs) ys = ap (λ t. some x ∷ t) (map-append_some xs ys)

  length-resize : (n : ℕ) (ys : List (Option A)) → length (resize n ys) ≡ n
  unfolding resize
  length-resize zero ys = refl
  length-resize (suc n) [] = ap suc (length-resize n [])
  length-resize (suc n) (y ∷ ys) = ap suc (length-resize n ys)

  -- `realloc` keeps the items as long as they fit.
  pub resize-slots :
      (n : ℕ) (xs : List A) (spare : List (Option A))
      → length xs ≤ n
      → (spare' : List (Option A)) × (resize n (map some xs ++ spare) ≡ map some xs ++ spare')
        × (n ≡ length xs + length spare')
  unfolding resize
  resize-slots n [] spare h = (resize n spare, refl, omega (arith, length-resize n spare))
  resize-slots zero (x ∷ xs) spare h = absurd (omega arith)
  resize-slots (suc n) (x ∷ xs) spare h =
      let (spare', e, c) = resize-slots n xs spare (omega arith) in
      (spare', ap (λ t. some x ∷ t) e, omega arith)
