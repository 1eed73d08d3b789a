-- ===== src/Array/Append.antt =====
-- `drv_array_append` adds its item at the end, growing the slots when they are full.
use minigbm.Base.{
  ℕ, zero, suc, ◌+◌, ◌*◌, ◌^◌, ◌≤◌, ◌<◌, ◌≡◌, inl, inr, refl, ap, ap₂, sym, ◌∙◌, false, Option,
  some, List, [], ◌∷◌, ◌++◌, map, length, set, arith, leb, Bool-cases, length-append, leb→le,
}
use mathlib.Core.List.{append_assoc}
use minigbm.Util.{u32}
use minigbm.Array.{DrvArray, drv_array_append, grow, put, resize}
use minigbm.Array.Spec.{Holds, resize-slots, length-map-some, map-append_some}

not_leb : (a b : ℕ) → leb a b ≡ false → b < a
not_leb a b h = ground arith

module _ {ℓ} {A : Type ℓ} where
  -- After `grow` there is a free slot.
  grow-Holds :
      (a : DrvArray A) (xs : List A)
      → Holds a xs
      → length xs < 2 ^ 31
      → (v : Holds (grow a) xs) × (1 ≤ length v.spare)
  unfolding grow
  grow-Holds a xs v h = elim (Bool-cases (leb a.allocations a.size)) [
    | inl full ↦
        let n = u32 (a.allocations * 2) in
        let (spare', e, c) =
          resize-slots n xs v.spare (omega (arith, v.counted, v.allocated, leb→le _ _ full)) in
        rw full (
          record {
            spare = spare';
            slots = ap (resize n) v.slots ∙ e;
            counted = v.counted;
            allocated = c;
            some_slots = omega (arith, v.allocated, v.counted, v.some_slots, leb→le _ _ full);
          },
          omega (arith, c, v.allocated, v.counted, v.some_slots, leb→le _ _ full),
        )
    | inr room ↦
        rw room (v, omega (arith, v.allocated, v.counted, not_leb a.allocations a.size room))
  ]

  set_at_end :
      (ps : List (Option A)) (s v : Option A) (rest : List (Option A)) (i : ℕ)
      → i ≡ length ps
      → set (ps ++ s ∷ rest) i v ≡ ps ++ v ∷ rest
  set_at_end [] s v rest zero h = refl
  set_at_end [] s v rest (suc i) h = absurd (omega arith)
  set_at_end (p ∷ ps) s v rest zero h = absurd (omega arith)
  set_at_end (p ∷ ps) s v rest (suc i) h = ap (λ t. p ∷ t) (set_at_end ps s v rest i (omega arith))

  put_slots :
      (xs : List A) (x : A) (spare : List (Option A))
      → 1 ≤ length spare
      → (spare' : List (Option A)) × (set (map some xs ++ spare) (length xs) (some x)
          ≡ map some (xs ++ x ∷ []) ++ spare')
        × (length spare ≡ suc (length spare'))
  put_slots xs x [] h = absurd (omega arith)
  put_slots xs x (s ∷ spare) h = (
    spare,
    set_at_end (map some xs) s (some x) spare (length xs) (sym (length-map-some xs))
        ∙ sym (append_assoc (map some xs) (some x ∷ []) spare)
        ∙ ap (λ t. t ++ spare) (sym (map-append_some xs (x ∷ []))),
    refl,
  )

  put-Holds :
      (a : DrvArray A) (x : A) (xs : List A) (v : Holds a xs)
      → 1 ≤ length v.spare
      → length xs < 2 ^ 31
      → Holds (put a x) (xs ++ x ∷ [])
  unfolding put
  put-Holds a x xs v h small =
      let (spare', e, c) = put_slots xs x v.spare h in
      record {
        spare = spare';
        slots = ap₂ (λ t n. set t n (some x)) v.slots v.counted ∙ e;
        counted = omega (arith, v.counted, length-append xs (x ∷ []));
        allocated = omega (arith, v.allocated, c, length-append xs (x ∷ []));
        some_slots = v.some_slots;
      }

  -- The item goes to the end of the list.
  pub drv_array_append-Holds :
      (a : DrvArray A) (x : A) (xs : List A)
      → Holds a xs
      → length xs < 2 ^ 31
      → Holds (drv_array_append a x) (xs ++ x ∷ [])
  unfolding drv_array_append
  drv_array_append-Holds a x xs v h =
      let (g, room) = grow-Holds a xs v h in put-Holds (grow a) x xs g room h

  -- The slots grow only when they are full, to twice the items.
  pub allocations-append-le :
      (a : DrvArray A) (x : A) (k : ℕ)
      → a.allocations ≤ 2 * k + 2
      → a.size ≤ k
      → k < 2 ^ 30
      → (drv_array_append a x).allocations ≤ 2 * k + 2
  unfolding drv_array_append
  allocations-append-le a x k h s small = ground arith
