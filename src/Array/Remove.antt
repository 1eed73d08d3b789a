-- ===== src/Array/Remove.antt =====
-- `drv_array_remove` takes one item out, moves the later ones down and halves the slots that are
-- free, so that the order of the others stays.
use minigbm.Base.{
  ℕ, zero, suc, ◌+◌, ◌-◌, ◌^◌, ◌≤◌, ◌<◌, ◌≡◌, inl, inr, refl, ap, ap₂, sym, subst, ◌∙◌, true, false,
  ◌&&◌, Option, none, some, List, [], ◌∷◌, ◌++◌, map, length, get_or, set, erase_idx, arith, ltb,
  lt→ltb, Bool-cases, length-append,
}
use mathlib.Core.List.{append_assoc}
use minigbm.Util.{div_round_up}
use minigbm.Array.{DrvArray, drv_array_remove, shift_down, shrink, resize}
use minigbm.Array.Spec.{Holds, resize-slots, length-map-some, map-append_some}

shrink_tests : (s half n : ℕ) → (ltb s half && ltb 2 n) ≡ true → (s < half) × (2 < n)
shrink_tests s half n e = ground arith

pub ltb_out : (i n : ℕ) → n ≤ i → ltb i n ≡ false
ltb_out i n h = ground arith

half_bound : (n : ℕ) → 2 < n → n < 2 ^ 32 - 1 → 2 ≤ div_round_up n 2
unfolding div_round_up
half_bound n more h = omega arith

module _ {ℓ} {A : Type ℓ} where
  -- A list around one of its indices.
  pub split_at :
      (xs : List A) (i : ℕ)
      → i < length xs
      → (ys : List A) × (y : A) × (zs : List A) × (xs ≡ ys ++ (y ∷ zs))
        × (length ys ≡ i)
        × (erase_idx xs i ≡ ys ++ zs)
  split_at [] i h = absurd (omega arith)
  split_at (x ∷ xs) zero h = ([], x, xs, refl, refl, refl)
  split_at (x ∷ xs) (suc i) h =
      let (ys, y, zs, e, l, r) = split_at xs i (omega arith) in
      (x ∷ ys, y, zs, ap (λ t. x ∷ t) e, ap suc l, ap (λ t. x ∷ t) r)

module _ {ℓ} {A : Type ℓ} where
  set_middle :
      (ps : List A) (s v : A) (rest : List A) (i : ℕ)
      → i ≡ length ps
      → set (ps ++ s ∷ rest) i v ≡ ps ++ v ∷ rest
  set_middle [] s v rest zero h = refl
  set_middle [] s v rest (suc i) h = absurd (omega arith)
  set_middle (p ∷ ps) s v rest zero h = absurd (omega arith)
  set_middle (p ∷ ps) s v rest (suc i) h = ap (λ t. p ∷ t) (set_middle ps s v rest i (omega arith))

  get_middle :
      (ps : List A) (s t d : A) (rest : List A) (i : ℕ)
      → i ≡ suc (length ps)
      → get_or (ps ++ s ∷ t ∷ rest) i d ≡ t
  get_middle [] s t d rest zero h = absurd (omega arith)
  get_middle [] s t d rest (suc zero) h = refl
  get_middle [] s t d rest (suc (suc i)) h = absurd (omega arith)
  get_middle (p ∷ ps) s t d rest zero h = absurd (omega arith)
  get_middle (p ∷ ps) s t d rest (suc i) h = get_middle ps s t d rest i (omega arith)

module _ {ℓ} {A : Type ℓ} where
  -- The loop closes the gap at the end of `ps`; it leaves one slot more behind.
  shift_down_lem :
      (zs ps : List (Option A)) (gap : Option A) (rest : List (Option A)) (i : ℕ)
      → i ≡ suc (length ps)
      → (last : Option A) × (shift_down (length zs) i (ps ++ (gap ∷ (zs ++ rest)))
          ≡ ps ++ (zs ++ (last ∷ rest)))
  unfolding shift_down
  shift_down_lem [] ps gap rest i h = (gap, refl)
  shift_down_lem (z ∷ zs) ps gap rest i h =
      let (last, e) =
        shift_down_lem zs (ps ++ z ∷ []) z rest (suc i)
          (omega (arith, length-append ps (z ∷ []))) in
      (
        last,
        ap (shift_down (length zs) (suc i)) (
              ap (set (ps ++ (gap ∷ z ∷ (zs ++ rest))) (i - 1))
                (get_middle ps gap z none (zs ++ rest) i h)
              ∙ set_middle ps gap z (z ∷ (zs ++ rest)) (i - 1) (omega arith)
              ∙ sym (append_assoc ps (z ∷ []) (z ∷ (zs ++ rest))))
            ∙ e
            ∙ append_assoc ps (z ∷ []) (zs ++ (last ∷ rest)),
      )

  shrink-Holds :
      (a : DrvArray A) (xs : List A) → Holds a xs → a.allocations < 2 ^ 32 - 1 → Holds (shrink a) xs
  unfolding shrink
  shrink-Holds a xs v h =
      elim (Bool-cases (ltb a.size (div_round_up a.allocations 2) && ltb 2 a.allocations)) [
        | inl halve ↦
            let half = div_round_up a.allocations 2 in
            let (fits, more) = shrink_tests a.size half a.allocations halve in
            let (spare', e, c) = resize-slots half xs v.spare (omega (arith, v.counted, fits)) in
            rw halve (record {
              spare = spare';
              slots = ap (resize half) v.slots ∙ e;
              counted = v.counted;
              allocated = c;
              some_slots = half_bound a.allocations more h;
            })
        | inr keep ↦ rw keep v
      ]

  allocations-shrink-le :
      (a : DrvArray A) → a.allocations < 2 ^ 32 - 1 → (shrink a).allocations ≤ a.allocations
  unfolding shrink div_round_up
  allocations-shrink-le a h = ground arith

  -- The slots of `drv_array_remove` before it shrinks: the gap is closed, a stale slot is left.
  removed_slots :
      (ys zs : List A) (y : A) (spare : List (Option A)) (i size : ℕ)
      → length ys ≡ i
      → size ≡ length (ys ++ (y ∷ zs))
      → (spare' : List (Option A)) × (shift_down
            (size - (i + 1))
            (i + 1)
            (set (map some (ys ++ (y ∷ zs)) ++ spare) i none)
          ≡ map some (ys ++ zs) ++ spare')
        × (length spare' ≡ suc (length spare))
  removed_slots ys zs y spare i size l n =
      let (last, e) =
        shift_down_lem (map some zs) (map some ys) none spare (i + 1)
          (omega (arith, l, length-map-some ys)) in
      (
        last ∷ spare,
        ap₂ (λ k t. shift_down k (i + 1) t) {x = size - (i + 1)} {y = length (map some zs)}
              (omega (arith, l, n, length-append ys (y ∷ zs), length-map-some zs))
              (ap (λ t. set t i none)
                  (ap (λ t. t ++ spare) (map-append_some ys (y ∷ zs))
                    ∙ append_assoc (map some ys) (some y ∷ map some zs) spare)
                ∙ set_middle (map some ys) (some y) none (map some zs ++ spare) i
                    (omega (arith, l, length-map-some ys)))
            ∙ e
            ∙ sym (append_assoc (map some ys) (map some zs) (last ∷ spare))
            ∙ ap (λ t. t ++ (last ∷ spare)) (sym (map-append_some ys zs)),
        refl,
      )

  -- In range, the item at the index is gone, and no slot is added.
  pub drv_array_remove-Holds :
      (a : DrvArray A) (xs : List A) (i : ℕ)
      → Holds a xs
      → a.allocations < 2 ^ 32 - 1
      → i < length xs
      → (a' : DrvArray A) × (drv_array_remove a i ≡ some a')
        × Holds a' (erase_idx xs i)
        × (a'.allocations ≤ a.allocations)
  unfolding drv_array_remove
  drv_array_remove-Holds a xs i v h inside =
      let (ys, y, zs, e, l, r) = split_at xs i inside in
      let (spare', slots, c) = removed_slots ys zs y v.spare i a.size l (v.counted ∙ ap length e) in
      let items_eq : a.items ≡ map some (ys ++ (y ∷ zs)) ++ v.spare =
        v.slots ∙ ap (λ t. map some t ++ v.spare) e in
      let shifted = shift_down (a.size - (i + 1)) (i + 1) (set a.items i none) in
      let b : DrvArray A = record a { items = shifted; size = a.size - 1 } in
      let held : Holds b (ys ++ zs) = record {
        spare = spare';
        slots = ap (λ t. shift_down (a.size - (i + 1)) (i + 1) (set t i none)) items_eq ∙ slots;
        counted =
            omega (arith, v.counted, ap length e, length-append ys (y ∷ zs), length-append ys zs);
        allocated =
            omega
              (arith, v.allocated, c, ap length e, length-append ys (y ∷ zs), length-append ys zs);
        some_slots = v.some_slots;
      } in
      (
        shrink b,
        rw (lt→ltb i a.size (omega (arith, v.counted))),
        subst (Holds (shrink b)) (sym r) (shrink-Holds b (ys ++ zs) held h),
        allocations-shrink-le b h,
      )

  -- Out of range the assertion fails.
  pub drv_array_remove_out :
      (a : DrvArray A) (xs : List A) (i : ℕ)
      → Holds a xs
      → length xs ≤ i
      → drv_array_remove a i ≡ none
  unfolding drv_array_remove
  drv_array_remove_out a xs i v out = rw (ltb_out i a.size (omega (arith, v.counted)))
