-- ===== src/Array/Refine.antt =====
-- A growable array behaves as the list of its items under any sequence of calls.
use minigbm.Base.{
  ℕ, ◌+◌, ◌*◌, ◌^◌, ◌≤◌, ◌<◌, Option, none, some, List, [], ◌∷◌, ◌++◌, length, erase_idx, arith,
  length-append, if◌then◌else◌, ltb, lt→ltb, length-erase_idx, ◌>>=◌,
}
use native.Mathlib.Decide.{dec_lt}
use minigbm.Array.{DrvArray, drv_array_init, drv_array_append, drv_array_remove}
use minigbm.Array.Spec.{Holds, drv_array_init-Holds}
use minigbm.Array.Append.{drv_array_append-Holds, allocations-append-le}
use minigbm.Array.Remove.{drv_array_remove-Holds, drv_array_remove_out, ltb_out}

-- A call that changes an array.
pub data Call {ℓ} (A : Type ℓ) : Type ℓ where
  append : A → Call A
  remove : ℕ → Call A

module _ {ℓ} {A : Type ℓ} where
  -- The calls on the array; `none` once an assertion has failed.
  unfoldable pub run : DrvArray A → List (Call A) → Option (DrvArray A)
  run a [] = some a
  run a (append x ∷ calls) = run (drv_array_append a x) calls
  run a (remove i ∷ calls) = drv_array_remove a i >>= λ a'. run a' calls

  -- The same calls on a list.
  unfoldable pub run_list : List A → List (Call A) → Option (List A)
  run_list xs [] = some xs
  run_list xs (append x ∷ calls) = run_list (xs ++ x ∷ []) calls
  run_list xs (remove i ∷ calls) =
      let rest = run_list (erase_idx xs i) calls in if ltb i (length xs) then rest else none

  -- Both abort, or both give the same items.
  pub data Agree : Option (DrvArray A) → Option (List A) → Type ℓ where
    both_abort : Agree none none
    both_hold : {a : DrvArray A} {xs : List A} → Holds a xs → Agree (some a) (some xs)

  run_agrees :
      (k : ℕ) (calls : List (Call A)) (a : DrvArray A) (xs : List A)
      → Holds a xs
      → k < 2 ^ 30
      → length xs + length calls ≤ k
      → a.allocations ≤ 2 * k + 2
      → Agree (run a calls) (run_list xs calls)
  unfolding run run_list
  run_agrees k [] a xs v small h alloc = both_hold v
  run_agrees k (append x ∷ calls) a xs v small h alloc =
      run_agrees k calls (drv_array_append a x) (xs ++ x ∷ [])
        (drv_array_append-Holds a x xs v (omega arith)) small
        (omega (arith, length-append xs (x ∷ [])))
        (allocations-append-le a x k alloc (omega (arith, v.counted)) small)
  run_agrees k (remove i ∷ calls) a xs v small h alloc = elim (dec_lt i (length xs)) [
    | yes inside ↦
        let (a', e, v', fewer) = drv_array_remove-Holds a xs i v (omega arith) inside in
        rw (e, lt→ltb i (length xs) inside)
          (run_agrees k calls a' (erase_idx xs i) v' small
            (omega (arith, length-erase_idx xs i inside)) (omega (arith, fewer)))
    | no outside ↦
        rw (drv_array_remove_out a xs i v (omega arith), ltb_out i (length xs) (omega arith))
          both_abort
  ]

  -- Any sequence of fewer than 2^30 appends and removals on a new growable array gives the items
  -- that the list operations give, and aborts exactly where an index is out of the list.
  pub run_refines :
      (calls : List (Call A))
      → length calls < 2 ^ 30
      → Agree (run drv_array_init calls) (run_list [] calls)
  unfolding drv_array_init
  run_refines calls h =
      run_agrees (length calls) calls drv_array_init [] drv_array_init-Holds h (omega arith)
        (omega arith)
