-- ===== src/Array.antt =====
-- helpers_array.c: the growable array of items. An allocation is taken to succeed, as the code does
-- (`drv_array_remove` and `drv_array_append` only assert it).
pub mod Spec
pub mod Append
pub mod Remove
pub mod Refine
use minigbm.Base.{
  ℕ, zero, suc, ◌+◌, ◌-◌, ◌*◌, ◌<◌, Bool, ◌&&◌, Option, none, some, List, [], ◌∷◌, get_or, set,
  replicate, ltb, leb, if◌then◌else◌, ◌>>=◌, ◌>>◌, assert,
}
use minigbm.Util.{u32, div_round_up}

-- `struct drv_array`: a slot is NULL (`none`) or holds an item. `item_size` is the size of the
-- type of items, and does not change.
pub record DrvArray {ℓ} (A : Type ℓ) : Type ℓ where
  pub items : List (Option A)
  pub size : ℕ
  pub allocations : ℕ

module _ {ℓ} {A : Type ℓ} where
  -- `realloc` to a number of slots; those that it adds hold nothing yet.
  unfoldable pub resize : ℕ → List (Option A) → List (Option A)
  resize zero xs = []
  resize (suc n) [] = none ∷ resize n []
  resize (suc n) (x ∷ xs) = x ∷ resize n xs

  unfoldable pub drv_array_init : DrvArray A
  drv_array_init = record { items = replicate 2 none; size = 0; allocations = 2 }

  -- `if (array->size >= array->allocations)`: double the slots.
  pub grow : DrvArray A → DrvArray A
  grow a =
      if leb a.allocations a.size
      then record a {
        allocations = u32 (a.allocations * 2);
        items = resize (u32 (a.allocations * 2)) a.items;
      }
      else a

  pub put : DrvArray A → A → DrvArray A
  put a x = record a { items = set a.items a.size (some x); size = u32 (a.size + 1) }

  unfoldable pub drv_array_append : DrvArray A → A → DrvArray A
  unfolding grow put resize
  drv_array_append a x = put (grow a) x

  -- `items[i - 1] = items[i]` for the number of rounds left, from `i` on.
  unfoldable pub shift_down : ℕ → ℕ → List (Option A) → List (Option A)
  shift_down zero i items = items
  shift_down (suc rest) i items = shift_down rest (suc i) (set items (i - 1) (get_or items i none))

  -- `if (DIV_ROUND_UP(allocations, 2) > size && allocations > 2)`: halve the slots.
  unfoldable pub shrink : DrvArray A → DrvArray A
  shrink a =
      let half = div_round_up a.allocations 2 in
      if ltb a.size half && ltb 2 a.allocations
      then record a { allocations = half; items = resize half a.items }
      else a

  unfoldable pub drv_array_remove : DrvArray A → ℕ → Option (DrvArray A)
  drv_array_remove a idx = do
    assert (ltb idx a.size)
    let cleared = set a.items idx none
    let shifted = shift_down (a.size - (idx + 1)) (idx + 1) cleared
    some (shrink (record a { items = shifted; size = a.size - 1 }))

  -- A NULL slot would be an abort of the caller, which reads through the pointer.
  unfoldable pub drv_array_at_idx : DrvArray A → ℕ → Option A
  drv_array_at_idx a idx = do assert (ltb idx a.size); get_or a.items idx none

  unfoldable pub drv_array_size : DrvArray A → ℕ
  drv_array_size a = a.size
