-- ===== src/Mappings.antt =====
-- drv.c and helpers.c: the mappings of buffers into memory, `drv->mappings`, and the areas
-- (`struct vma`) that they share. The array is the list of its items, and the areas lie on an
-- explicit heap: reading one that is not there is an abort. The driver lock makes each function one
-- step.
pub mod Sound
pub mod Held
pub mod Find
pub mod Unmap
pub mod Map
pub mod Keeps
pub mod Teardown
pub mod Destroy
use minigbm.Base.{
  ℕ, zero, suc, ◌+◌, ◌-◌, ◌%◌, ◌^◌, Bool, true, false, not, ◌&&◌, ◌||◌, Option, none, some, List,
  [], ◌∷◌, ◌++◌, replicate, get_or, bit_and, ltb, leb, ◌==◌, ◌!=◌, if◌then◌else◌, ◌>>=◌, ◌>>◌,
  assert,
}
use minigbm.Util.{u32, u32_mod}
use minigbm.Flags.{bo_use_protected, bo_map_read_write}
use minigbm.Types.{Bo, Metadata, Mapping, Rectangle, Vma, drv_max_planes}
use minigbm.Kernel.{Sys}
use minigbm.Backend.{Backend}

-- The mappings, the heap of areas, and the next free address of `calloc`.
pub record Maps : Type 0 where
  pub mappings : List Mapping
  pub vmas : ℕ → Option Vma
  pub next : ℕ

abbrev pub update : (ℕ → Option Vma) → ℕ → Option Vma → ℕ → Option Vma
update heap p v q = if p == q then v else heap q

-- `x > 0` for the 32 bits of an `int32_t`
abbrev pub is_positive32 : ℕ → Bool
is_positive32 x = ltb 0 x && ltb x (2 ^ 31)

-- `--x` on 32 bits
abbrev pub decrement32 : ℕ → ℕ
decrement32 x = (x + (u32_mod - 1)) % u32_mod

-- The item that a pointer points to.
unfoldable pub find_mapping : ℕ → List Mapping → Option Mapping
find_mapping a [] = none
find_mapping a (m ∷ ms) = if m.address == a then some m else find_mapping a ms

-- A write of its `refcount`.
unfoldable pub set_refcount : ℕ → ℕ → List Mapping → List Mapping
set_refcount a n [] = []
set_refcount a n (m ∷ ms) =
    if m.address == a then record m { refcount = n } ∷ ms else m ∷ set_refcount a n ms

-- The loop that takes the item out of the array.
unfoldable pub remove_mapping : ℕ → List Mapping → List Mapping
remove_mapping a [] = []
remove_mapping a (m ∷ ms) = if m.address == a then ms else m ∷ remove_mapping a ms

abbrev pub same_rect : Rectangle → Rectangle → Bool
same_rect r q = (r.x == q.x && r.y == q.y) && (r.width == q.width && r.height == q.height)

module _ (heap : ℕ → Option Vma) (handle map_flags : ℕ) where
  -- The first loop of `drv_bo_map`: a mapping of the same rectangle of the same area.
  unfoldable pub find_exact : Rectangle → List Mapping → Option (Option Mapping)
  find_exact rect [] = some none
  find_exact rect (m ∷ ms) = do
    prior ← heap m.vma
    let rest = find_exact rect ms
    if prior.handle != handle || prior.map_flags != map_flags
        then rest
        else (if same_rect rect m.rect then some (some m) else rest)

  -- The second loop: a mapping of the same area.
  unfoldable pub find_area : List Mapping → Option (Option Mapping)
  find_area [] = some none
  find_area (m ∷ ms) = do
    prior ← heap m.vma
    let rest = find_area ms
    if prior.handle != handle || prior.map_flags != map_flags then rest else some (some m)

-- What `drv_bo_map` returns: the address, and the mapping through `map_data`.
pub record Mapped : Type 0 where
  pub addr : ℕ
  pub map_data : ℕ

-- `goto success`: a new mapping of an area that is already mapped. The count of an area is signed;
-- adding to the greatest one is undefined, and taken as an abort.
unfoldable pub share_area : Mapping → Rectangle → Maps → Option (Mapping × Maps)
share_area prior rect s = do
  vma ← s.vmas prior.vma
  assert (vma.refcount != 2 ^ 31 - 1)
  let item : Mapping = record { address = s.next; vma = prior.vma; rect = rect; refcount = 1 }
  some (
    item,
    record {
      mappings = s.mappings ++ item ∷ [];
      vmas = update s.vmas prior.vma (some (record vma { refcount = u32 (vma.refcount + 1) }));
      next = s.next + 1;
    },
  )

-- The assertions of `drv_bo_map`.
abbrev pub map_asserts : Bo → Rectangle → ℕ → Option (Unit {0})
map_asserts bo rect map_flags = do
  assert (leb (u32 (rect.x + rect.width)) bo.meta.width)
  assert (leb (u32 (rect.y + rect.height)) bo.meta.height)
  assert (bit_and bo_map_read_write map_flags != 0)
  assert (bit_and bo.meta.use_flags bo_use_protected == 0)

module _ (backend : Backend) where
  unfoldable pub drv_bo_invalidate : Bo → Mapping → Maps → Sys → Option (ℕ × Sys)
  drv_bo_invalidate bo mapping s sys = do
    vma ← s.vmas mapping.vma
    assert (ltb 0 mapping.refcount)
    assert (is_positive32 vma.refcount)
    some (elim backend.bo_invalidate [ none ↦ (0, sys) | some f ↦ f bo mapping vma sys ])

  unfoldable pub drv_bo_flush : Bo → ℕ → Maps → Sys → Option (ℕ × Sys)
  drv_bo_flush bo a s sys = do
    mapping ← find_mapping a s.mappings
    vma ← s.vmas mapping.vma
    assert (ltb 0 mapping.refcount)
    assert (is_positive32 vma.refcount)
    some (elim backend.bo_flush [ none ↦ (0, sys) | some f ↦ f bo mapping vma sys ])

  -- From `exact_match` on: `mapping` is what `*map_data` points to.
  unfoldable pub finish_map : Bo → ℕ → Mapping → Maps → Sys → Option (Option Mapped × Maps × Sys)
  finish_map bo plane mapping s sys = do
    invalidated ← drv_bo_invalidate bo mapping s sys
    vma ← s.vmas mapping.vma
    assert (ltb plane bo.meta.num_planes)
    some (
      some
          (record { addr = vma.addr + get_or bo.meta.offsets plane 0; map_data = mapping.address }),
      s,
      invalidated.1,
    )

  unfoldable pub finish_chosen :
      Bo → ℕ → Maps → Option (Mapping × Maps) → Sys → Option (Option Mapped × Maps × Sys)
  finish_chosen bo plane s none sys = some (none, s, sys)
  finish_chosen bo plane s (some (mapping, s')) sys = finish_map bo plane mapping s' sys

  -- A new area, with the mapping that is appended, once the backend has mapped it.
  unfoldable pub add_area : Bo → Rectangle → ℕ → ℕ → Vma → Maps → Option ℕ → Option (Mapping × Maps)
  add_area bo rect map_flags plane vma s none = none
  add_area bo rect map_flags plane vma s (some addr) =
      let item : Mapping = record {
        address = s.next + 1;
        vma = s.next;
        rect = rect;
        refcount = 1;
      } in
      let area = record vma {
        refcount = 1;
        addr = addr;
        handle = get_or bo.handles plane 0;
        map_flags = map_flags;
      } in
      some (
        item,
        record {
          mappings = s.mappings ++ item ∷ [];
          vmas = update s.vmas s.next (some area);
          next = s.next + 2;
        },
      )

  -- `none` if the backend cannot map.
  unfoldable pub new_area : Bo → Rectangle → ℕ → ℕ → Maps → Sys → Option (Mapping × Maps) × Sys
  new_area bo rect map_flags plane s sys =
      let blank : Vma = record {
        addr = 0;
        length = 0;
        handle = 0;
        map_flags = 0;
        refcount = 0;
        map_strides = bo.meta.strides;
        priv = 0;
      } in
      let (addr, vma, sys') = backend.bo_map bo blank plane map_flags sys in
      (add_area bo rect map_flags plane vma s addr, sys')

  -- From the second loop of `drv_bo_map` on.
  unfoldable pub choose_area :
      Bo → Rectangle → ℕ → ℕ → Option Mapping → Maps → Sys → Option (Option (Mapping × Maps) × Sys)
  choose_area bo rect map_flags plane (some prior) s sys =
      share_area prior rect s >>= λ shared. some (some shared, sys)
  choose_area bo rect map_flags plane none s sys = some (new_area bo rect map_flags plane s sys)

  -- The three ways to a mapping, in the order of the code. `none` inside is MAP_FAILED.
  unfoldable pub choose_mapping :
      Bo → Rectangle → ℕ → ℕ → Maps → Sys → Option (Option (Mapping × Maps) × Sys)
  choose_mapping bo rect map_flags plane s sys = do
    let handle = get_or bo.handles plane 0
    exact ← find_exact s.vmas handle map_flags rect s.mappings
    elim exact [
      | some prior ↦
          let n = u32 (prior.refcount + 1) in
          some (
            some (
              record prior { refcount = n },
              record s { mappings = set_refcount prior.address n s.mappings },
            ),
            sys,
          )
      | none ↦ do
        area ← find_area s.vmas handle map_flags s.mappings
        choose_area bo rect map_flags plane area s sys
    ]

  unfoldable pub drv_bo_map :
      Bo → Rectangle → ℕ → ℕ → Maps → Sys → Option (Option Mapped × Maps × Sys)
  drv_bo_map bo rect map_flags plane s sys = do
    map_asserts bo rect map_flags
    let chosen = choose_mapping bo rect map_flags plane s sys
    if bo.is_test_buffer
        then some (none, s, sys)
        else chosen >>= λ c. finish_chosen bo plane s c.0 c.1

  -- `if (!--vma->refcount) { bo_unmap; free; }`
  unfoldable pub release_vma : Bo → ℕ → Vma → Maps → Sys → ℕ × Maps × Sys
  release_vma bo p vma s sys =
      let n = decrement32 vma.refcount in
      let (ret, sys') = backend.bo_unmap bo (record vma { refcount = n }) sys in
      if n == 0
      then (ret, record s { vmas = update s.vmas p none }, sys')
      else (0, record s { vmas = update s.vmas p (some (record vma { refcount = n })) }, sys)

  -- Counting down from the least signed count is undefined, and taken as an abort.
  unfoldable pub drv_bo_unmap : Bo → ℕ → Maps → Sys → Option (ℕ × Maps × Sys)
  unfolding release_vma
  drv_bo_unmap bo a s sys = do
    mapping ← find_mapping a s.mappings
    let n = decrement32 mapping.refcount
    let last = do
      vma ← s.vmas mapping.vma
      assert (vma.refcount != 2 ^ 31)
      let (ret, s', sys') = release_vma bo mapping.vma vma s sys
      some (ret, record s' { mappings = remove_mapping a s'.mappings }, sys')
    if n != 0 then some (0, record s { mappings = set_refcount a n s.mappings }, sys) else last

  unfoldable pub drv_bo_flush_or_unmap : Bo → ℕ → Maps → Sys → Option (ℕ × Maps × Sys)
  drv_bo_flush_or_unmap bo a s sys = do
    mapping ← find_mapping a s.mappings
    vma ← s.vmas mapping.vma
    assert (ltb 0 mapping.refcount)
    assert (is_positive32 vma.refcount)
    assert (bit_and bo.meta.use_flags bo_use_protected == 0)
    elim backend.bo_flush [
      | none ↦ drv_bo_unmap bo a s sys
      | some f ↦ let (ret, sys') = f bo mapping vma sys in some (ret, s, sys')
    ]
