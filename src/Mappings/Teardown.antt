-- ===== src/Mappings/Teardown.antt =====
-- helpers.c: `drv_mapping_destroy`, which goes through the mappings before a buffer is destroyed.
use minigbm.Base.{
  ℕ, zero, suc, Option, none, some, List, [], ◌∷◌, ◌++◌, get_or, ◌!=◌, ◌||◌, ◌^◌, if◌then◌else◌,
  ◌>>=◌, ◌>>◌, assert,
}
use minigbm.Types.{Bo, Vma, Mapping}
use minigbm.Kernel.{Sys}
use minigbm.Backend.{Backend}
use minigbm.Mappings.{Maps, update, decrement32}

-- Where the loop of `drv_mapping_destroy` is: its code, the items before `idx` and from `idx` on, and
-- the heap.
pub record Walk : Type 0 where
  pub code : ℕ
  pub passed : List Mapping
  pub rest : List Mapping
  pub heap : ℕ → Option Vma
  pub sys : Sys

module _ (backend : Backend) where
  -- The inner loop of `drv_mapping_destroy`, from `idx` on: the items of one handle go. Counting down
  -- from the least signed count is undefined, and taken as an abort.
  unfoldable pub destroy_items :
      Bo → ℕ → List Mapping → List Mapping → (ℕ → Option Vma) → Sys → Option Walk
  destroy_items bo handle passed [] heap sys =
      some (record { code = 0; passed = passed; rest = []; heap = heap; sys = sys })
  destroy_items bo handle passed (m ∷ ms) heap sys = do
    vma ← heap m.vma
    assert (vma.handle != handle || vma.refcount != 2 ^ 31)
    let dropped : Vma = record vma { refcount = decrement32 vma.refcount }
    let (ret, sys') = backend.bo_unmap bo dropped sys
    let skip = destroy_items bo handle (passed ++ m ∷ []) ms heap sys
    let counted = destroy_items bo handle passed ms (update heap m.vma (some dropped)) sys
    let freed = destroy_items bo handle passed ms (update heap m.vma none) sys'
    let failed : Walk = record {
      code = ret;
      passed = passed;
      rest = m ∷ ms;
      heap = update heap m.vma (some dropped);
      sys = sys';
    }
    if vma.handle != handle
        then skip
        else (if dropped.refcount != 0 then counted else (if ret != 0 then some failed else freed))

  -- The outer loop, from plane `p` with `rounds` planes to go. `idx` is not set back between planes.
  unfoldable pub destroy_planes : Bo → ℕ → ℕ → Walk → Option Walk
  destroy_planes bo zero p w = some w
  destroy_planes bo (suc rounds) p w = do
    w' ← destroy_items bo (get_or bo.handles p 0) w.passed w.rest w.heap w.sys
    let next = destroy_planes bo rounds (suc p) w'
    if w'.code != 0 then some w' else next

  unfoldable pub drv_mapping_destroy : Bo → Maps → Sys → Option (ℕ × Maps × Sys)
  drv_mapping_destroy bo s sys = do
    let start : Walk = record { code = 0; passed = []; rest = s.mappings; heap = s.vmas; sys = sys }
    w ← destroy_planes bo bo.meta.num_planes 0 start
    some (w.code, record s { mappings = w.passed ++ w.rest; vmas = w.heap }, w.sys)
