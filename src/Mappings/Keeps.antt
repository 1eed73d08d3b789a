-- ===== src/Mappings/Keeps.antt =====
-- What a caller of `drv_bo_map` gets: a mapping of its rectangle, and the invariant.
use minigbm.Base.{ℕ, ◌+◌, ◌≤◌, ◌≡◌, true, Option, none, some, get_or, ◌==◌, if◌then◌else◌, All}
use minigbm.Types.{Mapping, Vma, Bo, Rectangle}
use minigbm.Kernel.{Sys}
use minigbm.Backend.{Backend}
use minigbm.Mappings.{Maps, Mapped, find_mapping, same_rect, new_area}
use minigbm.Mappings.Sound.{IsSound}
use minigbm.Mappings.Held.{held_at}
use minigbm.Mappings.Find.{OfArea}

module _ (backend : Backend) (bo : Bo) (rect : Rectangle) (map_flags plane : ℕ) where
  -- The item is a live mapping of the rectangle in the table, of a live area of the buffer's handle
  -- and the flags, in a state that keeps the invariant and has one more reference of the item than
  -- `before`, and as many of every other.
  pub record IsUsable (before : Maps) (item : Mapping) (s : Maps) : Type 0 where
    pub sound : IsSound s
    pub in_table : find_mapping item.address s.mappings ≡ some item
    pub of_rect : same_rect rect item.rect ≡ true
    pub area : Vma
    pub live : s.vmas item.vma ≡ some area
    pub of_handle : area.handle ≡ get_or bo.handles plane 0
    pub of_flags : area.map_flags ≡ map_flags
    pub area_used : 1 ≤ area.refcount
    pub used : 1 ≤ item.refcount
    pub counts :
        (a : ℕ)
        → held_at a s.mappings ≡ held_at a before.mappings + (if item.address == a then 1 else 0)

  -- No area serves the mapping, and the backend cannot map.
  pub record CannotMap (s : Maps) (sys : Sys) : Type 0 where
    pub no_area : All (λ x. ¬ OfArea s.vmas (get_or bo.handles plane 0) map_flags x) s.mappings
    pub not_mapped : (new_area backend bo rect map_flags plane s sys).0 ≡ none

  UsableOrFailed : Maps → Sys → Option (Mapping × Maps) → Type 0
  UsableOrFailed s sys none = CannotMap s sys
  UsableOrFailed s sys (some (item, s')) = IsUsable s item s'

  -- What a caller gets.
  pub data MapResult (s : Maps) (sys : Sys) : Option Mapped → Maps → Type 0 where
    failed : CannotMap s sys → MapResult s sys none s
    served :
        (item : Mapping) (s' : Maps) (u : IsUsable s item s')
        → MapResult s sys
            (some (record {
              addr = u.area.addr + get_or bo.meta.offsets plane 0;
              map_data = item.address;
            }))
            s'
