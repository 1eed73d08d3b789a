-- ===== src/Mappings/Map.antt =====
-- `drv_bo_map` finds or makes a mapping without breaking the counts.
use minigbm.Base.{
  ℕ, ◌+◌, ◌-◌, ◌^◌, ◌<◌, ◌≡◌, refl, ap, Option, some, [], ◌∷◌, ◌++◌, get_or, arith, All, true, ◌!=◌,
}
use native.Mathlib.Nat.{mod-eq_of_lt}
use minigbm.Types.{Mapping, Vma, Bo, Rectangle}
use minigbm.Kernel.{Sys}
use minigbm.Backend.{Backend}
use minigbm.Mappings.{
  Maps, find_mapping, find_exact, set_refcount, update, choose_mapping, choose_area, share_area,
  new_area,
}
use minigbm.Mappings.Sound.{IsSound, refs, refcount_of, All-find}
use minigbm.Mappings.Find.{
  OfArea, IsExact, AreaFound, no_area, an_area, ExactFound, no_exact, an_exact, find_area_lem,
  find_exact_lem, sound-IsLive,
}

-- No count is at its greatest value.
pub record HasRoom (s : Maps) : Type 0 where
  pub mapping_room : All (λ m. m.refcount < 2 ^ 32 - 1) s.mappings
  pub area_room : (p : ℕ) → refs p s.mappings < 2 ^ 31 - 1

max_ne : (n : ℕ) → n + 1 < 2 ^ 31 → (n != 2 ^ 31 - 1) ≡ true
max_ne n h = ground arith

module _ (backend : Backend) (bo : Bo) (rect : Rectangle) (map_flags plane : ℕ) where
  -- The ways to a mapping: the same rectangle is mapped already, or the area is, or neither.
  pub data Chosen (s : Maps) (sys : Sys) : Option (Mapping × Maps) → Sys → Type 0 where
    reused :
        (m : Mapping)
        → find_mapping m.address s.mappings ≡ some m
        → IsExact s.vmas (get_or bo.handles plane 0) map_flags rect m
        → Chosen s sys
            (some (
              record m { refcount = m.refcount + 1 },
              record s { mappings = set_refcount m.address (m.refcount + 1) s.mappings },
            ))
            sys
    shared :
        (m : Mapping) (v : Vma)
        → All (λ x. ¬ IsExact s.vmas (get_or bo.handles plane 0) map_flags rect x) s.mappings
        → find_mapping m.address s.mappings ≡ some m
        → s.vmas m.vma ≡ some v
        → v.handle ≡ get_or bo.handles plane 0
        → v.map_flags ≡ map_flags
        → (item : Mapping)
        → item ≡ record { address = s.next; vma = m.vma; rect = rect; refcount = 1 }
        → Chosen s sys
            (some (
              item,
              record {
                mappings = s.mappings ++ item ∷ [];
                vmas = update s.vmas m.vma (some (record v { refcount = v.refcount + 1 }));
                next = s.next + 1;
              },
            ))
            sys
    new :
        All (λ x. ¬ OfArea s.vmas (get_or bo.handles plane 0) map_flags x) s.mappings
        → Chosen s sys
            (new_area backend bo rect map_flags plane s sys).0
            (new_area backend bo rect map_flags plane s sys).1

  share_area_eq :
      (s : Maps) (m : Mapping) (v : Vma)
      → s.vmas m.vma ≡ some v
      → v.refcount + 1 < 2 ^ 31
      → share_area m rect s
        ≡ some (
          record { address = s.next; vma = m.vma; rect = rect; refcount = 1 },
          record {
            mappings =
                s.mappings
                ++ record { address = s.next; vma = m.vma; rect = rect; refcount = 1 } ∷ [];
            vmas = update s.vmas m.vma (some (record v { refcount = v.refcount + 1 }));
            next = s.next + 1;
          },
        )
  unfolding share_area
  share_area_eq s m v e h =
      rw (e, max_ne v.refcount h, mod-eq_of_lt {n = v.refcount + 1} {m = 2 ^ 32} (omega arith))

  choose_area_lem :
      (s : Maps) (sys : Sys) (r : Option Mapping)
      → IsSound s
      → HasRoom s
      → All (λ x. ¬ IsExact s.vmas (get_or bo.handles plane 0) map_flags rect x) s.mappings
      → AreaFound s.vmas (get_or bo.handles plane 0) map_flags s.mappings r
      → (c : Option (Mapping × Maps)) × (sys' : Sys) × (choose_area backend bo rect map_flags plane
            r s sys
          ≡ some (c, sys'))
        × Chosen s sys c sys'
  unfolding choose_area
  choose_area_lem s sys r v room none_exact (no_area none_area) = (_, _, refl, new none_area)
  choose_area_lem s sys r v room none_exact (an_area m found (w, e, eh, ef)) =
      let c : w.refcount ≡ refs m.vma s.mappings =
        omega (arith, v.counted m.vma, ap refcount_of e) in
      (
        _,
        _,
        rw (share_area_eq s m w e (omega (arith, c, room.area_room m.vma))) refl,
        shared m w none_exact found e eh ef _ refl,
      )

  -- In a sound table with no count at its greatest value, the choice of a mapping never aborts,
  -- and reuses a mapping of the same rectangle, handle and flags where there is one, else shares
  -- an area of the handle and flags where there is one, else makes a new area.
  pub choose_mapping-Chosen :
      (s : Maps) (sys : Sys)
      → IsSound s
      → HasRoom s
      → (c : Option (Mapping × Maps)) × (sys' : Sys) × (choose_mapping backend bo rect map_flags
            plane s sys
          ≡ some (c, sys'))
        × Chosen s sys c sys'
  unfolding choose_mapping
  choose_mapping-Chosen s sys v room =
      let handle = get_or bo.handles plane 0 in
      let (r, eq, found) =
        find_exact_lem s.vmas handle map_flags rect s.mappings (sound-IsLive s v) v.apart in
      exact r eq found
    where
      handle : ℕ
      handle = get_or bo.handles plane 0

      exact :
          (r : Option Mapping)
          → find_exact s.vmas handle map_flags rect s.mappings ≡ some r
          → ExactFound s.vmas handle map_flags rect s.mappings r
          → (c : Option (Mapping × Maps)) × (sys' : Sys) × (choose_mapping backend bo rect map_flags
                plane s sys
              ≡ some (c, sys'))
            × Chosen s sys c sys'
      exact r eq (an_exact m found is_exact) = (
        _,
        _,
        rw
            (
              eq,
              mod-eq_of_lt {n = m.refcount + 1} {m = 2 ^ 32}
                  (omega (arith, All-find _ m.address s.mappings m room.mapping_room found)),
            )
            refl,
        reused m found is_exact,
      )
      exact r eq (no_exact none_exact) =
          let (r', eq', found') =
            find_area_lem s.vmas handle map_flags s.mappings (sound-IsLive s v) v.apart in
          let (c, sys', e, chosen) = choose_area_lem s sys r' v room none_exact found' in
          (c, sys', rw (eq, eq') e, chosen)
