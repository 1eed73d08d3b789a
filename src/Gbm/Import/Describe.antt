-- ===== src/Gbm/Import/Describe.antt =====
-- What `gbm_bo_import` hands to the driver for a buffer with a modifier, and what comes of it.
use minigbm.Base.{
  ℕ, zero, suc, ◌+◌, ◌-◌, ◌^◌, ◌≤◌, ◌<◌, ◌≡◌, ◌≢◌, refl, ap, ◌∙◌, true, false, Option, some, List,
  get_or, set, length, lt→ltb, !=_true, ◌||◌, length-set, get_or-set, get_or-set_ne, arith, ltb,
  ◌==◌, ◌!=◌, if◌then◌else◌,
}
use native.Mathlib.Decide.{ℕ_discrete}
use minigbm.Util.{u32_mod}
use minigbm.Types.{Bo, ImportFdData, Vma}
use minigbm.Kernel.{Kernel, Sys}
use minigbm.Backend.{Backend}
use minigbm.Refcount.{DrmHash}
use minigbm.Mappings.Sound.{IsSound}
use minigbm.Driver.{Driver}
use minigbm.Driver.Counts.{count}
use minigbm.Driver.Import.{drv_bo_import}
use minigbm.Driver.Query.{drv_num_planes_from_modifier}
use minigbm.Driver.Import.Outcome.{Imported, drv_bo_import_lem}
use minigbm.Driver.Import.Prime.{Delivers}
use minigbm.Gbm.{wrap, gbm_device_is_format_supported}
use minigbm.Gbm.Usage.{gbm_convert_usage}
use minigbm.Gbm.Import.{
  GbmImportFdModifierData, fill_planes, clear_fds, fd_modifier_import, blank_import, import_data,
  import_fd_modifier, import_supported, gbm_bo_import,
}

-- The arrays have an entry for each plane that there can be.
record IsFull (d : ImportFdData) : Type 0 where
  fds_full : length d.fds ≡ 4
  strides_full : length d.strides ≡ 4
  offsets_full : length d.offsets ≡ 4
  modifiers_full : length d.format_modifiers ≡ 4

-- Plane `p` as the caller described it; one file serves all planes if there are fewer than planes.
pub record Describes (buffer : GbmImportFdModifierData) (num_planes : ℕ) (d : ImportFdData) (p : ℕ)
    : Type 0 where
  pub same_fd :
      get_or d.fds p 0 ≡ get_or buffer.fds (if buffer.num_fds != num_planes then 0 else p) 0
  pub same_stride : get_or d.strides p 0 ≡ get_or buffer.strides p 0
  pub same_offset : get_or d.offsets p 0 ≡ get_or buffer.offsets p 0
  pub same_modifier : get_or d.format_modifiers p 0 ≡ buffer.modifier

module _ (buffer : GbmImportFdModifierData) (num_planes : ℕ) where
  abbrev DescribesTo : ℕ → ImportFdData → Type 0
  DescribesTo i d = (q : ℕ) → q < i → Describes buffer num_planes d q

  abbrev fill : ℕ → ImportFdData → ImportFdData
  fill i d = record d {
    fds = set d.fds i (get_or buffer.fds (if buffer.num_fds != num_planes then 0 else i) 0);
    offsets = set d.offsets i (get_or buffer.offsets i 0);
    strides = set d.strides i (get_or buffer.strides i 0);
    format_modifiers = set d.format_modifiers i buffer.modifier;
  }

  fill-IsFull : (i : ℕ) (d : ImportFdData) → IsFull d → IsFull (fill i d)
  fill-IsFull i d f = record {
    fds_full = length-set d.fds i _ ∙ f.fds_full;
    strides_full = length-set d.strides i _ ∙ f.strides_full;
    offsets_full = length-set d.offsets i _ ∙ f.offsets_full;
    modifiers_full = length-set d.format_modifiers i _ ∙ f.modifiers_full;
  }

  fill-DescribesTo :
      (i : ℕ) (d : ImportFdData)
      → i < 4
      → IsFull d
      → DescribesTo i d
      → DescribesTo (suc i) (fill i d)
  fill-DescribesTo i d lt f before q small =
      let earlier : i ≢ q → Describes buffer num_planes d q = λ ne. before q (omega arith) in
      record {
        same_fd =
            get_or-set d.fds i q
              (get_or buffer.fds (if buffer.num_fds != num_planes then 0 else i) 0) 0 _
              (omega (arith, f.fds_full))
              (λ e.
                ap (λ (t : ℕ). get_or buffer.fds (if buffer.num_fds != num_planes then 0 else t) 0)
                  e)
              (λ ne. (earlier ne).same_fd);
        same_stride =
            get_or-set d.strides i q (get_or buffer.strides i 0) 0 _ (omega (arith, f.strides_full))
              (λ e. ap (λ (t : ℕ). get_or buffer.strides t 0) e) (λ ne. (earlier ne).same_stride);
        same_offset =
            get_or-set d.offsets i q (get_or buffer.offsets i 0) 0 _ (omega (arith, f.offsets_full))
              (λ e. ap (λ (t : ℕ). get_or buffer.offsets t 0) e) (λ ne. (earlier ne).same_offset);
        same_modifier =
            get_or-set d.format_modifiers i q buffer.modifier 0 _ (omega (arith, f.modifiers_full))
              (λ e. refl) (λ ne. (earlier ne).same_modifier);
      }

  -- The loop fills no other member.
  record SameImage (d d' : ImportFdData) : Type 0 where
    same_width : d'.width ≡ d.width
    same_height : d'.height ≡ d.height
    same_format : d'.format ≡ d.format
    same_flags : d'.use_flags ≡ d.use_flags

  fill_planes-DescribesTo :
      (rest i : ℕ) (d : ImportFdData)
      → i + rest ≤ 4
      → IsFull d
      → DescribesTo i d
      → (d' : ImportFdData) × (fill_planes buffer num_planes rest i d ≡ some d')
        × DescribesTo (i + rest) d'
        × IsFull d'
        × SameImage d d'
  unfolding fill_planes
  fill_planes-DescribesTo zero i d fits f before = (
    d,
    refl,
    (λ q lt. before q (omega arith)),
    f,
    record { same_width = refl; same_height = refl; same_format = refl; same_flags = refl },
  )
  fill_planes-DescribesTo (suc rest) i d fits f before =
      let (d', e, after, f', same) =
        fill_planes-DescribesTo rest (suc i) (fill i d) (omega arith) (fill-IsFull i d f)
          (fill-DescribesTo i d (omega arith) f before) in
      (
        d',
        rw (lt→ltb i 4 (omega arith)) e,
        (λ q lt. after q (omega arith)),
        f',
        record {
          same_width = same.same_width;
          same_height = same.same_height;
          same_format = same.same_format;
          same_flags = same.same_flags;
        },
      )

clear_fds-before :
    (rest i q : ℕ) (fds : List ℕ) → q < i → get_or (clear_fds rest i fds) q 0 ≡ get_or fds q 0
unfolding clear_fds
clear_fds-before zero i q fds lt = refl
clear_fds-before (suc rest) i q fds lt =
    clear_fds-before rest (suc i) q (set fds i (u32_mod - 1)) (omega arith)
    ∙ get_or-set_ne fds i q (u32_mod - 1) 0 (λ e. absurd (omega arith))

clear_fds-after :
    (rest i q : ℕ) (fds : List ℕ)
    → i + rest ≤ length fds
    → i ≤ q
    → q < i + rest
    → get_or (clear_fds rest i fds) q 0 ≡ u32_mod - 1
unfolding clear_fds
clear_fds-after zero i q fds fits ge lt = absurd (omega arith)
clear_fds-after (suc rest) i q fds fits ge lt = elim (ℕ_discrete i q) [
  | yes e ↦
      clear_fds-before rest (suc i) q (set fds i (u32_mod - 1)) (omega arith)
      ∙ get_or-set fds i q (u32_mod - 1) 0 (u32_mod - 1) (omega arith) (λ _. refl)
          (λ ne. absurd (ne e))
  | no ne ↦
      clear_fds-after rest (suc i) q (set fds i (u32_mod - 1))
        (omega (arith, length-set fds i (u32_mod - 1))) (omega arith) (omega arith)
]

-- What the driver is handed: the image and the flags, each plane as the caller described it, and no
-- file in the places beyond.
pub record IsHanded (buffer : GbmImportFdModifierData) (num_planes usage : ℕ) (d : ImportFdData)
    : Type 0 where
  pub same_width : d.width ≡ buffer.width
  pub same_height : d.height ≡ buffer.height
  pub same_format : d.format ≡ buffer.format
  pub same_flags : d.use_flags ≡ gbm_convert_usage usage
  pub described : (p : ℕ) → p < num_planes → Describes buffer num_planes d p
  pub no_file : (p : ℕ) → num_planes ≤ p → p < 4 → get_or d.fds p 0 ≡ u32_mod - 1

fd_modifier_import-IsHanded :
    (buffer : GbmImportFdModifierData) (num_planes usage : ℕ)
    → num_planes ≤ 4
    → (d : ImportFdData) × (fd_modifier_import buffer num_planes
          (blank_import (gbm_convert_usage usage))
        ≡ some d)
      × IsHanded buffer num_planes usage d
unfolding fd_modifier_import
fd_modifier_import-IsHanded buffer num_planes usage few =
    let start = record (blank_import (gbm_convert_usage usage)) {
      width = buffer.width;
      height = buffer.height;
      format = buffer.format;
    } in
    let (filled, e, described, full, same) =
      fill_planes-DescribesTo buffer num_planes num_planes 0 start (omega arith)
        (record {
          fds_full = refl;
          strides_full = refl;
          offsets_full = refl;
          modifiers_full = refl;
        })
        (λ q lt. absurd (omega arith)) in
    (
      record filled { fds = clear_fds (4 - num_planes) num_planes filled.fds },
      rw e refl,
      record {
        same_width = same.same_width;
        same_height = same.same_height;
        same_format = same.same_format;
        same_flags = same.same_flags;
        described = λ p lt.
            let d = described p (omega arith) in
            record {
              same_fd = clear_fds-before (4 - num_planes) num_planes p filled.fds lt ∙ d.same_fd;
              same_stride = d.same_stride;
              same_offset = d.same_offset;
              same_modifier = d.same_modifier;
            };
        no_file = λ p ge lt.
            clear_fds-after (4 - num_planes) num_planes p filled.fds (omega (arith, full.fds_full))
              ge (omega arith);
      },
    )

enough_fds : (num_fds n : ℕ) → 1 ≤ num_fds → num_fds ≤ n → (num_fds == 0 || ltb n num_fds) ≡ false
enough_fds num_fds n some_fd few = ground arith

module _ (hash : DrmHash) (backend : Backend) (kernel : Kernel) where
  -- The answer of the driver, wrapped.
  import_supported-eq :
      (source : ImportFdData) (usage : ℕ) (drv drv' : Driver hash) (sys sys' : Sys) (r : Option Bo)
      → gbm_device_is_format_supported drv.combos source.format usage ≡ true
      → drv_bo_import hash backend kernel source drv sys ≡ some (r, drv', sys')
      → import_supported hash backend kernel (some source) usage drv sys
        ≡ some (wrap source.format r, drv', sys')
  unfolding import_supported
  import_supported-eq source usage drv drv' sys sys' r supported e = rw (supported, e) refl

  -- For a buffer with a modifier, whose format is supported and has at most four planes with it,
  -- and which has at least one file and at most as many as the planes, if the table of mappings
  -- is sound, unmapping never fails, the counts are below 2^60, and what the backend imports
  -- without an error from a new buffer is a real buffer with full arrays and one to four planes,
  -- then `gbm_bo_import` never aborts: it hands the driver the size, the format, the flags and
  -- each plane as the caller described them, and no file for the places beyond, keeps the table
  -- sound, and returns no buffer with every count as before, for one of the reasons that
  -- `drv_bo_import` has, or the imported buffer, of the caller's format, with its references and
  -- the strides and offsets that were handed on.
  pub gbm_bo_import_lem :
      (buffer : GbmImportFdModifierData) (num_planes usage : ℕ) (drv : Driver hash) (sys : Sys)
      → drv_num_planes_from_modifier backend buffer.format buffer.modifier ≡ num_planes
      → num_planes ≤ 4
      → 1 ≤ buffer.num_fds
      → buffer.num_fds ≤ num_planes
      → gbm_device_is_format_supported drv.combos buffer.format usage ≡ true
      → IsSound drv.maps
      → ((b : Bo) (v : Vma) (sys' : Sys) → (backend.bo_unmap b v sys').0 ≡ 0)
      → ((h : ℕ) → count hash drv h < 2 ^ 60)
      → Delivers backend
      → (source : ImportFdData) × (r : Option Bo) × (drv' : Driver hash) × (sys' : Sys)
        × (gbm_bo_import hash backend kernel (import_fd_modifier buffer) usage drv sys
            ≡ some (wrap buffer.format r, drv', sys'))
        × IsHanded buffer num_planes usage source
        × IsSound drv'.maps
        × Imported hash backend kernel source drv sys drv' r
  unfolding gbm_bo_import import_data
  gbm_bo_import_lem buffer num_planes usage drv sys planes few some_fd few_fds supported sound
        unmaps small delivers =
      let (source, filled, handed) = fd_modifier_import-IsHanded buffer num_planes usage few in
      let (r, drv', sys', e, sound', imported) =
        drv_bo_import_lem hash backend kernel source drv sound unmaps small sys
          (λ new. delivers source new sys) in
      (
        source,
        r,
        drv',
        sys',
        rw
            (
              planes,
              !=_true num_planes (omega arith),
              enough_fds buffer.num_fds num_planes some_fd few_fds,
              filled,
            )
            (import_supported-eq source usage drv drv' sys sys' r
                (ap (λ (f : ℕ). gbm_device_is_format_supported drv.combos f usage)
                    handed.same_format
                  ∙ supported)
                e
              ∙ ap (λ (f : ℕ). some (wrap f r, drv', sys')) handed.same_format),
        handed,
        sound',
        imported,
      )
