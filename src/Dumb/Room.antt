-- ===== src/Dumb/Room.antt =====
-- What `drv_dumb_bo_create_ex` asks the kernel for.
use minigbm.Base.{
  ℕ, ◌+◌, ◌*◌, ◌/◌, ◌%◌, ◌^◌, ◌≤◌, ◌<◌, ◌≡◌, ◌≢◌, Bool, ◌||◌, bit_and, ◌==◌, if◌then◌else◌, arith,
}
use minigbm.Util.{u32, align, div_round_up}
use minigbm.Util.Align.{align_bounds}
use minigbm.Flags.{bo_quirk_dumb32bpp}
use minigbm.Fourcc.{
  drm_format_r16, drm_format_yvu420_android, drm_format_yvu420, drm_format_nv12, drm_format_nv21,
}
use minigbm.Types.{Metadata}
use minigbm.BoLayout.Contiguous.{AndroidFits}
use minigbm.Dumb.{dumb_size, dumb_pixels}

-- The formats whose chroma planes have half the rows of the first plane.
pub has_chroma : ℕ → Bool
has_chroma format =
    (format == drm_format_nv12 || format == drm_format_nv21)
    || (format == drm_format_yvu420 || format == drm_format_yvu420_android)

-- The width and the rows of a buffer: the rows that are laid out, and those with room for chroma.
pub record IsSize (width height bo_height format : ℕ) (w rows laid : ℕ) : Type 0 where
  pub wide : width ≤ w
  pub not_wider : w < width + 32
  pub r16 : format ≡ drm_format_r16 → w % 16 ≡ 0
  pub android : format ≡ drm_format_yvu420_android → w % 32 ≡ 0
  pub same : format ≢ drm_format_r16 → format ≢ drm_format_yvu420_android → w ≡ width
  pub laid_rows : laid ≡ (if format == drm_format_yvu420_android then bo_height else height)
  pub asked_rows : rows ≡ (if has_chroma format then 3 * ((laid + 1) / 2) else laid)

chroma_rows : (h : ℕ) → h < 2 ^ 30 → u32 (3 * div_round_up h 2) ≡ 3 * ((h + 1) / 2)
unfolding div_round_up
chroma_rows h small = omega arith

pub dumb_size-IsSize :
    (width height format bo_height : ℕ)
    → width < 2 ^ 31
    → height < 2 ^ 30
    → bo_height < 2 ^ 30
    → IsSize width height bo_height format
        (dumb_size width height format bo_height).0
        (dumb_size width height format bo_height).1
        (dumb_size width height format bo_height).2
unfolding dumb_size has_chroma
dumb_size-IsSize width height format bo_height narrow low bo_low =
    let (a16, ge16, lt16) = align_bounds 4 (omega arith) width (omega arith) in
    let (a32, ge32, lt32) = align_bounds 5 (omega arith) width (omega arith) in
    record {
      wide = ground (arith, ge16, ge32);
      not_wider = ground (arith, lt16, lt32);
      r16 = λ e. ground (arith, a16);
      android = λ e. ground (arith, a32);
      same = λ n m. ground arith;
      laid_rows = ground arith;
      asked_rows = ground (arith, chroma_rows height low, chroma_rows bo_height bo_low);
    }

-- The pixels of a row and the bits of each, for a width in pixels of some bytes.
pub record IsRow (w bytes quirks pixels bits : ℕ) : Type 0 where
  pub plain : bit_and quirks bo_quirk_dumb32bpp ≡ 0 → (pixels ≡ w) × (bits ≡ bytes * 8)
  pub words :
      bit_and quirks bo_quirk_dumb32bpp ≢ 0
      → (bits ≡ 32) × (w * bytes ≤ pixels * 4) × (pixels * 4 < w * bytes + 4)

pub dumb_pixels-IsRow :
    (w bytes quirks : ℕ)
    → w * bytes + 3 < 2 ^ 32
    → IsRow w bytes quirks (dumb_pixels w bytes quirks).0 (dumb_pixels w bytes quirks).1
unfolding dumb_pixels div_round_up
dumb_pixels-IsRow w bytes quirks fits = record {
  plain = λ e. ground arith;
  words = λ n. ground arith;
}

-- The rows that are laid out are those that the Android format asks for.
pub IsSize-AndroidFits :
    (m : Metadata) (width height format w rows laid pitch : ℕ)
    → IsSize width height m.height format w rows laid
    → (format ≡ drm_format_yvu420_android → pitch ≡ align pitch 32)
    → AndroidFits m pitch laid format
IsSize-AndroidFits m width height format w rows laid pitch is_size aligned android =
    (ground (arith, is_size.laid_rows), aligned android)
