-- ===== src/Gbm/Name.antt =====
-- gbm.c: the name of a format.
use minigbm.Base.{
  ℕ, ◌/◌, ◌%◌, ◌^◌, ◌<◌, ◌≡◌, refl, List, [], ◌∷◌, arith, ◌==◌, if◌then◌else◌, get_or,
}
use minigbm.Fourcc.{fourcc_code, drm_format_xrgb8888, drm_format_argb8888}

-- `enum gbm_bo_format` of gbm.h
abbrev pub gbm_bo_format_xrgb8888 : ℕ
gbm_bo_format_xrgb8888 = 0

abbrev pub gbm_bo_format_argb8888 : ℕ
gbm_bo_format_argb8888 = 1

unfoldable pub gbm_format_canonicalize : ℕ → ℕ
gbm_format_canonicalize gbm_format =
    if gbm_format == gbm_bo_format_xrgb8888
    then drm_format_xrgb8888
    else (if gbm_format == gbm_bo_format_argb8888 then drm_format_argb8888 else gbm_format)

-- The five characters of `desc->name`.
unfoldable pub gbm_format_get_name : ℕ → List ℕ
gbm_format_get_name gbm_format =
    let f = gbm_format_canonicalize gbm_format in
    f % 2 ^ 8 ∷ f / 2 ^ 8 % 2 ^ 8 ∷ f / 2 ^ 16 % 2 ^ 8 ∷ f / 2 ^ 24 % 2 ^ 8 ∷ 0 ∷ []

-- The code of four characters, read from a name.
abbrev code_of_name : List ℕ → ℕ
code_of_name name =
    fourcc_code (get_or name 0 0) (get_or name 1 0) (get_or name 2 0) (get_or name 3 0)

small_canonical : (f : ℕ) → f < 2 ^ 32 → gbm_format_canonicalize f < 2 ^ 32
unfolding gbm_format_canonicalize
small_canonical f small = ground arith

canonical_twice :
    (f : ℕ) → gbm_format_canonicalize (gbm_format_canonicalize f) ≡ gbm_format_canonicalize f
unfolding gbm_format_canonicalize
canonical_twice f = ground arith

-- The four characters of a name give the canonical format, and the fifth is NUL.
code_of_name-gbm_format_get_name :
    (format : ℕ)
    → format < 2 ^ 32
    → (code_of_name (gbm_format_get_name format) ≡ gbm_format_canonicalize format)
      × (get_or (gbm_format_get_name format) 4 1 ≡ 0)
      × (gbm_format_canonicalize (gbm_format_canonicalize format) ≡ gbm_format_canonicalize format)
unfolding gbm_format_get_name
code_of_name-gbm_format_get_name format small =
    (omega (arith, small_canonical format small), refl, canonical_twice format)
