-- ===== src/Driver/Import/Prime.antt =====
-- The imports of the backends that import with `drv_prime_bo_import`.
use minigbm.Base.{
  ℕ, ◌≡◌, refl, arith, false, some, length, ◌==◌, Bool-cases, inl, inr, subst, some-ne-none, sym,
  ap, ◌∙◌, List,
}
use mathlib.Core.Option.{some_inj}
use minigbm.Types.{Bo, Metadata, ImportFdData, IsSized}
use minigbm.Format.{drv_num_planes_from_format}
use minigbm.Format.Layouts.{drv_num_planes-le}
use minigbm.Kernel.{Kernel, Sys}
use minigbm.Backend.{Backend}
use minigbm.Gem.{drv_prime_bo_import}
use minigbm.Gem.Close.{ReportsErrors}
use minigbm.Gem.Import.{drv_prime_bo_import-layout}
use minigbm.Driver.{drv_bo_new}
use minigbm.Driver.Import.Outcome.{IsReal}

-- What the backend imports without an error from a new buffer owns memory and has its planes.
abbrev pub Delivers : Backend → Type 0
Delivers backend =
    (source : ImportFdData) (new : Bo) (sys : Sys)
    → drv_bo_new source.width source.height source.format source.use_flags false ≡ some new
    → (backend.bo_import new source sys).0 ≡ 0
    → IsReal (backend.bo_import new source sys).1

-- A new buffer has its arrays in full length and one to four planes.
new-IsReal :
    (width height format use_flags : ℕ) (new : Bo)
    → drv_bo_new width height format use_flags false ≡ some new
    → IsReal new × (length new.handles ≡ 4)
unfolding drv_bo_new
new-IsReal width height format use_flags new e =
    elim (Bool-cases (drv_num_planes_from_format format == 0)) [
      | inl unknown ↦ absurd (some-ne-none e (rw unknown refl))
      | inr known ↦
          subst (λ (b : Bo). IsReal b × (length b.handles ≡ 4)) {y = new}
            (some_inj.0 (rw known at e))
            (
              record {
                sized = record { offsets_full = refl; sizes_full = refl; strides_full = refl };
                real = refl;
                some_plane = ground arith;
                few_planes = omega (arith, drv_num_planes-le format);
              },
              refl,
            )
    ]

pub drv_prime_bo_import-IsReal :
    (kernel : Kernel) (width height format use_flags : ℕ) (new : Bo) (fds : List ℕ) (sys : Sys)
    → ReportsErrors kernel
    → drv_bo_new width height format use_flags false ≡ some new
    → (drv_prime_bo_import kernel new fds sys).0 ≡ 0
    → IsReal (drv_prime_bo_import kernel new fds sys).1
drv_prime_bo_import-IsReal kernel width height format use_flags new fds sys reports e ok =
    let (whole, full) = new-IsReal width height format use_flags new e in
    let (same, real) =
      drv_prime_bo_import-layout kernel new fds sys reports (omega (arith, full, whole.few_planes))
        ok in
    record {
      sized = subst IsSized (sym same) whole.sized;
      real = real ∙ whole.real;
      some_plane = omega (arith, ap (λ (m : Metadata). m.num_planes) same, whole.some_plane);
      few_planes = omega (arith, ap (λ (m : Metadata). m.num_planes) same, whole.few_planes);
    }
