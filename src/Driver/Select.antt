-- ===== src/Driver/Select.antt =====
-- drv.c: `drv_get_backend`, and the first steps of a driver.
use minigbm.Base.{
  ℕ, ◌≡◌, ◌≢◌, refl, Bool, true, false, not, ◌&&◌, ◌||◌, Option, none, some, List, [], ◌∷◌, ◌==◌,
  if◌then◌else◌, ◌>>=◌, ◌>>◌, assert, >>=-eq-some, Bool-cases, Option-cases, inl, inr, subst,
}
use mathlib.Core.Option.{some_inj}
use minigbm.Flags.{bo_use_none}
use minigbm.Types.{Bo, Combination}
use minigbm.Kernel.{Sys}
use minigbm.Backend.{Backend}
use minigbm.Refcount.{DrmHash}
use minigbm.Driver.{Driver, allocate, allocate_with_modifiers, can_modify}

-- `pointer != NULL`
abbrev pub is_some {ℓ} : {A : Type ℓ} → Option A → Bool
is_some none = false
is_some (some a) = true

abbrev pub xor : Bool → Bool → Bool
xor true b = not b
xor false b = b

-- The three assertions on an entry of `backend_list`, of which only NULL or not matters.
abbrev create_asserts : Bool → Bool → Bool → Bool → Option (Unit {0})
create_asserts create compute from_metadata with_modifiers = do
  assert (xor create from_metadata)
  assert (not (xor compute from_metadata))
  assert (not with_modifiers || not from_metadata)

unfoldable pub backend_asserts : Backend → Option (Unit {0})
backend_asserts b =
    create_asserts (is_some b.bo_create) (is_some b.bo_compute_metadata)
      (is_some b.bo_create_from_metadata) (is_some b.bo_create_with_modifiers)

-- A name is the list of its characters; `!strcmp`.
unfoldable pub same_name : List ℕ → List ℕ → Bool
same_name [] [] = true
same_name [] (d ∷ ds) = false
same_name (c ∷ cs) [] = false
same_name (c ∷ cs) (d ∷ ds) = c == d && same_name cs ds

-- The loop over `backend_list`.
unfoldable pub find_backend : List ℕ → List (List ℕ × Backend) → Option (Option Backend)
find_backend name [] = some none
find_backend name ((n, b) ∷ rest) =
    let next = find_backend name rest in
    backend_asserts b >>= λ _. if same_name name n then some (some b) else next

-- `drv_get_backend`: `version` is the name that `drmGetVersion` answers, if it answers.
unfoldable pub drv_get_backend : Option (List ℕ) → List (List ℕ × Backend) → Option (Option Backend)
drv_get_backend none backend_list = some none
drv_get_backend (some name) backend_list = find_backend name backend_list

-- `drv_init`: the backend's `init`, if it has one, is given the group of the GPU, which nothing else
-- reads, and answers its code and the combinations that it leaves.
unfoldable pub drv_init :
    (hash : DrmHash)
    → Option (ℕ → List Combination → Sys → ℕ × List Combination × Sys)
    → ℕ
    → Driver hash
    → Sys
    → ℕ × Driver hash × Sys
drv_init hash none grp_type drv sys = (0, drv, sys)
drv_init hash (some init) grp_type drv sys =
    let (ret, combos, sys') = init grp_type drv.combos sys in
    (ret, record drv { combos = combos }, sys')

-- The driver of `drv_create`, once its backend is found.
unfoldable pub drv_create : (hash : DrmHash) → Option Backend → Option (Backend × Driver hash)
drv_create hash none = none
drv_create hash (some backend) = some (
  backend,
  record {
    combos = [];
    maps = record { mappings = []; vmas = λ p. none; next = 0 };
    buffer_table = hash.create;
  },
)

-- What the assertions leave: either the plain creation, or the two steps and no other.
data Shape (b : Backend) : Type 0 where
  plain :
      (f : List Combination → Bo → ℕ → ℕ → ℕ → ℕ → Sys → ℕ × Bo × Sys)
      → b.bo_create ≡ some f
      → b.bo_compute_metadata ≡ none
      → b.bo_create_from_metadata ≡ none
      → Shape b
  two_steps :
      (f : List Combination → Bo → ℕ → ℕ → ℕ → ℕ → Option (List ℕ) → Sys → ℕ × Bo × Sys)
      (g : Bo → Sys → ℕ × Bo × Sys)
      → b.bo_create ≡ none
      → b.bo_compute_metadata ≡ some f
      → b.bo_create_from_metadata ≡ some g
      → b.bo_create_with_modifiers ≡ none
      → Shape b

shape :
    (b : Backend) (create : Option (List Combination → Bo → ℕ → ℕ → ℕ → ℕ → Sys → ℕ × Bo × Sys))
    (compute : Option
      (List Combination → Bo → ℕ → ℕ → ℕ → ℕ → Option (List ℕ) → Sys → ℕ × Bo × Sys))
    (from_metadata : Option (Bo → Sys → ℕ × Bo × Sys))
    (modify : Option (List Combination → Bo → ℕ → ℕ → ℕ → List ℕ → Sys → ℕ × Bo × Sys))
    → b.bo_create ≡ create
    → b.bo_compute_metadata ≡ compute
    → b.bo_create_from_metadata ≡ from_metadata
    → b.bo_create_with_modifiers ≡ modify
    → create_asserts (is_some create) (is_some compute) (is_some from_metadata) (is_some modify)
      ≡ some tt
    → Shape b
shape b (some f) none none modify c m k w h = plain f c m k
shape b none (some f) (some g) none c m k w h = two_steps f g c m k w
shape b (some f) (some g) none modify c m k w h = cc
shape b (some f) compute (some g) modify c m k w h = cc
shape b none none none modify c m k w h = cc
shape b none (some f) none modify c m k w h = cc
shape b none none (some g) modify c m k w h = cc
shape b none (some f) (some g) (some j) c m k w h = cc

backend_asserts-Shape : (b : Backend) → backend_asserts b ≡ some tt → Shape b
unfolding backend_asserts
backend_asserts-Shape b h =
    shape b b.bo_create b.bo_compute_metadata b.bo_create_from_metadata b.bo_create_with_modifiers
      refl refl refl refl h

-- The entry that the loop ends at is in the list and has passed the assertions.
find_backend-Shape :
    (name : List ℕ) (backend_list : List (List ℕ × Backend)) (b : Backend)
    → find_backend name backend_list ≡ some (some b)
    → Shape b
unfolding find_backend
find_backend-Shape name [] b h = cc
find_backend-Shape name ((n, c) ∷ rest) b h =
    let (_, passed, found) =
      >>=-eq-some (backend_asserts c)
        (λ _. if same_name name n then some (some c) else find_backend name rest) h in
    elim (Bool-cases (same_name name n)) [
      | inl e ↦
          let same : some (some c) ≡ some (some b) = rw e at found in
          subst Shape (some_inj.0 (some_inj.0 same)) (backend_asserts-Shape c passed)
      | inr e ↦ find_backend-Shape name rest b (rw e at found)
    ]

some_branch {ℓ} : {A : Type ℓ} (t : Bool) (x y : A) → (if t then some x else some y) ≢ none
some_branch true x y e = cc
some_branch false x y e = cc

module _ (hash : DrmHash) (b : Backend) (drv : Driver hash) (bo : Bo) (width height format : ℕ)
    (sys : Sys) where
  allocate-Shape :
      (use_flags : ℕ) (test : Bool)
      → Shape b
      → allocate hash b drv bo width height format use_flags test sys ≢ none
  unfolding allocate
  allocate-Shape use_flags test (plain f c m k) = rw (c, m) (some_branch test _ _)
  allocate-Shape use_flags test (two_steps f g c m k w) =
      let made = f drv.combos bo width height format use_flags none sys in
      rw (m, k) (some_branch (not test && made.0 == 0) _ _)

  allocate_with_modifiers-Shape :
      (modifiers : List ℕ)
      → can_modify hash b ≡ true
      → Shape b
      → allocate_with_modifiers hash b drv bo width height format modifiers sys ≢ none
  unfolding allocate_with_modifiers can_modify
  allocate_with_modifiers-Shape modifiers can (plain f c m k) =
      elim (Option-cases b.bo_create_with_modifiers) [
        | inl e ↦ absurd (no_operation (rw (e, m) at can))
        | inr (g, e) ↦ rw (m, e) (λ h. (cc))
      ]
    where
      no_operation : ¬ (false ≡ true)
      no_operation h = cc
  allocate_with_modifiers-Shape modifiers can (two_steps f g c m k w) =
      let made = f drv.combos bo width height format bo_use_none (some modifiers) sys in
      rw (m, k) (some_branch (made.0 == 0) _ _)

module _ (hash : DrmHash) where
  -- A backend that `drv_get_backend` selects by its name has the operations that creating a
  -- buffer calls: the allocation of a buffer never aborts for want of one, nor does the
  -- allocation with modifiers where the driver can modify.
  pub drv_get_backend_lem :
      (name : List ℕ) (backend_list : List (List ℕ × Backend)) (b : Backend)
      → drv_get_backend (some name) backend_list ≡ some (some b)
      → ((drv : Driver hash) (bo : Bo) (width height format use_flags : ℕ) (test : Bool) (sys : Sys)
          → allocate hash b drv bo width height format use_flags test sys ≢ none)
        × ((drv : Driver hash) (bo : Bo) (width height format : ℕ) (modifiers : List ℕ) (sys : Sys)
            → can_modify hash b ≡ true
            → allocate_with_modifiers hash b drv bo width height format modifiers sys ≢ none)
  unfolding drv_get_backend
  drv_get_backend_lem name backend_list b found =
      let s = find_backend-Shape name backend_list b found in
      (
        (λ drv bo width height format use_flags test sys.
            allocate-Shape hash b drv bo width height format sys use_flags test s),
        (λ drv bo width height format modifiers sys can.
            allocate_with_modifiers-Shape hash b drv bo width height format sys modifiers can s),
      )
