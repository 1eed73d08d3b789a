-- ===== src/Modifiers/Pick.antt =====
-- `drv_pick_modifier` against its order of preference.
use minigbm.Base.{
  ℕ, ◌≡◌, ◌≢◌, ◌⊎◌, inl, inr, refl, sym, ap, true, false, List, [], ◌∷◌, ◌++◌, arith, ◌∙◌, ◌==◌,
  Bool-cases, All,
}
use minigbm.Flags.{drm_format_mod_linear}
use minigbm.Modifiers.{has_candidate, drv_pick_modifier, drv_has_modifier}

-- The number stands in the list.
abbrev pub Has : List ℕ → ℕ → Type 0
Has list m = (before : List ℕ) × (after : List ℕ) × (list ≡ before ++ m ∷ after)

Has-cons : (x m : ℕ) (list : List ℕ) → Has list m → Has (x ∷ list) m
Has-cons x m list (before, after, e) = (x ∷ before, after, ap (λ t. x ∷ t) e)

-- `drv_has_modifier` decides membership.
pub drv_has_modifier-Has : (list : List ℕ) (m : ℕ) → drv_has_modifier list m ≡ true → Has list m
unfolding drv_has_modifier
drv_has_modifier-Has [] m h = cc
drv_has_modifier-Has (x ∷ list) m h = elim (Bool-cases (x == m)) [
  | inl e ↦ ([], list, ground arith)
  | inr e ↦ Has-cons x m list (drv_has_modifier-Has list m (ground arith))
]

pub not_drv_has_modifier :
    (list : List ℕ) (m : ℕ) → drv_has_modifier list m ≡ false → All (λ x. x ≢ m) list
unfolding drv_has_modifier
not_drv_has_modifier [] m h = tt
not_drv_has_modifier (x ∷ list) m h = (ground arith, not_drv_has_modifier list m (ground arith))

-- The two loops of helpers.c look for the same thing.
pub has_candidate-eq : (list : List ℕ) (m : ℕ) → has_candidate list m ≡ drv_has_modifier list m
unfolding has_candidate drv_has_modifier
has_candidate-eq [] m = refl
has_candidate-eq (x ∷ list) m = ground (arith, has_candidate-eq list m)

-- The preferred one of those that the caller allows: no earlier one in the order is allowed.
pub record IsPreferred (modifiers order : List ℕ) (m : ℕ) : Type 0 where
  pub allowed : Has modifiers m
  pub passed_over : List ℕ
  pub later : List ℕ
  pub stands : order ≡ passed_over ++ m ∷ later
  pub not_allowed : All (λ c. All (λ x. x ≢ c) modifiers) passed_over

-- The modifier that is picked is an allowed one that stands in the order of preference after
-- none that is allowed, or the linear one where none of the order is allowed.
pub drv_pick_modifier_lem :
    (modifiers order : List ℕ)
    → IsPreferred modifiers order (drv_pick_modifier modifiers order)
      ⊎ ((drv_pick_modifier modifiers order ≡ drm_format_mod_linear)
          × All (λ c. All (λ x. x ≢ c) modifiers) order)
unfolding drv_pick_modifier
drv_pick_modifier_lem modifiers [] = inr (refl, tt)
drv_pick_modifier_lem modifiers (c ∷ order) = elim (Bool-cases (has_candidate modifiers c)) [
  | inl h ↦ inl (
      rw h (record {
        allowed = drv_has_modifier-Has modifiers c (sym (has_candidate-eq modifiers c) ∙ h);
        passed_over = [];
        later = order;
        stands = refl;
        not_allowed = tt;
      }))
  | inr h ↦
      let absent = not_drv_has_modifier modifiers c (sym (has_candidate-eq modifiers c) ∙ h) in
      rw h (elim (drv_pick_modifier_lem modifiers order) [
        | inl p ↦ inl (record {
          allowed = p.allowed;
          passed_over = c ∷ p.passed_over;
          later = p.later;
          stands = ap (λ t. c ∷ t) p.stands;
          not_allowed = (absent, p.not_allowed);
        })
        | inr q ↦ inr (q.0, (absent, q.1))
      ])
]
