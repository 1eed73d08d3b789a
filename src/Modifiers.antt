-- ===== src/Modifiers.antt =====
-- helpers.c: the choice of a modifier among those that the caller allows.
pub mod Pick
use minigbm.Base.{ℕ, Bool, true, false, Option, none, some, List, [], ◌∷◌, ◌==◌, if◌then◌else◌}
use minigbm.Flags.{drm_format_mod_linear}

-- The inner loop of `drv_pick_modifier`: is the candidate among the modifiers?
unfoldable pub has_candidate : List ℕ → ℕ → Bool
has_candidate [] candidate = false
has_candidate (m ∷ modifiers) candidate =
    if m == candidate then true else has_candidate modifiers candidate

-- Its loops return the first candidate that is.
unfoldable pub drv_pick_modifier : List ℕ → List ℕ → ℕ
unfolding has_candidate
drv_pick_modifier modifiers [] = drm_format_mod_linear
drv_pick_modifier modifiers (candidate ∷ order) =
    if has_candidate modifiers candidate then candidate else drv_pick_modifier modifiers order

unfoldable pub drv_has_modifier : List ℕ → ℕ → Bool
drv_has_modifier [] modifier = false
drv_has_modifier (m ∷ list) modifier =
    if m == modifier then true else drv_has_modifier list modifier
