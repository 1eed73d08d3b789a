-- ===== src/Tests/Tables.antt =====
-- The growable array, the combinations and the modifiers.
use minigbm.Base.{
  ℕ, ◌≡◌, ◌≢◌, ◌⊎◌, refl, arith, none, some, List, [], ◌∷◌, get_elem?, All, some-ne-none,
}
use minigbm.Types.{Combination}
use minigbm.Fourcc.{drm_format_nv12, drm_format_xrgb8888}
use minigbm.Flags.{drm_format_mod_linear}
use minigbm.Array.{drv_array_init, drv_array_append, drv_array_at_idx}
use minigbm.Array.Spec.{Holds, drv_array_init-Holds, drv_array_at_idx-Holds}
use minigbm.Array.Append.{drv_array_append-Holds}
use minigbm.Array.Refine.{Call, run, run_list, Agree, run_refines}
use minigbm.Combos.{
  drv_add_combinations, drv_modify_combination, drv_get_combination, best_of, linear_metadata,
}
use minigbm.Combos.Best.{Found, drv_get_combination-Found}
use minigbm.Combos.Modify.{modify_makes_available, modify_keeps_available, add_makes_available}
use minigbm.Modifiers.{drv_pick_modifier}
use minigbm.Modifiers.Pick.{IsPreferred, drv_pick_modifier_lem}

abbrev calls : List (Call ℕ)
calls = Call.append 10 ∷ Call.append 11 ∷ Call.append 12 ∷ Call.remove 1 ∷ []

run_refines_example : Agree (run drv_array_init calls) (run_list [] calls)
run_refines_example = run_refines calls (omega arith)

one_item : Holds {A = ℕ} (drv_array_append drv_array_init 10) (10 ∷ [])
one_item = drv_array_append-Holds drv_array_init 10 [] drv_array_init-Holds (omega arith)

drv_array_at_idx-Holds_example :
    drv_array_at_idx {A = ℕ} (drv_array_append drv_array_init 10) 0 ≡ get_elem? (10 ∷ []) 0
drv_array_at_idx-Holds_example =
    drv_array_at_idx-Holds {A = ℕ} (drv_array_append drv_array_init 10) (10 ∷ []) 0 one_item

abbrev xrgb : Combination
xrgb = record { format = drm_format_xrgb8888; metadata = linear_metadata; use_flags = 3 }

drv_get_combination-Found_example :
    Found drm_format_xrgb8888 1
      (xrgb ∷ xrgb ∷ [])
      (drv_get_combination (xrgb ∷ xrgb ∷ []) drm_format_xrgb8888 1)
drv_get_combination-Found_example =
    drv_get_combination-Found drm_format_xrgb8888 1 (xrgb ∷ xrgb ∷ []) (omega arith) (omega arith)

add_makes_available_example :
    drv_get_combination
      (drv_add_combinations [] (drm_format_nv12 ∷ drm_format_xrgb8888 ∷ []) linear_metadata 3)
      drm_format_xrgb8888
      1
    ≢ none
add_makes_available_example =
    add_makes_available [] (drm_format_nv12 ∷ []) [] linear_metadata drm_format_xrgb8888 3 1
      (omega arith) (omega arith) refl

modify_makes_available_example :
    drv_get_combination
      (drv_modify_combination (xrgb ∷ xrgb ∷ []) drm_format_xrgb8888 linear_metadata 4)
      drm_format_xrgb8888
      4
    ≢ none
modify_makes_available_example =
    modify_makes_available (xrgb ∷ []) [] xrgb linear_metadata drm_format_xrgb8888 4 4 (omega arith)
      (omega arith) refl refl refl refl

xrgb_answer : drv_get_combination (xrgb ∷ []) drm_format_xrgb8888 1 ≡ some xrgb
unfolding drv_get_combination best_of
xrgb_answer = refl

xrgb_found : drv_get_combination (xrgb ∷ []) drm_format_xrgb8888 1 ≢ none
xrgb_found = some-ne-none xrgb_answer

modify_keeps_available_example :
    drv_get_combination
      (drv_modify_combination (xrgb ∷ []) drm_format_xrgb8888 linear_metadata 4)
      drm_format_xrgb8888
      1
    ≢ none
modify_keeps_available_example =
    modify_keeps_available (xrgb ∷ []) linear_metadata drm_format_xrgb8888 4 drm_format_xrgb8888 1
      (omega arith) (omega arith) xrgb_found

drv_pick_modifier_lem_example :
    IsPreferred (5 ∷ 6 ∷ []) (7 ∷ 6 ∷ 5 ∷ []) (drv_pick_modifier (5 ∷ 6 ∷ []) (7 ∷ 6 ∷ 5 ∷ []))
    ⊎ ((drv_pick_modifier (5 ∷ 6 ∷ []) (7 ∷ 6 ∷ 5 ∷ []) ≡ drm_format_mod_linear)
        × All {A = ℕ} (λ c. All {A = ℕ} (λ x. x ≢ c) (5 ∷ 6 ∷ [])) (7 ∷ 6 ∷ 5 ∷ []))
drv_pick_modifier_lem_example = drv_pick_modifier_lem (5 ∷ 6 ∷ []) (7 ∷ 6 ∷ 5 ∷ [])
