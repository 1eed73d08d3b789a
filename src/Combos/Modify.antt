-- ===== src/Combos/Modify.antt =====
-- What the functions of helpers.c that fill the table make available.
use minigbm.Base.{
  ℕ, ◌≡◌, ◌≢◌, inl, inr, refl, sym, ap, ap₂, ◌∙◌, true, Option, none, List, [], ◌∷◌, ◌++◌, map,
  bit_and, bit_or, arith, Bool-cases, testbit, testbit_ext, testbit-bit_and, testbit-bit_or,
}
use mathlib.Core.List.{append_assoc, append-nil, map-append}
use minigbm.Fourcc.{drm_format_none}
use minigbm.Flags.{bo_use_none}
use minigbm.Types.{Combination, FormatMetadata}
use minigbm.Combos.{
  drv_add_combinations, drv_modify_combination, drv_get_combination, add_flags, is_same_entry,
}
use minigbm.Combos.Best.{Serves, Found, drv_get_combination-Found, found_of_Serves}

-- More flags serve what fewer did, and what is among the added ones.
includes-bit_or_left : (old new w : ℕ) → w ≡ bit_and old w → w ≡ bit_and (bit_or old new) w
includes-bit_or_left old new w e = testbit_ext _ _ λ i. omega (
  arith,
  testbit-bit_and i (bit_or old new) w,
  testbit-bit_or i old new,
  testbit-bit_and i old w,
  ap (λ (t : ℕ). testbit t i) e,
)

includes-bit_or_right : (old new w : ℕ) → w ≡ bit_and new w → w ≡ bit_and (bit_or old new) w
includes-bit_or_right old new w e = testbit_ext _ _ λ i. omega (
  arith,
  testbit-bit_and i (bit_or old new) w,
  testbit-bit_or i old new,
  testbit-bit_and i new w,
  ap (λ (t : ℕ). testbit t i) e,
)

bit_or-twice : (a b : ℕ) → bit_or (bit_or a b) b ≡ bit_or a b
bit_or-twice a b =
    testbit_ext _ _ λ i. omega (arith, testbit-bit_or i (bit_or a b) b, testbit-bit_or i a b)

modify-append :
    (xs ys : List Combination) (f : ℕ) (md : FormatMetadata) (u : ℕ)
    → drv_modify_combination (xs ++ ys) f md u
      ≡ drv_modify_combination xs f md u ++ drv_modify_combination ys f md u
unfolding drv_modify_combination
modify-append [] ys f md u = refl
modify-append (x ∷ xs) ys f md u = ap (λ t. add_flags x f md u ∷ t) (modify-append xs ys f md u)

same_entry :
    (c : Combination) (format : ℕ) (md : FormatMetadata)
    → c.format ≡ format
    → c.metadata.tiling ≡ md.tiling
    → c.metadata.modifier ≡ md.modifier
    → is_same_entry c format md ≡ true
same_entry c format md ef et em = ground arith

-- After flags are added to the entries of a format, tiling and modifier, a table with such an
-- entry serves the format, other than none, with every nonempty subset of the added flags.
pub modify_makes_available :
    (before after : List Combination) (c : Combination) (md : FormatMetadata)
    (format use_flags w : ℕ)
    → format ≢ drm_format_none
    → w ≢ bo_use_none
    → w ≡ bit_and use_flags w
    → c.format ≡ format
    → c.metadata.tiling ≡ md.tiling
    → c.metadata.modifier ≡ md.modifier
    → drv_get_combination
        (drv_modify_combination (before ++ c ∷ after) format md use_flags)
        format
        w
      ≢ none
unfolding drv_modify_combination
modify_makes_available before after c md format use_flags w hf hw sub ef et em =
    found_of_Serves format w (drv_modify_combination (before ++ c ∷ after) format md use_flags)
      (drv_modify_combination before format md use_flags)
      (drv_modify_combination after format md use_flags) (add_flags c format md use_flags) hf hw
      (modify-append before (c ∷ after) format md use_flags)
      (rw (same_entry c format md ef et em) (ef, includes-bit_or_right c.use_flags use_flags w sub))

-- Adding flags to entries takes no answer away: a format and flags, other than none, that were
-- served still are.
pub modify_keeps_available :
    (combos : List Combination) (md : FormatMetadata) (f use_flags format w : ℕ)
    → format ≢ drm_format_none
    → w ≢ bo_use_none
    → drv_get_combination combos format w ≢ none
    → drv_get_combination (drv_modify_combination combos f md use_flags) format w ≢ none
unfolding drv_modify_combination
modify_keeps_available combos md f use_flags format w hf hw found =
    keep (drv_get_combination combos format w) (drv_get_combination-Found format w combos hf hw)
      found
  where
    still : (c : Combination) → Serves format w c → Serves format w (add_flags c f md use_flags)
    still c s = elim (Bool-cases (is_same_entry c f md)) [
      | inl same ↦ rw same (s.0, includes-bit_or_left c.use_flags use_flags w s.1)
      | inr other ↦ rw other s
    ]

    keep :
        (b : Option Combination)
        → Found format w combos b
        → b ≢ none
        → drv_get_combination (drv_modify_combination combos f md use_flags) format w ≢ none
    keep b (Found.nothing h) ne = absurd (ne refl)
    keep b (Found.best c i) ne =
        found_of_Serves format w (drv_modify_combination combos f md use_flags)
          (drv_modify_combination i.before f md use_flags)
          (drv_modify_combination i.after f md use_flags) (add_flags c f md use_flags) hf hw
          (ap (λ t. drv_modify_combination t f md use_flags) i.stands
            ∙ modify-append i.before (c ∷ i.after) f md use_flags)
          (still c i.does_serve)

-- Adding the same flags to the same entries twice is adding them once.
pub modify_idempotent :
    (combos : List Combination) (md : FormatMetadata) (f u : ℕ)
    → drv_modify_combination (drv_modify_combination combos f md u) f md u
      ≡ drv_modify_combination combos f md u
unfolding drv_modify_combination
modify_idempotent [] md f u = refl
modify_idempotent (c ∷ combos) md f u = ap₂ ◌∷◌ (twice c) (modify_idempotent combos md f u)
  where
    twice : (c : Combination) → add_flags (add_flags c f md u) f md u ≡ add_flags c f md u
    twice c = elim (Bool-cases (is_same_entry c f md)) [
      | inl same ↦
          rw (same, same) (ap (λ t. record c { use_flags = t }) (bit_or-twice c.use_flags u))
      | inr other ↦ rw (other, other) refl
    ]

entry : FormatMetadata → ℕ → ℕ → Combination
entry md use_flags format = record { format = format; metadata = md; use_flags = use_flags }

added :
    (combos : List Combination) (formats : List ℕ) (md : FormatMetadata) (use_flags : ℕ)
    → drv_add_combinations combos formats md use_flags ≡ combos ++ map (entry md use_flags) formats
unfolding drv_add_combinations entry
added combos [] md use_flags = sym (append-nil combos)
added combos (f ∷ formats) md use_flags =
    added (combos ++ entry md use_flags f ∷ []) formats md use_flags
    ∙ append_assoc combos (entry md use_flags f ∷ []) (map (entry md use_flags) formats)

-- After a list of formats is added, each format of it other than none serves every nonempty
-- subset of the flags.
pub add_makes_available :
    (combos : List Combination) (before after : List ℕ) (md : FormatMetadata)
    (format use_flags w : ℕ)
    → format ≢ drm_format_none
    → w ≢ bo_use_none
    → w ≡ bit_and use_flags w
    → drv_get_combination
        (drv_add_combinations combos (before ++ format ∷ after) md use_flags)
        format
        w
      ≢ none
unfolding entry
add_makes_available combos before after md format use_flags w hf hw sub =
    found_of_Serves format w (drv_add_combinations combos (before ++ format ∷ after) md use_flags)
      (combos ++ map (entry md use_flags) before) (map (entry md use_flags) after)
      (entry md use_flags format) hf hw
      (added combos (before ++ format ∷ after) md use_flags
        ∙ ap (λ t. combos ++ t) (map-append (entry md use_flags) before (format ∷ after))
        ∙ sym (
            append_assoc combos (map (entry md use_flags) before)
              (entry md use_flags format ∷ map (entry md use_flags) after)))
      (refl, sub)
