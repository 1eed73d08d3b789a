-- ===== src/I915/Device/Family.antt =====
-- Which devices are of which generation.
use minigbm.Base.{
  ℕ, ◌≡◌, ◌↔◌, ◌⊎◌, inl, inr, refl, Bool, true, false, not, ◌&&◌, List, [], ◌∷◌, arith, ◌==◌,
  Bool-cases, ==_iff,
}
use minigbm.I915.Device.{I915Device, gen9_ids, adlp_ids, is_listed, i915_info_from_device_id}

-- No number is in both lists.
apart : List ℕ → List ℕ → Bool
apart [] ys = true
apart (x ∷ xs) ys = not (is_listed ys x) && apart xs ys

apart_lem :
    (xs ys : List ℕ) (d : ℕ) → apart xs ys ≡ true → is_listed xs d ≡ true → is_listed ys d ≡ false
unfolding apart is_listed
apart_lem [] ys d h e = cc
apart_lem (x ∷ xs) ys d h e = elim (Bool-cases (is_listed ys x)) [
  | inl both ↦ absurd (contradiction (rw both at h))
  | inr only ↦ elim (Bool-cases (x == d)) [
    | inl here ↦ rw (← (==_iff x d).0 here) only
    | inr there ↦ apart_lem xs ys d (rw only at h) (rw there at e)
  ]
]
  where
    contradiction : ¬ (false ≡ true)
    contradiction bad = cc

gen9_adlp_apart : apart gen9_ids adlp_ids ≡ true
unfolding apart is_listed
gen9_adlp_apart = refl

-- A device is of generation 9 exactly if it is listed so, an ADL-P exactly if it is listed so, and of
-- generation 12 if it is not of generation 9.
i915_info_from_device_id_lem :
    (i915 : I915Device)
    → (((i915_info_from_device_id i915).gen ≡ 9) ↔ (is_listed gen9_ids i915.device_id ≡ true))
      × (((i915_info_from_device_id i915).is_adlp ≡ true)
          ↔ (is_listed adlp_ids i915.device_id ≡ true))
      × (((i915_info_from_device_id i915).gen ≡ 9) ⊎ ((i915_info_from_device_id i915).gen ≡ 12))
unfolding i915_info_from_device_id
i915_info_from_device_id_lem i915 = elim (Bool-cases (is_listed gen9_ids i915.device_id)) [
  | inl nine ↦
      rw (nine, apart_lem gen9_ids adlp_ids i915.device_id gen9_adlp_apart nine)
        (((λ _. refl), (λ _. refl)), ((λ h. h), (λ h. h)), inl refl)
  | inr other ↦ elim (Bool-cases (is_listed adlp_ids i915.device_id)) [
    | inl p ↦
        rw (other, p)
          (((λ h. absurd (omega arith)), (λ h. cc)), ((λ _. refl), (λ _. refl)), inr refl)
    | inr old ↦
        rw (other, old) (((λ h. absurd (omega arith)), (λ h. cc)), ((λ h. h), (λ h. h)), inr refl)
  ]
]
