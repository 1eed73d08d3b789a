-- ===== src/Combos/Best.antt =====
-- Which entry `drv_get_combination` finds.
use minigbm.Base.{
  ℕ, ◌≤◌, ◌<◌, ◌≡◌, ◌≢◌, inl, inr, refl, sym, ap, subst, ◌∙◌, true, false, ◌&&◌, Option, none, some,
  List, [], ◌∷◌, ◌++◌, bit_and, arith, if◌then◌else◌, Bool-cases, All, All-append, All-map, ==_ne,
}
use mathlib.Core.List.{append_assoc, append-nil}
use minigbm.Fourcc.{drm_format_none}
use minigbm.Flags.{bo_use_none}
use minigbm.Types.{Combination}
use minigbm.Combos.{serves, is_better, best_of, drv_get_combination}

module _ (format use_flags : ℕ) where
  -- An entry for the format that has all of the flags.
  abbrev pub Serves : Combination → Type 0
  Serves c = (c.format ≡ format) × (use_flags ≡ bit_and c.use_flags use_flags)

  serves→Serves : (c : Combination) → serves format use_flags c ≡ true → Serves c
  serves→Serves c h = ground arith

  not_Serves : (c : Combination) → serves format use_flags c ≡ false → ¬ Serves c
  not_Serves c h s = ground arith

  -- An entry that serves, of the highest priority of those that do, and the first of that priority.
  pub record IsBest (xs : List Combination) (c : Combination) : Type 0 where
    pub before : List Combination
    pub after : List Combination
    pub stands : xs ≡ before ++ c ∷ after
    pub does_serve : Serves c
    pub above_before : All (λ d. Serves d → d.metadata.priority < c.metadata.priority) before
    pub above_after : All (λ d. Serves d → d.metadata.priority ≤ c.metadata.priority) after

  -- What a search over the list may answer.
  pub data Found (xs : List Combination) : Option Combination → Type 0 where
    nothing : All (λ d. ¬ Serves d) xs → Found xs none
    best : (c : Combination) → IsBest xs c → Found xs (some c)

  -- An entry that is better than the best so far.
  take-IsBest :
      (seen : List Combination) (c x : Combination)
      → IsBest seen c
      → Serves x
      → c.metadata.priority < x.metadata.priority
      → IsBest (seen ++ x ∷ []) x
  take-IsBest seen c x w s h = record {
    before = seen;
    after = [];
    stands = refl;
    does_serve = s;
    above_before =
        subst (All (λ d. Serves d → d.metadata.priority < x.metadata.priority)) (sym w.stands) (
          All-append _ w.before (c ∷ w.after)
            (All-map _ _ w.before (λ d f e. omega (arith, f e)) w.above_before)
            (λ _. h, All-map _ _ w.after (λ d f e. omega (arith, f e)) w.above_after));
    above_after = tt;
  }

  -- One that is not, or does not serve.
  keep-IsBest :
      (seen : List Combination) (c x : Combination)
      → IsBest seen c
      → (Serves x → x.metadata.priority ≤ c.metadata.priority)
      → IsBest (seen ++ x ∷ []) c
  keep-IsBest seen c x w h = record {
    before = w.before;
    after = w.after ++ x ∷ [];
    stands = ap (λ t. t ++ x ∷ []) w.stands ∙ append_assoc w.before (c ∷ w.after) (x ∷ []);
    does_serve = w.does_serve;
    above_before = w.above_before;
    above_after = All-append _ w.after (x ∷ []) w.above_after (h, tt);
  }

  not_better :
      (c x : Combination) → is_better (some c) x ≡ false → x.metadata.priority ≤ c.metadata.priority
  not_better c x h = ground arith

  better :
      (c x : Combination) → is_better (some c) x ≡ true → c.metadata.priority < x.metadata.priority
  better c x h = ground arith

  Found-step :
      (seen : List Combination) (b : Option Combination) (x : Combination)
      → Found seen b
      → Found (seen ++ x ∷ []) (if serves format use_flags x && is_better b x then some x else b)
  Found-step seen b x (nothing h) = elim (Bool-cases (serves format use_flags x)) [
    | inl s ↦ rw s (
        best x (record {
          before = seen;
          after = [];
          stands = refl;
          does_serve = serves→Serves x s;
          above_before = All-map _ _ seen (λ d f e. absurd (f e)) h;
          above_after = tt;
        }))
    | inr s ↦ rw s (nothing (All-append _ seen (x ∷ []) h (not_Serves x s, tt)))
  ]
  Found-step seen b x (best c w) = elim (Bool-cases (serves format use_flags x)) [
    | inl s ↦ elim (Bool-cases (is_better (some c) x)) [
      | inl more ↦
          rw (s, more) (best x (take-IsBest seen c x w (serves→Serves x s) (better c x more)))
      | inr less ↦ rw (s, less) (best c (keep-IsBest seen c x w (λ _. not_better c x less)))
    ]
    | inr s ↦ rw s (best c (keep-IsBest seen c x w (λ e. absurd (not_Serves x s e))))
  ]

  best_of-Found :
      (seen rest : List Combination) (b : Option Combination)
      → Found seen b
      → Found (seen ++ rest) (best_of format use_flags b rest)
  unfolding best_of
  best_of-Found seen [] b f = subst (λ t. Found t b) (sym (append-nil seen)) f
  best_of-Found seen (x ∷ rest) b f =
      subst (λ t. Found t (best_of format use_flags b (x ∷ rest))) (append_assoc seen (x ∷ []) rest)
        (best_of-Found (seen ++ x ∷ []) rest _ (Found-step seen b x f))

  -- For a format and flags other than none, the search of the combinations answers nothing
  -- exactly when no entry of the format has all of the flags, and else the first of the entries
  -- of the highest priority that do.
  pub drv_get_combination-Found :
      (combos : List Combination)
      → format ≢ drm_format_none
      → use_flags ≢ bo_use_none
      → Found combos (drv_get_combination combos format use_flags)
  unfolding drv_get_combination
  drv_get_combination-Found combos hf hu =
      rw (==_ne format drm_format_none hf, ==_ne use_flags bo_use_none hu)
        (best_of-Found [] combos none (nothing tt))

  pub All-middle {κ} :
      (P : Combination → Type κ) (xs ys : List Combination) (c : Combination)
      → All P (xs ++ c ∷ ys)
      → P c
  All-middle P [] ys c h = h.0
  All-middle P (x ∷ xs) ys c h = All-middle P xs ys c h.1

  -- An entry that serves is enough for an answer.
  pub found_of_Serves :
      (combos before after : List Combination) (c : Combination)
      → format ≢ drm_format_none
      → use_flags ≢ bo_use_none
      → combos ≡ before ++ c ∷ after
      → Serves c
      → drv_get_combination combos format use_flags ≢ none
  found_of_Serves combos before after c hf hu e s =
      refute (drv_get_combination combos format use_flags) (drv_get_combination-Found combos hf hu)
    where
      refute : (b : Option Combination) → Found combos b → b ≢ none
      refute b (nothing h) =
          absurd (All-middle (λ d. ¬ Serves d) before after c (subst (All (λ d. ¬ Serves d)) e h) s)
      refute b (best d w) = λ h. cc
