-- ===== src/Kernel/Series.antt =====
-- A request for each plane in turn, and the answers to them.
use minigbm.Base.{
  ℕ, zero, suc, ◌<◌, ◌≡◌, List, ◌∷◌, get_or, set, length, arith, ap, subst, ◌∙◌, get_or-set_self,
  get_or-set_ne,
}
use native.Mathlib.Decide.{ℕ_discrete}
use minigbm.Kernel.{Kernel, Request, Reply, Sys, call}

module _ (ask : ℕ → Request) (calls : List Request) where
  -- The calls when the requests for the planes before `p` are made.
  unfoldable pub asked : ℕ → List Request
  asked zero = calls
  asked (suc p) = ask p ∷ asked p

  -- The answer for plane `p`.
  abbrev pub answer : Kernel → ℕ → Reply
  answer kernel p = kernel (asked p) (ask p)

  -- The requests for the planes before `p` are granted, and these have the handles of the answers.
  abbrev pub TookTo : Kernel → List ℕ → ℕ → Type 0
  TookTo kernel handles p =
      (q : ℕ)
      → q < p
      → ((answer kernel q).ret ≡ 0) × (get_or handles q 0 ≡ (answer kernel q).handle)

  pub TookTo-suc :
      (kernel : Kernel) (handles : List ℕ) (p : ℕ)
      → p < length handles
      → TookTo kernel handles p
      → (answer kernel p).ret ≡ 0
      → TookTo kernel (set handles p (answer kernel p).handle) (suc p)
  TookTo-suc kernel handles p fits before ok q lt = elim (ℕ_discrete p q) [
    | yes e ↦
        subst
          (λ t.
            ((answer kernel t).ret ≡ 0)
            × (get_or (set handles p (answer kernel p).handle) t 0 ≡ (answer kernel t).handle))
          e (ok, get_or-set_self handles p (answer kernel p).handle 0 fits)
    | no ne ↦
        let (granted, same) = before q (omega arith) in
        (granted, get_or-set_ne handles p q (answer kernel p).handle 0 ne ∙ same)
  ]

  -- The next request of the series.
  pub call-answer :
      (kernel : Kernel) (p : ℕ) (sys : Sys)
      → sys.calls ≡ asked p
      → ((call kernel (ask p) sys).0 ≡ answer kernel p)
        × ((call kernel (ask p) sys).1.calls ≡ asked (suc p))
  unfolding call asked
  call-answer kernel p sys so_far = (
    ap (λ (t : List Request). kernel t (ask p)) so_far,
    ap (λ (t : List Request). ask p ∷ t) so_far,
  )
