-- ===== src/Handles.antt =====
-- How many planes of a buffer use a kernel handle; planes may share one.
use minigbm.Base.{ℕ, zero, suc, ◌+◌, ◌≤◌, ◌≡◌, ap, ◌∙◌, List, get_or, arith, ◌==◌, if◌then◌else◌}
use native.Mathlib.Nat.{add_comm}

-- How many of the `rest` planes from `p` on have the handle.
unfoldable pub uses : List ℕ → ℕ → ℕ → ℕ → ℕ
uses handles zero p h = 0
uses handles (suc rest) p h =
    (if get_or handles p 0 == h then 1 else 0) + uses handles rest (suc p) h

pub uses-le : (handles : List ℕ) (rest p h : ℕ) → uses handles rest p h ≤ rest
unfolding uses
uses-le handles zero p h = omega arith
uses-le handles (suc rest) p h = ground (arith, uses-le handles rest (suc p) h)

-- One plane more at the end.
pub uses-suc :
    (handles : List ℕ) (rest p q h : ℕ)
    → q ≡ p + rest
    → uses handles (suc rest) p h
      ≡ uses handles rest p h + (if get_or handles q 0 == h then 1 else 0)
unfolding uses
uses-suc handles zero p q h e =
    ap (λ t. (if get_or handles t 0 == h then 1 else 0) + 0) {x = p} {y = q} (omega arith)
    ∙ add_comm (if get_or handles q 0 == h then 1 else 0) 0
uses-suc handles (suc rest) p q h e = ground (arith, uses-suc handles rest (suc p) q h)
