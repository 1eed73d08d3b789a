-- ===== src/Gem/Distinct.antt =====
-- The search for an earlier plane with the same handle.
use minigbm.Base.{ℕ, zero, suc, ◌+◌, ◌≤◌, ◌≡◌, ◌↔◌, refl, List, get_or, arith, ltb}
use minigbm.Handles.{uses}
use minigbm.Gem.{first_with, is_repeated}

-- The search ends early exactly if one of its planes has the handle.
first_with_lem :
    (handles : List ℕ) (h rest i : ℕ)
    → (first_with handles h rest i ≤ i + rest)
      × ((first_with handles h rest i ≡ i + rest) ↔ (uses handles rest i h ≡ 0))
unfolding first_with uses
first_with_lem handles h zero i = (omega arith, (λ e. refl, λ e. omega arith))
first_with_lem handles h (suc rest) i = ground (arith, first_with_lem handles h rest (suc i))

-- The test on a plane: an earlier one uses the same handle.
pub is_repeated_lem :
    (handles : List ℕ) (plane : ℕ)
    → is_repeated handles plane ≡ ltb 0 (uses handles plane 0 (get_or handles plane 0))
is_repeated_lem handles plane =
    ground (arith, first_with_lem handles (get_or handles plane 0) plane 0)
