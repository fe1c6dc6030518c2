-- ===== src/Ring/Tests.antt =====
-- Runs of the ring, and each theorem at a concrete input.
use dingzi.Base.{ℕ, ◌≡◌, refl, some, [], ◌∷◌, replicate}
use dingzi.Ring.{new_ring, push, snapshot}
use dingzi.Ring.Refine.{recent, pushes, pushes_refine, get_last?}

-- Three samples are read back oldest first.
three : snapshot {A = ℕ} 0 (push 0 9 (push 0 8 (push 0 7 (new_ring 0)))) ≡ 7 ∷ 8 ∷ 9 ∷ []
unfolding snapshot push new_ring
three = refl

-- The 121st sample drops the first.
full : get_last? (snapshot {A = ℕ} 0 (pushes 0 (3 ∷ replicate 120 5) (new_ring 0))) ≡ some 5
unfolding snapshot push new_ring pushes
full = refl

pushes_refine_example :
    snapshot {A = ℕ} 0 (pushes 0 (replicate 130 5) (new_ring 0)) ≡ recent (replicate 130 5)
pushes_refine_example = pushes_refine 0 (replicate 130 5)
