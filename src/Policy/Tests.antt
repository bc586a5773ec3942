-- ===== src/Policy/Tests.antt =====
-- Runs of ape/policy/lru.rs.
use ape.Base.{◌≡◌, refl, true, some, [], ◌∷◌}
use ape.Policy.{new, remove, make_mru, touch, insert, victim}
use ape.Policy.Order.{touches, inserts, step, run}

-- Slot 0 was used last, and slot 2 is free.
picked :
    victim (run new (inserts 0 ∷ inserts 2 ∷ inserts 1 ∷ touches 0 ∷ [])) (true ∷ true ∷ [])
    ≡ (some 1, 1 ∷ 0 ∷ [])
unfolding victim run step new touch insert make_mru remove
picked = refl
