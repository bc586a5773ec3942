-- ===== src/Files/Maps.antt =====
-- `values().any(test)` on an ordered map, after an insertion and a removal.
use ape.Base.{
  ℕ, suc, ◌≡◌, Bool, false, ◌||◌, some, [], ◌∷◌, arith, Map, lookup, insert, remove, Above,
  lookup_below, remove_absent,
}

module _ {ℓ} {V : Type ℓ} (test : V → Bool) where
  unfoldable pub any_value : Map V → Bool
  any_value [] = false
  any_value ((k, v) ∷ m) = test v || any_value m

  pub any_value-remove :
      (n k : ℕ) (v : V) (m : Map V)
      → Above n m
      → lookup k m ≡ some v
      → any_value m ≡ (test v || any_value (remove k m))
  unfolding any_value lookup remove
  any_value-remove n k v [] a h = ground arith
  any_value-remove n k v ((j, w) ∷ m) a h =
      ground
        (arith, any_value-remove (suc j) k v m a.1, lookup_below (suc j) k m a.1, remove_absent k m)

  pub any_value-insert :
      (n k : ℕ) (v : V) (m : Map V)
      → Above n m
      → any_value (insert k v m) ≡ (test v || any_value (remove k m))
  unfolding any_value insert remove
  any_value-insert n k v [] a = ground arith
  any_value-insert n k v ((j, w) ∷ m) a =
      ground
        (arith, any_value-insert (suc j) k v m a.1, lookup_below (suc j) k m a.1, remove_absent k m)
