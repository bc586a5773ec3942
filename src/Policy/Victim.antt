-- ===== src/Policy/Victim.antt =====
-- The victim that ape/policy/lru.rs picks.
use ape.Base.{
  ℕ, ◌+◌, ◌≡◌, zero, suc, ◌⊎◌, refl, Bool, true, false, Option, none, some, List, [], ◌∷◌, ◌++◌,
  arith, get_or, All, inl, inr, Bool-cases, ap,
}
use ape.Policy.{LruPolicy, position, victim}

abbrev pub IsFree : List Bool → ℕ → Type 0
IsFree occupied slot = get_or occupied slot false ≡ false

-- What a victim is, and the order that is left.
abbrev pub VictimOutcome : LruPolicy → List Bool → Option ℕ × LruPolicy → Type 0
VictimOutcome order occupied (none, left) =
    (left ≡ []) × ((slot : ℕ) → IsFree occupied slot) × All (IsFree occupied) order
VictimOutcome order occupied (some slot, left) =
    (get_or occupied slot false ≡ true)
    × ((skipped : List ℕ) × (order ≡ skipped ++ left)
        × All (IsFree occupied) skipped
        × ((left ≡ []) ⊎ ((rest : List ℕ) × (left ≡ slot ∷ rest))))

abbrev pub PositionOutcome : ℕ → List Bool → Option ℕ → Type 0
PositionOutcome at occupied none = (slot : ℕ) → IsFree occupied slot
PositionOutcome at occupied (some found) =
    (k : ℕ) × (found ≡ at + k) × (get_or occupied k false ≡ true)

still_unused :
    (occupied : List Bool)
    → ((slot : ℕ) → IsFree occupied slot)
    → (slot : ℕ) → IsFree (false ∷ occupied) slot
still_unused occupied free zero = refl
still_unused occupied free (suc slot) = free slot

position-PositionOutcome :
    (at : ℕ) (occupied : List Bool) → PositionOutcome at occupied (position at occupied)
unfolding position
position-PositionOutcome at [] = λ slot. refl
position-PositionOutcome at (true ∷ occupied) = (0, omega arith, refl)
position-PositionOutcome at (false ∷ occupied) =
    later (position (at + 1) occupied) (position-PositionOutcome (at + 1) occupied)
  where
    later :
        (found : Option ℕ)
        → PositionOutcome (at + 1) occupied found
        → PositionOutcome at (false ∷ occupied) found
    later none free = still_unused occupied free
    later (some found) (k, e, used) = (suc k, omega arith, used)

empty-VictimOutcome :
    (occupied : List Bool) (found : Option ℕ)
    → PositionOutcome 0 occupied found
    → VictimOutcome [] occupied (found, [])
empty-VictimOutcome occupied none free = (refl, free, tt)
empty-VictimOutcome occupied (some found) (k, e, used) =
    let same : found ≡ k = omega arith in (rw same used, ([], refl, tt, inl refl))

skip-VictimOutcome :
    (slot : ℕ) (order : LruPolicy) (occupied : List Bool) (picked : Option ℕ × LruPolicy)
    → IsFree occupied slot
    → VictimOutcome order occupied picked
    → VictimOutcome (slot ∷ order) occupied picked
skip-VictimOutcome slot order occupied (none, left) free (empty, all, rest) =
    (empty, all, (free, rest))
skip-VictimOutcome slot order occupied (some found, left) free (used, (skipped, e, all, last)) =
    (used, (slot ∷ skipped, ap (λ xs. slot ∷ xs) e, (free, all), last))

-- The victim is an occupied slot, and only free slots are dropped from the order for it: it is the
-- first occupied one of the order, or, when the order holds none, one that the order does not name.
-- There is no victim exactly when no slot is occupied.
pub victim-VictimOutcome :
    (order : LruPolicy) (occupied : List Bool)
    → VictimOutcome order occupied (victim order occupied)
unfolding victim
victim-VictimOutcome [] occupied =
    empty-VictimOutcome occupied (position 0 occupied) (position-PositionOutcome 0 occupied)
victim-VictimOutcome (slot ∷ order) occupied = elim (Bool-cases (get_or occupied slot false)) [
  | inl used ↦ rw used (used, ([], refl, tt, inr (order, refl)))
  | inr free ↦ rw free (
      skip-VictimOutcome slot order occupied (victim order occupied) free
        (victim-VictimOutcome order occupied))
]
