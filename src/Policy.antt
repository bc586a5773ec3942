-- ===== src/Policy.antt =====
-- ape/policy/lru.rs: which slot of the shared page pool is given up. The order is that of use, the
-- least recently used slot first.
pub mod Order
pub mod Victim
mod Tests
use ape.Base.{
  ℕ, ◌+◌, Bool, true, false, Option, none, some, List, [], ◌∷◌, ◌++◌, get_or, ◌==◌, if◌then◌else◌,
}

abbrev pub LruPolicy : Type 0
LruPolicy = List ℕ

unfoldable pub new : LruPolicy
new = []

unfoldable pub remove : LruPolicy → ℕ → LruPolicy
remove [] slot = []
remove (first ∷ order) slot = if first == slot then order else first ∷ remove order slot

unfoldable pub make_mru : LruPolicy → ℕ → LruPolicy
make_mru order slot = remove order slot ++ slot ∷ []

unfoldable pub touch : LruPolicy → ℕ → LruPolicy
touch order slot = make_mru order slot

unfoldable pub insert : LruPolicy → ℕ → LruPolicy
insert order slot = make_mru order slot

-- `occupied.iter().position(|used| *used)`, counted from `at`.
unfoldable pub position : ℕ → List Bool → Option ℕ
position at [] = none
position at (used ∷ occupied) = if used then some at else position (at + 1) occupied

-- The victim, and what is left of the order.
unfoldable pub victim : LruPolicy → List Bool → Option ℕ × LruPolicy
victim [] occupied = (position 0 occupied, [])
victim (slot ∷ order) occupied =
    if get_or occupied slot false then (some slot, slot ∷ order) else victim order occupied
