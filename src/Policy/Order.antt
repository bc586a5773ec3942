-- ===== src/Policy/Order.antt =====
-- The order of ape/policy/lru.rs never names a slot twice.
use ape.Base.{
  ℕ, ◌≡◌, refl, Bool, false, not, ◌&&◌, ◌||◌, List, [], ◌∷◌, ◌++◌, arith, contains, ◌==◌,
}
use ape.Policy.{LruPolicy, remove, make_mru, touch, insert, victim}

abbrev pub IsDistinct : List ℕ → Type 0
IsDistinct [] = Unit {0}
IsDistinct (slot ∷ order) = (contains order slot ≡ false) × IsDistinct order

pub data Call : Type 0 where
  touches inserts removes : ℕ → Call
  picks : List Bool → Call

unfoldable pub step : LruPolicy → Call → LruPolicy
step order (touches slot) = touch order slot
step order (inserts slot) = insert order slot
step order (removes slot) = remove order slot
step order (picks occupied) = (victim order occupied).1

unfoldable pub run : LruPolicy → List Call → LruPolicy
run order [] = order
run order (call ∷ calls) = run (step order call) calls

contains-append :
    (xs ys : List ℕ) (a : ℕ) → contains (xs ++ ys) a ≡ (contains xs a || contains ys a)
contains-append [] ys a = refl
contains-append (x ∷ xs) ys a = ground (arith, contains-append xs ys a)

contains-remove :
    (order : LruPolicy) (slot a : ℕ)
    → IsDistinct order
    → contains (remove order slot) a ≡ (contains order a && not (a == slot))
unfolding remove
contains-remove [] slot a d = ground arith
contains-remove (first ∷ order) slot a d = ground (arith, contains-remove order slot a d.1)

remove-IsDistinct :
    (order : LruPolicy) (slot : ℕ) → IsDistinct order → IsDistinct (remove order slot)
unfolding remove
remove-IsDistinct [] slot d = tt
remove-IsDistinct (first ∷ order) slot d =
    ground (arith, remove-IsDistinct order slot d.1, contains-remove order slot first d.1)

append-IsDistinct :
    (order : List ℕ) (slot : ℕ)
    → IsDistinct order
    → contains order slot ≡ false
    → IsDistinct (order ++ slot ∷ [])
append-IsDistinct [] slot d h = (refl, tt)
append-IsDistinct (first ∷ order) slot d h =
    ground (arith, append-IsDistinct order slot d.1, contains-append order (slot ∷ []) first)

make_mru-IsDistinct :
    (order : LruPolicy) (slot : ℕ) → IsDistinct order → IsDistinct (make_mru order slot)
unfolding make_mru
make_mru-IsDistinct order slot d =
    append-IsDistinct (remove order slot) slot (remove-IsDistinct order slot d)
      (ground (arith, contains-remove order slot slot d))

victim-IsDistinct :
    (order : LruPolicy) (occupied : List Bool)
    → IsDistinct order
    → IsDistinct (victim order occupied).1
unfolding victim
victim-IsDistinct [] occupied d = tt
victim-IsDistinct (slot ∷ order) occupied d = ground (arith, victim-IsDistinct order occupied d.1)

-- Whatever is called, the order never names a slot twice when it did not at first.
pub run-IsDistinct :
    (order : LruPolicy) (calls : List Call) → IsDistinct order → IsDistinct (run order calls)
unfolding run step touch insert
run-IsDistinct order [] d = d
run-IsDistinct order (touches slot ∷ calls) d =
    run-IsDistinct (step order (touches slot)) calls (make_mru-IsDistinct order slot d)
run-IsDistinct order (inserts slot ∷ calls) d =
    run-IsDistinct (step order (inserts slot)) calls (make_mru-IsDistinct order slot d)
run-IsDistinct order (removes slot ∷ calls) d =
    run-IsDistinct (step order (removes slot)) calls (remove-IsDistinct order slot d)
run-IsDistinct order (picks occupied ∷ calls) d =
    run-IsDistinct (step order (picks occupied)) calls (victim-IsDistinct order occupied d)
