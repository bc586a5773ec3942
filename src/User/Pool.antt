-- ===== src/User/Pool.antt =====
-- ape/user.rs: a slot that the pool hands out shows the frame of the map that was asked for.
use ape.Base.{
  ℕ, zero, suc, ◌+◌, ◌<◌, ◌≡◌, refl, inl, inr, Bool, true, false, ◌&&◌, Option, none, some, List,
  [], ◌∷◌, arith, length, get_or, is_some, ◌==◌, Bool-cases,
}
use ape.Memory.State.{MemoryMap}
use ape.User.{
  new, repeat, SharedPagePoolEntry, SharedPagePool, set_at, entry_at, is_occupied, is_hit, find_hit,
  first_free,
}

-- Sixteen slots, and an entry in each that is occupied.
abbrev pub IsPool : SharedPagePool → Type 0
IsPool pool =
    (length pool.entries ≡ 16)
    × (length pool.occupied ≡ 16)
    × ((slot : ℕ)
        → is_occupied pool.occupied slot ≡ true
        → is_some (entry_at pool.entries slot) ≡ true)

module _ {A : Type 0} where
  pub length-set_at : (xs : List A) (i : ℕ) (x : A) → length (set_at xs i x) ≡ length xs
  unfolding set_at
  length-set_at [] i x = refl
  length-set_at (y ∷ ys) zero x = refl
  length-set_at (y ∷ ys) (suc i) x = omega (arith, length-set_at ys i x)

  pub get_or-set_at :
      (xs : List A) (i : ℕ) (x d : A) → i < length xs → get_or (set_at xs i x) i d ≡ x
  unfolding set_at
  get_or-set_at [] i x d inside = absurd (omega arith)
  get_or-set_at (y ∷ ys) zero x d inside = refl
  get_or-set_at (y ∷ ys) (suc i) x d inside = get_or-set_at ys i x d (omega arith)

  pub get_or-set_at_other :
      (xs : List A) (i j : ℕ) (x d : A)
      → (i == j) ≡ false
      → get_or (set_at xs i x) j d ≡ get_or xs j d
  unfolding set_at
  get_or-set_at_other [] i j x d apart = refl
  get_or-set_at_other (y ∷ ys) zero zero x d apart = absurd (ground (arith, apart))
  get_or-set_at_other (y ∷ ys) zero (suc j) x d apart = refl
  get_or-set_at_other (y ∷ ys) (suc i) zero x d apart = refl
  get_or-set_at_other (y ∷ ys) (suc i) (suc j) x d apart =
      get_or-set_at_other ys i j x d (ground (arith, apart))

pub occupied_below :
    (occupied : List Bool) (slot : ℕ) → is_occupied occupied slot ≡ true → slot < length occupied
occupied_below [] slot used = absurd (ground (arith, used))
occupied_below (b ∷ occupied) zero used = omega arith
occupied_below (b ∷ occupied) (suc slot) used = omega (arith, occupied_below occupied slot used)

pub hit_shown :
    (entry : Option SharedPagePoolEntry) (map : MemoryMap) (perms : ℕ)
    → is_hit entry map perms ≡ true
    → elim entry as (λ _. ℕ) [ none ↦ 0 | some e ↦ e.frame_cap ] ≡ map.frame_cap
unfolding is_hit
hit_shown none map perms hit = absurd (ground (arith, hit))
hit_shown (some e) map perms hit = ground (arith, hit)

abbrev pub HitOutcome : ℕ → List (Option SharedPagePoolEntry) → MemoryMap → ℕ → Option ℕ → Type 0
HitOutcome at entries map perms none = Unit {0}
HitOutcome at entries map perms (some slot) =
    (k : ℕ) × (slot ≡ at + k) × (is_hit (entry_at entries k) map perms ≡ true)

later-HitOutcome :
    (at : ℕ) (entry : Option SharedPagePoolEntry) (entries : List (Option SharedPagePoolEntry))
    (map : MemoryMap) (perms : ℕ) (found : Option ℕ)
    → HitOutcome (at + 1) entries map perms found
    → HitOutcome at (entry ∷ entries) map perms found
later-HitOutcome at entry entries map perms none rest = tt
later-HitOutcome at entry entries map perms (some slot) (k, place, hit) = (suc k, omega arith, hit)

pub find_hit-HitOutcome :
    (at : ℕ) (entries : List (Option SharedPagePoolEntry)) (occupied : List Bool) (map : MemoryMap)
    (perms : ℕ)
    → HitOutcome at entries map perms (find_hit at entries occupied map perms)
unfolding find_hit
find_hit-HitOutcome at [] occupied map perms = tt
find_hit-HitOutcome at (entry ∷ entries) [] map perms = tt
find_hit-HitOutcome at (entry ∷ entries) (used ∷ occupied) map perms =
    elim (Bool-cases (used && is_hit entry map perms)) [
      | inl hit ↦ rw (hit) (0, omega arith, ground (arith, hit))
      | inr miss ↦ rw (miss) (
          later-HitOutcome at entry entries map perms (find_hit (at + 1) entries occupied map perms)
            (find_hit-HitOutcome (at + 1) entries occupied map perms))
    ]

-- A free slot from `at` on, or none.
abbrev pub FreeOutcome : ℕ → List Bool → Option ℕ → Type 0
FreeOutcome at occupied none = (k : ℕ) → k < length occupied → is_occupied occupied k ≡ true
FreeOutcome at occupied (some slot) =
    (k : ℕ) × (slot ≡ at + k) × (k < length occupied) × (is_occupied occupied k ≡ false)

later-FreeOutcome :
    (at : ℕ) (occupied : List Bool) (found : Option ℕ)
    → FreeOutcome (at + 1) occupied found
    → FreeOutcome at (true ∷ occupied) found
later-FreeOutcome at occupied none rest = elim [
  | zero ↦ λ low. refl
  | suc k ↦ λ low. rest k (omega arith)
]
later-FreeOutcome at occupied (some slot) (k, place, low, free) =
    (suc k, omega arith, omega arith, free)

pub first_free-FreeOutcome :
    (at : ℕ) (occupied : List Bool) → FreeOutcome at occupied (first_free at occupied)
unfolding first_free
first_free-FreeOutcome at [] = λ k low. absurd (omega arith)
first_free-FreeOutcome at (false ∷ occupied) = (0, omega arith, omega arith, refl)
first_free-FreeOutcome at (true ∷ occupied) =
    later-FreeOutcome at occupied (first_free (at + 1) occupied)
      (first_free-FreeOutcome (at + 1) occupied)

no_slots :
    (n slot : ℕ)
    → is_occupied (repeat n false) slot ≡ true
    → is_some (entry_at (repeat n none) slot) ≡ true
no_slots zero slot used = absurd (ground (arith, used))
no_slots (suc n) zero used = absurd (ground (arith, used))
no_slots (suc n) (suc slot) used = no_slots n slot used

pub new-IsPool : IsPool new
unfolding new
new-IsPool = (refl, refl, no_slots 16)
