-- ===== src/Base/Maps.antt =====
-- `BTreeMap<usize, V>`: an association list in the order of its keys, which is the order that the
-- source iterates in. `Above n m` says that the keys rise strictly from `n` on.
use Prim.Native.Nat.{ℕ, suc, ◌+◌, ◌≤◌, ◌<◌}
use mathlib.Core.Path.{◌≡◌, refl}
use mathlib.Core.Logic.{inl, inr}
use mathlib.Core.Bool.{Bool}
use mathlib.Core.List.{List, [], ◌∷◌}
use mathlib.Core.Option.{Option, none, some}
use native.Mathlib.Omega.{arith}
use ape.Base.Tests.{ltb, leb, ◌==◌, if◌then◌else◌, is_some, Bool-cases}
use ape.Base.Lists.{length}

abbrev pub Map {ℓ} : Type ℓ → Type ℓ
Map V = List (ℕ × V)

module _ {ℓ} {V : Type ℓ} where
  unfoldable pub lookup : ℕ → Map V → Option V
  lookup key [] = none
  lookup key ((at, found) ∷ rest) = if at == key then some found else lookup key rest

  unfoldable pub insert : ℕ → V → Map V → Map V
  insert k v [] = (k, v) ∷ []
  insert k v ((j, w) ∷ m) =
      if j == k then (k, v) ∷ m else if ltb k j then (k, v) ∷ (j, w) ∷ m else (j, w) ∷ insert k v m

  unfoldable pub remove : ℕ → Map V → Map V
  remove k [] = []
  remove k ((j, w) ∷ m) = if j == k then remove k m else (j, w) ∷ remove k m

  abbrev pub contains_key : ℕ → Map V → Bool
  contains_key k m = is_some (lookup k m)

  abbrev pub keys : Map V → List ℕ
  keys [] = []
  keys ((k, v) ∷ m) = k ∷ keys m

  abbrev pub values : Map V → List V
  values [] = []
  values ((k, v) ∷ m) = v ∷ values m

  -- `range(..=k).next_back()`: the entry with the greatest key up to k.
  unfoldable pub floor : ℕ → Map V → Option V
  floor k [] = none
  floor k ((j, v) ∷ m) =
      let rest = floor k m in
      if leb j k then elim rest [ none ↦ some v | some w ↦ some w ] else none

  abbrev pub Above : ℕ → Map V → Type 0
  Above n [] = Unit {0}
  Above n ((k, v) ∷ m) = (n ≤ k) × Above (suc k) m

  -- Reading any key after a write: `key` was written, `other` is read.
  pub lookup-insert :
      (key other : ℕ) (new : V) (entries : Map V)
      → lookup other (insert key new entries)
        ≡ (if key == other then some new else lookup other entries)
  unfolding insert lookup
  lookup-insert key other new [] = refl
  lookup-insert key other new ((at, old) ∷ rest) = ground (arith, lookup-insert key other new rest)

  pub lookup-remove :
      (k j : ℕ) (m : Map V) → lookup j (remove k m) ≡ (if k == j then none else lookup j m)
  unfolding lookup remove
  lookup-remove k j [] = ground arith
  lookup-remove k j ((i, w) ∷ m) = ground (arith, lookup-remove k j m)

  pub lookup-insert_self : (k : ℕ) (v : V) (m : Map V) → lookup k (insert k v m) ≡ some v
  lookup-insert_self k v m = ground (arith, lookup-insert k k v m)

  pub lookup-remove_self : (k : ℕ) (m : Map V) → lookup k (remove k m) ≡ none
  lookup-remove_self k m = ground (arith, lookup-remove k k m)

  pub Above-mono : {n : ℕ} (i : ℕ) (m : Map V) → i ≤ n → Above n m → Above i m
  Above-mono i [] h a = tt
  Above-mono i ((k, v) ∷ m) h a = (omega arith, a.1)

  pub insert-Above : (n k : ℕ) (v : V) (m : Map V) → n ≤ k → Above n m → Above n (insert k v m)
  unfolding insert
  insert-Above n k v [] h a = (h, tt)
  insert-Above n k v ((j, w) ∷ m) h a = ground (arith, insert-Above (suc j) k v m)

  pub remove-Above : (n k : ℕ) (m : Map V) → Above n m → Above n (remove k m)
  unfolding remove
  remove-Above n k [] a = tt
  remove-Above n k ((j, w) ∷ m) a =
      ground (arith, remove-Above (suc j) k m a.1, Above-mono {n = suc j} n (remove k m))

  pub lookup_below : (n k : ℕ) (m : Map V) → Above n m → k < n → lookup k m ≡ none
  unfolding lookup
  lookup_below n k [] a h = refl
  lookup_below n k ((j, w) ∷ m) a h = ground (arith, lookup_below (suc j) k m a.1)

  remove_below : (n k : ℕ) (m : Map V) → Above n m → k < n → remove k m ≡ m
  unfolding remove
  remove_below n k [] a h = refl
  remove_below n k ((j, w) ∷ m) a h = ground (arith, remove_below (suc j) k m a.1)

  pub length-insert :
      (n k : ℕ) (v : V) (m : Map V)
      → Above n m
      → length (insert k v m) ≡ (if contains_key k m then length m else length m + 1)
  unfolding lookup insert
  length-insert n k v [] a = ground arith
  length-insert n k v ((j, w) ∷ m) a =
      ground (arith, length-insert (suc j) k v m a.1, lookup_below (suc j) k m a.1)

  pub length-remove-le : (k : ℕ) (m : Map V) → length (remove k m) ≤ length m
  unfolding remove
  length-remove-le k [] = omega arith
  length-remove-le k ((j, w) ∷ m) = ground (arith, length-remove-le k m)

  pub remove_absent : (k : ℕ) (m : Map V) → lookup k m ≡ none → remove k m ≡ m
  unfolding lookup remove
  remove_absent k [] h = refl
  remove_absent k ((j, w) ∷ m) h = ground (arith, remove_absent k m)

  pub length-remove :
      (n k : ℕ) (m : Map V)
      → Above n m
      → length (remove k m) + (if contains_key k m then 1 else 0) ≡ length m
  unfolding lookup remove
  length-remove n k [] a = omega arith
  length-remove n k ((j, w) ∷ m) a = ground (
    arith,
    length-remove (suc j) k m a.1,
    lookup_below (suc j) k m a.1,
    remove_below (suc j) k m a.1,
  )

  -- A property of every entry, kept by insertion and removal.
  abbrev pub AllEntries {κ} : (ℕ → V → Type κ) → Map V → Type κ
  AllEntries P [] = Unit
  AllEntries P ((k, v) ∷ m) = P k v × AllEntries P m

-- A property of what a lookup finds.
abbrev pub AtEntry {ℓ κ} : {V : Type ℓ} → (V → Type κ) → Option V → Type κ
AtEntry P none = Unit
AtEntry P (some v) = P v

-- A change of one entry keeps a property of all that are there.
pub AtEntry-insert :
    {V : Type 0} (P : V → Type 0) (m : Map V) (k : ℕ) (new : V)
    → ((j : ℕ) → AtEntry P (lookup j m))
    → P new
    → (j : ℕ) → AtEntry P (lookup j (insert k new m))
AtEntry-insert P m k new before good j =
    rw (lookup-insert k j new m)
      (elim (Bool-cases (k == j)) [ inl same ↦ rw (same) good | inr other ↦ rw (other) (before j) ])
