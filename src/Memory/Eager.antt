-- ===== src/Memory/Eager.antt =====
-- `map_anonymous_range_eager` of mm/mod.rs: what it leaves when it succeeds and when it fails.
use ape.Base.{ℕ, ◌≡◌, true, false, Option, some, List, [], ◌∷◌, Map, lookup, contains}
use ape.Memory.State.{Platform, MemoryMap, MmState}
use ape.Memory.Ranges.{Error, Result, ok, err}
use ape.Memory.Tables.{Kernel, Frame}
use ape.Memory.Mmap.{roll_back, anonymous_page}

abbrev pages_of : List (ℕ × ℕ) → List ℕ
pages_of [] = []
pages_of ((page, slot) ∷ mapped) = page ∷ pages_of mapped

module _ (p : Platform) (k : Kernel) (perms : ℕ) where
  -- The page at an address is mapped, with the slot that was handed out for it.
  abbrev pub IsPlaced : ℕ → Option MemoryMap → Type 0
  IsPlaced at found =
      (slot : ℕ) × (k.page_slot at ≡ ok slot) × (found ≡ some (anonymous_page p at perms slot))

  abbrev pub EagerOutcome :
      List ℕ → Map MemoryMap → Map MemoryMap → Result (Unit {0}) × MmState × List Frame → Type 0
  EagerOutcome pages before now (err e, after, freed) =
      (at : ℕ) → lookup at after.memory_maps ≡ lookup at before
  EagerOutcome pages before now (ok done, after, freed) =
      (at : ℕ)
      → (contains pages at ≡ true → IsPlaced at (lookup at after.memory_maps))
        × (contains pages at ≡ false → lookup at after.memory_maps ≡ lookup at now)

  -- Undoing the loop gives the table before it.
  abbrev Undoes : List (ℕ × ℕ) → MmState → Map MemoryMap → Type 0
  Undoes mapped mm before =
      (at : ℕ) → lookup at (roll_back mapped mm).memory_maps ≡ lookup at before

  -- Equations of the loop, by what the kernel answers.
  module _ (page : ℕ) (pages : List ℕ) (mm : MmState) (mapped : List (ℕ × ℕ)) (slot : ℕ)
      (got : k.page_slot page ≡ ok slot) where
    abbrev refused : List Frame → Error → Result (Unit {0}) × MmState × List Frame
    refused released e = (err e, roll_back mapped mm, released)
