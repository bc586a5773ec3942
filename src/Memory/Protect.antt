-- ===== src/Memory/Protect.antt =====
-- When `do_mprotect` of mm/mod.rs refuses a range.
use ape.Base.{ℕ, ◌≡◌, true, none, some, List, [], ◌∷◌, arith, Map, contains, inl, inr, Option-cases}
use ape.Memory.State.{Platform, MemoryMap, MmState, lookup_memory_map}
use ape.Memory.Ranges.{invalid_address, ok, err}
use ape.Memory.Tables.{Kernel, Frame, step_by, map_pages, ensure_partial_multi_page_ranges_split}
use ape.Memory.Unmap.{or_insert, protect_ranges, mprotect_range}

module _ (p : Platform) where
  protect_unmapped :
      (mm : MmState) (pages : List ℕ) (ranges : Map Frame) (at : ℕ)
      → contains pages at ≡ true
      → lookup_memory_map mm at ≡ none
      → protect_ranges p mm pages ranges ≡ err invalid_address
  unfolding protect_ranges
  protect_unmapped mm [] ranges at h unmapped = ground arith
  protect_unmapped mm (page ∷ pages) ranges at h unmapped =
      elim (Option-cases (lookup_memory_map mm page)) [
        | inl e ↦ ground arith
        | inr (map, e) ↦ ground (
          arith,
          differ page map e,
          protect_unmapped mm pages (or_insert map.vaddr (map.frame_cap, map_pages p map) ranges)
              at,
        )
      ]
    where
      differ : (page : ℕ) (map : MemoryMap) → lookup_memory_map mm page ≡ some map → ¬ (page ≡ at)
      differ page map e same = ground arith

  -- When the maps that the range cuts are split, and a page of the range then has no map, a lazy one
  -- at most, mprotect answers that the address is invalid, and changes no flags.
  pub mprotect_range_unmapped :
      (k : Kernel) (mm split : MmState) (freed : List Frame) (start end perms at : ℕ)
      → ensure_partial_multi_page_ranges_split p k mm start end ≡ (ok tt, split, freed)
      → contains (step_by p start end) at ≡ true
      → lookup_memory_map split at ≡ none
      → mprotect_range p k mm start end perms ≡ (err invalid_address, split, freed)
  unfolding mprotect_range
  mprotect_range_unmapped k mm split freed start end perms at done page unmapped =
      ground (arith, protect_unmapped split (step_by p start end) [] at page unmapped)
