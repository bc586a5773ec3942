-- ===== src/Memory/Pages.antt =====
-- What `do_munmap` of mm/mod.rs leaves in the tables, read page by page.
use ape.Base.{
  ℕ, ◌≡◌, refl, Bool, true, false, Option, none, some, List, [], ◌∷◌, arith, Map, lookup, remove,
  keys, lookup-insert, lookup-remove, contains, ◌==◌, if◌then◌else◌, is_some,
}
use ape.Memory.State.{Platform, MemoryMap, MmState}
use ape.Memory.Ranges.{is_remappable_user_mapping}
use ape.Memory.Tables.{Frame, step_by, map_pages}
use ape.Memory.Unmap.{or_insert, remove_all, unmap_pages, note_map, take_range}

-- Every map stands under its own address.
abbrev pub IsKeyed : Map MemoryMap → Type 0
IsKeyed maps = (at : ℕ) (map : MemoryMap) → lookup at maps ≡ some map → map.vaddr ≡ at

lookup-remove_all {ℓ} :
    {V : Type ℓ} (at : ℕ) (vaddrs : List ℕ) (maps : Map V)
    → lookup at (remove_all vaddrs maps) ≡ (if contains vaddrs at then none else lookup at maps)
unfolding remove_all
lookup-remove_all at [] maps = refl
lookup-remove_all at (vaddr ∷ vaddrs) maps =
    ground (arith, lookup-remove_all at vaddrs (remove vaddr maps), lookup-remove vaddr at maps)

contains-keys {ℓ} : {V : Type ℓ} (at : ℕ) (m : Map V) → contains (keys m) at ≡ is_some (lookup at m)
unfolding lookup
contains-keys at [] = refl
contains-keys at ((k, v) ∷ m) = ground (arith, contains-keys at m)

module _ (p : Platform) where
  -- The frame that the loop notes under an address, from what was noted, whether the address is
  -- one of the pages, and its map.
  abbrev pub noted : Option Frame → Bool → Option MemoryMap → Option Frame
  noted (some frame) is_page found = some frame
  noted none false found = none
  noted none true none = none
  noted none true (some map) =
      if is_remappable_user_mapping map.mem_type
      then some (map.frame_cap, map_pages p map)
      else none

  lookup-or_insert :
      (at vaddr : ℕ) (frame : Frame) (ranges : Map Frame)
      → lookup at (or_insert vaddr frame ranges) ≡ (
          if vaddr == at
          then elim (lookup at ranges) [ none ↦ some frame | some old ↦ some old ]
          else lookup at ranges)
  unfolding or_insert
  lookup-or_insert at vaddr frame ranges = ground (arith, lookup-insert vaddr at frame ranges)

  lazy-unmap_pages :
      (at : ℕ) (pages : List ℕ) (mm : MmState) (ranges : Map Frame)
      → lookup at (unmap_pages p pages mm ranges).0.lazy_memory_maps
        ≡ (if contains pages at then none else lookup at mm.lazy_memory_maps)
  unfolding unmap_pages
  lazy-unmap_pages at [] mm ranges = refl
  lazy-unmap_pages at (page ∷ pages) mm ranges =
      let mm_after = record mm { lazy_memory_maps = remove page mm.lazy_memory_maps } in
      ground (
        arith,
        lazy-unmap_pages at pages mm_after (note_map p (lookup page mm.memory_maps) ranges),
        lookup-remove page at mm.lazy_memory_maps,
      )

  maps-unmap_pages :
      (pages : List ℕ) (mm : MmState) (ranges : Map Frame)
      → (unmap_pages p pages mm ranges).0.memory_maps ≡ mm.memory_maps
  unfolding unmap_pages
  maps-unmap_pages [] mm ranges = refl
  maps-unmap_pages (page ∷ pages) mm ranges =
      let mm_after = record mm { lazy_memory_maps = remove page mm.lazy_memory_maps } in
      ground
        (arith, maps-unmap_pages pages mm_after (note_map p (lookup page mm.memory_maps) ranges))

  lookup-note_map :
      (at page : ℕ) (found : Option MemoryMap) (ranges : Map Frame)
      → ((map : MemoryMap) → found ≡ some map → map.vaddr ≡ page)
      → lookup at (note_map p found ranges) ≡ noted (lookup at ranges) (page == at) found
  unfolding note_map
  lookup-note_map at page none ranges keyed = ground arith
  lookup-note_map at page (some map) ranges keyed =
      ground (
        arith,
        keyed map refl,
        lookup-or_insert at map.vaddr (map.frame_cap, map_pages p map) ranges,
      )

  ranges-unmap_pages :
      (at : ℕ) (pages : List ℕ) (mm : MmState) (ranges : Map Frame)
      → IsKeyed mm.memory_maps
      → lookup at (unmap_pages p pages mm ranges).1
        ≡ noted (lookup at ranges) (contains pages at) (lookup at mm.memory_maps)
  unfolding unmap_pages
  ranges-unmap_pages at [] mm ranges keyed = ground arith
  ranges-unmap_pages at (page ∷ pages) mm ranges keyed =
      let mm_after = record mm { lazy_memory_maps = remove page mm.lazy_memory_maps } in
      let found = lookup page mm.memory_maps in
      ground (
        arith,
        ranges-unmap_pages at pages mm_after (note_map p found ranges) keyed,
        lookup-note_map at page found ranges (keyed page),
      )

  -- After a range is taken from the tables, read at any address: the lazy maps of its pages are
  -- gone, and so are the maps of the user at its pages, whose frames are handed to be released;
  -- every other map and lazy map is as it was, when each map stands under its own address.
  pub take_range_lem :
      (mm : MmState) (start end at : ℕ)
      → IsKeyed mm.memory_maps
      → let is_page = contains (step_by p start end) at in
        let taken = noted none is_page (lookup at mm.memory_maps) in
        let (after, ranges) = take_range p mm start end in
        (lookup at after.lazy_memory_maps
          ≡ (if is_page then none else lookup at mm.lazy_memory_maps))
        × (lookup at after.memory_maps ≡ (if is_some taken then none else lookup at mm.memory_maps))
        × (lookup at ranges ≡ taken)
  unfolding take_range lookup
  take_range_lem mm start end at keyed =
      let pages = step_by p start end in
      let ranges = (unmap_pages p pages mm []).1 in
      (
        lazy-unmap_pages at pages mm [],
        ground (
          arith,
          lookup-remove_all at (keys ranges) (unmap_pages p pages mm []).0.memory_maps,
          contains-keys at ranges,
          ranges-unmap_pages at pages mm [] keyed,
          maps-unmap_pages pages mm [],
        ),
        ranges-unmap_pages at pages mm [] keyed,
      )
