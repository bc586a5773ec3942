-- ===== src/Memory/Layout.antt =====
-- Looking an address up in the tables of ape/mm.rs.
use Prim.Native.Nat.{◌+◌, ◌≤◌, ◌<◌}
use ape.Base.{
  ℕ, ◌≡◌, refl, ◌&&◌, Option, none, some, [], ◌∷◌, arith, Map, lookup, floor, ltb, leb,
  if◌then◌else◌, insert, values, true, usize_max,
}
use ape.Memory.State.{MemoryMap, MmState, covering, lookup_memory_map, translate, add_memory_map}
use ape.Memory.Ranges.{has_overlap, none_overlaps}

-- Every map has bytes and stands under its own address, and ends before the next one begins.
abbrev pub IsLaidOut : ℕ → Map MemoryMap → Type 0
IsLaidOut from [] = Unit {0}
IsLaidOut from ((at, map) ∷ maps) =
    (from ≤ at) × (map.vaddr ≡ at) × (0 < map.size) × IsLaidOut (map.vaddr + map.size) maps

-- The reference: try every map of the table.
unfoldable pub first_covering : Map MemoryMap → ℕ → Option MemoryMap
first_covering [] vaddr = none
first_covering ((at, map) ∷ maps) vaddr =
    if leb map.vaddr vaddr && ltb vaddr (map.vaddr + map.size)
    then some map
    else first_covering maps vaddr

first_covering_below :
    (from : ℕ) (maps : Map MemoryMap) (vaddr : ℕ)
    → IsLaidOut from maps
    → vaddr < from
    → (floor vaddr maps ≡ none) × (first_covering maps vaddr ≡ none)
unfolding first_covering floor
first_covering_below from [] vaddr laid h = (refl, refl)
first_covering_below from ((at, map) ∷ maps) vaddr laid h =
    ground (arith, first_covering_below (map.vaddr + map.size) maps vaddr laid.3)

covering_lem :
    (from : ℕ) (maps : Map MemoryMap) (vaddr : ℕ)
    → IsLaidOut from maps
    → covering maps vaddr ≡ first_covering maps vaddr
unfolding covering first_covering floor
covering_lem from [] vaddr laid = refl
covering_lem from ((at, map) ∷ maps) vaddr laid = ground (
  arith,
  covering_lem (map.vaddr + map.size) maps vaddr laid.3,
  first_covering_below (map.vaddr + map.size) maps vaddr laid.3,
)

-- When the maps stand under their own addresses in rising order and do not run into each other,
-- `lookup_memory_map` finds exactly what trying every map finds, though it looks at one map only.
pub lookup_memory_map_lem :
    (mm : MmState) (vaddr : ℕ)
    → IsLaidOut 0 mm.memory_maps
    → lookup_memory_map mm vaddr ≡ first_covering mm.memory_maps vaddr
unfolding lookup_memory_map
lookup_memory_map_lem mm vaddr laid = covering_lem 0 mm.memory_maps vaddr laid

first_covering_entry :
    (from : ℕ) (maps : Map MemoryMap) (at : ℕ) (map : MemoryMap) (k : ℕ)
    → IsLaidOut from maps
    → lookup at maps ≡ some map
    → k < map.size
    → (from ≤ at) × (map.vaddr ≡ at) × (first_covering maps (at + k) ≡ some map)
unfolding lookup first_covering
first_covering_entry from [] at map k laid found h = ground arith
first_covering_entry from ((i, m) ∷ maps) at map k laid found h =
    ground (arith, first_covering_entry (m.vaddr + m.size) maps at map k laid.3)

-- When the maps do not run into each other, every byte of every map of the table translates to the
-- byte of the map's frame at the same offset.
pub translate_lem :
    (mm : MmState) (at : ℕ) (map : MemoryMap) (k : ℕ)
    → IsLaidOut 0 mm.memory_maps
    → lookup at mm.memory_maps ≡ some map
    → k < map.size
    → translate mm (at + k) ≡ some (map.paddr + k)
unfolding translate
translate_lem mm at map k laid found h = ground (
  arith,
  lookup_memory_map_lem mm (at + k) laid,
  first_covering_entry 0 mm.memory_maps at map k laid found h,
)

IsLaidOut-mono :
    (from later start : ℕ) (maps : Map MemoryMap)
    → IsLaidOut from maps
    → start ≤ from
    → start < later
    → later ≤ usize_max
    → none_overlaps start later (values maps) ≡ true
    → IsLaidOut later maps
unfolding none_overlaps has_overlap
IsLaidOut-mono from later start [] laid a b c free = tt
IsLaidOut-mono from later start ((i, m) ∷ maps) laid a b c free = ground arith

insert-IsLaidOut :
    (from : ℕ) (map : MemoryMap) (maps : Map MemoryMap)
    → IsLaidOut from maps
    → from ≤ map.vaddr
    → 0 < map.size
    → map.vaddr + map.size ≤ usize_max
    → none_overlaps map.vaddr (map.vaddr + map.size) (values maps) ≡ true
    → IsLaidOut from (insert map.vaddr map maps)
unfolding insert none_overlaps has_overlap
insert-IsLaidOut from map [] laid a b c free = (a, refl, b, tt)
insert-IsLaidOut from map ((i, m) ∷ maps) laid a b c free = ground (
  arith,
  insert-IsLaidOut (m.vaddr + m.size) map maps laid.3,
  IsLaidOut-mono (m.vaddr + m.size) (map.vaddr + map.size) map.vaddr maps laid.3,
)

-- A map of at least one byte that overlaps no map of the table, and ends in the address range, can
-- be added: the maps still stand in order and do not run into each other.
pub add_memory_map-IsLaidOut :
    (mm : MmState) (map : MemoryMap)
    → IsLaidOut 0 mm.memory_maps
    → 0 < map.size
    → map.vaddr + map.size ≤ usize_max
    → none_overlaps map.vaddr (map.vaddr + map.size) (values mm.memory_maps) ≡ true
    → IsLaidOut 0 (add_memory_map mm map).memory_maps
unfolding add_memory_map
add_memory_map-IsLaidOut mm map laid a b free =
    insert-IsLaidOut 0 map mm.memory_maps laid (omega arith) a b free
