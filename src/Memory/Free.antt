-- ===== src/Memory/Free.antt =====
-- What the range tests of mm/mod.rs promise about every address of the range.
use Prim.Native.Nat.{◌+◌, ◌-◌, ◌≤◌, ◌<◌}
use ape.Base.{ℕ, ◌≡◌, true, false, List, [], ◌∷◌, arith, All, values, usize_max}
use ape.Memory.State.{MemoryMap, MmState}
use ape.Memory.Ranges.{
  has_overlap, none_overlaps, is_clear_of_heap_and_stack, range_is_free, none_overlaps_outside,
  range_is_free_excluding,
}

-- The address lies in the map.
abbrev pub Covers : MemoryMap → ℕ → Type 0
Covers map x = (map.vaddr ≤ x) × (x < map.vaddr + map.size)

abbrev pub Within : ℕ → ℕ → ℕ → Type 0
Within start end x = (start ≤ x) × (x < end)

-- Below the window's limit, a range overlaps a region of at least one byte exactly when they share
-- an address; `has_overlap` counts a region of no bytes inside the range too.
has_overlap_misses :
    (start end map_start map_size x : ℕ)
    → has_overlap start end map_start map_size ≡ false
    → start ≤ x
    → x < end
    → end ≤ usize_max
    → map_start ≤ x
    → ¬ (x < map_start + map_size)
unfolding has_overlap
has_overlap_misses start end map_start map_size x h a b c d e = ground arith

none_overlaps_misses :
    (start end : ℕ) (maps : List MemoryMap) (x : ℕ)
    → none_overlaps start end maps ≡ true
    → start ≤ x
    → x < end
    → end ≤ usize_max
    → All (λ map. ¬ Covers map x) maps
unfolding none_overlaps
none_overlaps_misses start end [] x h a b c = tt
none_overlaps_misses start end (map ∷ maps) x h a b c = ground (
  arith,
  none_overlaps_misses start end maps x,
  has_overlap_misses start end map.vaddr map.size x,
)

-- Nothing that the process has in use at x: the heap up to its break, the room of the stack, a map
-- or a lazy map.
abbrev pub IsUnused : MmState → ℕ → Type 0
IsUnused mm x =
    (mm.heap_start ≤ x → x < mm.heap_brk → ⊥)
    × (mm.stack_bottom - mm.max_stack_size ≤ x → x < mm.stack_bottom → ⊥)
    × All (λ map. ¬ Covers map x) (values mm.memory_maps)
    × All (λ map. ¬ Covers map x) (values mm.lazy_memory_maps)

clear_misses :
    (mm : MmState) (start end x : ℕ)
    → is_clear_of_heap_and_stack mm start end ≡ true
    → mm.mmap_limit ≤ usize_max
    → start ≤ x
    → x < end
    → (end ≤ usize_max)
      × (mm.mmap_base ≤ x)
      × (x < mm.mmap_limit)
      × (mm.heap_start ≤ x → x < mm.heap_brk → ⊥)
      × (mm.stack_bottom - mm.max_stack_size ≤ x → x < mm.stack_bottom → ⊥)
unfolding is_clear_of_heap_and_stack
clear_misses mm start end x h l a b = ground (
  arith,
  has_overlap_misses start end mm.heap_start (mm.heap_brk - mm.heap_start) x,
  has_overlap_misses start end (mm.stack_bottom - mm.max_stack_size) mm.max_stack_size x,
)

-- When `range_is_free` accepts a range, every address of it lies in the mmap window, and the process
-- uses none of them: not the heap, nor the room of the stack, nor a map, nor a lazy map has it.
pub range_is_free-IsUnused :
    (mm : MmState) (start end x : ℕ)
    → mm.mmap_limit ≤ usize_max
    → range_is_free mm start end ≡ true
    → start ≤ x
    → x < end
    → (mm.mmap_base ≤ x) × (x < mm.mmap_limit) × IsUnused mm x
unfolding range_is_free
range_is_free-IsUnused mm start end x l h a b = ground (
  arith,
  clear_misses mm start end x,
  none_overlaps_misses start end (values mm.memory_maps) x,
  none_overlaps_misses start end (values mm.lazy_memory_maps) x,
)

excluding_misses :
    (start end except_start except_end : ℕ) (maps : List MemoryMap) (x : ℕ)
    → none_overlaps_outside start end except_start except_end maps ≡ true
    → start ≤ x
    → x < end
    → end ≤ usize_max
    → except_end ≤ usize_max
    → All (λ map. Covers map x → Within except_start except_end x) maps
unfolding none_overlaps_outside
excluding_misses start end es ee [] x h a b c d = tt
excluding_misses start end es ee (map ∷ maps) x h a b c d = ground (
  arith,
  excluding_misses start end es ee maps x,
  has_overlap_misses start end map.vaddr map.size x,
)

-- When `range_is_free_excluding` accepts a range, every address of it that a map or a lazy map has
-- lies in the excepted range, and none of its addresses is in the heap or the room of the stack.
pub range_is_free_excluding-IsUnused :
    (mm : MmState) (start end except_start except_end x : ℕ)
    → mm.mmap_limit ≤ usize_max
    → except_end ≤ usize_max
    → range_is_free_excluding mm start end except_start except_end ≡ true
    → start ≤ x
    → x < end
    → (mm.heap_start ≤ x → x < mm.heap_brk → ⊥)
      × (mm.stack_bottom - mm.max_stack_size ≤ x → x < mm.stack_bottom → ⊥)
      × All (λ map. Covers map x → Within except_start except_end x) (values mm.memory_maps)
      × All (λ map. Covers map x → Within except_start except_end x) (values mm.lazy_memory_maps)
unfolding range_is_free_excluding
range_is_free_excluding-IsUnused mm start end es ee x l m h a b = ground (
  arith,
  clear_misses mm start end x,
  excluding_misses start end es ee (values mm.memory_maps) x,
  excluding_misses start end es ee (values mm.lazy_memory_maps) x,
)
