-- ===== src/Memory/Ranges.antt =====
-- mm/mod.rs: which ranges of addresses are free, the search for one, the heap's break, and
-- ape/fault_policy.rs: what a fault at an address asks for.
use Prim.Native.Nat.{zero, suc, ◌/◌, max}
pub use ape.Base.{
  Error, Result, ok, err, not_found, invalid_args, invalid_address, invalid_slot, out_of_memory,
}
use ape.Base.{
  ℕ, ◌-◌, Bool, true, false, not, ◌&&◌, ◌||◌, Option, none, some, List, [], ◌∷◌, Map, lookup,
  insert, values, ltb, leb, ◌==◌, if◌then◌else◌, saturating_add, saturating_sub, checked_add,
}
use ape.Memory.State.{Platform, MemoryType, MemoryMap, MmState, lookup_lazy_memory_map}

unfoldable pub has_overlap : ℕ → ℕ → ℕ → ℕ → Bool
has_overlap start end map_start map_size =
    let map_end = saturating_add map_start map_size in ltb start map_end && ltb map_start end

unfoldable pub is_remappable_user_mapping : MemoryType → Bool
is_remappable_user_mapping MemoryType.image = false
is_remappable_user_mapping MemoryType.stack = false
is_remappable_user_mapping MemoryType.heap = false
is_remappable_user_mapping MemoryType.anonymous = true
is_remappable_user_mapping MemoryType.file_backed = true

-- The loop over the maps of a table, until one overlaps.
unfoldable pub none_overlaps : ℕ → ℕ → List MemoryMap → Bool
none_overlaps start end [] = true
none_overlaps start end (map ∷ maps) =
    if has_overlap start end map.vaddr map.size then false else none_overlaps start end maps

-- The guards on the window, the heap and the stack, which both range tests begin with.
unfoldable pub is_clear_of_heap_and_stack : MmState → ℕ → ℕ → Bool
is_clear_of_heap_and_stack mm start end =
    if ltb mm.mmap_limit end || ltb start mm.mmap_base || leb end start
    then false
    else if has_overlap start end mm.heap_start (saturating_sub mm.heap_brk mm.heap_start)
    then false
    else let stack_low = saturating_sub mm.stack_bottom mm.max_stack_size in
      not (has_overlap start end stack_low mm.max_stack_size)

unfoldable pub range_is_free : MmState → ℕ → ℕ → Bool
range_is_free mm start end =
    is_clear_of_heap_and_stack mm start end
    && none_overlaps start end (values mm.memory_maps)
    && none_overlaps start end (values mm.lazy_memory_maps)

unfoldable pub none_overlaps_outside : ℕ → ℕ → ℕ → ℕ → List MemoryMap → Bool
none_overlaps_outside start end except_start except_end [] = true
none_overlaps_outside start end except_start except_end (map ∷ maps) =
    let rest = none_overlaps_outside start end except_start except_end maps in
    let map_end = saturating_add map.vaddr map.size in
    if has_overlap start end map.vaddr map.size
    then if leb except_start map.vaddr && leb map_end except_end then rest else false
    else rest

unfoldable pub range_is_free_excluding : MmState → ℕ → ℕ → ℕ → ℕ → Bool
range_is_free_excluding mm start end except_start except_end =
    is_clear_of_heap_and_stack mm start end
    && none_overlaps_outside start end except_start except_end (values mm.memory_maps)
    && none_overlaps_outside start end except_start except_end (values mm.lazy_memory_maps)

pub data FaultAction : Type 0 where
  stack_growth : (current_stack_low pages_to_map : ℕ) → FaultAction
  heap_lazy : FaultAction
  lazy_mmap : MemoryMap → FaultAction
  unmanaged : FaultAction

module _ (p : Platform) where
  -- The `while let` of the search, on fuel.
  unfoldable pub search : ℕ → MmState → ℕ → ℕ → Option ℕ
  search zero mm len_aligned candidate = none
  search (suc fuel) mm len_aligned candidate =
      let later = search fuel mm len_aligned (saturating_add candidate p.pgsize) in
      elim (checked_add candidate len_aligned) [
        | none ↦ none
        | some end ↦
            if ltb mm.mmap_limit end
            then none
            else if range_is_free mm candidate end
            then some candidate
            else later
      ]

  unfoldable pub find_free_remap_target : MmState → ℕ → Option ℕ
  find_free_remap_target mm len_aligned =
      search (suc mm.mmap_limit) mm len_aligned (max mm.mmap_next mm.mmap_base)

  unfoldable pub classify_fault : MmState → ℕ → ℕ → FaultAction
  classify_fault mm addr page_addr = elim (lookup_lazy_memory_map mm addr) [
    | some map ↦ lazy_mmap map
    | none ↦
        let stack_low = saturating_sub mm.stack_bottom mm.max_stack_size in
        let current_stack_boundary = saturating_sub mm.stack_bottom mm.stack_size in
        if leb stack_low addr && ltb addr current_stack_boundary
        then stack_growth current_stack_boundary ((current_stack_boundary - page_addr) / p.pgsize)
        else if leb mm.heap_start addr && ltb addr mm.heap_brk
        then heap_lazy
        else unmanaged
  ]

-- The address spaces of the processes by pid: `get_process(pid)` followed by `.mm`.
abbrev pub Spaces : Type 0
Spaces = Map MmState

unfoldable pub do_brk : Spaces → ℕ → ℕ → Result ℕ × Spaces
do_brk spaces pid addr = elim (lookup pid spaces) [
  | none ↦ (err not_found, spaces)
  | some mm ↦
      if addr == 0 || ltb addr mm.heap_start || ltb mm.heap_limit addr
      then (ok mm.heap_brk, spaces)
      else (ok addr, insert pid (record mm { heap_brk = addr }) spaces)
]
