-- ===== src/Memory/State.antt =====
-- ape/mm.rs and the address constants of layout.rs. Addresses are numbers; `Perms` is its bits.
-- The page size, the fixed addresses and `align_up` are glenda's: the record `Platform` holds them.
use Prim.Native.Nat.{◌+◌, ◌*◌, ◌-◌, ◌≤◌, ◌<◌, ◌%◌}
use ape.Base.{
  ℕ, ◌≡◌, Bool, Option, none, some, [], Map, lookup, insert, remove, floor, contains_key, ltb,
  if◌then◌else◌,
}

pub record Platform : Type 0 where
  pub pgsize : ℕ
  pub pgsize-positive : 0 < pgsize
  pub heap_va : ℕ
  pub stack_base : ℕ
  pub thread_area_base : ℕ
  pub perm_read : ℕ
  pub perm_write : ℕ
  pub perm_execute : ℕ
  pub align_down : ℕ → ℕ
  pub align_up : ℕ → ℕ
  pub align_up-le : (n : ℕ) → n ≤ align_up n
  pub align_up-multiple : (n : ℕ) → align_up n % pgsize ≡ 0

pub data MemoryType : Type 0 where
  image stack heap anonymous file_backed : MemoryType

pub record MemoryMap : Type 0 where
  pub vaddr : ℕ
  pub paddr : ℕ
  pub size : ℕ
  pub flags : ℕ
  pub mem_type : MemoryType
  pub cow : Bool
  pub frame_cap : ℕ
  pub file_backing_fd : Option ℕ
  pub file_backing_offset : ℕ

pub record MmState : Type 0 where
  pub memory_maps : Map MemoryMap
  pub lazy_memory_maps : Map MemoryMap
  pub stack_bottom : ℕ
  pub stack_size : ℕ
  pub max_stack_size : ℕ
  pub heap_start : ℕ
  pub heap_brk : ℕ
  pub heap_limit : ℕ
  pub mmap_base : ℕ
  pub mmap_next : ℕ
  pub mmap_limit : ℕ
  -- By level, then by path prefix.
  pub intermediate_page_tables : Map (Map ℕ)

abbrev pub default_max_stack_size : ℕ
default_max_stack_size = 8 * 1024 * 1024

abbrev pub default_mmap_base : Platform → ℕ
default_mmap_base p = p.heap_va + 16 * p.pgsize

abbrev pub default_mmap_limit : Platform → ℕ
default_mmap_limit p = p.thread_area_base - 16 * p.pgsize

abbrev pub default_heap_limit : Platform → ℕ
default_heap_limit p = default_mmap_base p

unfoldable pub new : Platform → MmState
new p = record {
  memory_maps = [];
  lazy_memory_maps = [];
  stack_bottom = p.stack_base;
  stack_size = 0;
  max_stack_size = default_max_stack_size;
  heap_start = p.heap_va;
  heap_brk = p.heap_va;
  heap_limit = default_heap_limit p;
  mmap_base = default_mmap_base p;
  mmap_next = default_mmap_base p;
  mmap_limit = default_mmap_limit p;
  intermediate_page_tables = [];
}

-- `vaddr + size` of a map, and `paddr` and an offset in it, are sums of natural numbers here. The source
-- adds words, whose sums leave the range only for a map that runs over the end of the addresses.
unfoldable pub covering : Map MemoryMap → ℕ → Option MemoryMap
covering maps vaddr = elim (floor vaddr maps) [
  | none ↦ none
  | some map ↦ if ltb vaddr (map.vaddr + map.size) then some map else none
]

unfoldable pub lookup_memory_map : MmState → ℕ → Option MemoryMap
lookup_memory_map mm vaddr = covering mm.memory_maps vaddr

unfoldable pub lookup_lazy_memory_map : MmState → ℕ → Option MemoryMap
lookup_lazy_memory_map mm vaddr = covering mm.lazy_memory_maps vaddr

unfoldable pub add_memory_map : MmState → MemoryMap → MmState
add_memory_map mm map = record mm { memory_maps = insert map.vaddr map mm.memory_maps }

unfoldable pub add_lazy_memory_map : MmState → MemoryMap → MmState
add_lazy_memory_map mm map = record mm {
  lazy_memory_maps = insert map.vaddr map mm.lazy_memory_maps;
}

unfoldable pub remove_lazy_memory_map : MmState → ℕ → MmState
remove_lazy_memory_map mm vaddr = record mm { lazy_memory_maps = remove vaddr mm.lazy_memory_maps }

unfoldable pub translate : MmState → ℕ → Option ℕ
translate mm vaddr = elim (lookup_memory_map mm vaddr) [
  | none ↦ none
  | some map ↦ some (map.paddr + (vaddr - map.vaddr))
]

abbrev tables_at : MmState → ℕ → Map ℕ
tables_at mm level = elim (lookup level mm.intermediate_page_tables) [
  | none ↦ []
  | some tables ↦ tables
]

unfoldable pub has_intermediate_page_table : MmState → ℕ → ℕ → Bool
has_intermediate_page_table mm level path_prefix = contains_key path_prefix (tables_at mm level)

unfoldable pub record_intermediate_page_table : MmState → ℕ → ℕ → ℕ → MmState
record_intermediate_page_table mm level path_prefix cap = record mm {
  intermediate_page_tables =
      insert level (insert path_prefix cap (tables_at mm level)) mm.intermediate_page_tables;
}
