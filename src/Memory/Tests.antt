-- ===== src/Memory/Tests.antt =====
-- An address space with pages of 16 bytes, and what the theorems say of it.
use Prim.Native.Nat.{◌+◌, ◌*◌, ◌/◌, ◌≤◌, ◌<◌}
use ape.Base.{
  ◌==◌, ℕ, ◌≡◌, refl, false, none, some, [], ◌∷◌, arith, lookup, contains, is_some, if◌then◌else◌,
}
use ape.Memory.State.{
  Platform, MemoryType, MemoryMap, MmState, lookup_memory_map, new, add_memory_map, translate,
}
use ape.Memory.Ranges.{
  ok, err, invalid_address, out_of_memory, range_is_free, search, is_clear_of_heap_and_stack,
  has_overlap, none_overlaps, find_free_remap_target, do_brk, Spaces,
}
use ape.Memory.Tables.{Kernel, ensure_partial_multi_page_ranges_split, step_by, pages_from}
use ape.Memory.Mmap.{
  do_mmap, file_backing, on_process, mmap_anywhere, place, map_anonymous_range_eager,
  map_anonymous_pages,
}
use ape.Memory.Unmap.{mprotect_range, take_range, prot_to_perms}
use ape.Memory.Layout.{IsLaidOut, translate_lem}
use ape.Memory.Free.{IsUnused, range_is_free-IsUnused}
use ape.Memory.Search.{SearchOutcome, find_free_remap_target-SearchOutcome}
use ape.Memory.Faults.{BrkOutcome, do_brk-BrkOutcome}
use ape.Memory.Protect.{mprotect_range_unmapped}
use ape.Memory.Pages.{IsKeyed, noted, take_range_lem}

abbrev small_pages : Platform
small_pages = record {
  pgsize = 16;
  pgsize-positive = omega arith;
  heap_va = 64;
  stack_base = 16777216;
  thread_area_base = 4096;
  perm_read = 1;
  perm_write = 2;
  perm_execute = 4;
  align_down = λ n. n / 16 * 16;
  align_up = λ n. (n + 15) / 16 * 16;
  align_up-le = λ n. omega arith;
  align_up-multiple = λ n. omega arith;
}

abbrev page_at : ℕ → MemoryType → MemoryMap
page_at vaddr kind = record {
  vaddr = vaddr;
  paddr = vaddr + 1000;
  size = 16;
  flags = 3;
  mem_type = kind;
  cow = false;
  frame_cap = 7;
  file_backing_fd = none;
  file_backing_offset = 0;
}

-- Two pages at the base of the window, the second one lazy.
abbrev two_pages : MmState
two_pages = record (new small_pages) {
  memory_maps = (320, page_at 320 MemoryType.anonymous) ∷ [];
  lazy_memory_maps = (336, page_at 336 MemoryType.anonymous) ∷ [];
}

-- The next two pages are free, the one before is not.
found_target : find_free_remap_target small_pages two_pages 32 ≡ some 352
unfolding find_free_remap_target search new range_is_free is_clear_of_heap_and_stack has_overlap
    none_overlaps
found_target = refl

two_pages-IsLaidOut : IsLaidOut 0 two_pages.memory_maps
two_pages-IsLaidOut = (omega arith, refl, omega arith, tt)

translate_lem_example : translate two_pages 325 ≡ some 1325
unfolding lookup
translate_lem_example =
    translate_lem two_pages 320 (page_at 320 MemoryType.anonymous) 5 two_pages-IsLaidOut refl
      (omega arith)

range_is_free-IsUnused_example : (320 ≤ 360) × (360 < 3840) × IsUnused two_pages 360
unfolding is_clear_of_heap_and_stack has_overlap none_overlaps new range_is_free
range_is_free-IsUnused_example =
    range_is_free-IsUnused two_pages 352 384 360 (omega arith) refl (omega arith) (omega arith)

find_free_remap_target-SearchOutcome_example :
    SearchOutcome small_pages two_pages 32 320 (find_free_remap_target small_pages two_pages 32)
unfolding new
find_free_remap_target-SearchOutcome_example =
    find_free_remap_target-SearchOutcome small_pages two_pages 32 (omega arith)

abbrev one_process : Spaces
one_process = (5, two_pages) ∷ []

do_brk-BrkOutcome_example : BrkOutcome one_process 5 100 two_pages (do_brk one_process 5 100)
unfolding new lookup
do_brk-BrkOutcome_example =
    do_brk-BrkOutcome one_process 5 100 two_pages refl (omega arith) (omega arith)

two_pages-IsKeyed : IsKeyed two_pages.memory_maps
unfolding lookup
two_pages-IsKeyed at map h = ground arith

take_range_lem_example :
    (lookup 336 (take_range small_pages two_pages 320 352).0.lazy_memory_maps ≡ (
      if contains (step_by small_pages 320 352) 336
      then none
      else lookup 336 two_pages.lazy_memory_maps))
    × (lookup 336 (take_range small_pages two_pages 320 352).0.memory_maps ≡ (
        if is_some (
          noted small_pages none
            (contains (step_by small_pages 320 352) 336)
            (lookup 336 two_pages.memory_maps))
        then none
        else lookup 336 two_pages.memory_maps))
    × (lookup 336 (take_range small_pages two_pages 320 352).1
        ≡ noted small_pages none
            (contains (step_by small_pages 320 352) 336)
            (lookup 336 two_pages.memory_maps))
take_range_lem_example = take_range_lem small_pages two_pages 320 352 336 two_pages-IsKeyed

-- A kernel that hands out the page's number as its slot and never refuses, and one that cannot map
-- the page at 368.
abbrev willing : Kernel
willing = record {
  split_slots = λ start pages. ok [];
  page_slot = λ page. ok page;
  page_alloc = λ slot. ok tt;
  unmap_pages = λ vaddr pages. ok tt;
  map_frame = λ frame vaddr perms pages. ok tt;
}

abbrev unwilling : Kernel
unwilling = record willing {
  map_frame = λ frame vaddr perms pages. if vaddr == 368 then err out_of_memory else ok tt;
}

-- Two anonymous pages go behind the two that are there.
mapped_two :
    (do_mmap small_pages (λ pid fd. false) willing one_process 5 0 20 3 0x22 0 0).0 ≡ ok 352
unfolding do_mmap file_backing on_process mmap_anywhere search place map_anonymous_range_eager
    map_anonymous_pages step_by pages_from lookup range_is_free is_clear_of_heap_and_stack
    has_overlap none_overlaps new add_memory_map prot_to_perms
mapped_two = refl

-- The second page is lazy, so mprotect of both pages fails.
mprotect_range_unmapped_example :
    mprotect_range small_pages willing two_pages 320 352 1 ≡ (err invalid_address, two_pages, [])
unfolding new ensure_partial_multi_page_ranges_split step_by lookup_memory_map
    ape.Memory.State.covering ape.Base.floor ape.Memory.Tables.split_all
    ape.Memory.Tables.split_partial_multi_page_targets ape.Memory.Tables.split_targets
    ape.Memory.Tables.is_split_target ape.Memory.Ranges.is_remappable_user_mapping
    ape.Memory.Tables.map_pages pages_from
mprotect_range_unmapped_example =
    mprotect_range_unmapped small_pages willing two_pages two_pages [] 320 352 1 336 refl refl refl
