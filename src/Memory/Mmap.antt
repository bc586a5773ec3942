-- ===== src/Memory/Mmap.antt =====
-- mm/mod.rs: `map_anonymous_range_eager` and `do_mmap`. Whether a file descriptor of a process is
-- open is asked of a function, and so are the answers of the kernel.
use Prim.Native.Nat.{suc, bit_and, max, ◌%◌}
use ape.Base.{
  ℕ, ◌+◌, ◌-◌, Bool, false, not, ◌&&◌, ◌||◌, Option, none, some, List, [], ◌∷◌, ◌++◌, lookup,
  insert, remove, values, ltb, ◌==◌, if◌then◌else◌, saturating_sub, checked_add,
}
use ape.Memory.State.{Platform, MemoryType, MemoryMap, MmState, add_memory_map}
use ape.Memory.Ranges.{
  has_overlap, is_remappable_user_mapping, search, Spaces, not_found, invalid_args, invalid_slot,
  out_of_memory, Result, ok, err,
}
use ape.Memory.Tables.{Kernel, Frame, step_by, ensure_partial_multi_page_ranges_split}
use ape.Memory.Unmap.{take_range, release_ranges, prot_to_perms}

abbrev pub map_private : ℕ
map_private = 0x02

abbrev pub map_fixed : ℕ
map_fixed = 0x10

abbrev pub map_anonymous : ℕ
map_anonymous = 0x20

abbrev pub has_flag : ℕ → ℕ → Bool
has_flag flags flag = not (bit_and flags flag == 0)

-- Undoing the pages that a failed call mapped, the last one first, and the frames it releases.
unfoldable pub roll_back : List (ℕ × ℕ) → MmState → MmState
roll_back [] mm = mm
roll_back ((page, slot) ∷ mapped) mm =
    roll_back mapped (record mm { memory_maps = remove page mm.memory_maps })

unfoldable pub frames_of : List (ℕ × ℕ) → List Frame
frames_of [] = []
frames_of ((page, slot) ∷ mapped) = (slot, 1) ∷ frames_of mapped

-- `get_process(pid)`, and a change of the tables of that process.
unfoldable pub on_process :
    Spaces → ℕ → (MmState → Result ℕ × MmState × List Frame) → Result ℕ × Spaces × List Frame
on_process spaces pid change = elim (lookup pid spaces) [
  | none ↦ (err not_found, spaces, [])
  | some mm ↦ let (answer, after, freed) = change mm in (answer, insert pid after spaces, freed)
]

module _ (p : Platform) where
  abbrev pub anonymous_page : ℕ → ℕ → ℕ → MemoryMap
  anonymous_page page perms slot = record {
    vaddr = page;
    paddr = 0;
    size = p.pgsize;
    flags = perms;
    mem_type = MemoryType.anonymous;
    cow = false;
    frame_cap = slot;
    file_backing_fd = none;
    file_backing_offset = 0;
  }

  abbrev pub file_page : ℕ → ℕ → ℕ → ℕ → MemoryMap
  file_page page perms fd offset = record {
    vaddr = page;
    paddr = 0;
    size = p.pgsize;
    flags = perms;
    mem_type = MemoryType.file_backed;
    cow = false;
    frame_cap = 0;
    file_backing_fd = some fd;
    file_backing_offset = offset;
  }

  -- The loop over the pages; `mapped` holds those done, the last one first.
  unfoldable pub map_anonymous_pages :
      Kernel → List ℕ → ℕ → MmState → List (ℕ × ℕ) → Result (Unit {0}) × MmState × List Frame
  map_anonymous_pages k [] perms mm mapped = (ok tt, mm, [])
  map_anonymous_pages k (page ∷ pages) perms mm mapped = elim (k.page_slot page) [
    | err e ↦ (err e, mm, [])
    | ok slot ↦
        let rest =
          map_anonymous_pages k pages perms (add_memory_map mm (anonymous_page page perms slot))
            ((page, slot) ∷ mapped) in
        elim (k.page_alloc slot) [
          | err e ↦ (err e, roll_back mapped mm, frames_of mapped)
          | ok done ↦ elim (k.map_frame slot page perms 1) [
            | err e ↦ (err e, roll_back mapped mm, (slot, 1) ∷ frames_of mapped)
            | ok done ↦ rest
          ]
        ]
  ]

  unfoldable pub map_anonymous_range_eager :
      Kernel → MmState → ℕ → ℕ → ℕ → Result (Unit {0}) × MmState × List Frame
  map_anonymous_range_eager k mm start end perms =
      map_anonymous_pages k (step_by p start end) perms mm []

  -- Lazy maps of a file for the pages from `start` on. An offset past the end of `usize` ends the
  -- loop, and the maps before it stay.
  unfoldable pub map_file_pages : List ℕ → ℕ → ℕ → ℕ → ℕ → MmState → Result (Unit {0}) × MmState
  map_file_pages [] start perms fd offset mm = (ok tt, mm)
  map_file_pages (page ∷ pages) start perms fd offset mm =
      elim (checked_add offset (page - start)) [
        | none ↦ (err out_of_memory, mm)
        | some backing_off ↦ map_file_pages pages start perms fd offset (record mm {
          lazy_memory_maps = insert page (file_page page perms fd backing_off) mm.lazy_memory_maps;
        })
      ]

  -- The end of `do_mmap`, for a range that is settled.
  unfoldable pub place :
      Kernel → MmState → Option (ℕ × ℕ) → ℕ → ℕ → ℕ → Result ℕ × MmState × List Frame
  place k mm none start end perms =
      let (answer, after, freed) = map_anonymous_range_eager k mm start end perms in
      elim answer [
        | err e ↦ (err e, after, freed)
        | ok done ↦ (ok start, record after { mmap_next = max after.mmap_next end }, freed)
      ]
  place k mm (some (fd, offset)) start end perms =
      let (answer, after) = map_file_pages (step_by p start end) start perms fd offset mm in
      elim answer [
        | err e ↦ (err e, after, [])
        | ok done ↦ (ok start, record after { mmap_next = max after.mmap_next end }, [])
      ]

  unfoldable pub any_fixed_map : List MemoryMap → ℕ → ℕ → Bool
  any_fixed_map [] start end = false
  any_fixed_map (map ∷ maps) start end =
      has_overlap start end map.vaddr map.size && not (is_remappable_user_mapping map.mem_type)
      || any_fixed_map maps start end

  -- The guards of a fixed mapping.
  unfoldable pub check_fixed : MmState → ℕ → ℕ → Result (Unit {0})
  check_fixed mm start end =
      if ltb mm.mmap_limit end
      then err out_of_memory
      else if has_overlap start end mm.heap_start (saturating_sub mm.heap_brk mm.heap_start)
      then err invalid_args
      else let stack_low = saturating_sub mm.stack_bottom mm.max_stack_size in
        if has_overlap start end stack_low mm.max_stack_size
        then err invalid_args
        else if any_fixed_map (values mm.memory_maps) start end
        then err invalid_args
        else ok tt

  unfoldable pub mmap_fixed :
      Kernel → MmState → Option (ℕ × ℕ) → ℕ → ℕ → ℕ → Result ℕ × MmState × List Frame
  mmap_fixed k mm backing start end perms =
      let (answer, split, freed) = ensure_partial_multi_page_ranges_split p k mm start end in
      elim answer [
        | err e ↦ (err e, split, freed)
        | ok done ↦ elim (check_fixed split start end) [
          | err e ↦ (err e, split, freed)
          | ok done ↦
              let (taken, ranges) = take_range p split start end in
              let (unmapped, released) = release_ranges p k ranges in
              elim unmapped [
                | err e ↦ (err e, taken, freed ++ released)
                | ok done ↦
                    let (placed, after, undone) = place k taken backing start end perms in
                    (placed, after, freed ++ released ++ undone)
              ]
        ]
      ]

  unfoldable pub mmap_anywhere :
      Kernel → MmState → Option (ℕ × ℕ) → ℕ → ℕ → ℕ → Result ℕ × MmState × List Frame
  mmap_anywhere k mm backing addr len_aligned perms =
      let hint = if addr == 0 then mm.mmap_next else p.align_down addr in
      elim (search p (suc mm.mmap_limit) mm len_aligned (max hint mm.mmap_base)) [
        | none ↦ (err out_of_memory, mm, [])
        | some start ↦ place k mm backing start (start + len_aligned) perms
      ]

  module _ (is_open : (pid fd : ℕ) → Bool) where
    unfoldable pub file_backing : Spaces → ℕ → ℕ → ℕ → ℕ → Result (Option (ℕ × ℕ))
    file_backing spaces pid flags fd offset =
        if has_flag flags map_anonymous
        then ok none
        else if ltb 0xffffffff fd
        then err invalid_slot
        else elim (lookup pid spaces) [
          | none ↦ err not_found
          | some mm ↦ if is_open pid fd then ok (some (fd, offset)) else err invalid_slot
        ]

    unfoldable pub do_mmap :
        Kernel → Spaces → ℕ → ℕ → ℕ → ℕ → ℕ → ℕ → ℕ → Result ℕ × Spaces × List Frame
    do_mmap k spaces pid addr len prot flags fd offset =
        let len_aligned = p.align_up len in
        let perms = prot_to_perms p prot in
        if len == 0 || not (has_flag flags map_private)
        then (err invalid_args, spaces, [])
        else elim (file_backing spaces pid flags fd offset) [
          | err e ↦ (err e, spaces, [])
          | ok backing ↦
              if not (has_flag flags map_fixed)
              then on_process spaces pid (λ mm. mmap_anywhere k mm backing addr len_aligned perms)
              else if not (addr % p.pgsize == 0)
              then (err invalid_args, spaces, [])
              else elim (checked_add addr len_aligned) [
                | none ↦ (err out_of_memory, spaces, [])
                | some end ↦ on_process spaces pid (λ mm. mmap_fixed k mm backing addr end perms)
              ]
        ]
