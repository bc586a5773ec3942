-- ===== src/Memory/Unmap.antt =====
-- mm/mod.rs: how `do_munmap`, `do_mprotect` and the preparation of `do_mremap` change the tables of
-- maps.
use Prim.Native.Nat.{bit_and, bit_or, ◌%◌}
use ape.Base.{
  ℕ, Bool, true, false, not, ◌||◌, Option, none, some, List, [], ◌∷◌, ◌++◌, Map, lookup, insert,
  remove, keys, ltb, leb, ◌==◌, if◌then◌else◌, saturating_add, checked_add,
}
use ape.Memory.State.{Platform, MemoryType, MemoryMap, MmState, lookup_memory_map}
use ape.Memory.Ranges.{
  is_remappable_user_mapping, Spaces, not_found, invalid_args, invalid_address, out_of_memory,
  Result, ok, err,
}
use ape.Memory.Tables.{Kernel, Frame, step_by, map_pages, ensure_partial_multi_page_ranges_split}

unfoldable pub is_anonymous : MemoryType → Bool
is_anonymous MemoryType.image = false
is_anonymous MemoryType.stack = false
is_anonymous MemoryType.heap = false
is_anonymous MemoryType.anonymous = true
is_anonymous MemoryType.file_backed = false

pub data RemapPageState : Type 0 where
  mapped : (frame_cap perms : ℕ) → RemapPageState
  lazy : (perms : ℕ) → RemapPageState

abbrev pub flags : RemapPageState → ℕ
flags (mapped frame_cap perms) = perms
flags (lazy perms) = perms

-- `ranges.entry(vaddr).or_insert(frame)`.
unfoldable pub or_insert : ℕ → Frame → Map Frame → Map Frame
or_insert vaddr frame ranges = elim (lookup vaddr ranges) [
  | none ↦ insert vaddr frame ranges
  | some old ↦ ranges
]

unfoldable pub remove_all {ℓ} : {V : Type ℓ} → List ℕ → Map V → Map V
remove_all [] maps = maps
remove_all (vaddr ∷ vaddrs) maps = remove_all vaddrs (remove vaddr maps)

unfoldable pub set_flags : ℕ → List ℕ → Map MemoryMap → Map MemoryMap
set_flags perms [] maps = maps
set_flags perms (vaddr ∷ vaddrs) maps = elim (lookup vaddr maps) [
  | none ↦ set_flags perms vaddrs maps
  | some map ↦ set_flags perms vaddrs (insert vaddr (record map { flags = perms }) maps)
]

module _ (p : Platform) where
  -- A map of the user is noted with its frame.
  unfoldable pub note_map : Option MemoryMap → Map Frame → Map Frame
  note_map none ranges = ranges
  note_map (some map) ranges =
      if is_remappable_user_mapping map.mem_type
      then or_insert map.vaddr (map.frame_cap, map_pages p map) ranges
      else ranges

  -- The loop over the pages: lazy maps go, the others are noted.
  unfoldable pub unmap_pages : List ℕ → MmState → Map Frame → MmState × Map Frame
  unmap_pages [] mm ranges = (mm, ranges)
  unmap_pages (page ∷ pages) mm ranges =
      let mm_after = record mm { lazy_memory_maps = remove page mm.lazy_memory_maps } in
      unmap_pages pages mm_after (note_map (lookup page mm.memory_maps) ranges)

  -- The tables without the maps of the range, and the maps to unmap with their frames.
  unfoldable pub take_range : MmState → ℕ → ℕ → MmState × Map Frame
  take_range mm start end =
      let (after, ranges) = unmap_pages (step_by p start end) mm [] in
      (record after { memory_maps = remove_all (keys ranges) after.memory_maps }, ranges)

  unfoldable pub release_ranges : Kernel → Map Frame → Result (Unit {0}) × List Frame
  release_ranges k [] = (ok tt, [])
  release_ranges k ((vaddr, (frame_cap, pages)) ∷ ranges) =
      let rest = release_ranges k ranges in
      elim (k.unmap_pages vaddr pages) [
        | err e ↦ (err e, [])
        | ok done ↦ (rest.0, if frame_cap == 0 then rest.1 else (frame_cap, pages) ∷ rest.1)
      ]

  -- `do_munmap` from the call that splits maps on, on the tables of the process.
  unfoldable pub munmap_range : Kernel → MmState → ℕ → ℕ → Result ℕ × MmState × List Frame
  munmap_range k mm addr end =
      let (answer, split, freed) = ensure_partial_multi_page_ranges_split p k mm addr end in
      elim answer [
        | err e ↦ (err e, split, freed)
        | ok done ↦
            let (after, ranges) = take_range split addr end in
            let (unmapped, released) = release_ranges k ranges in
            elim unmapped [
              | err e ↦ (err e, after, freed ++ released)
              | ok done ↦ (ok 0, after, freed ++ released)
            ]
      ]

  -- The answer, the address spaces and the frames released.
  unfoldable pub do_munmap : Kernel → Spaces → ℕ → ℕ → ℕ → Result ℕ × Spaces × List Frame
  do_munmap k spaces pid addr len =
      if len == 0 || not (addr % p.pgsize == 0)
      then (err invalid_args, spaces, [])
      else elim (checked_add addr (p.align_up len)) [
        | none ↦ (err out_of_memory, spaces, [])
        | some end ↦ elim (lookup pid spaces) [
          | none ↦ (err not_found, spaces, [])
          | some mm ↦
              let (answer, after, freed) = munmap_range k mm addr end in
              (answer, insert pid after spaces, freed)
        ]
      ]

  unfoldable pub collect_remap_states : MmState → List ℕ → Result (List RemapPageState)
  collect_remap_states mm [] = ok []
  collect_remap_states mm (page ∷ pages) =
      let later = collect_remap_states mm pages in
      elim (lookup page mm.memory_maps) [
        | some map ↦
            if not (is_anonymous map.mem_type) || not (map.size == p.pgsize)
            then err invalid_args
            else elim later [
              | err e ↦ err e
              | ok states ↦ ok (mapped map.frame_cap map.flags ∷ states)
            ]
        | none ↦ elim (lookup page mm.lazy_memory_maps) [
          | some map ↦
              if not (is_anonymous map.mem_type) || not (map.size == p.pgsize)
              then err invalid_args
              else elim later [ err e ↦ err e | ok states ↦ ok (lazy map.flags ∷ states) ]
          | none ↦ err invalid_address
        ]
      ]

  unfoldable pub protect_ranges : MmState → List ℕ → Map Frame → Result (Map Frame)
  protect_ranges mm [] ranges = ok ranges
  protect_ranges mm (page ∷ pages) ranges = elim (lookup_memory_map mm page) [
    | none ↦ err invalid_address
    | some map ↦
        if ltb page map.vaddr || leb (saturating_add map.vaddr map.size) page
        then err invalid_address
        else protect_ranges mm pages (or_insert map.vaddr (map.frame_cap, map_pages p map) ranges)
  ]

  unfoldable pub remap_ranges : Kernel → ℕ → Map Frame → Result (Unit {0})
  remap_ranges k perms [] = ok tt
  remap_ranges k perms ((vaddr, (frame_cap, pages)) ∷ ranges) =
      let rest = remap_ranges k perms ranges in
      elim (k.map_frame frame_cap vaddr perms pages) [ err e ↦ err e | ok done ↦ rest ]

  -- The flags of the maps and lazy maps once every range is mapped again.
  unfoldable pub protect_tables : MmState → ℕ → List ℕ → List ℕ → MmState
  protect_tables mm perms vaddrs pages = record mm {
    memory_maps = set_flags perms vaddrs mm.memory_maps;
    lazy_memory_maps = set_flags perms pages mm.lazy_memory_maps;
  }

  -- `do_mprotect` from the call that splits maps on, with the permissions for `prot`.
  unfoldable pub mprotect_range : Kernel → MmState → ℕ → ℕ → ℕ → Result ℕ × MmState × List Frame
  mprotect_range k mm start end new_perms =
      let (answer, split, freed) = ensure_partial_multi_page_ranges_split p k mm start end in
      elim answer [
        | err e ↦ (err e, split, freed)
        | ok done ↦ elim (protect_ranges split (step_by p start end) []) [
          | err e ↦ (err e, split, freed)
          | ok ranges ↦ elim (remap_ranges k new_perms ranges) [
            | err e ↦ (err e, split, freed)
            | ok done ↦
                (ok 0, protect_tables split new_perms (keys ranges) (step_by p start end), freed)
          ]
        ]
      ]

  unfoldable pub prot_to_perms : ℕ → ℕ
  prot_to_perms prot =
      let read = if bit_and prot 1 == 0 then 0 else p.perm_read in
      let write = if bit_and prot 2 == 0 then 0 else p.perm_write in
      let execute = if bit_and prot 4 == 0 then 0 else p.perm_execute in
      bit_or (bit_or read write) execute

  unfoldable pub do_mprotect : Kernel → Spaces → ℕ → ℕ → ℕ → ℕ → Result ℕ × Spaces × List Frame
  do_mprotect k spaces pid addr len prot =
      if len == 0 then (ok 0, spaces, []) else elim (checked_add addr len) [
        | none ↦ (err out_of_memory, spaces, [])
        | some last ↦ elim (lookup pid spaces) [
          | none ↦ (err not_found, spaces, [])
          | some mm ↦
              let (answer, after, freed) =
                mprotect_range k mm (p.align_down addr) (p.align_up last) (prot_to_perms prot) in
              (answer, insert pid after spaces, freed)
        ]
      ]
