-- ===== src/Memory/Tables.antt =====
-- mm/mod.rs: pages of a range, and splitting the maps of several pages that a range cuts. `Kernel` is what the calls to the kernel answer: the frames that `split_large_mapping` gets
-- for the pages of a map, the slot for a new page and whether a page is allocated for
-- it, and whether unmapping and mapping pages succeed.
use Prim.Native.Nat.{zero, suc, ◌+◌, ◌*◌, ◌/◌}
use ape.Base.{
  ℕ, ◌-◌, Bool, false, not, ◌||◌, none, some, List, [], ◌∷◌, ◌++◌, Map, lookup, insert, remove,
  values, ltb, leb, ◌==◌, if◌then◌else◌, saturating_add,
}
use ape.Memory.State.{Platform, MemoryMap, MmState}
use ape.Memory.Ranges.{has_overlap, is_remappable_user_mapping, not_found, Result, ok, err}

pub record Kernel : Type 0 where
  pub split_slots : (map_start pages : ℕ) → Result (List ℕ)
  pub page_slot : (page : ℕ) → Result ℕ
  pub page_alloc : (slot : ℕ) → Result (Unit {0})
  pub unmap_pages : (vaddr pages : ℕ) → Result (Unit {0})
  pub map_frame : (frame vaddr perms pages : ℕ) → Result (Unit {0})

-- A frame and its number of pages, as `release_process_frame_slot` is called with.
abbrev pub Frame : Type 0
Frame = ℕ × ℕ

module _ (p : Platform) where
  unfoldable pub pages_from : ℕ → ℕ → List ℕ
  pages_from zero start = []
  pages_from (suc count) start = start ∷ pages_from count (start + p.pgsize)

  -- `(start..end).step_by(PGSIZE)`.
  unfoldable pub step_by : ℕ → ℕ → List ℕ
  step_by start end = pages_from ((end - start + (p.pgsize - 1)) / p.pgsize) start

  unfoldable pub map_pages : MemoryMap → ℕ
  map_pages map = p.align_up map.size / p.pgsize

  unfoldable pub is_split_target : MemoryMap → ℕ → ℕ → Bool
  is_split_target map start end =
      let map_end = saturating_add map.vaddr (map_pages map * p.pgsize) in
      if not (is_remappable_user_mapping map.mem_type) || map.frame_cap == 0
      then false
      else if leb (map_pages map) 1
      then false
      else if not (has_overlap start end map.vaddr (map_pages map * p.pgsize))
      then false
      else ltb map.vaddr start || ltb end map_end

  unfoldable pub split_targets : List MemoryMap → ℕ → ℕ → List ℕ
  split_targets [] start end = []
  split_targets (map ∷ maps) start end =
      if is_split_target map start end
      then map.vaddr ∷ split_targets maps start end
      else split_targets maps start end

  unfoldable pub split_partial_multi_page_targets : MmState → ℕ → ℕ → List ℕ
  split_partial_multi_page_targets mm start end = split_targets (values mm.memory_maps) start end

  -- The new maps of `split_large_mapping_into_base_pages`, from the page `idx` on.
  unfoldable pub insert_base_pages : MemoryMap → ℕ → List ℕ → Map MemoryMap → Map MemoryMap
  insert_base_pages map idx [] maps = maps
  insert_base_pages map idx (slot ∷ slots) maps =
      let vaddr = map.vaddr + idx * p.pgsize in
      insert_base_pages map (idx + 1) slots (
        insert vaddr
          (record {
            vaddr = vaddr;
            paddr = 0;
            size = p.pgsize;
            flags = map.flags;
            mem_type = map.mem_type;
            cow = map.cow;
            frame_cap = slot;
            file_backing_fd = map.file_backing_fd;
            file_backing_offset = saturating_add map.file_backing_offset (idx * p.pgsize);
          })
          maps)

  -- The answer, the tables and the frames released.
  unfoldable pub split_large_mapping :
      Kernel → MmState → ℕ → Result (Unit {0}) × MmState × List Frame
  split_large_mapping k mm map_start = elim (lookup map_start mm.memory_maps) [
    | none ↦ (err not_found, mm, [])
    | some map ↦
        if not (is_remappable_user_mapping map.mem_type)
          || map.frame_cap == 0
          || leb (map_pages map) 1
        then (ok tt, mm, [])
        else elim (k.split_slots map_start (map_pages map)) [
          | err e ↦ (err e, mm, [])
          | ok slots ↦ (
            ok tt,
            record mm {
              memory_maps = insert_base_pages map 0 slots (remove map.vaddr mm.memory_maps);
            },
            (map.frame_cap, map_pages map) ∷ [],
          )
        ]
  ]

  unfoldable pub split_all : Kernel → MmState → List ℕ → Result (Unit {0}) × MmState × List Frame
  split_all k mm [] = (ok tt, mm, [])
  split_all k mm (map_start ∷ targets) =
      let (answer, split, freed) = split_large_mapping k mm map_start in
      elim answer [
        | err e ↦ (err e, split, freed)
        | ok done ↦
            let (rest_answer, after, rest_freed) = split_all k split targets in
            (rest_answer, after, freed ++ rest_freed)
      ]

  unfoldable pub ensure_partial_multi_page_ranges_split :
      Kernel → MmState → ℕ → ℕ → Result (Unit {0}) × MmState × List Frame
  ensure_partial_multi_page_ranges_split k mm start end =
      split_all k mm (split_partial_multi_page_targets mm start end)
