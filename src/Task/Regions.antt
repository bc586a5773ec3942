-- ===== src/Task/Regions.antt =====
-- ape/state.rs, `ApeFsState`: the regions of asynchronous input and output, which are allocated once
-- and then recycled. Endpoints of the other services are numbers here, the capability's bits.
pub mod Ownership
use ape.Base.{
  ℕ, zero, suc, ◌+◌, ◌-◌, ◌≤◌, ◌<◌, ◌≡◌, ◌≢◌, refl, ap, ◌∙◌, ◌⊎◌, inl, inr, Bool, true, false, not,
  ◌&&◌, ◌||◌, Option, none, some, List, [], ◌∷◌, ◌++◌, arith, All, length, get_elem?, contains, ltb,
  ◌==◌, if◌then◌else◌, checked_add, wrapping_add, usize_size, Option-cases, Bool-cases, is_some,
}

pub record AsyncIoRegion : Type 0 where
  pub id : ℕ
  pub frame_slot : ℕ
  pub vaddr : ℕ
  pub size : ℕ

-- The free list with its last entry first, since it is used at that end alone.
pub record ApeFsState : Type 0 where
  pub async_regions : List AsyncIoRegion
  pub async_free : List ℕ
  pub next_async_vaddr : ℕ
  pub next_handle_badge : ℕ
  pub iouring_supported : Option Bool
  pub dev_vfs_endpoint : Option ℕ
  pub tmp_vfs_endpoint : Option ℕ
  pub pipe_vfs_endpoint : Option ℕ

unfoldable pub new : ℕ → ℕ → ApeFsState
new next_async_vaddr next_handle_badge = record {
  async_regions = [];
  async_free = [];
  next_async_vaddr = next_async_vaddr;
  next_handle_badge = next_handle_badge;
  iouring_supported = none;
  dev_vfs_endpoint = none;
  tmp_vfs_endpoint = none;
  pipe_vfs_endpoint = none;
}

unfoldable pub should_try_iouring : ApeFsState → Bool
should_try_iouring s = elim s.iouring_supported [ none ↦ true | some supported ↦ supported ]

unfoldable pub mark_iouring_supported : ApeFsState → ApeFsState
mark_iouring_supported s = record s { iouring_supported = some true }

unfoldable pub mark_iouring_unsupported : ApeFsState → ApeFsState
mark_iouring_unsupported s = record s { iouring_supported = some false }

unfoldable pub set_dev_vfs_endpoint : ApeFsState → ℕ → ApeFsState
set_dev_vfs_endpoint s endpoint = record s { dev_vfs_endpoint = some endpoint }

unfoldable pub set_tmp_vfs_endpoint : ApeFsState → ℕ → ApeFsState
set_tmp_vfs_endpoint s endpoint = record s { tmp_vfs_endpoint = some endpoint }

unfoldable pub set_pipe_vfs_endpoint : ApeFsState → ℕ → ApeFsState
set_pipe_vfs_endpoint s endpoint = record s { pipe_vfs_endpoint = some endpoint }

unfoldable pub take_next_handle_badge : ApeFsState → ℕ × ApeFsState
take_next_handle_badge s =
    (s.next_handle_badge, record s { next_handle_badge = wrapping_add s.next_handle_badge 1 })

unfoldable pub try_reuse_region : ApeFsState → Option AsyncIoRegion × ApeFsState
try_reuse_region s = elim s.async_free [
  | [] ↦ (none, s)
  | region_id ∷ rest ↦ (get_elem? s.async_regions region_id, record s { async_free = rest })
]

unfoldable pub region_count : ApeFsState → ℕ
region_count s = length s.async_regions

unfoldable pub reserve_async_vaddr : ApeFsState → ℕ → Option ℕ × ApeFsState
reserve_async_vaddr s size_aligned = elim (checked_add s.next_async_vaddr size_aligned) [
  | none ↦ (none, s)
  | some end ↦ (some s.next_async_vaddr, record s { next_async_vaddr = end })
]

unfoldable pub push_region : ApeFsState → AsyncIoRegion → ApeFsState
push_region s region = record s { async_regions = s.async_regions ++ region ∷ [] }

unfoldable pub recycle_region : ApeFsState → ℕ → ApeFsState
recycle_region s region_id =
    if ltb region_id (length s.async_regions) && not (contains s.async_free region_id)
    then record s { async_free = region_id ∷ s.async_free }
    else s

-- The answers of the services that `ApeManager::allocate_fs_async_region` asks, in its order: a
-- capability slot, whether the page count has a level, the allocation of the pages, and their
-- mapping.
pub record Answers : Type 0 where
  pub slot : Option ℕ
  pub has_level : Bool
  pub page_allocated : Bool
  pub page_mapped : Bool

abbrev pub fs_async_pool_max_regions : ℕ
fs_async_pool_max_regions = 64

-- The end of the function, after the reservation of its addresses.
abbrev pub finish_region :
    Answers → ℕ → ℕ → Option ℕ × ApeFsState → Option AsyncIoRegion × ApeFsState
finish_region a frame_slot size_aligned (none, s) = (none, s)
finish_region a frame_slot size_aligned (some vaddr, s) =
    let region : AsyncIoRegion = record {
      id = region_count s;
      frame_slot = frame_slot;
      vaddr = vaddr;
      size = size_aligned;
    } in
    if a.page_mapped then (some region, push_region s region) else (none, s)

-- ape/mod.rs, `allocate_fs_async_region`, less what it records in the ledger. `size_aligned` is the
-- size rounded up to pages, and every error is `none`. A free entry without a region falls through
-- to a new allocation, as in the source.
unfoldable pub allocate_fs_async_region :
    Answers → ApeFsState → ℕ → Option AsyncIoRegion × ApeFsState
unfolding try_reuse_region region_count reserve_async_vaddr push_region
allocate_fs_async_region a s size_aligned =
    let (reused, s') = try_reuse_region s in
    elim reused [
      | some region ↦ (some region, s')
      | none ↦
          if not (ltb (region_count s') fs_async_pool_max_regions)
          then (none, s')
          else elim a.slot [
            | none ↦ (none, s')
            | some frame_slot ↦
                if a.has_level && a.page_allocated
                then finish_region a frame_slot size_aligned (reserve_async_vaddr s' size_aligned)
                else (none, s')
          ]
    ]
