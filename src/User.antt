-- ===== src/User.antt =====
-- ape/user.rs: copying to and from the memory of a process, through a pool of frames that the server
-- has mapped for itself. `frames` is what memory holds: the bytes of each frame. A scratch address is
-- where the kernel shows the frame of its entry, so reading there is reading that frame.
pub mod Pool
pub mod Copy
pub mod Acquire
pub mod Reading
pub mod Strings
pub mod Rounds
pub mod Text
pub mod Sessions
pub mod Closing
mod Tests
use Prim.Native.Nat.{bit_and, bit_or}
use ape.Base.{
  ℕ, zero, suc, ◌+◌, ◌-◌, ◌*◌, ◌/◌, Bool, true, false, not, ◌&&◌, ◌||◌, Option, none, some, List,
  [], ◌∷◌, ◌++◌, min, length, take, drop, get_elem?, get_or, ltb, leb, ◌==◌, if◌then◌else◌, Error,
  Result, ok, err, invalid_address, out_of_memory, saturating_add, Map, insert,
}
use ape.Task.Ledger.{ApeResourceLedger, log, frame_alloc}
use ape.Memory.State.{Platform, MemoryType, MemoryMap, MmState, lookup_memory_map, add_memory_map}
use ape.Policy.{LruPolicy, touch, victim}

abbrev pub user_shared_page_pool_slots : ℕ
user_shared_page_pool_slots = 16

pub record SharedPagePoolEntry : Type 0 where
  pub map_vaddr : ℕ
  pub scratch_vaddr : ℕ
  pub pages : ℕ
  pub frame_cap : ℕ
  pub perms : ℕ

-- An array of 16 is a list; reading it out of range gives what a free slot has.
pub record SharedPagePool : Type 0 where
  pub entries : List (Option SharedPagePoolEntry)
  pub occupied : List Bool
  pub policy : LruPolicy

abbrev repeat {ℓ} : {A : Type ℓ} → ℕ → A → List A
repeat zero x = []
repeat (suc n) x = x ∷ repeat n x

unfoldable pub new : SharedPagePool
new = record {
  entries = repeat user_shared_page_pool_slots none;
  occupied = repeat user_shared_page_pool_slots false;
  policy = [];
}

-- What the kernel and the services answer: a scratch address for a frame, the unmapping of one, a
-- new frame for an address, and its mapping there.
pub record Kernel : Type 0 where
  pub map_scratch : ℕ → Result ℕ
  pub unmap : ℕ → Result (Unit {0})
  pub new_frame : ℕ → Result ℕ
  pub map_frame : ℕ → Result (Unit {0})

-- `xs[slot] = x`.
unfoldable pub set_at {ℓ} : {A : Type ℓ} → List A → ℕ → A → List A
set_at [] slot x = []
set_at (y ∷ ys) zero x = x ∷ ys
set_at (y ∷ ys) (suc slot) x = y ∷ set_at ys slot x

abbrev pub entry_at : List (Option SharedPagePoolEntry) → ℕ → Option SharedPagePoolEntry
entry_at entries slot = get_or entries slot none

abbrev pub is_occupied : List Bool → ℕ → Bool
is_occupied occupied slot = get_or occupied slot false

-- `Perms::contains`.
unfoldable pub allows : ℕ → ℕ → Bool
allows perms wanted = bit_and perms wanted == wanted

unfoldable pub is_hit : Option SharedPagePoolEntry → MemoryMap → ℕ → Bool
is_hit none map perms = false
is_hit (some entry) map perms = entry.frame_cap == map.frame_cap && allows entry.perms perms

-- The slots from `at` on. The source unwraps the entry of an occupied slot, and panics where an occupied
-- slot has no entry; that is no hit here. A pool with `IsPool` has no such slot. An unmapping that fails
-- leaves one, but its error ends the session, and the clean-up does not look for hits.
unfoldable pub find_hit :
    ℕ → List (Option SharedPagePoolEntry) → List Bool → MemoryMap → ℕ → Option ℕ
find_hit at (entry ∷ entries) (used ∷ occupied) map perms =
    if used && is_hit entry map perms then some at else find_hit (at + 1) entries occupied map perms
find_hit at entries occupied map perms = none

unfoldable pub first_free : ℕ → List Bool → Option ℕ
first_free at [] = none
first_free at (used ∷ occupied) = if used then first_free (at + 1) occupied else some at

unfoldable pub pick_slot : SharedPagePool → Result ℕ × SharedPagePool
pick_slot pool = elim (first_free 0 pool.occupied) [
  | some slot ↦ (ok slot, pool)
  | none ↦
      let (found, policy) = victim pool.policy pool.occupied in
      (
        elim found [ none ↦ err out_of_memory | some slot ↦ ok slot ],
        record pool { policy = policy },
      )
]

-- The entry is taken out before the unmapping that may fail.
unfoldable pub unmap_slot : Kernel → SharedPagePool → ℕ → Result (Unit {0}) × SharedPagePool
unmap_slot kernel pool slot = elim (entry_at pool.entries slot) [
  | none ↦ (ok tt, pool)
  | some entry ↦
      let taken = record pool { entries = set_at pool.entries slot none } in
      elim (kernel.unmap entry.scratch_vaddr) [
        | err e ↦ (err e, taken)
        | ok done ↦ (ok tt, record taken { occupied = set_at pool.occupied slot false })
      ]
]

-- The slot that a map gets, with its old entry gone.
unfoldable pub clear_slot : Kernel → SharedPagePool → ℕ → Result (Unit {0}) × SharedPagePool
clear_slot kernel pool slot =
    if is_occupied pool.occupied slot then unmap_slot kernel pool slot else (ok tt, pool)

unfoldable pub fill_slot :
    Kernel → Platform → SharedPagePool → ℕ → MemoryMap → ℕ → Result ℕ × SharedPagePool
fill_slot kernel p pool slot map perms = elim (kernel.map_scratch map.frame_cap) [
  | err e ↦ (err e, pool)
  | ok scratch_vaddr ↦
      let entry : SharedPagePoolEntry = record {
        map_vaddr = map.vaddr;
        scratch_vaddr = scratch_vaddr;
        pages = p.align_up map.size / p.pgsize;
        frame_cap = map.frame_cap;
        perms = perms;
      } in
      (
        ok slot,
        record {
          entries = set_at pool.entries slot (some entry);
          occupied = set_at pool.occupied slot true;
          policy = touch pool.policy slot;
        },
      )
]

-- The slot whose scratch address shows the map's frame.
unfoldable pub acquire :
    Kernel → Platform → SharedPagePool → MemoryMap → ℕ → Result ℕ × SharedPagePool
acquire kernel p pool map perms = elim (find_hit 0 pool.entries pool.occupied map perms) [
  | some slot ↦ (ok slot, record pool { policy = touch pool.policy slot })
  | none ↦
      let (picked, chosen) = pick_slot pool in
      elim picked [
        | err e ↦ (err e, chosen)
        | ok slot ↦
            let (cleared, emptied) = clear_slot kernel chosen slot in
            elim cleared [
              | err e ↦ (err e, emptied)
              | ok done ↦ fill_slot kernel p emptied slot map perms
            ]
      ]
]

-- Releasing the slots from `slot` on, `fuel` of them.
unfoldable pub release_from : Kernel → ℕ → ℕ → SharedPagePool → Result (Unit {0}) × SharedPagePool
release_from kernel zero slot pool = (ok tt, pool)
release_from kernel (suc fuel) slot pool =
    let (done, after) = clear_slot kernel pool slot in
    let rest = release_from kernel fuel (slot + 1) after in
    elim done [ err e ↦ (err e, after) | ok unit ↦ rest ]

unfoldable pub release_all : Kernel → SharedPagePool → Result (Unit {0}) × SharedPagePool
release_all kernel pool = release_from kernel user_shared_page_pool_slots 0 pool
