-- ===== src/User/Tests.antt =====
-- Concrete runs of ape/user.rs.
use ape.Base.{
  ℕ, zero, suc, ◌+◌, ◌-◌, ◌*◌, ◌/◌, ◌≤◌, ◌<◌, ◌≡◌, refl, Bool, true, false, not, ◌&&◌, ◌||◌, Option,
  none, some, List, [], ◌∷◌, arith, length, is_some, Map, ltb, leb, ◌==◌, if◌then◌else◌, Result, ok,
  err, usize_max, invalid_args,
}
use ape.Memory.State
use ape.Memory.State.{Platform, MemoryType, MemoryMap, MmState, lookup_memory_map}
use ape.User.{SharedPagePool, Kernel, entry_at, is_occupied, allows, acquire, new, repeat}
use ape.User.Copy.{UserAccessSession, bytes_at, shown}
use ape.User.Pool.{IsPool, new-IsPool}
use ape.User.Acquire.{IsWilling, acquire_lem}
use ape.User.Strings.{strncpy_from_user, from_utf8}
use ape.User.Sessions.{manager_copy_from_user}
use ape.User.Closing.{manager_copy_from_user_reads}
use ape.User.Text.{IsText, strncpy_from_user_reads}
use ape.User.Reading.{user_byte, Allows}

abbrev small_pages : Platform
small_pages = record {
  pgsize = 16;
  pgsize-positive = omega arith;
  heap_va = 64;
  stack_base = 16777216;
  thread_area_base = 4096;
  perm_read = 1;
  perm_write = 2;
  perm_execute = 4;
  align_down = λ n. n / 16 * 16;
  align_up = λ n. (n + 15) / 16 * 16;
  align_up-le = λ n. omega arith;
  align_up-multiple = λ n. omega arith;
}

abbrev page_at : ℕ → ℕ → MemoryMap
page_at vaddr frame = record {
  vaddr = vaddr;
  paddr = 0;
  size = 16;
  flags = 3;
  mem_type = MemoryType.heap;
  cow = false;
  frame_cap = frame;
  file_backing_fd = none;
  file_backing_offset = 0;
}

abbrev willing : Kernel
willing = record {
  map_scratch = λ frame. ok (frame * 4096);
  unmap = λ scratch. ok tt;
  new_frame = λ vaddr. ok 3;
  map_frame = λ vaddr. ok tt;
}

willing-IsWilling : IsWilling willing
willing-IsWilling = (λ frame. (frame * 4096, refl), λ scratch. refl)

-- Two pages side by side, of the frames 7 and 9; the byte of a frame is its number and the offset.
abbrev two_pages : UserAccessSession
two_pages = record {
  mm = record (ape.Memory.State.new small_pages) {
    memory_maps = (368, page_at 368 7) ∷ (384, page_at 384 9) ∷ [];
  };
  ledger = [];
  frames = λ frame offset. frame * 100 + offset;
  pool = new;
}

acquire_lem_example :
    (slot : ℕ) × (after : SharedPagePool) × (acquire willing small_pages new (page_at 368 7) 1
      ≡ (ok slot, after))
    × IsPool after
    × (shown after slot ≡ 7)
acquire_lem_example =
    acquire_lem willing small_pages new (page_at 368 7) 1 willing-IsWilling new-IsPool

first_byte : Allows small_pages.perm_read two_pages 383
unfolding allows lookup_memory_map ape.Memory.State.covering ape.Base.floor
first_byte = (page_at 368 7, refl, omega arith, omega arith, refl, refl)

second_byte : Allows small_pages.perm_read two_pages 384
unfolding allows lookup_memory_map ape.Memory.State.covering ape.Base.floor
second_byte = (page_at 384 9, refl, omega arith, omega arith, refl, refl)

-- The last byte of the first page, and the first one of the second page.
two_bytes : (k : ℕ) → k < 2 → Allows small_pages.perm_read two_pages (383 + k)
two_bytes zero low = first_byte
two_bytes (suc zero) low = second_byte
two_bytes (suc (suc k)) low = absurd (omega (arith, low))

manager_copy_from_user_reads_example :
    (pool : SharedPagePool) × (manager_copy_from_user willing small_pages 5 two_pages 383 2
      ≡ some (ok (bytes_at (user_byte two_pages) 383 2), record two_pages { pool = pool }))
manager_copy_from_user_reads_example =
    manager_copy_from_user_reads willing small_pages 5 two_pages 383 2 willing-IsWilling
      (omega arith, refl, omega arith, (omega arith, refl, omega arith, tt)) (omega arith)
      (omega arith) two_bytes

read_two : bytes_at (user_byte two_pages) 383 2 ≡ 715 ∷ 900 ∷ []
unfolding bytes_at lookup_memory_map ape.Memory.State.covering ape.Base.floor
read_two = refl

-- The letter A at the end of the first page, and a NUL at the start of the second page.
abbrev short_text : UserAccessSession
short_text = record two_pages { frames = λ frame offset. if frame == 9 then 0 else 65 }

short_text-IsText : IsText small_pages short_text 383 1
unfolding lookup_memory_map ape.Memory.State.covering ape.Base.floor
short_text-IsText = record {
  readable = two_bytes;
  text = elim [ zero ↦ λ low. refl | suc k ↦ λ low. absurd (omega (arith, low)) ];
  nul = refl;
}

strncpy_from_user_reads_example :
    (pool : SharedPagePool) × (strncpy_from_user willing small_pages 5 short_text 383 8
      ≡ some (from_utf8 (bytes_at (user_byte short_text) 383 1), record short_text { pool = pool }))
strncpy_from_user_reads_example =
    strncpy_from_user_reads willing small_pages 5 short_text 383 1 8 willing-IsWilling
      (omega arith, refl, omega arith, (omega arith, refl, omega arith, tt)) new-IsPool
      (omega arith) (omega arith) (omega arith) short_text-IsText

-- Two bytes of a character and a third one that is missing are no string.
cut_character : from_utf8 (226 ∷ 130 ∷ []) ≡ err invalid_args
unfolding from_utf8 ape.User.Strings.is_utf8_from ape.User.Strings.followers
cut_character = refl
