-- ===== src/Files/Opens.antt =====
-- fs/fd.rs: opening a file and a pipe. What the services answer is a record: a slot for a
-- capability, whether the file opens, whether the service takes the ring.
use Prim.Native.Nat.{bit_and, bit_or}
use ape.Base.{
  ◌&&◌, [], is_some, ℕ, suc, ◌+◌, ◌-◌, ◌%◌, ◌^◌, Bool, not, ◌||◌, Option, none, some, List, ◌∷◌,
  lookup, insert, remove, length, ltb, ◌==◌, if◌then◌else◌, Error, Result, ok, err, not_found,
  invalid_args, invalid_address, out_of_memory, min, to_bytes, ◌++◌,
}
use ape.Task.Regions.{
  AsyncIoRegion, ApeFsState, Answers, allocate_fs_async_region, recycle_region, try_reuse_region,
  region_count, fs_async_pool_max_regions, should_try_iouring, mark_iouring_supported,
  mark_iouring_unsupported,
}
use ape.Task.Ledger.{
  ApeResourceLedger, Entry, log, fd_open, async_region_allocated, async_region_reused,
}
use ape.Files.State.{AsyncIoState, NormalFileHandle, FilesState, Descriptors}
use ape.Files.Calls.{u32_max, o_cloexec, first_free, without}

abbrev pub o_nonblock : ℕ
o_nonblock = 0x800

abbrev pub fs_async_data_offset : ℕ
fs_async_data_offset = 4096

-- What the services answer to an open, in the order of the questions. `region_size` is the size of a
-- region rounded up to pages.
pub record OpenAnswers : Type 0 where
  pub slot : Result ℕ
  pub opened : Result (Unit {0})
  pub region : Answers
  pub region_size : ℕ
  pub ring : Result (Unit {0})

-- What comes of a region once the service has answered about the ring.
unfoldable pub attach_ring :
    Result (Unit {0}) → AsyncIoRegion → ApeFsState → Option AsyncIoState × ApeFsState
attach_ring (ok done) region fs =
    let supported = mark_iouring_supported fs in
    if ltb (region.vaddr + fs_async_data_offset) (region.vaddr + region.size)
    then (
      some (record {
        region_id = region.id;
        data_vaddr = region.vaddr + fs_async_data_offset;
        data_len = region.size - fs_async_data_offset;
        next_user_data = 1;
      }),
      supported,
    )
    else (none, recycle_region supported region.id)
attach_ring (err Error.not_supported) region fs =
    (none, recycle_region (mark_iouring_unsupported fs) region.id)
attach_ring (err e) region fs = (none, recycle_region fs region.id)

unfoldable pub open_ring : OpenAnswers → ApeFsState → Option AsyncIoState × ApeFsState
open_ring a fs =
    let (region, after) = allocate_fs_async_region a.region fs a.region_size in
    if should_try_iouring fs
    then elim region [ none ↦ (none, after) | some given ↦ attach_ring a.ring given after ]
    else (none, fs)

-- What `allocate_fs_async_region` records of a region that it reuses, or whose page it has allocated.
unfoldable pub region_entries : Answers → ApeFsState → List Entry
region_entries a fs = elim (try_reuse_region fs).0 [
  | some region ↦ async_region_reused ∷ []
  | none ↦
      if ltb (region_count fs) fs_async_pool_max_regions
        && is_some a.slot
        && a.has_level
        && a.page_allocated
      then async_region_allocated ∷ []
      else []
]

unfoldable pub log_all : ApeResourceLedger → ℕ → List Entry → ApeResourceLedger
log_all ledger pid [] = ledger
log_all ledger pid (entry ∷ entries) = log_all (log ledger pid entry) pid entries

-- The ledger once the ring is set up, or not tried.
unfoldable pub ring_ledger : OpenAnswers → Descriptors → ℕ → ApeResourceLedger
ring_ledger a d pid =
    if should_try_iouring d.regions
    then log_all d.ledger pid (region_entries a.region d.regions)
    else d.ledger

-- The new descriptor; `next_fd` is a word of 32 bits.
unfoldable pub put_open : FilesState → NormalFileHandle → List ℕ → FilesState
put_open files handle path = record files {
  fds = insert files.next_fd handle files.fds;
  fd_paths = insert files.next_fd path files.fd_paths;
  next_fd = (files.next_fd + 1) % 2 ^ 32;
}

unfoldable pub open_via_nexus_fs : OpenAnswers → Descriptors → ℕ → List ℕ → Result ℕ × Descriptors
open_via_nexus_fs a d pid path = elim a.slot [
  | err e ↦ (err e, d)
  | ok slot ↦ elim a.opened [
    | err e ↦ (err e, d)
    | ok done ↦
        let (async_io, regions) = open_ring a d.regions in
        let opened = record d {
          regions = regions;
          open_slots = slot ∷ d.open_slots;
          ledger = ring_ledger a d pid;
        } in
        elim (lookup pid d.files) [
          | none ↦ (err not_found, opened)
          | some files ↦
              let handle : NormalFileHandle = record {
                fs_ep_slot = slot;
                offset = 0;
                async_io = async_io;
              } in
              (
                ok files.next_fd,
                record opened {
                  files = insert pid (put_open files handle path) d.files;
                  ledger = log opened.ledger pid fd_open;
                },
              )
        ]
  ]
]

-- A handle on one end of a pipe.
abbrev pub pipe_handle : ℕ → NormalFileHandle
pipe_handle slot = record { fs_ep_slot = slot; offset = 0; async_io = none }

unfoldable pub put_pipe_ends : FilesState → ℕ → ℕ → ℕ → ℕ → Bool → FilesState
put_pipe_ends files read_fd write_fd read_slot write_slot cloexec = record files {
  fds = insert write_fd (pipe_handle write_slot) (insert read_fd (pipe_handle read_slot) files.fds);
  fd_cloexec = insert write_fd cloexec (insert read_fd cloexec files.fd_cloexec);
  next_fd = min (write_fd + 1) u32_max;
}

-- The two numbers: the first free one from `next_fd` on, and the first free one behind it.
unfoldable pub pipe_fds : FilesState → Option (ℕ × ℕ)
pipe_fds files = elim (first_free (suc (length files.fds)) files.next_fd files.fds) [
  | none ↦ none
  | some read_fd ↦
      if read_fd == u32_max
      then none
      else elim (first_free (suc (length files.fds)) (read_fd + 1) files.fds) [
        | none ↦ none
        | some write_fd ↦ some (read_fd, write_fd)
      ]
]

-- The answers to `pipe2`: the number of the new pipe (0 for none), the slots of its ends, and the
-- copy of bytes to the caller's memory.
pub record PipeAnswers : Type 0 where
  pub pipe_id : ℕ
  pub read_slot : Result ℕ
  pub write_slot : Result ℕ
  pub copied : List ℕ → Result (Unit {0})

-- The two numbers as the caller gets them.
abbrev pub pipe_bytes : ℕ → ℕ → List ℕ
pipe_bytes read_fd write_fd = to_bytes 4 read_fd ++ to_bytes 4 write_fd

abbrev pub i32_max : ℕ
i32_max = 0x7fffffff

-- Taking both descriptors back when their numbers do not reach the caller.
unfoldable pub take_pipe_ends : Descriptors → ℕ → FilesState → ℕ → ℕ → ℕ → ℕ → Descriptors
take_pipe_ends d pid files read_fd write_fd read_slot write_slot = record d {
  files =
      insert pid
        (record files {
          fds = remove write_fd (remove read_fd files.fds);
          fd_cloexec = remove write_fd (remove read_fd files.fd_cloexec);
        })
        d.files;
  open_slots = without write_slot (without read_slot d.open_slots);
}

-- The end of `pipe2`, with both ends open in `d`.
unfoldable pub pipe_descriptors :
    PipeAnswers → Descriptors → ℕ → ℕ → ℕ → Bool → Result ℕ × Descriptors
pipe_descriptors a d pid read_slot write_slot cloexec = elim (lookup pid d.files) [
  | none ↦ (err not_found, d)
  | some files ↦ elim (pipe_fds files) [
    | none ↦ (err out_of_memory, d)
    | some (read_fd, write_fd) ↦
        let put = put_pipe_ends files read_fd write_fd read_slot write_slot cloexec in
        let placed = record d { files = insert pid put d.files } in
        if ltb i32_max read_fd || ltb i32_max write_fd
        then (err out_of_memory, placed)
        else elim (a.copied (pipe_bytes read_fd write_fd)) [
          | err e ↦ (err e, take_pipe_ends placed pid put read_fd write_fd read_slot write_slot)
          | ok done ↦ (ok 0, record placed { ledger = log (log d.ledger pid fd_open) pid fd_open })
        ]
  ]
]

-- Flags that are not a `u32`, or that have a bit besides the two that are allowed.
unfoldable pub refused_flags : ℕ → Bool
refused_flags flags =
    ltb u32_max flags
    || not (bit_or flags (bit_or o_cloexec o_nonblock) == bit_or o_cloexec o_nonblock)

-- The end of `pipe2`, with what the opening of each end gave.
unfoldable pub open_pipe_ends :
    PipeAnswers → Descriptors → ℕ → Bool → Result ℕ → Result ℕ → Result ℕ × Descriptors
open_pipe_ends a d pid cloexec (err e) write_end = (err e, d)
open_pipe_ends a d pid cloexec (ok read_slot) (err e) = (err e, d)
open_pipe_ends a d pid cloexec (ok read_slot) (ok write_slot) =
    pipe_descriptors a (record d { open_slots = write_slot ∷ read_slot ∷ d.open_slots }) pid
      read_slot write_slot cloexec

unfoldable pub do_pipe2 : PipeAnswers → Descriptors → ℕ → ℕ → ℕ → Result ℕ × Descriptors
do_pipe2 a d pid pipefd flags =
    if pipefd == 0
    then (err invalid_address, d)
    else if refused_flags flags
    then (err invalid_args, d)
    else if a.pipe_id == 0
    then (err not_found, d)
    else open_pipe_ends a d pid (not (bit_and flags o_cloexec == 0)) a.read_slot a.write_slot
