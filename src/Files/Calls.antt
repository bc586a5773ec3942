-- ===== src/Files/Calls.antt =====
-- fs/fd.rs: closing, duplicating and asking about descriptors. A descriptor is a `u32`; the services
-- are reached through the endpoint in a handle's slot.
use Prim.Native.Nat.{bit_and}
use ape.Base.{
  ℕ, zero, suc, ◌+◌, Bool, true, false, not, ◌&&◌, ◌||◌, Option, none, some, List, [], ◌∷◌, Map,
  lookup, insert, remove, contains_key, length, unwrap_or, ltb, leb, ◌==◌, if◌then◌else◌, Result,
  ok, err, not_found, invalid_args, invalid_slot, out_of_memory, min,
}
use ape.Task.Regions.{ApeFsState, recycle_region}
use ape.Task.Ledger.{log, fd_open, fd_close}
use ape.Files.State.{AsyncIoState, NormalFileHandle, FilesState, Descriptors}
use ape.Files.Maps.{any_value}

abbrev pub u32_max : ℕ
u32_max = 0xffffffff

abbrev pub fd_cloexec_flag : ℕ
fd_cloexec_flag = 1

abbrev pub o_cloexec : ℕ
o_cloexec = 0x80000

-- Whether some descriptor has the endpoint, in one process and in all.
unfoldable pub uses : ℕ → FilesState → Bool
uses slot files = any_value (λ handle. handle.fs_ep_slot == slot) files.fds

unfoldable pub is_shared : ℕ → Map FilesState → Bool
is_shared slot files = any_value (uses slot) files

unfoldable pub without : ℕ → List ℕ → List ℕ
without slot [] = []
without slot (x ∷ xs) = if x == slot then without slot xs else x ∷ without slot xs

unfoldable pub duplicate_normal_handle : NormalFileHandle → NormalFileHandle
duplicate_normal_handle handle = record handle { async_io = none }

-- The descriptors of a process with the entries of one removed.
unfoldable pub forget : FilesState → ℕ → FilesState
forget files fd = record files {
  fd_paths = remove fd files.fd_paths;
  fd_cloexec = remove fd files.fd_cloexec;
  fds = remove fd files.fds;
}

unfoldable pub recycle : Option AsyncIoState → ApeFsState → ApeFsState
recycle none regions = regions
recycle (some async_io) regions = recycle_region regions async_io.region_id

-- The end of `do_close`, for a handle that was taken out of the table.
unfoldable pub close_handle : Descriptors → ℕ → NormalFileHandle → Descriptors
close_handle d pid handle = record d {
  open_slots =
      if is_shared handle.fs_ep_slot d.files
      then d.open_slots
      else without handle.fs_ep_slot d.open_slots;
  regions = recycle handle.async_io d.regions;
  ledger = log d.ledger pid fd_close;
}

unfoldable pub do_close : Descriptors → ℕ → ℕ → Result ℕ × Descriptors
do_close d pid fd = if ltb u32_max fd then (err invalid_slot, d) else elim (lookup pid d.files) [
  | none ↦ (err not_found, d)
  | some files ↦
      let removed = record d { files = insert pid (forget files fd) d.files } in
      elim (lookup fd files.fds) [
        | none ↦ (err invalid_slot, removed)
        | some handle ↦ (ok 0, close_handle removed pid handle)
      ]
]

-- The loop that looks for a number from `fd` on, on fuel.
unfoldable pub first_free {ℓ} : {V : Type ℓ} → ℕ → ℕ → Map V → Option ℕ
first_free zero fd fds = none
first_free (suc fuel) fd fds =
    let rest = if fd == u32_max then none else first_free fuel (fd + 1) fds in
    if contains_key fd fds then rest else some fd

-- Copying a handle, its path and its flag to a descriptor.
unfoldable pub put_duplicate :
    FilesState → ℕ → NormalFileHandle → Option (List ℕ) → Bool → FilesState
put_duplicate files new_fd handle path cloexec = record files {
  fds = insert new_fd (duplicate_normal_handle handle) files.fds;
  fd_paths = elim path [ none ↦ files.fd_paths | some bytes ↦ insert new_fd bytes files.fd_paths ];
  fd_cloexec = insert new_fd cloexec files.fd_cloexec;
  next_fd = if leb files.next_fd new_fd then min (new_fd + 1) u32_max else files.next_fd;
}

unfoldable pub dup_fd : Descriptors → ℕ → FilesState → ℕ → ℕ → Bool → Result ℕ × Descriptors
dup_fd d pid files fd arg cloexec = elim (lookup fd files.fds) [
  | none ↦ (err invalid_slot, d)
  | some handle ↦
      if ltb u32_max arg
      then (err invalid_args, d)
      else elim (first_free (suc (length files.fds)) arg files.fds) [
        | none ↦ (err out_of_memory, d)
        | some new_fd ↦ (
          ok new_fd,
          record d {
            files =
                insert pid (put_duplicate files new_fd handle (lookup fd files.fd_paths) cloexec)
                  d.files;
            ledger = log d.ledger pid fd_open;
          },
        )
      ]
]

-- The commands of `fcntl`; the constructor `other` is for every other number.
pub data FcntlCommand : Type 0 where
  dupfd getfd setfd getfl setfl dupfd_cloexec other : FcntlCommand

unfoldable pub command_of : ℕ → FcntlCommand
command_of cmd =
    if cmd == 0
    then dupfd
    else if cmd == 1
    then getfd
    else if cmd == 2
    then setfd
    else if cmd == 3
    then getfl
    else if cmd == 4
    then setfl
    else if cmd == 1030
    then dupfd_cloexec
    else other

unfoldable pub set_cloexec : FilesState → ℕ → ℕ → FilesState
set_cloexec files fd arg = record files {
  fd_cloexec = insert fd (not (bit_and arg fd_cloexec_flag == 0)) files.fd_cloexec;
}

unfoldable pub fcntl_on :
    Descriptors → ℕ → FilesState → ℕ → FcntlCommand → ℕ → Result ℕ × Descriptors
fcntl_on d pid files fd getfd arg =
    if contains_key fd files.fds
    then (ok (if unwrap_or (lookup fd files.fd_cloexec) false then fd_cloexec_flag else 0), d)
    else (err invalid_slot, d)
fcntl_on d pid files fd setfd arg =
    if contains_key fd files.fds
    then (ok 0, record d { files = insert pid (set_cloexec files fd arg) d.files })
    else (err invalid_slot, d)
fcntl_on d pid files fd getfl arg =
    if contains_key fd files.fds then (ok 0, d) else (err invalid_slot, d)
fcntl_on d pid files fd setfl arg =
    if contains_key fd files.fds then (ok 0, d) else (err invalid_slot, d)
fcntl_on d pid files fd dupfd arg = dup_fd d pid files fd arg false
fcntl_on d pid files fd dupfd_cloexec arg = dup_fd d pid files fd arg true
fcntl_on d pid files fd other arg = (err invalid_args, d)

unfoldable pub run_fcntl : Descriptors → ℕ → ℕ → FcntlCommand → ℕ → Result ℕ × Descriptors
run_fcntl d pid fd other arg = (err invalid_args, d)
run_fcntl d pid fd command arg = elim (lookup pid d.files) [
  | none ↦ (err not_found, d)
  | some files ↦ fcntl_on d pid files fd command arg
]

unfoldable pub do_fcntl : Descriptors → ℕ → ℕ → ℕ → ℕ → Result ℕ × Descriptors
do_fcntl d pid fd cmd arg =
    if ltb u32_max fd then (err invalid_slot, d) else run_fcntl d pid fd (command_of cmd) arg

unfoldable pub do_dup : Descriptors → ℕ → ℕ → Result ℕ × Descriptors
do_dup d pid fd = do_fcntl d pid fd 0 0

-- The end of `do_dup3`, once the target is free.
unfoldable pub dup3_end :
    Descriptors → ℕ → ℕ → NormalFileHandle → Option (List ℕ) → Bool → Result ℕ × Descriptors
dup3_end d pid newfd handle path cloexec = elim (lookup pid d.files) [
  | none ↦ (err not_found, d)
  | some files ↦ (
    ok newfd,
    record d {
      files = insert pid (put_duplicate files newfd handle path cloexec) d.files;
      ledger = log d.ledger pid fd_open;
    },
  )
]

unfoldable pub after_close :
    Result ℕ × Descriptors
    → ℕ
    → ℕ
    → NormalFileHandle
    → Option (List ℕ)
    → Bool
    → Result ℕ × Descriptors
after_close (err e, d) pid newfd handle path cloexec = (err e, d)
after_close (ok done, d) pid newfd handle path cloexec = dup3_end d pid newfd handle path cloexec

unfoldable pub do_dup3 : Descriptors → ℕ → ℕ → ℕ → ℕ → Result ℕ × Descriptors
do_dup3 d pid oldfd newfd flags =
    if ltb u32_max oldfd || ltb u32_max newfd
    then (err invalid_slot, d)
    else if oldfd == newfd
    then (err invalid_args, d)
    else if not (flags == 0) && not (flags == o_cloexec)
    then (err invalid_args, d)
    else elim (lookup pid d.files) [
      | none ↦ (err not_found, d)
      | some files ↦ elim (lookup oldfd files.fds) [
        | none ↦ (err invalid_slot, d)
        | some handle ↦
            let path = lookup oldfd files.fd_paths in
            let closed = if contains_key newfd files.fds then do_close d pid newfd else (ok 0, d) in
            after_close closed pid newfd handle path (not (flags == 0))
      ]
    ]
