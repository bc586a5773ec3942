-- ===== src/Files/Tests.antt =====
-- Runs of fs/fd.rs.
use ape.Base.{
  ℕ, suc, ◌≤◌, ◌≡◌, refl, false, none, some, List, [], ◌∷◌, arith, map, Bool-cases, inl, inr, ◌==◌,
  lookup, length, ok,
}
use ape.Task.Regions.{ApeFsState}
use ape.Files.State.{NormalFileHandle, FilesState, Descriptors}
use ape.Files.Maps.{any_value}
use ape.Files.Calls.{uses, is_shared, first_free}
use ape.Files.Opens.{OpenAnswers, open_via_nexus_fs, PipeAnswers}
use ape.Files.Numbers.{FirstFree, first_free-FirstFree}
use ape.Files.Sharing.{IsNumbered, IsSound}
use ape.Files.Opening.{open_via_nexus_fs-IsSound}
use ape.Files.Getdents.{
  DEntry, GetdentsAnswers, pack, do_getdents64, reclen, align_up_8, name_bytes,
}
use ape.Files.Dirents.{read_dirents, view, fitting, pack-read_dirents}
use ape.Files.Returned.{do_getdents64_returns}
use ape.Files.Trace.{Call, closes, dups, controls, dups_to, reads, run, run-IsSound}

abbrev handle_on : ℕ → NormalFileHandle
handle_on slot = record { fs_ep_slot = slot; offset = 0; async_io = none }

abbrev shell_files : FilesState
shell_files = record {
  fds = (0, handle_on 7) ∷ (2, handle_on 9) ∷ [];
  fd_paths = [];
  fd_cloexec = [];
  next_fd = 3;
}

abbrev child_files : FilesState
child_files = record { fds = (1, handle_on 7) ∷ []; fd_paths = []; fd_cloexec = []; next_fd = 2 }

abbrev no_regions : ApeFsState
no_regions = record {
  async_regions = [];
  async_free = [];
  next_async_vaddr = 0;
  next_handle_badge = 0;
  iouring_supported = some false;
  dev_vfs_endpoint = none;
  tmp_vfs_endpoint = none;
  pipe_vfs_endpoint = none;
}

-- A shell and a child that have the endpoint 7 in common.
abbrev two_processes : Descriptors
two_processes = record {
  files = (4, shell_files) ∷ (5, child_files) ∷ [];
  open_slots = 9 ∷ 7 ∷ [];
  regions = no_regions;
  ledger = [];
}

shell_files-IsNumbered : IsNumbered shell_files
unfolding lookup
shell_files-IsNumbered =
    ((omega arith, (omega arith, tt)), λ fd found below. ground arith, omega arith)

child_files-IsNumbered : IsNumbered child_files
unfolding lookup
child_files-IsNumbered = ((omega arith, tt), λ fd found below. ground arith, omega arith)

two_processes-IsSound : IsSound two_processes
unfolding lookup any_value uses is_shared
two_processes-IsSound = record {
  in_order = (omega arith, (omega arith, tt));
  numbered = λ pid. elim (Bool-cases (4 == pid)) [
    | inl shell ↦ rw (shell) shell_files-IsNumbered
    | inr rest ↦ elim (Bool-cases (5 == pid)) [
      | inl child ↦ rw (rest, child) child_files-IsNumbered
      | inr nobody ↦ rw (rest, nobody) tt
    ]
  ];
  backed = λ slot. ground arith;
}

abbrev entry : DEntry
entry = record { d_ino = 0x1234; d_off = 1; d_type = 8; d_name = 97 ∷ 98 ∷ 0 ∷ 99 ∷ [] }

abbrev directory : GetdentsAnswers
directory = record { entries = ok (entry ∷ []); copied = ok tt }

-- The shell closes the endpoint that it has in common with the child, copies the other, and reads.
abbrev calls : List Call
calls =
    closes 4 0
    ∷ dups 4 2
    ∷ dups_to 4 2 9 0
    ∷ controls 4 9 2 1
    ∷ closes 4 77
    ∷ reads directory 5 1 4096 64
    ∷ closes 4 2
    ∷ []

run-IsSound_example : IsSound (run calls two_processes)
run-IsSound_example = run-IsSound calls two_processes two_processes-IsSound

abbrev answers : OpenAnswers
answers = record {
  slot = ok 11;
  opened = ok tt;
  region = record { slot = none; has_level = false; page_allocated = false; page_mapped = false };
  region_size = 16384;
  ring = ok tt;
}

open_via_nexus_fs-IsSound_example :
    IsSound (open_via_nexus_fs answers two_processes 4 (47 ∷ 97 ∷ [])).1
unfolding lookup
open_via_nexus_fs-IsSound_example =
    open_via_nexus_fs-IsSound answers two_processes 4 (47 ∷ 97 ∷ []) shell_files
      two_processes-IsSound refl (omega arith)

abbrev pipe_answers : PipeAnswers
pipe_answers = record {
  pipe_id = 1;
  read_slot = ok 20;
  write_slot = ok 21;
  copied = λ bytes. ok tt;
}

first_free-FirstFree_example :
    FirstFree 0 shell_files.fds (first_free (suc (length shell_files.fds)) 0 shell_files.fds)
first_free-FirstFree_example =
    first_free-FirstFree 0 shell_files.fds (omega arith, (omega arith, tt)) (omega arith)

pack-read_dirents_example :
    (bytes : List ℕ) × (pack 64 (entry ∷ []) [] ≡ ok bytes)
    × (length bytes ≤ 64)
    × (read_dirents (length bytes) bytes ≡ map view (fitting 64 (entry ∷ [])))
unfolding reclen align_up_8 name_bytes
pack-read_dirents_example =
    pack-read_dirents 64 (entry ∷ []) (omega arith) ((omega arith, omega arith, omega arith), tt)

do_getdents64_returns_example :
    (do_getdents64 directory two_processes 4 2 4096 64).1 ≡ two_processes
do_getdents64_returns_example =
    do_getdents64_returns directory two_processes 4 2 4096 64 two_processes-IsSound
