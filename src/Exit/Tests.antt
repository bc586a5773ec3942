-- ===== src/Exit/Tests.antt =====
-- A shell (2) and its child (3), which have a file in common.
use ape.Base.{
  ℕ, ◌+◌, ◌*◌, ◌/◌, ◌≡◌, refl, true, false, none, some, [], ◌∷◌, arith, Map, lookup, ok, pos,
  negsuc, ◌==◌, Bool-cases, inl, inr,
}
use ape.Signal.{SignalStruct}
use ape.Task.Struct.{TaskStruct}
use ape.Task.State.{ApeTaskState, matches_wait_target}
use ape.Task.Regions.{ApeFsState}
use ape.Files.State.{FilesState, Descriptors}
use ape.Files.Maps.{any_value}
use ape.Files.Calls.{uses, is_shared}
use ape.Files.Sharing.{IsNumbered, IsSound}
use ape.Memory.State.{Platform}
use ape.Exit.{PendingWaitReply, Kernel, Server, terminate_process, do_wait4}
use ape.Exit.Ending.{do_wait4-terminate_process}
use ape.Exit.Rest.{terminate_process-IsSound}

abbrev kernel : Kernel
kernel = record {
  copied = λ pid address bytes. ok tt;
  reply_slot = ok 40;
  errno = λ e. negsuc 13;
  freed = λ slot. true;
}

abbrev quiet : SignalStruct
quiet = record {
  signal_blocked = 0;
  signal_pending = 0;
  state = record { sigsuspend_saved_mask = none; wait4_blocked = none; clear_child_tid = 0 };
}

abbrev task_of : ℕ → ℕ → TaskStruct
task_of pid parent_pid = record {
  pid = pid;
  parent_pid = parent_pid;
  session_id = 2;
  process_group_id = pid;
  controlling_tty = 0;
  lifecycle = pos 0;
  stopped = false;
  signal = quiet;
}

abbrev no_regions : ApeFsState
no_regions = record {
  async_regions = [];
  async_free = [];
  next_async_vaddr = 0;
  next_handle_badge = 0;
  iouring_supported = none;
  dev_vfs_endpoint = none;
  tmp_vfs_endpoint = none;
  pipe_vfs_endpoint = none;
}

abbrev files_of : ℕ → FilesState
files_of slot = record {
  fds = (0, record { fs_ep_slot = slot; offset = 0; async_io = none }) ∷ [];
  fd_paths = [];
  fd_cloexec = [];
  next_fd = 1;
}

abbrev descriptors : Descriptors
descriptors = record {
  files = (2, files_of 7) ∷ (3, files_of 7) ∷ [];
  open_slots = 7 ∷ [];
  regions = no_regions;
  ledger = [];
}

files_of-IsNumbered : (slot : ℕ) → IsNumbered (files_of slot)
unfolding lookup
files_of-IsNumbered slot = ((omega arith, tt), λ fd found below. ground arith, omega arith)

descriptors-IsSound : IsSound descriptors
unfolding lookup any_value uses is_shared
descriptors-IsSound = record {
  in_order = (omega arith, (omega arith, tt));
  numbered = λ pid. elim (Bool-cases (2 == pid)) [
    | inl shell ↦ rw (shell) (files_of-IsNumbered 7)
    | inr rest ↦ elim (Bool-cases (3 == pid)) [
      | inl child ↦ rw (rest, child) (files_of-IsNumbered 7)
      | inr nobody ↦ rw (rest, nobody) tt
    ]
  ];
  backed = λ slot. ground arith;
}

abbrev tables : Map PendingWaitReply → ApeTaskState PendingWaitReply
tables replies = record {
  tasks = (2, task_of 2 1) ∷ (3, task_of 3 2) ∷ [];
  host_pid_map = (20, 2) ∷ (30, 3) ∷ [];
  lifecycle = [];
  child_events = [];
  pending_wait_replies = replies;
  frame_cap_refs = [];
  next_pid = 4;
}

abbrev server : Map PendingWaitReply → Server
server replies = record {
  state = tables replies;
  descriptors = descriptors;
  mm = [];
  active_caller = some 3;
  answered = [];
  written = [];
  pending_sleep_replies = [];
  interrupted = [];
}

abbrev pages : Platform
pages = record {
  pgsize = 16;
  pgsize-positive = omega arith;
  heap_va = 64;
  stack_base = 16777216;
  thread_area_base = 4096;
  perm_read = 1;
  perm_write = 2;
  perm_execute = 4;
  align_down = λ n. n / 16 * 16;
  align_up = λ n. (n + 15) / 16 * 16;
  align_up-le = λ n. omega arith;
  align_up-multiple = λ n. omega arith;
}

-- Exit code 7, and the shell waits for any child afterwards.
do_wait4-terminate_process_example :
    let after = (terminate_process kernel pages (server []) 3 7).1 in
    let waited = do_wait4 kernel after 2 (negsuc 0) 4096 0 in
    (waited.0 ≡ ok (pos 3))
    × (lookup 3 waited.1.state.lifecycle ≡ none)
    × (waited.1.written ≡ (2, 4096, 0 ∷ 7 ∷ 0 ∷ 0 ∷ []) ∷ [])
unfolding lookup matches_wait_target
do_wait4-terminate_process_example =
    do_wait4-terminate_process kernel pages (server []) 3 7 (task_of 3 2) refl (task_of 2 1) refl
      refl refl refl (negsuc 0) 4096 0 refl refl (inr refl)

terminate_process-IsSound_example :
    let after = (terminate_process kernel pages (server []) 3 7).1 in
    IsSound after.descriptors
    × (lookup 3 after.descriptors.files ≡ none)
    × (lookup 3 after.descriptors.ledger ≡ none)
    × (lookup 3 after.mm ≡ none)
unfolding lookup
terminate_process-IsSound_example =
    terminate_process-IsSound kernel pages (server []) 3 7 (task_of 3 2) refl descriptors-IsSound
      (λ fd found. ground arith)

abbrev waiting : PendingWaitReply
waiting = record {
  reply_slot = 40;
  target_pid = pos 3;
  wstatus = 4096;
  options = 0;
  caller_pgid = 2;
}
