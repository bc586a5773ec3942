-- ===== src/Exit.antt =====
-- task/lifecycle.rs: waiting for a child and the end of a process, over the tables of ape/state.rs,
-- the descriptors and the address spaces of all processes. What the kernel and user memory answer is a
-- record of functions. The capability slots that a service only frees are left out.
pub mod Wait
pub mod Closing
pub mod Ending
pub mod Answer
pub mod Rest
mod Tests
use Prim.Native.Nat.{bit_and}
use ape.Base.{
  ℕ, zero, suc, ◌+◌, ◌-◌, ◌*◌, ◌/◌, ◌%◌, ◌^◌, Bool, true, false, not, ◌&&◌, ◌||◌, Option, none,
  some, List, [], ◌∷◌, ◌++◌, Map, lookup, insert, remove, contains_key, keys, values, max, ltb,
  ◌==◌, if◌then◌else◌, is_some, unwrap_or, Error, Result, ok, err, success, not_found, would_block,
  ℤ, pos, negsuc, to_bytes,
}
use ape.Signal.{clear_wait4_block, arm_wait4_block, wait4_block_matches}
use ape.Task.Struct.{TaskStruct, TaskLifecycleState, set_lifecycle}
use ape.Task.State.{
  ApeTaskState, WaitQuery, pop_child_event_matching, has_child_event_matching,
  has_live_child_matching, clear_process_lifecycle, has_pending_wait_reply,
  insert_pending_wait_reply, take_pending_wait_reply, peek_pending_wait_reply, release_frame_cap,
  host_pid_by_local, remove_host_pid, remove_process, mark_process_exited, record_child_exit,
}
use ape.Task.Ledger.{ApeResourceLedger, log, frame_free, pagetable_free, take_process}
use ape.Jobs.{PendingSleepReply, Processes, queue_process_signal}
use ape.Files.State.{FilesState, Descriptors}
use ape.Files.Calls.{do_close}
use ape.Memory.State.{MemoryMap, MmState, Platform}

pub record PendingWaitReply : Type 0 where
  pub reply_slot : ℕ
  pub target_pid : ℤ
  pub wstatus : ℕ
  pub options : ℕ
  pub caller_pgid : ℕ

abbrev pub query_of : PendingWaitReply → WaitQuery
query_of p = record { target_pid = p.target_pid; options = p.options; caller_pgid = p.caller_pgid }

-- `copied pid address bytes` is what `copy_to_user` answers, `reply_slot` what comes of reserving a
-- slot for a reply, `errno` the package's numbers, `freed slot` whether a page table is released.
pub record Kernel : Type 0 where
  pub copied : ℕ → ℕ → List ℕ → Result (Unit {0})
  pub reply_slot : Result ℕ
  pub errno : Error → ℤ
  pub freed : ℕ → Bool

-- `answered` are the replies that were sent to waiting processes, and `written` what was written to
-- user memory (the process, the address and the bytes), both with the latest first. A write that fails
-- is not in `written`.
pub record Server : Type 0 where
  pub state : ApeTaskState PendingWaitReply
  pub descriptors : Descriptors
  pub mm : Map MmState
  pub active_caller : Option ℕ
  pub answered : List (ℕ × ℤ)
  pub written : List (ℕ × ℕ × List ℕ)
  pub pending_sleep_replies : Map PendingSleepReply
  pub interrupted : List (ℕ × PendingSleepReply)

abbrev pub put_state : Server → ApeTaskState PendingWaitReply → Server
put_state s state = record s { state = state }

abbrev pub put_task : Server → ℕ → TaskStruct → Server
put_task s pid task = record s {
  state = record (s.state) { tasks = insert pid task s.state.tasks };
}

-- `-ECHILD`.
abbrev pub echild : ℤ
echild = negsuc 9

abbrev pub wnohang : ℕ
wnohang = 1

abbrev pub sigchld : ℕ
sigchld = 17

-- `i32::to_ne_bytes`.
unfoldable pub i32_bytes : ℤ → List ℕ
i32_bytes (pos n) = to_bytes 4 n
i32_bytes (negsuc n) = to_bytes 4 (2 ^ 32 - 1 - n)

unfoldable pub encode_wait_status : ℕ → ℤ
encode_wait_status exit_code = pos (bit_and exit_code 0xff * 256)

unfoldable pub has_waitable_child : ApeTaskState PendingWaitReply → ℕ → WaitQuery → Bool
has_waitable_child s parent_pid q =
    has_live_child_matching (values s.tasks) parent_pid q.target_pid q.caller_pgid
    || has_child_event_matching s.child_events parent_pid q

unfoldable pub queue_wait4_reply :
    Kernel
    → ApeTaskState PendingWaitReply
    → ℕ
    → WaitQuery
    → ℕ
    → Result (ApeTaskState PendingWaitReply)
queue_wait4_reply kernel s pid q wstatus =
    if has_pending_wait_reply s pid then err would_block else elim kernel.reply_slot [
      | err e ↦ err e
      | ok slot ↦ ok (
          insert_pending_wait_reply s pid (record {
            reply_slot = slot;
            target_pid = q.target_pid;
            wstatus = wstatus;
            options = q.options;
            caller_pgid = q.caller_pgid;
          }))
    ]

-- The writing of a status, unless the caller wants none.
unfoldable pub put_status : Kernel → Server → ℕ → ℕ → ℤ → Result (Unit {0}) × Server
put_status kernel s pid wstatus status =
    if wstatus == 0 then (ok tt, s) else elim (kernel.copied pid wstatus (i32_bytes status)) [
      | err e ↦ (err e, s)
      | ok done ↦ (ok tt, record s { written = (pid, wstatus, i32_bytes status) ∷ s.written })
    ]

-- `do_wait4` for a caller without an event: it fails, returns, or is left without a reply.
unfoldable pub wait_later : Kernel → Server → ℕ → TaskStruct → WaitQuery → ℕ → Result ℤ × Server
wait_later kernel s pid task q wstatus =
    if not (has_waitable_child s.state pid q)
    then (ok echild, s)
    else if not (bit_and q.options wnohang == 0)
    then (ok (pos 0), s)
    else elim (queue_wait4_reply kernel s.state pid q wstatus) [
      | err e ↦ (err e, s)
      | ok state ↦
          let armed = record task {
            signal = arm_wait4_block task.signal q.target_pid q.caller_pgid;
          } in
          (err success, put_task (put_state s state) pid armed)
    ]

-- The end of `do_wait4` for a child that is taken.
unfoldable pub reap : ℕ → Result (Unit {0}) × Server → Result ℤ × Server
reap reaped_pid (err e, s) = (err e, s)
reap reaped_pid (ok done, s) =
    (ok (pos reaped_pid), put_state s (clear_process_lifecycle s.state reaped_pid))

unfoldable pub do_wait4 : Kernel → Server → ℕ → ℤ → ℕ → ℕ → Result ℤ × Server
do_wait4 kernel s pid target_pid wstatus options = elim (lookup pid s.state.tasks) [
  | none ↦ (err not_found, s)
  | some found ↦
      let task = record found { signal = clear_wait4_block found.signal } in
      let cleared = put_task s pid task in
      let q : WaitQuery = record {
        target_pid = target_pid;
        options = options;
        caller_pgid = task.process_group_id;
      } in
      let (event, events) = pop_child_event_matching cleared.state.child_events pid q in
      elim event [
        | none ↦ wait_later kernel cleared pid task q wstatus
        | some (reaped_pid, status) ↦
            let popped = put_state cleared (record (cleared.state) { child_events = events }) in
            reap reaped_pid (put_status kernel popped pid wstatus status)
      ]
]

-- The sending of a late reply to a parent whose wait is over.
unfoldable pub send_reply : Server → ℕ → ℤ → Server
send_reply s parent_pid ret =
    let taken = (take_pending_wait_reply s.state parent_pid).1 in
    let cleared : Server = elim (lookup parent_pid s.state.tasks) [
      | none ↦ put_state s taken
      | some parent ↦
          put_task (put_state s taken) parent_pid
            (record parent { signal = clear_wait4_block parent.signal })
    ] in
    record cleared { answered = (parent_pid, ret) ∷ s.answered }

-- The late reply for a child that is taken.
unfoldable pub reply_of : Kernel → ℕ → ℕ → Result (Unit {0}) × Server → Server
reply_of kernel parent_pid reaped_pid (err e, s) = send_reply s parent_pid (kernel.errno e)
reply_of kernel parent_pid reaped_pid (ok done, s) = send_reply s parent_pid (pos reaped_pid)

unfoldable pub try_wake_pending_wait4_reply : Kernel → Server → ℕ → Bool × Server
try_wake_pending_wait4_reply kernel s parent_pid =
    elim (peek_pending_wait_reply s.state parent_pid) [
      | none ↦ (false, s)
      | some pending ↦
          let (event, events) =
            pop_child_event_matching s.state.child_events parent_pid (query_of pending) in
          elim event [
            | some (reaped_pid, status) ↦
                let popped = put_state s (record (s.state) { child_events = events }) in
                (
                  true,
                  reply_of kernel parent_pid reaped_pid
                      (put_status kernel popped parent_pid pending.wstatus status),
                )
            | none ↦
                if not (has_waitable_child s.state parent_pid (query_of pending))
                then (true, send_reply s parent_pid echild)
                else (false, s)
          ]
    ]

-- The closing of all descriptors.
unfoldable pub close_all : Descriptors → ℕ → List ℕ → Descriptors
close_all d pid [] = d
close_all d pid (fd ∷ fds) = close_all (do_close d pid fd).1 pid fds

-- The frames of the maps, each with the most pages that a map has of it; `pages_of` is the size of a
-- map in pages.
unfoldable pub frame_pages : (MemoryMap → ℕ) → List MemoryMap → Map ℕ → Map ℕ
frame_pages pages_of [] found = found
frame_pages pages_of (m ∷ maps) found =
    if m.frame_cap == 0
    then frame_pages pages_of maps found
    else frame_pages pages_of maps
        (insert m.frame_cap (max (unwrap_or (lookup m.frame_cap found) 0) (pages_of m)) found)

-- Releasing the frames in the order of their slots; the ledger records those that are freed.
unfoldable pub release_frames : ℕ → Map ℕ → Map ℕ × ApeResourceLedger → Map ℕ × ApeResourceLedger
release_frames pid [] kept = kept
release_frames pid ((slot, pages) ∷ frames) (refs, ledger) =
    let (frees, left) = release_frame_cap refs slot in
    release_frames pid frames
      (left, if frees then log ledger pid (frame_free slot pages) else ledger)

unfoldable pub release_tables : Kernel → ℕ → List ℕ → ApeResourceLedger → ApeResourceLedger
release_tables kernel pid [] ledger = ledger
release_tables kernel pid (slot ∷ slots) ledger =
    release_tables kernel pid slots (
      if not (slot == 0) && kernel.freed slot then log ledger pid (pagetable_free slot) else ledger)

-- The slots of all page tables, by level and prefix.
unfoldable pub table_slots : List (Map ℕ) → List ℕ
table_slots [] = []
table_slots (level ∷ levels) = values level ++ table_slots levels

unfoldable pub pages_of : Platform → MemoryMap → ℕ
pages_of p m = p.align_up m.size / p.pgsize

abbrev pub fd_list : Descriptors → ℕ → List ℕ
fd_list d pid = elim (lookup pid d.files) [ none ↦ [] | some files ↦ keys files.fds ]

-- The ledger and the frame references once the maps and the page tables of a process are released.
unfoldable pub release_memory :
    Kernel → Platform → ℕ → Option MmState → Map ℕ → ApeResourceLedger → Map ℕ × ApeResourceLedger
release_memory kernel p pid none refs ledger = (refs, ledger)
release_memory kernel p pid (some mm) refs ledger =
    let (left, after) =
      release_frames pid (frame_pages (pages_of p) (values mm.memory_maps) []) (refs, ledger) in
    (left, release_tables kernel pid (table_slots (values mm.intermediate_page_tables)) after)

-- The tables without the process: its record holds its descriptors and its address space.
unfoldable pub drop_process : Kernel → Platform → Server → ℕ → Server
drop_process kernel p s pid =
    let closed = close_all s.descriptors pid (fd_list s.descriptors pid) in
    let (refs, ledger) =
      release_memory kernel p pid (lookup pid s.mm) s.state.frame_cap_refs closed.ledger in
    record s {
      state = record (s.state) {
        tasks = remove pid s.state.tasks;
        host_pid_map = elim (host_pid_by_local s.state.host_pid_map pid) [
          | none ↦ s.state.host_pid_map
          | some host_pid ↦ remove host_pid s.state.host_pid_map
        ];
        pending_wait_replies = remove pid s.state.pending_wait_replies;
        frame_cap_refs = refs;
      };
      descriptors = record closed {
        files = remove pid closed.files;
        ledger = (take_process ledger pid).1;
      };
      mm = remove pid s.mm;
      pending_sleep_replies = remove pid s.pending_sleep_replies;
    }

abbrev pub processes_of : Server → Processes
processes_of s = record {
  tasks = s.state.tasks;
  child_events = s.state.child_events;
  pending_sleep_replies = s.pending_sleep_replies;
  interrupted = s.interrupted;
}

-- A signal for a process, over the tables that it needs.
unfoldable pub send_signal : Server → ℕ → ℕ → Server
send_signal s pid signum =
    let sent = (queue_process_signal (processes_of s) pid signum).1 in
    record s {
      state = record (s.state) { tasks = sent.tasks; child_events = sent.child_events };
      pending_sleep_replies = sent.pending_sleep_replies;
      interrupted = sent.interrupted;
    }

-- A parent that is blocked in wait4, without a pending reply.
unfoldable pub unblock_parent : Server → ℕ → ℕ → ℕ → Server
unblock_parent s parent_pid pid process_group_id = elim (lookup parent_pid s.state.tasks) [
  | none ↦ s
  | some parent ↦
      if wait4_block_matches parent.signal pid process_group_id
      then put_task s parent_pid (record parent { signal = clear_wait4_block parent.signal })
      else s
]

unfoldable pub notify_parent : Kernel → Server → ℕ → ℕ → ℕ → ℤ → Server
notify_parent kernel s parent_pid pid process_group_id wait_status =
    let marked = mark_process_exited s.state pid parent_pid process_group_id wait_status in
    let told = put_state s (record marked {
      child_events =
          record_child_exit marked.child_events parent_pid pid wait_status process_group_id;
    }) in
    let (replied, woken) = try_wake_pending_wait4_reply kernel told parent_pid in
    if replied
    then woken
    else send_signal (unblock_parent woken parent_pid pid process_group_id) parent_pid sigchld

-- How `terminate_process` comes to an end.
pub data ExitResult : Type 0 where
  panics : ExitResult
  returns : Result (Unit {0}) → ExitResult

-- The first statement, `set_lifecycle`, is on the record that the end removes.
unfoldable pub terminate_process : Kernel → Platform → Server → ℕ → ℕ → ExitResult × Server
terminate_process kernel p s pid exit_code = elim (lookup pid s.state.tasks) [
  | none ↦ (returns (err not_found), s)
  | some task ↦
      let dropped = drop_process kernel p s pid in
      let told =
        if task.parent_pid == 0
        then dropped
        else notify_parent kernel dropped task.parent_pid pid task.process_group_id
            (encode_wait_status exit_code) in
      let is_caller : Bool = elim s.active_caller [ none ↦ false | some caller ↦ caller == pid ] in
      (
        if pid == 1 then panics else if is_caller then returns (err success) else returns (ok tt),
        told,
      )
]
