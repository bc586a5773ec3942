-- ===== src/Exit/Rest.antt =====
-- task/lifecycle.rs: what is left of a process that has ended.
use mathlib.Core.Path.{subst}
use ape.Base.{
  Result-cases, pos, ◌==◌, ℕ, ◌≡◌, refl, sym, ap, ◌∙◌, inl, inr, none, some, arith, AtEntry, lookup,
  lookup-remove_self, ◌==◌, Bool-cases, Option-cases, ℤ,
}
use ape.Task.Struct.{TaskStruct}
use ape.Task.State.{
  record_child_exit, mark_process_exited, peek_pending_wait_reply, pop_child_event_matching,
}
use ape.Task.Ledger.{take_process}
use ape.Files.Sharing.{IsSound}
use ape.Memory.State.{Platform}
use ape.Exit.{
  Kernel, Server, send_reply, query_of, has_waitable_child, reply_of, echild, close_all, fd_list,
  try_wake_pending_wait4_reply, send_signal, unblock_parent, notify_parent, drop_process,
  terminate_process, encode_wait_status, put_status, i32_bytes,
}
use ape.Exit.Closing.{HasWords, close_all_removed-IsSound}

-- The parts of the server that telling a parent does not touch.
abbrev pub SameRest : Server → Server → Type 0
SameRest s t = (s.descriptors ≡ t.descriptors) × (s.mm ≡ t.mm)

unblock_parent-SameRest :
    (s : Server) (parent_pid pid pgid : ℕ) → SameRest (unblock_parent s parent_pid pid pgid) s
unfolding unblock_parent
unblock_parent-SameRest s parent_pid pid pgid = ground arith

send_reply-SameRest :
    (s : Server) (parent_pid : ℕ) (ret : ℤ) → SameRest (send_reply s parent_pid ret) s
unfolding send_reply
send_reply-SameRest s parent_pid ret = elim (Option-cases (lookup parent_pid s.state.tasks)) [
  | inl missing ↦ rw (send_reply, missing) (refl, refl)
  | inr (parent, here) ↦ rw (send_reply, here) (refl, refl)
]

reply_of-SameRest :
    (kernel : Kernel) (s : Server) (parent_pid wstatus reaped_pid : ℕ) (status : ℤ)
    → SameRest
        (reply_of kernel parent_pid reaped_pid (put_status kernel s parent_pid wstatus status))
        s
unfolding reply_of put_status
reply_of-SameRest kernel s parent_pid wstatus reaped_pid status = elim (Bool-cases (wstatus == 0)) [
  | inl nowhere ↦ rw (put_status, nowhere) (send_reply-SameRest s parent_pid (pos reaped_pid))
  | inr somewhere ↦ elim (Result-cases (kernel.copied parent_pid wstatus (i32_bytes status))) [
    | inr (e, failed) ↦
        rw (put_status, somewhere, failed) (send_reply-SameRest s parent_pid (kernel.errno e))
    | inl (done, copied) ↦
        rw (put_status, somewhere, copied) (send_reply-SameRest _ parent_pid (pos reaped_pid))
  ]
]

try_wake-SameRest :
    (kernel : Kernel) (s : Server) (parent_pid : ℕ)
    → SameRest (try_wake_pending_wait4_reply kernel s parent_pid).1 s
unfolding try_wake_pending_wait4_reply peek_pending_wait_reply
try_wake-SameRest kernel s parent_pid =
    elim (Option-cases (lookup parent_pid s.state.pending_wait_replies)) [
      | inl quiet ↦ rw (try_wake_pending_wait4_reply, quiet) (refl, refl)
      | inr (pending, waits) ↦
          elim (Option-cases
            (pop_child_event_matching s.state.child_events parent_pid (query_of pending)).0) [
              | inr ((reaped_pid, status), event) ↦
                  rw (try_wake_pending_wait4_reply, waits, event)
                    (reply_of-SameRest kernel _ parent_pid pending.wstatus reaped_pid status)
              | inl none_ready ↦
                  elim (Bool-cases (has_waitable_child s.state parent_pid (query_of pending))) [
                    | inl live ↦
                        rw (try_wake_pending_wait4_reply, waits, none_ready, live) (refl, refl)
                    | inr childless ↦
                        rw (try_wake_pending_wait4_reply, waits, none_ready, childless)
                          (send_reply-SameRest s parent_pid echild)
                  ]
            ]
    ]

notify_parent-SameRest :
    (kernel : Kernel) (s : Server) (parent_pid pid pgid : ℕ) (status : ℤ)
    → SameRest (notify_parent kernel s parent_pid pid pgid status) s
unfolding notify_parent mark_process_exited send_signal
notify_parent-SameRest kernel s parent_pid pid pgid status =
    let marked = mark_process_exited s.state pid parent_pid pgid status in
    let told : Server = record s {
      state = record marked {
        child_events = record_child_exit s.state.child_events parent_pid pid status pgid;
      };
    } in
    let woken = (try_wake_pending_wait4_reply kernel told parent_pid).1 in
    let (d, m) = try_wake-SameRest kernel told parent_pid in
    let (e, n) = unblock_parent-SameRest woken parent_pid pid pgid in
    elim (Bool-cases (try_wake_pending_wait4_reply kernel told parent_pid).0) [
      | inl replied ↦ rw (notify_parent, replied) (d, m)
      | inr silent ↦ rw (notify_parent, silent) (e ∙ d, n ∙ m)
    ]

-- The server after the end of a process, with or without a parent, has the descriptors and address
-- spaces that are left by `drop_process`.
terminate_rest :
    (kernel : Kernel) (p : Platform) (s : Server) (pid exit_code : ℕ) (task : TaskStruct)
    → lookup pid s.state.tasks ≡ some task
    → SameRest (terminate_process kernel p s pid exit_code).1 (drop_process kernel p s pid)
unfolding terminate_process
terminate_rest kernel p s pid exit_code task here = elim (Bool-cases (task.parent_pid == 0)) [
  | inl orphan ↦ rw (terminate_process, here, orphan) (refl, refl)
  | inr child ↦
      rw (terminate_process, here, child)
        (notify_parent-SameRest kernel (drop_process kernel p s pid) task.parent_pid pid
          task.process_group_id (encode_wait_status exit_code))
]

drop_process-IsSound :
    (kernel : Kernel) (p : Platform) (s : Server) (pid : ℕ)
    → IsSound s.descriptors
    → AtEntry HasWords (lookup pid s.descriptors.files)
    → IsSound (drop_process kernel p s pid).descriptors
unfolding drop_process
drop_process-IsSound kernel p s pid sound small =
    close_all_removed-IsSound s.descriptors (drop_process kernel p s pid).descriptors pid sound
      small refl refl

-- When a process ends, an endpoint stays open at its service exactly while some descriptor of a
-- remaining process has it, and nothing is left of the descriptors, the address space and the
-- ledger entry of the process.
pub terminate_process-IsSound :
    (kernel : Kernel) (p : Platform) (s : Server) (pid exit_code : ℕ) (task : TaskStruct)
    → lookup pid s.state.tasks ≡ some task
    → IsSound s.descriptors
    → AtEntry HasWords (lookup pid s.descriptors.files)
    → let after = (terminate_process kernel p s pid exit_code).1 in
      IsSound after.descriptors
      × (lookup pid after.descriptors.files ≡ none)
      × (lookup pid after.descriptors.ledger ≡ none)
      × (lookup pid after.mm ≡ none)
unfolding drop_process take_process
terminate_process-IsSound kernel p s pid exit_code task here sound small =
    let (d, m) = terminate_rest kernel p s pid exit_code task here in
    let dropped = drop_process kernel p s pid in
    (
      subst IsSound (sym d) (drop_process-IsSound kernel p s pid sound small),
      ap (λ x. lookup pid x.files) d
          ∙ lookup-remove_self pid (close_all s.descriptors pid (fd_list s.descriptors pid)).files,
      ap (λ x. lookup pid x.ledger) d ∙ lookup-remove_self pid _,
      ap (lookup pid) m ∙ lookup-remove_self pid s.mm,
    )
