-- ===== src/Exit/Ending.antt =====
-- task/lifecycle.rs: what `terminate_process` leaves, and what the parent's `wait4` makes of it.
use mathlib.Core.Path.{subst}
use ape.Base.{
  List, ap, sym, ℕ, ◌≡◌, refl, ◌∙◌, inl, inr, true, false, not, ◌&&◌, none, some, [], ◌∷◌, arith,
  Map, lookup, lookup-insert_self, lookup-remove, ◌==◌, Bool-cases, ok, ℤ, pos,
}
use ape.Signal.{
  queue_signal, get_blocked, and_not, is_waiting_sigsuspend, clear_wait4_block, wait4_block_matches,
  restore_mask_from_sigsuspend_wait,
}
use ape.Task.Struct.{TaskStruct}
use ape.Task.State.{
  Queues, ChildStateEvent, ChildStateEventKind, WaitQuery, record_child_exit, push_event,
  take_event, event_matches, event_kind_enabled, matches_wait_target, mark_process_exited,
  peek_pending_wait_reply,
}
use ape.Jobs.{Processes, queue_process_signal}
use ape.Memory.State.{Platform}
use ape.Exit.{
  Kernel, Server, do_wait4, try_wake_pending_wait4_reply, send_signal, unblock_parent,
  notify_parent, drop_process, processes_of, terminate_process, encode_wait_status, sigchld,
}
use ape.Exit.Wait.{do_wait4_reaps, exit_bytes, with_status, IsWritable, status_bytes}

-- A task that is there, in a process group.
abbrev pub InGroup : Map TaskStruct → ℕ → ℕ → Type 0
InGroup tasks pid group =
    (t : TaskStruct) × (lookup pid tasks ≡ some t) × (t.process_group_id ≡ group)

queue_process_signal_keeps :
    (s : Processes) (pid signum : ℕ) (task : TaskStruct)
    → lookup pid s.tasks ≡ some task
    → ((queue_process_signal s pid signum).1.child_events ≡ s.child_events)
      × InGroup (queue_process_signal s pid signum).1.tasks pid task.process_group_id
unfolding queue_process_signal
queue_process_signal_keeps s pid signum task here =
    let (queued, signal) = queue_signal task.signal signum in
    let waits =
      is_waiting_sigsuspend signal
      && not (and_not signal.signal_pending (get_blocked signal) == 0) in
    elim (Bool-cases queued) [
      | inr refused ↦ rw (queue_process_signal, here, refused) (refl, (task, here, refl))
      | inl taken ↦ elim (Bool-cases waits) [
        | inl wakes ↦
            let after : TaskStruct = record task {
              signal = (restore_mask_from_sigsuspend_wait signal).1;
            } in
            rw (queue_process_signal, here, taken, wakes)
              (refl, (after, lookup-insert_self pid after s.tasks, refl))
        | inr sleeps ↦
            let after : TaskStruct = record task { signal = signal } in
            rw (queue_process_signal, here, taken, sleeps)
              (refl, (after, lookup-insert_self pid after s.tasks, refl))
      ]
    ]

abbrev pub Writes : Type 0
Writes = List (ℕ × ℕ × List ℕ)

-- What the server keeps of a parent: its group, and the events for it; and of user memory.
abbrev pub Tells : Server → ℕ → ℕ → Queues → Writes → Type 0
Tells s parent_pid group events written =
    (s.state.child_events ≡ events) × (s.written ≡ written) × InGroup s.state.tasks parent_pid group

send_signal-Tells :
    (s : Server) (parent_pid signum group : ℕ) (events : Queues) (written : Writes)
    → Tells s parent_pid group events written
    → Tells (send_signal s parent_pid signum) parent_pid group events written
unfolding send_signal
send_signal-Tells s parent_pid signum group events written (same, wrote, (task, here, in_group)) =
    let (kept, (after, there, alike)) =
      queue_process_signal_keeps (processes_of s) parent_pid signum task here in
    (kept ∙ same, wrote, (after, there, alike ∙ in_group))

unblock_parent-Tells :
    (s : Server) (parent_pid pid pgid group : ℕ) (events : Queues) (written : Writes)
    → Tells s parent_pid group events written
    → Tells (unblock_parent s parent_pid pid pgid) parent_pid group events written
unfolding unblock_parent
unblock_parent-Tells s parent_pid pid pgid group events written
      (same, wrote, (task, here, in_group)) =
    elim (Bool-cases (wait4_block_matches task.signal pid pgid)) [
      | inl blocked ↦
          let after : TaskStruct = record task { signal = clear_wait4_block task.signal } in
          rw (unblock_parent, here, blocked)
            (same, wrote, (after, lookup-insert_self parent_pid after s.state.tasks, in_group))
      | inr free ↦ rw (unblock_parent, here, free) (same, wrote, (task, here, in_group))
    ]

try_wake_quiet :
    (kernel : Kernel) (s : Server) (parent_pid : ℕ)
    → lookup parent_pid s.state.pending_wait_replies ≡ none
    → try_wake_pending_wait4_reply kernel s parent_pid ≡ (false, s)
unfolding try_wake_pending_wait4_reply peek_pending_wait_reply
try_wake_quiet kernel s parent_pid quiet = rw (try_wake_pending_wait4_reply, quiet) refl

-- A parent that does not wait gets an event and a signal.
notify_parent-Tells :
    (kernel : Kernel) (s : Server) (parent_pid pid pgid group : ℕ) (status : ℤ)
    → lookup parent_pid s.state.pending_wait_replies ≡ none
    → InGroup s.state.tasks parent_pid group
    → Tells
        (notify_parent kernel s parent_pid pid pgid status)
        parent_pid
        group
        (record_child_exit s.state.child_events parent_pid pid status pgid)
        s.written
unfolding notify_parent mark_process_exited
notify_parent-Tells kernel s parent_pid pid pgid group status quiet there =
    let marked = mark_process_exited s.state pid parent_pid pgid status in
    let told : Server = record s {
      state = record marked {
        child_events = record_child_exit s.state.child_events parent_pid pid status pgid;
      };
    } in
    rw (notify_parent, try_wake_quiet kernel told parent_pid quiet)
      (send_signal-Tells (unblock_parent told parent_pid pid pgid) parent_pid sigchld group
        (record_child_exit s.state.child_events parent_pid pid status pgid) s.written
        (unblock_parent-Tells told parent_pid pid pgid group
          (record_child_exit s.state.child_events parent_pid pid status pgid) s.written
          (refl, refl, there)))

pub queue_at :
    (parent_pid : ℕ) (e : ChildStateEvent) (events : Queues)
    → lookup parent_pid events ≡ none
    → lookup parent_pid (push_event events parent_pid e) ≡ some (e ∷ [])
unfolding push_event
queue_at parent_pid e events empty = rw (empty) (lookup-insert_self parent_pid (e ∷ []) events)

module _ (kernel : Kernel) (p : Platform) (s : Server) (pid exit_code : ℕ) (task : TaskStruct)
    (here : lookup pid s.state.tasks ≡ some task) where
  -- The server after the end of a process that has a parent.
  pub terminate_notifies :
      (task.parent_pid == 0) ≡ false
      → (terminate_process kernel p s pid exit_code).1
        ≡ notify_parent kernel
            (drop_process kernel p s pid)
            task.parent_pid
            pid
            task.process_group_id
            (encode_wait_status exit_code)
  unfolding terminate_process
  terminate_notifies child = rw (terminate_process, here, child) refl

  module _ (parent : TaskStruct) (child : (task.parent_pid == 0) ≡ false)
      (apart : (pid == task.parent_pid) ≡ false)
      (present : lookup task.parent_pid s.state.tasks ≡ some parent)
      (quiet : lookup task.parent_pid s.state.pending_wait_replies ≡ none) where
    terminate_process-Tells :
        Tells
          (terminate_process kernel p s pid exit_code).1
          task.parent_pid
          parent.process_group_id
          (record_child_exit s.state.child_events task.parent_pid pid
            (encode_wait_status exit_code)
            task.process_group_id)
          s.written
    unfolding drop_process
    terminate_process-Tells = rw (terminate_notifies child) (
        notify_parent-Tells kernel (drop_process kernel p s pid) task.parent_pid pid
          task.process_group_id parent.process_group_id (encode_wait_status exit_code)
          (ground
            (arith, lookup-remove pid task.parent_pid s.state.pending_wait_replies, quiet, apart))
          (
            parent,
            ground (arith, lookup-remove pid task.parent_pid s.state.tasks, present, apart),
            refl,
          ))

    -- The parent that waits for an ended child with no other event gets the child's number; the status
    -- in user memory is the low byte of the exit code as its second byte, when the caller asks for it
    -- (and nothing is written when not); and the child's snapshot is gone. The parent is another process
    -- and not blocked in wait4 before, its target has the child, and user memory takes the status.
    pub do_wait4-terminate_process :
        (target_pid : ℤ) (wstatus options : ℕ)
        → lookup task.parent_pid s.state.child_events ≡ none
        → matches_wait_target pid task.process_group_id target_pid parent.process_group_id ≡ true
        → IsWritable kernel task.parent_pid wstatus (exit_bytes exit_code)
        → let after = (terminate_process kernel p s pid exit_code).1 in
          let waited = do_wait4 kernel after task.parent_pid target_pid wstatus options in
          (waited.0 ≡ ok (pos pid))
          × (lookup pid waited.1.state.lifecycle ≡ none)
          × (waited.1.written
              ≡ with_status task.parent_pid wstatus (exit_bytes exit_code) s.written)
    unfolding record_child_exit push_event take_event event_matches event_kind_enabled
    do_wait4-terminate_process target_pid wstatus options no_event hit writable =
        let after = (terminate_process kernel p s pid exit_code).1 in
        let (told, wrote, (waiter, there, group)) = terminate_process-Tells in
        let e : ChildStateEvent = record {
          child_pid = pid;
          wait_status = encode_wait_status exit_code;
          process_group_id = task.process_group_id;
          kind = ChildStateEventKind.exited;
        } in
        let queued : lookup task.parent_pid after.state.child_events ≡ some (e ∷ []) =
          rw (told) (queue_at task.parent_pid e s.state.child_events no_event) in
        let q : WaitQuery = record {
          target_pid = target_pid;
          options = options;
          caller_pgid = waiter.process_group_id;
        } in
        let taken : take_event q (e ∷ []) ≡ some (e, []) = rw (group, hit) refl in
        let bytes = status_bytes exit_code in
        let (number, gone, put) =
          do_wait4_reaps kernel after task.parent_pid waiter target_pid wstatus options (e ∷ []) []
            e there queued taken
            (subst (IsWritable kernel task.parent_pid wstatus) (sym bytes) writable) in
        (
          number,
          gone,
          put
              ∙ ap (λ b. with_status task.parent_pid wstatus b after.written) bytes
              ∙ ap (with_status task.parent_pid wstatus (exit_bytes exit_code)) wrote,
        )
