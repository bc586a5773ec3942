-- ===== src/Jobs/Delivery.antt =====
-- system/signal.rs: `consume_deliverable_signal_on_syscall_return`. Whether the kernel suspends or
-- resumes the thread is a parameter; what it answers to an upcall is dropped by the code.
use Prim.Native.Nat.{bit_and, ◌<◌}
use ape.Base.{
  ℕ, ◌+◌, ◌≡◌, refl, ◌⊎◌, inl, inr, Bool, true, false, not, ◌&&◌, ◌||◌, none, some, arith, lookup,
  lookup-insert_self, insert, ◌∙◌, sym, ap, ◌==◌, ◌^◌, if◌then◌else◌, bit,
}
use ape.Signal.{
  SignalStruct, SignalAction, Sighand, and_not, get_blocked, signal_action,
  pop_pending_signal_from_mask,
}
use ape.Signal.Masks.{bit-and_not}
use ape.Signal.Pending.{pop_pending_lem}
use ape.Task.Struct.{TaskStruct, is_stopped, mark_stopped, mark_running}
use ape.Task.State.{record_child_stopped, record_child_continued}
use ape.Jobs.{Processes, put_task, is_stop_signal, encode_wait_stopped_status, sigcont}

pub data PendingSignalAction : Type 0 where
  nothing : PendingSignalAction
  interrupt : (restart : Bool) → PendingSignalAction
  terminate : (exit_code : ℕ) → PendingSignalAction

abbrev pub sig_dfl_handler : ℕ
sig_dfl_handler = 0

abbrev pub sig_ign_handler : ℕ
sig_ign_handler = 1

abbrev pub sa_restart : ℕ
sa_restart = 0x10000000

unfoldable pub get_exit_code_for_signal : ℕ → ℕ
get_exit_code_for_signal signal = 128 + signal

-- SIGCHLD, SIGURG and SIGWINCH.
unfoldable pub default_ignored_signal : ℕ → Bool
default_ignored_signal signum = signum == 17 || signum == 23 || signum == 28

unfoldable pub default_stop_signal : ℕ → Bool
default_stop_signal signum = is_stop_signal signum

module _ (suspends resumes : Bool) where
  unfoldable pub stop_by_default : Processes → ℕ → TaskStruct → ℕ → PendingSignalAction × Processes
  stop_by_default s pid task signum =
      let marked = if suspends then put_task s pid (mark_stopped task) else s in
      if not (task.parent_pid == 0) && not (is_stopped task)
      then (
        interrupt false,
        record marked {
          child_events =
              record_child_stopped marked.child_events task.parent_pid pid
                (encode_wait_stopped_status signum) task.process_group_id;
        },
      )
      else (interrupt false, marked)

  unfoldable pub continue_by_default : Processes → ℕ → TaskStruct → PendingSignalAction × Processes
  continue_by_default s pid task =
      let marked = if resumes then put_task s pid (mark_running task) else s in
      if not (task.parent_pid == 0) && is_stopped task
      then (
        nothing,
        record marked {
          child_events =
              record_child_continued marked.child_events task.parent_pid pid task.process_group_id;
        },
      )
      else (nothing, marked)

  -- The part after the signal is taken from the pending set.
  unfoldable pub act :
      Processes → ℕ → TaskStruct → ℕ → SignalAction → PendingSignalAction × Processes
  act s pid task signum action =
      if action.handler == sig_ign_handler
      then (nothing, s)
      else if not (action.handler == sig_dfl_handler)
      then (interrupt (not (bit_and action.flags sa_restart == 0)), s)
      else if default_ignored_signal signum
      then (nothing, s)
      else if default_stop_signal signum
      then stop_by_default s pid task signum
      else if signum == sigcont
      then continue_by_default s pid task
      else (terminate (get_exit_code_for_signal signum), s)

  unfoldable pub consume_deliverable_signal_on_syscall_return :
      Sighand → Processes → ℕ → PendingSignalAction × Processes
  consume_deliverable_signal_on_syscall_return sighand s pid = elim (lookup pid s.tasks) [
    | none ↦ (nothing, s)
    | some task ↦
        let deliverable = and_not task.signal.signal_pending (get_blocked task.signal) in
        elim (pop_pending_signal_from_mask task.signal deliverable) [
          | none ↦ (nothing, s)
          | some (none, signal) ↦ (nothing, s)
          | some (some signum, signal) ↦
              let taken = record task { signal = signal } in
              act (put_task s pid taken) pid taken signum (signal_action sighand signum)
        ]
  ]

  -- The stop flag afterwards.
  abbrev pub stopped_after : SignalAction → ℕ → Bool → Bool
  stopped_after action signum stopped =
      if not (action.handler == sig_dfl_handler)
      then stopped
      else if is_stop_signal signum && suspends
      then true
      else if signum == sigcont && resumes
      then false
      else stopped

  -- The task afterwards.
  abbrev task_after : SignalAction → ℕ → TaskStruct → TaskStruct
  task_after action signum task =
      if not (action.handler == sig_dfl_handler)
      then task
      else if is_stop_signal signum && suspends
      then mark_stopped task
      else if signum == sigcont && resumes
      then mark_running task
      else task

  lookup-act :
      (s : Processes) (pid : ℕ) (task : TaskStruct) (signum : ℕ) (action : SignalAction)
      → lookup pid (act (put_task s pid task) pid task signum action).1.tasks
        ≡ some (task_after action signum task)
  unfolding act stop_by_default continue_by_default default_ignored_signal default_stop_signal
      is_stop_signal
  lookup-act s pid task signum action = ground (
    arith,
    lookup-insert_self pid task s.tasks,
    lookup-insert_self pid (mark_stopped task) (insert pid task s.tasks),
    lookup-insert_self pid (mark_running task) (insert pid task s.tasks),
  )

  -- What the signal leaves of the task's flag and of its signal state.
  task_after_lem :
      (action : SignalAction) (signum : ℕ) (task : TaskStruct)
      → ((task_after action signum task).signal ≡ task.signal)
        × (is_stopped (task_after action signum task)
            ≡ stopped_after action signum (is_stopped task))
  unfolding mark_stopped mark_running
  task_after_lem action signum task = (ground arith, ground arith)

  -- Only a signal that is not handled, and neither stops, continues nor is ignored by default, ends
  -- the process, with its own code.
  terminate_only :
      (s : Processes) (pid : ℕ) (task : TaskStruct) (signum : ℕ) (action : SignalAction) (code : ℕ)
      → (act s pid task signum action).0 ≡ terminate code
      → (code ≡ 128 + signum) × (action.handler ≡ 0) × (is_stop_signal signum ≡ false)
  unfolding act stop_by_default continue_by_default default_ignored_signal default_stop_signal
      get_exit_code_for_signal
  terminate_only s pid task signum action code e = ground arith

  abbrev pub DeliveryOutcome :
      Sighand → Processes → ℕ → TaskStruct → PendingSignalAction × Processes → Type 0
  DeliveryOutcome sighand s pid task (answer, after) =
      ((answer ≡ nothing)
        × (after ≡ s)
        × ((i : ℕ)
            → i < 64
            → (bit i task.signal.signal_pending && not (bit i task.signal.signal_blocked)) ≡ false))
      ⊎ ((t : ℕ) × (t < 64)
          × ((bit t task.signal.signal_pending && not (bit t task.signal.signal_blocked)) ≡ true)
          × ((j : ℕ)
              → j < t
              → (bit j task.signal.signal_pending && not (bit j task.signal.signal_blocked))
                ≡ false)
          × ((later : TaskStruct) × (lookup pid after.tasks ≡ some later)
              × ((i : ℕ)
                  → i < 64
                  → bit i later.signal.signal_pending
                    ≡ (bit i task.signal.signal_pending && not (i == t)))
              × (is_stopped later
                  ≡ stopped_after (signal_action sighand (t + 1)) (t + 1) (is_stopped task)))
          × ((code : ℕ)
              → answer ≡ terminate code
              → (code ≡ 128 + (t + 1))
                × ((signal_action sighand (t + 1)).handler ≡ 0)
                × (is_stop_signal (t + 1) ≡ false)))

  module _ (sighand : Sighand) (s : Processes) (pid : ℕ) (task : TaskStruct)
      (found : lookup pid s.tasks ≡ some task) where
    abbrev deliverable : ℕ
    deliverable = and_not task.signal.signal_pending task.signal.signal_blocked

    consume_nothing :
        pop_pending_signal_from_mask task.signal deliverable ≡ some (none, task.signal)
        → consume_deliverable_signal_on_syscall_return sighand s pid ≡ (nothing, s)
    unfolding consume_deliverable_signal_on_syscall_return get_blocked
    consume_nothing popped = ground arith

    consume_one :
        (signum : ℕ) (signal : SignalStruct)
        → pop_pending_signal_from_mask task.signal deliverable ≡ some (some signum, signal)
        → consume_deliverable_signal_on_syscall_return sighand s pid
          ≡ act
              (put_task s pid (record task { signal = signal }))
              pid
              (record task { signal = signal })
              signum
              (signal_action sighand signum)
    unfolding consume_deliverable_signal_on_syscall_return get_blocked
    consume_one signum signal popped = ground arith

    bit-deliverable :
        (i : ℕ)
        → i < 64
        → task.signal.signal_blocked < 2 ^ 64
        → (bit i task.signal.signal_pending && bit i deliverable)
          ≡ (bit i task.signal.signal_pending && not (bit i task.signal.signal_blocked))
    bit-deliverable i h lt =
        ground (arith, bit-and_not i task.signal.signal_pending task.signal.signal_blocked h lt)

    taken-DeliveryOutcome :
        (t p : ℕ)
        → t < 64
        → task.signal.signal_blocked < 2 ^ 64
        → (bit t task.signal.signal_pending && bit t deliverable) ≡ true
        → ((j : ℕ) → j < t → (bit j task.signal.signal_pending && bit j deliverable) ≡ false)
        → pop_pending_signal_from_mask task.signal deliverable
          ≡ some (some (t + 1), record (task.signal) { signal_pending = p })
        → ((i : ℕ) → i < 64 → bit i p ≡ (bit i task.signal.signal_pending && not (i == t)))
        → DeliveryOutcome sighand s pid task
            (consume_deliverable_signal_on_syscall_return sighand s pid)
    taken-DeliveryOutcome t p lt blocked hit lowest popped bits =
        let signal = record (task.signal) { signal_pending = p } in
        let taken = record task { signal = signal } in
        let action = signal_action sighand (t + 1) in
        let (same, flag) = task_after_lem action (t + 1) taken in
        rw (consume_one (t + 1) signal popped) (
          inr (
            t,
            lt,
            sym (bit-deliverable t lt blocked) ∙ hit,
            λ j h. sym (bit-deliverable j (omega arith) blocked) ∙ lowest j h,
            (
              task_after action (t + 1) taken,
              lookup-act s pid taken (t + 1) action,
              λ i h. ap (λ sig. bit i sig.signal_pending) same ∙ bits i h,
              flag,
            ),
            λ code e. terminate_only (put_task s pid taken) pid taken (t + 1) action code e,
          ))

  -- On the way back from a call: if no pending signal is unblocked, nothing happens. Otherwise the
  -- lowest such signal is taken, and no other; the task is marked stopped or running as its default
  -- asks and the kernel agrees; and the process ends only by a signal that has no handler and is
  -- not a stop signal, with 128 and the signal's number as its code.
  pub consume_deliverable_signal_on_syscall_return-DeliveryOutcome :
      (sighand : Sighand) (s : Processes) (pid : ℕ) (task : TaskStruct)
      → lookup pid s.tasks ≡ some task
      → task.signal.signal_pending < 2 ^ 64
      → task.signal.signal_blocked < 2 ^ 64
      → DeliveryOutcome sighand s pid task
          (consume_deliverable_signal_on_syscall_return sighand s pid)
  consume_deliverable_signal_on_syscall_return-DeliveryOutcome sighand s pid task found pending
        blocked =
      elim (pop_pending_lem task.signal (deliverable sighand s pid task found) pending) [
        | inl (popped, free) ↦ rw (consume_nothing sighand s pid task found popped) (
            inl (
              refl,
              refl,
              λ i h. sym (bit-deliverable sighand s pid task found i h blocked) ∙ free i,
            ))
        | inr (t, lt, hit, lowest, (p, popped, bits)) ↦
            taken-DeliveryOutcome sighand s pid task found t p lt blocked hit lowest popped bits
      ]
