-- ===== src/Jobs/Kill.antt =====
-- Whom `do_kill` of task/job.rs reaches, and what SIGCONT leaves of a task.
use Prim.Native.Nat.{◌<◌}
use ape.Base.{
  ℕ, ◌+◌, ◌-◌, ◌≡◌, refl, inl, inr, Bool, true, false, not, ◌&&◌, ◌||◌, some, List, [], ◌∷◌, arith,
  lookup, contains, contains_key, lookup-insert_self, ◌==◌, if◌then◌else◌, Bool-cases, ℤ,
  unsigned_abs, is_positive, is_zero, is_minus_one, leb, ◌^◌, bit, bit-pow, ◌∙◌,
}
use ape.Task.Struct.{
  TaskStruct, TaskLifecycleState, get_lifecycle, from_code, is_stopped, mark_running,
}
use ape.Task.State.{record_child_continued}
use ape.Signal.{
  SignalStruct, signal_bit, and_not, queue_signal, is_waiting_sigsuspend, get_blocked,
  restore_mask_from_sigsuspend_wait,
}
use ape.Signal.Masks.{bit-and_not}
use ape.Signal.Pending.{pow-lt, bit-queue_signal}
use ape.Jobs.{
  Processes, caller_group, is_in_group, clear_signals, stop_signals, continue_one,
  queue_process_signal, sigcont, put_task, interrupt_if,
}

-- The rule of `kill`: by its own number, its group, or everyone.
unfoldable pub is_target : Processes → ℕ → ℤ → ℕ → Bool
is_target s caller_pid target_pid pid =
    contains_key pid s.tasks
    && (if is_positive target_pid
        then pid == unsigned_abs target_pid
        else if is_minus_one target_pid
        then true
        else if is_zero target_pid
        then is_in_group s (caller_group s caller_pid) pid
        else is_in_group s (unsigned_abs target_pid) pid)

bit-clear_signals :
    (s : SignalStruct) (sigs : List ℕ) (i : ℕ)
    → i < 64
    → bit i (clear_signals s sigs).signal_pending
      ≡ (bit i s.signal_pending && not (contains sigs (i + 1)))
unfolding clear_signals signal_bit
bit-clear_signals s [] i h = ground arith
bit-clear_signals s (sig ∷ sigs) i h = elim (Bool-cases (leb 1 sig && leb sig 64)) [
  | inl real ↦ ground (
    arith,
    bit-clear_signals (record s { signal_pending = and_not s.signal_pending (2 ^ (sig - 1)) }) sigs
        i h,
    bit-and_not i s.signal_pending (2 ^ (sig - 1)) h (pow-lt (sig - 1) (ground arith)),
    bit-pow i (sig - 1),
  )
  | inr unreal ↦ ground (arith, bit-clear_signals s sigs i h)
]

-- The signal state once a signal is queued, and the thread perhaps woken from sigsuspend.
unfoldable woken : SignalStruct → SignalStruct
woken signal =
    if is_waiting_sigsuspend signal && not (and_not signal.signal_pending (get_blocked signal) == 0)
    then (restore_mask_from_sigsuspend_wait signal).1
    else signal

pending-woken : (signal : SignalStruct) → (woken signal).signal_pending ≡ signal.signal_pending
unfolding woken restore_mask_from_sigsuspend_wait
pending-woken signal = ground arith

-- The tables with the sleep of a process over, if a signal may be delivered.
abbrev slept : Processes → ℕ → SignalStruct → Processes
slept s pid signal =
    interrupt_if (not (and_not signal.signal_pending (get_blocked signal) == 0)) s pid

queue_process_signal_found :
    (s : Processes) (pid signum : ℕ) (task : TaskStruct)
    → lookup pid s.tasks ≡ some task
    → (queue_signal task.signal signum).0 ≡ true
    → (queue_process_signal s pid signum).1
      ≡ put_task
          (slept s pid (queue_signal task.signal signum).1)
          pid
          (record task { signal = woken (queue_signal task.signal signum).1 })
unfolding queue_process_signal woken
queue_process_signal_found s pid signum task found queued = ground arith

-- The task that SIGCONT leaves before the signal is queued, and the tables then.
abbrev cleared : TaskStruct → TaskStruct
cleared task = record task { signal = clear_signals task.signal stop_signals }

abbrev told : Processes → ℕ → TaskStruct → Processes
told s target task =
    let running = put_task s target (mark_running (cleared task)) in
    if not (task.parent_pid == 0) && is_stopped task
    then record running {
      child_events =
          record_child_continued s.child_events task.parent_pid target task.process_group_id;
    }
    else running

continue_one_found :
    (s : Processes) (target : ℕ) (task : TaskStruct)
    → lookup target s.tasks ≡ some task
    → continue_one s target ≡ (queue_process_signal (told s target task) target sigcont).1
unfolding continue_one
continue_one_found s target task found = ground arith

lookup-told :
    (s : Processes) (target : ℕ) (task : TaskStruct)
    → lookup target (told s target task).tasks ≡ some (mark_running (cleared task))
lookup-told s target task =
    ground (arith, lookup-insert_self target (mark_running (cleared task)) s.tasks)

-- SIGCONT on a process that exists: afterwards it runs and is not stopped; of its signals, SIGCONT
-- is pending, no stop signal is, and every other one is as it was; and its parent is told of it
-- exactly when it has one and was stopped.
pub continue_one_lem :
    (s : Processes) (target : ℕ) (task : TaskStruct)
    → lookup target s.tasks ≡ some task
    → (later : TaskStruct) × (lookup target (continue_one s target).tasks ≡ some later)
      × (is_stopped later ≡ false)
      × (get_lifecycle later ≡ TaskLifecycleState.running)
      × ((i : ℕ)
          → i < 64
          → bit i later.signal.signal_pending ≡ (
              i + 1 == sigcont
              || (bit i task.signal.signal_pending && not (contains stop_signals (i + 1)))))
      × ((continue_one s target).child_events ≡ (
          if not (task.parent_pid == 0) && is_stopped task
          then record_child_continued s.child_events task.parent_pid target task.process_group_id
          else s.child_events))
unfolding mark_running get_lifecycle from_code
continue_one_lem s target task found =
    let running = mark_running (cleared task) in
    let signal = (queue_signal running.signal sigcont).1 in
    let accepted = (bit-queue_signal running.signal sigcont 0 (omega arith)).0 in
    let after : continue_one s target
        ≡ put_task (slept (told s target task) target signal) target
            (record running { signal = woken signal }) =
      continue_one_found s target task found
      ∙ queue_process_signal_found (told s target task) target sigcont running
          (lookup-told s target task) accepted in
    rw after (
      record running { signal = woken signal },
      lookup-insert_self target _ _,
      refl,
      refl,
      λ i h. ground (
        arith,
        pending-woken signal,
        bit-queue_signal running.signal sigcont i h,
        bit-clear_signals task.signal stop_signals i h,
      ),
      ground arith,
    )
