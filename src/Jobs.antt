-- ===== src/Jobs.antt =====
-- task/job.rs: sessions, process groups and `kill`, with `queue_process_signal` of
-- system/signal.rs that it calls. `Processes` holds the two tables of `ApeTaskState` that the
-- handlers use. `terminate_process` of task/lifecycle.rs is a parameter: an answer and new tables.
-- Suspending and resuming a thread only call the kernel, and the code drops what it answers.
pub mod Groups
pub mod Kill
pub mod Delivery
mod Tests
use Prim.Native.Nat.{bit_and, bit_or, ◌*◌}
pub use ape.Base.{Error, Result, ok, err, not_found, permission_denied}
use ape.Base.{
  remove, ℕ, ◌+◌, ◌-◌, Bool, true, false, not, ◌&&◌, ◌||◌, Option, none, some, List, [], ◌∷◌, Map,
  lookup, insert, keys, contains, is_empty, ltb, ◌==◌, if◌then◌else◌, ℤ, pos, negsuc, is_neg,
  unsigned_abs, is_positive, is_zero, is_minus_one,
}
use ape.Signal.{
  SignalStruct, signal_bit, signal_max, and_not, queue_signal, get_blocked, is_waiting_sigsuspend,
  restore_mask_from_sigsuspend_wait,
}
use ape.Task.Struct.{TaskStruct, is_stopped, mark_stopped, mark_running}
use ape.Task.State.{Queues, record_child_stopped, record_child_continued}

abbrev pub sigkill : ℕ
sigkill = 9

abbrev pub sigcont : ℕ
sigcont = 18

abbrev pub stop_signals : List ℕ
stop_signals = 19 ∷ 20 ∷ 21 ∷ 22 ∷ []

pub record PendingSleepReply : Type 0 where
  pub reply_slot : ℕ
  pub rem_ptr : ℕ
  pub deadline_ns : ℕ
  pub request_id : ℕ

-- `interrupted` are the sleeps that a signal has ended, the latest first: each gets the reply EINTR, and
-- the time that is left at its `rem_ptr`.
pub record Processes : Type 0 where
  pub tasks : Map TaskStruct
  pub child_events : Queues
  pub pending_sleep_replies : Map PendingSleepReply
  pub interrupted : List (ℕ × PendingSleepReply)

-- ape/async_runtime.rs: the sleep of a process ends.
abbrev pub interrupt_pending_sleep_reply : Processes → ℕ → Processes
interrupt_pending_sleep_reply s pid = record s {
  pending_sleep_replies = remove pid s.pending_sleep_replies;
  interrupted = elim (lookup pid s.pending_sleep_replies) [
    | none ↦ s.interrupted
    | some pending ↦ (pid, pending) ∷ s.interrupted
  ];
}

-- The sleeps once a signal that may be delivered has come, and as they are otherwise.
abbrev pub interrupt_if : Bool → Processes → ℕ → Processes
interrupt_if deliverable s pid =
    let woken = interrupt_pending_sleep_reply s pid in
    record s {
      pending_sleep_replies =
          if deliverable then woken.pending_sleep_replies else s.pending_sleep_replies;
      interrupted = if deliverable then woken.interrupted else s.interrupted;
    }

abbrev pub put_task : Processes → ℕ → TaskStruct → Processes
put_task s pid task = record s { tasks = insert pid task s.tasks }

unfoldable pub encode_wait_stopped_status : ℕ → ℤ
encode_wait_stopped_status sig = pos (bit_or (sig * 256) 0x7f)

unfoldable pub is_stop_signal : ℕ → Bool
is_stop_signal sig = sig == 19 || sig == 20 || sig == 21 || sig == 22

unfoldable pub do_setsid : Processes → ℕ → Result ℕ × Processes
do_setsid s pid = elim (lookup pid s.tasks) [
  | none ↦ (err not_found, s)
  | some task ↦ if task.process_group_id == pid then (err permission_denied, s) else (
    ok pid,
    put_task s pid (record task { session_id = pid; process_group_id = pid; controlling_tty = 0 }),
  )
]

abbrev pub or_self : ℕ → ℕ → ℕ
or_self target pid = if target == 0 then pid else target

unfoldable pub do_getsid : Processes → ℕ → ℕ → Result ℕ
do_getsid s pid target = elim (lookup (or_self target pid) s.tasks) [
  | none ↦ err not_found
  | some task ↦ ok task.session_id
]

unfoldable pub do_getpgid : Processes → ℕ → ℕ → Result ℕ
do_getpgid s pid target_pid = elim (lookup (or_self target_pid pid) s.tasks) [
  | none ↦ err not_found
  | some task ↦ ok task.process_group_id
]

unfoldable pub do_setpgid : Processes → ℕ → ℕ → ℕ → Result ℕ × Processes
do_setpgid s pid target pgid =
    let target_pid = or_self target pid in
    elim (lookup pid s.tasks) [
      | none ↦ (err not_found, s)
      | some caller ↦ elim (lookup target_pid s.tasks) [
        | none ↦ (err not_found, s)
        | some task ↦
            let new_pgid = or_self pgid task.pid in
            let done =
              if target_pid == pid && new_pgid == caller.process_group_id
              then s
              else put_task s target_pid (record task { process_group_id = new_pgid }) in
            if not (target_pid == pid)
              && (not (task.parent_pid == pid) || not (task.session_id == caller.session_id))
            then (err permission_denied, s)
            else if new_pgid == target_pid
            then (ok 0, done)
            else elim (lookup new_pgid s.tasks) [
              | none ↦ (err not_found, s)
              | some group_leader ↦
                  if group_leader.session_id == task.session_id
                  then (ok 0, done)
                  else (err permission_denied, s)
            ]
      ]
    ]

unfoldable pub queue_process_signal : Processes → ℕ → ℕ → Bool × Processes
queue_process_signal s pid signum = elim (lookup pid s.tasks) [
  | none ↦ (false, s)
  | some task ↦
      let (queued, signal) = queue_signal task.signal signum in
      let deliverable = not (and_not signal.signal_pending (get_blocked signal) == 0) in
      let restored = (restore_mask_from_sigsuspend_wait signal).1 in
      if not queued
      then (false, s)
      else if is_waiting_sigsuspend signal && deliverable
      then (true, put_task (interrupt_if deliverable s pid) pid (record task { signal = restored }))
      else (true, put_task (interrupt_if deliverable s pid) pid (record task { signal = signal }))
]

unfoldable pub group_of : Processes → ℕ → Option ℕ
group_of s pid = elim (lookup pid s.tasks) [ none ↦ none | some task ↦ some task.process_group_id ]

abbrev pub is_in_group : Processes → ℕ → ℕ → Bool
is_in_group s group pid = elim (group_of s pid) [ none ↦ false | some of_pid ↦ of_pid == group ]

abbrev pub caller_group : Processes → ℕ → ℕ
caller_group s caller_pid = elim (group_of s caller_pid) [ none ↦ caller_pid | some group ↦ group ]

unfoldable pub members : Processes → ℕ → List ℕ → List ℕ
members s group [] = []
members s group (pid ∷ pids) =
    if is_in_group s group pid then pid ∷ members s group pids else members s group pids

unfoldable pub select_targets : Processes → ℕ → ℤ → List ℕ
select_targets s caller_pid target_pid =
    let pids = keys s.tasks in
    if is_positive target_pid
    then if contains pids (unsigned_abs target_pid) then unsigned_abs target_pid ∷ [] else []
    else if is_zero target_pid
    then members s (caller_group s caller_pid) pids
    else if is_minus_one target_pid
    then pids
    else members s (unsigned_abs target_pid) pids

-- SIGCONT drops the pending stop signals.
unfoldable pub clear_signals : SignalStruct → List ℕ → SignalStruct
clear_signals s [] = s
clear_signals s (sig ∷ sigs) = elim (signal_bit sig) [
  | none ↦ clear_signals s sigs
  | some bit ↦ clear_signals (record s { signal_pending = and_not s.signal_pending bit }) sigs
]

unfoldable pub continue_one : Processes → ℕ → Processes
continue_one s target = elim (lookup target s.tasks) [
  | none ↦ (queue_process_signal s target sigcont).1
  | some task ↦
      let cleared = record task { signal = clear_signals task.signal stop_signals } in
      let running = put_task s target (mark_running cleared) in
      let told =
        if not (task.parent_pid == 0) && is_stopped task
        then record running {
          child_events =
              record_child_continued running.child_events task.parent_pid target
                task.process_group_id;
        }
        else running in
      (queue_process_signal told target sigcont).1
]

unfoldable pub stop_one : Processes → ℕ → ℕ → ℕ → Processes
stop_one s caller_pid sig target =
    let queued = (queue_process_signal s target sig).1 in
    elim (lookup target s.tasks) [
      | none ↦ queued
      | some task ↦
          let stopped : Processes = elim (lookup target queued.tasks) [
            | none ↦ queued
            | some later ↦
                if target == caller_pid then queued else put_task queued target (mark_stopped later)
          ] in
          if not (task.parent_pid == 0) && not (is_stopped task)
          then record stopped {
            child_events =
                record_child_stopped stopped.child_events task.parent_pid target
                  (encode_wait_stopped_status sig) task.process_group_id;
          }
          else stopped
    ]

-- The loops over the targets.
unfoldable pub for_each : (Processes → ℕ → Processes) → List ℕ → Processes → Processes
for_each step [] s = s
for_each step (target ∷ targets) s = for_each step targets (step s target)

unfoldable pub without : ℕ → List ℕ → List ℕ
without pid [] = []
without pid (target ∷ targets) =
    if target == pid then without pid targets else target ∷ without pid targets

module _ (terminate_process : Processes → ℕ → Result (Unit {0}) × Processes) where
  unfoldable pub terminate_all : List ℕ → Processes → Result (Unit {0}) × Processes
  terminate_all [] s = (ok tt, s)
  terminate_all (target ∷ targets) s =
      let (answer, after) = terminate_process s target in
      elim answer [ err e ↦ (err e, after) | ok done ↦ terminate_all targets after ]

  unfoldable pub do_kill : Processes → ℕ → ℤ → ℤ → Result ℤ × Processes
  do_kill s caller_pid target_pid sig =
      let sig_num = unsigned_abs sig in
      let targets = select_targets s caller_pid target_pid in
      if is_neg sig
      then (ok (negsuc 21), s)
      else if ltb signal_max sig_num
      then (ok (negsuc 21), s)
      else if is_empty targets
      then (ok (negsuc 2), s)
      else if sig_num == 0
      then (ok (pos 0), s)
      else if sig_num == sigkill
      then (let last = if contains targets caller_pid then caller_pid ∷ [] else [] in
          let (answer, after) = terminate_all (without caller_pid targets) s in
          elim answer [
            | err e ↦ (err e, after)
            | ok done ↦
                let (last_answer, final) = terminate_all last after in
                elim last_answer [ err e ↦ (err e, final) | ok done ↦ (ok (pos 0), final) ]
          ])
      else if sig_num == sigcont
      then (ok (pos 0), for_each continue_one targets s)
      else if is_stop_signal sig_num
      then (
        ok (pos 0),
        for_each (λ state target. stop_one state caller_pid sig_num target) targets s,
      )
      else (
        ok (pos 0),
        for_each (λ state target. (queue_process_signal state target sig_num).1) targets s,
      )
