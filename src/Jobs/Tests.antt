-- ===== src/Jobs/Tests.antt =====
-- A session of three processes: 1 leads it, 2 and 3 are its children, and 3 is stopped.
use ape.Base.{
  arith, trailing_zeros, ◌^◌, ℕ, ◌+◌, ◌≡◌, refl, Bool, true, false, [], ◌∷◌, lookup, if◌then◌else◌,
  pos, negsuc,
}
use ape.Signal.{get_blocked, signal_action, pop_pending_signal_from_mask, new}
use ape.Task.Struct.{TaskStruct}
use ape.Jobs.{is_stop_signal, Processes, do_setpgid, members, group_of, select_targets}
use ape.Jobs.Groups.{SetpgidOutcome, do_setpgid-SetpgidOutcome}
use ape.Jobs.Delivery.{
  DeliveryOutcome, interrupt, act, stop_by_default, default_ignored_signal, default_stop_signal,
  consume_deliverable_signal_on_syscall_return,
  consume_deliverable_signal_on_syscall_return-DeliveryOutcome,
}

abbrev task_of : ℕ → ℕ → ℕ → Bool → TaskStruct
task_of pid parent group stopped = record {
  pid = pid;
  parent_pid = parent;
  session_id = 1;
  process_group_id = group;
  controlling_tty = 0;
  lifecycle = if stopped then pos 1 else pos 0;
  stopped = stopped;
  signal = new;
}

abbrev session : Processes
session = record {
  tasks = (1, task_of 1 0 1 false) ∷ (2, task_of 2 1 2 false) ∷ (3, task_of 3 1 2 true) ∷ [];
  child_events = [];
  pending_sleep_replies = [];
  interrupted = [];
}

group_targets : select_targets session 1 (negsuc 1) ≡ 2 ∷ 3 ∷ []
unfolding select_targets lookup members group_of
group_targets = refl

do_setpgid-SetpgidOutcome_example : SetpgidOutcome session 1 3 0 (do_setpgid session 1 3 0)
do_setpgid-SetpgidOutcome_example = do_setpgid-SetpgidOutcome session 1 3 0

-- Process 2 with SIGTSTP (20) and SIGTERM (15) pending, SIGTERM blocked.
abbrev stopping : TaskStruct
stopping = record (task_of 2 1 2 false) {
  signal = record new { signal_pending = 2 ^ 19 + 2 ^ 14; signal_blocked = 2 ^ 14 };
}

abbrev delivering : Processes
delivering = record session { tasks = (2, stopping) ∷ [] }

stopped_by_default :
    (consume_deliverable_signal_on_syscall_return true true [] delivering 2).0 ≡ interrupt false
unfolding consume_deliverable_signal_on_syscall_return act stop_by_default default_ignored_signal
    default_stop_signal is_stop_signal lookup get_blocked new signal_action
    pop_pending_signal_from_mask trailing_zeros
stopped_by_default = refl

consume_deliverable_signal_on_syscall_return-DeliveryOutcome_example :
    DeliveryOutcome true true [] delivering 2 stopping
      (consume_deliverable_signal_on_syscall_return true true [] delivering 2)
unfolding lookup new
consume_deliverable_signal_on_syscall_return-DeliveryOutcome_example =
    consume_deliverable_signal_on_syscall_return-DeliveryOutcome true true [] delivering 2 stopping
      refl (omega arith) (omega arith)
