-- ===== src/Exit/Answer.antt =====
-- task/lifecycle.rs: the late reply to a parent that is blocked in `wait4` when a child ends.
use ape.Base.{List, pos, ok, err, if◌then◌else◌, ℕ, ◌≡◌, none, some, ◌∷◌, lookup, ◌==◌, ℤ}
use ape.Task.Struct.{TaskStruct, TaskLifecycleState}
use ape.Task.State.{ProcessLifecycleSnapshot}
use ape.Exit.{Kernel, Server}
use ape.Exit.Wait.{exit_status}
use ape.Exit.Ending.{Writes}

-- What a parent's late reply leaves: the answer, what user memory got, no pending reply, and the
-- snapshot of the child.
abbrev pub Answered : Server → Server → ℕ → ℕ → ℤ → Writes → ProcessLifecycleSnapshot → Type 0
Answered before after parent_pid pid answer written snapshot =
    (after.answered ≡ (parent_pid, answer) ∷ before.answered)
    × (after.written ≡ written)
    × (lookup parent_pid after.state.pending_wait_replies ≡ none)
    × (lookup pid after.state.lifecycle ≡ some snapshot)

-- The answer for a child: its number, or the error of writing its status.
abbrev pub answer_for : Kernel → ℕ → ℕ → List ℕ → ℕ → ℤ
answer_for kernel parent_pid wstatus bytes pid =
    if wstatus == 0 then pos pid else elim (kernel.copied parent_pid wstatus bytes) [
      | err e ↦ kernel.errno e
      | ok done ↦ pos pid
    ]

-- What user memory has got then.
abbrev pub writes_for : Kernel → ℕ → ℕ → List ℕ → Writes → Writes
writes_for kernel parent_pid wstatus bytes before =
    if wstatus == 0 then before else elim (kernel.copied parent_pid wstatus bytes) [
      | err e ↦ before
      | ok done ↦ (parent_pid, wstatus, bytes) ∷ before
    ]

-- The snapshot of a child that ended.
abbrev pub ended : TaskStruct → ℕ → ProcessLifecycleSnapshot
ended task exit_code = record {
  parent_pid = task.parent_pid;
  process_group_id = task.process_group_id;
  state = TaskLifecycleState.exited;
  wait_status = some (exit_status exit_code);
}
