-- ===== src/Task/Struct.antt =====
-- ape/task.rs: one task. Its capabilities and the shared structures `mm`, `files`, `fs`, `cred` are
-- left to the modules that use them; an atomic field is a field.
use ape.Base.{ℕ, Bool, true, false, ℤ, pos, negsuc, ◌==◌, if◌then◌else◌}
use ape.Signal.{SignalStruct}

pub data TaskLifecycleState : Type 0 where
  running stopped exiting exited : TaskLifecycleState

-- The `i32` that the atomic field holds.
abbrev pub code : TaskLifecycleState → ℤ
code TaskLifecycleState.running = pos 0
code TaskLifecycleState.stopped = pos 1
code TaskLifecycleState.exiting = pos 2
code TaskLifecycleState.exited = pos 3

unfoldable pub from_code : ℤ → TaskLifecycleState
from_code (pos v) =
    if v == 0
    then TaskLifecycleState.running
    else if v == 1
    then TaskLifecycleState.stopped
    else if v == 2
    then TaskLifecycleState.exiting
    else if v == 3
    then TaskLifecycleState.exited
    else TaskLifecycleState.running
from_code (negsuc v) = TaskLifecycleState.running

pub record TaskStruct : Type 0 where
  pub pid : ℕ
  pub parent_pid : ℕ
  pub session_id : ℕ
  pub process_group_id : ℕ
  pub controlling_tty : ℕ
  pub lifecycle : ℤ
  pub stopped : Bool
  pub signal : SignalStruct

unfoldable pub new : ℕ → ℕ → SignalStruct → TaskStruct
new pid parent_pid signal = record {
  pid = pid;
  parent_pid = parent_pid;
  session_id = pid;
  process_group_id = pid;
  controlling_tty = 0;
  lifecycle = code TaskLifecycleState.running;
  stopped = false;
  signal = signal;
}

unfoldable pub get_lifecycle : TaskStruct → TaskLifecycleState
get_lifecycle t = from_code t.lifecycle

abbrev pub set_lifecycle : TaskStruct → TaskLifecycleState → TaskStruct
set_lifecycle t state = record t { lifecycle = code state }

abbrev pub is_stopped : TaskStruct → Bool
is_stopped t = t.stopped

unfoldable pub mark_stopped : TaskStruct → TaskStruct
mark_stopped t = set_lifecycle (record t { stopped = true }) TaskLifecycleState.stopped

unfoldable pub mark_running : TaskStruct → TaskStruct
mark_running t = set_lifecycle (record t { stopped = false }) TaskLifecycleState.running

unfoldable pub mark_exiting : TaskStruct → TaskStruct
mark_exiting t = set_lifecycle t TaskLifecycleState.exiting

unfoldable pub mark_exited : TaskStruct → TaskStruct
mark_exited t = set_lifecycle (record t { stopped = false }) TaskLifecycleState.exited
