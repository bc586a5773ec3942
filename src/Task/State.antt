-- ===== src/Task/State.antt =====
-- ape/state.rs, `ApeTaskState`: the tables of tasks, host numbers, lifecycle snapshots, child
-- events, pending wait replies and frame references. A pending reply holds kernel objects that this
-- file only passes on, so its type is a parameter.
use Prim.Native.Nat.{bit_and}
use ape.Base.{
  ℕ, ◌-◌, Bool, true, false, not, ◌&&◌, ◌||◌, Option, none, some, List, [], ◌∷◌, ◌++◌, is_empty,
  Map, lookup, insert, remove, contains_key, keys, unwrap_or, ltb, ◌==◌, if◌then◌else◌,
  saturating_add, ℤ, pos, is_minus_one, is_positive, is_zero, unsigned_abs,
}
use ape.Task.Struct.{TaskStruct, TaskLifecycleState, is_stopped}

pub data ChildStateEventKind : Type 0 where
  exited stopped continued : ChildStateEventKind

pub record ChildStateEvent : Type 0 where
  pub child_pid : ℕ
  pub wait_status : ℤ
  pub process_group_id : ℕ
  pub kind : ChildStateEventKind

pub record ProcessLifecycleSnapshot : Type 0 where
  pub parent_pid : ℕ
  pub process_group_id : ℕ
  pub state : TaskLifecycleState
  pub wait_status : Option ℤ

pub record ApeTaskState (Reply : Type 0) : Type 0 where
  pub tasks : Map TaskStruct
  pub host_pid_map : Map ℕ
  pub lifecycle : Map ProcessLifecycleSnapshot
  pub child_events : Map (List ChildStateEvent)
  pub pending_wait_replies : Map Reply
  pub frame_cap_refs : Map ℕ
  pub next_pid : ℕ

abbrev pub Queues : Type 0
Queues = Map (List ChildStateEvent)

unfoldable pub retain_frame_cap : Map ℕ → ℕ → Map ℕ
retain_frame_cap refs slot =
    let entry = unwrap_or (lookup slot refs) 1 in insert slot (saturating_add entry 1) refs

-- True when the caller should free the frame.
unfoldable pub release_frame_cap : Map ℕ → ℕ → Bool × Map ℕ
release_frame_cap refs slot = elim (lookup slot refs) [
  | none ↦ (true, refs)
  | some n ↦ if ltb 1 n then (false, insert slot (n - 1) refs) else (true, remove slot refs)
]

unfoldable pub matches_wait_target : ℕ → ℕ → ℤ → ℕ → Bool
matches_wait_target child_pid child_pgid target_pid caller_pgid =
    if is_minus_one target_pid
    then true
    else if is_positive target_pid
    then child_pid == unsigned_abs target_pid
    else if is_zero target_pid
    then child_pgid == caller_pgid
    else child_pgid == unsigned_abs target_pid

abbrev pub wuntraced : ℕ
wuntraced = 2

abbrev pub wcontinued : ℕ
wcontinued = 8

unfoldable pub event_kind_enabled : ChildStateEventKind → ℕ → Bool
event_kind_enabled ChildStateEventKind.exited options = true
event_kind_enabled ChildStateEventKind.stopped options = not (bit_and options wuntraced == 0)
event_kind_enabled ChildStateEventKind.continued options = not (bit_and options wcontinued == 0)

-- What a `wait4` asks for.
pub record WaitQuery : Type 0 where
  pub target_pid : ℤ
  pub options : ℕ
  pub caller_pgid : ℕ

-- The test that `has_child_event_matching` and `pop_child_event_matching` share.
unfoldable pub event_matches : WaitQuery → ChildStateEvent → Bool
event_matches q e =
    event_kind_enabled e.kind q.options
    && matches_wait_target e.child_pid e.process_group_id q.target_pid q.caller_pgid

unfoldable pub push_event : Queues → ℕ → ChildStateEvent → Queues
push_event events parent_pid e =
    insert parent_pid (unwrap_or (lookup parent_pid events) [] ++ e ∷ []) events

unfoldable pub record_child_exit : Queues → ℕ → ℕ → ℤ → ℕ → Queues
unfolding push_event
record_child_exit events parent_pid child_pid wait_status process_group_id =
    push_event events parent_pid (record {
      child_pid = child_pid;
      wait_status = wait_status;
      process_group_id = process_group_id;
      kind = ChildStateEventKind.exited;
    })

unfoldable pub record_child_stopped : Queues → ℕ → ℕ → ℤ → ℕ → Queues
unfolding push_event
record_child_stopped events parent_pid child_pid wait_status process_group_id =
    push_event events parent_pid (record {
      child_pid = child_pid;
      wait_status = wait_status;
      process_group_id = process_group_id;
      kind = ChildStateEventKind.stopped;
    })

unfoldable pub record_child_continued : Queues → ℕ → ℕ → ℕ → Queues
unfolding push_event
record_child_continued events parent_pid child_pid process_group_id =
    push_event events parent_pid (record {
      child_pid = child_pid;
      wait_status = pos 0xffff;
      process_group_id = process_group_id;
      kind = ChildStateEventKind.continued;
    })

unfoldable pub any_event : WaitQuery → List ChildStateEvent → Bool
any_event q [] = false
any_event q (e ∷ es) = event_matches q e || any_event q es

unfoldable pub has_child_event_matching : Queues → ℕ → WaitQuery → Bool
has_child_event_matching events parent_pid q = elim (lookup parent_pid events) [
  | none ↦ false
  | some queue ↦ any_event q queue
]

-- `position` and `remove(pos)` in one pass: the first matching event, and the others in order.
unfoldable pub take_event :
    WaitQuery → List ChildStateEvent → Option (ChildStateEvent × List ChildStateEvent)
take_event q [] = none
take_event q (e ∷ es) =
    let rest = take_event q es in
    if event_matches q e
    then some (e, es)
    else elim rest [ none ↦ none | some (found, others) ↦ some (found, e ∷ others) ]

unfoldable pub pop_child_event_matching : Queues → ℕ → WaitQuery → Option (ℕ × ℤ) × Queues
pop_child_event_matching events parent_pid q = elim (lookup parent_pid events) [
  | none ↦ (none, events)
  | some queue ↦ elim (take_event q queue) [
    | none ↦ (none, events)
    | some (e, others) ↦ (
      some (e.child_pid, e.wait_status),
      if is_empty others
          then remove parent_pid (insert parent_pid others events)
          else insert parent_pid others events,
    )
  ]
]

module _ {Reply : Type 0} where
  unfoldable pub new : ℕ → ApeTaskState Reply
  new next_pid = record {
    tasks = [];
    host_pid_map = [];
    lifecycle = [];
    child_events = [];
    pending_wait_replies = [];
    frame_cap_refs = [];
    next_pid = next_pid;
  }

  unfoldable pub alloc_pid : ApeTaskState Reply → ℕ × ApeTaskState Reply
  alloc_pid s = (s.next_pid, record s { next_pid = saturating_add s.next_pid 1 })

  unfoldable pub register_process : ApeTaskState Reply → ℕ → ℕ → TaskStruct → ApeTaskState Reply
  register_process s pid host_pid task = record s {
    tasks = insert pid task s.tasks;
    host_pid_map = insert host_pid pid s.host_pid_map;
    lifecycle =
        insert pid
          (record {
            parent_pid = task.parent_pid;
            process_group_id = task.process_group_id;
            state = TaskLifecycleState.running;
            wait_status = none;
          })
          s.lifecycle;
  }

  unfoldable pub process : ApeTaskState Reply → ℕ → Option TaskStruct
  process s pid = lookup pid s.tasks

  unfoldable pub remove_process : ApeTaskState Reply → ℕ → Option TaskStruct × ApeTaskState Reply
  remove_process s pid = (lookup pid s.tasks, record s { tasks = remove pid s.tasks })

  -- The snapshot that `entry(..).or_insert(..)` lends.
  abbrev pub snapshot :
      ApeTaskState Reply → ℕ → TaskStruct → TaskLifecycleState → ProcessLifecycleSnapshot
  snapshot s pid task state = unwrap_or (lookup pid s.lifecycle) (record {
    parent_pid = task.parent_pid;
    process_group_id = task.process_group_id;
    state = state;
    wait_status = none;
  })

  unfoldable pub set_process_lifecycle_state :
      ApeTaskState Reply → ℕ → TaskLifecycleState → ApeTaskState Reply
  set_process_lifecycle_state s pid state = elim (lookup pid s.tasks) [
    | some task ↦ record s {
      lifecycle =
          insert pid
            (record (snapshot s pid task state) {
              parent_pid = task.parent_pid;
              process_group_id = task.process_group_id;
              state = state;
            })
            s.lifecycle;
    }
    | none ↦ elim (lookup pid s.lifecycle) [
      | none ↦ s
      | some entry ↦ record s {
        lifecycle = insert pid (record entry { state = state }) s.lifecycle;
      }
    ]
  ]

  unfoldable pub mark_process_exited : ApeTaskState Reply → ℕ → ℕ → ℕ → ℤ → ApeTaskState Reply
  mark_process_exited s pid parent_pid process_group_id wait_status = record s {
    lifecycle =
        insert pid
          (record {
            parent_pid = parent_pid;
            process_group_id = process_group_id;
            state = TaskLifecycleState.exited;
            wait_status = some wait_status;
          })
          s.lifecycle;
  }

  unfoldable pub clear_process_lifecycle : ApeTaskState Reply → ℕ → ApeTaskState Reply
  clear_process_lifecycle s pid = record s { lifecycle = remove pid s.lifecycle }

  unfoldable pub pid_by_host : ApeTaskState Reply → ℕ → Option ℕ
  pid_by_host s host_pid = lookup host_pid s.host_pid_map

  unfoldable pub remove_host_pid : ApeTaskState Reply → ℕ → Option ℕ × ApeTaskState Reply
  remove_host_pid s host_pid =
      (lookup host_pid s.host_pid_map, record s { host_pid_map = remove host_pid s.host_pid_map })

  unfoldable pub list_pids : ApeTaskState Reply → List ℕ
  list_pids s = keys s.tasks

  unfoldable pub has_pending_wait_reply : ApeTaskState Reply → ℕ → Bool
  has_pending_wait_reply s pid = contains_key pid s.pending_wait_replies

  unfoldable pub insert_pending_wait_reply : ApeTaskState Reply → ℕ → Reply → ApeTaskState Reply
  insert_pending_wait_reply s pid pending = record s {
    pending_wait_replies = insert pid pending s.pending_wait_replies;
  }

  unfoldable pub take_pending_wait_reply :
      ApeTaskState Reply → ℕ → Option Reply × ApeTaskState Reply
  take_pending_wait_reply s pid = (
    lookup pid s.pending_wait_replies,
    record s { pending_wait_replies = remove pid s.pending_wait_replies },
  )

  unfoldable pub peek_pending_wait_reply : ApeTaskState Reply → ℕ → Option Reply
  peek_pending_wait_reply s pid = lookup pid s.pending_wait_replies

-- `iter().find_map(..)` on the host numbers: the first host number of a local one.
unfoldable pub host_pid_by_local : Map ℕ → ℕ → Option ℕ
host_pid_by_local [] local_pid = none
host_pid_by_local ((host_pid, pid) ∷ m) local_pid =
    if pid == local_pid then some host_pid else host_pid_by_local m local_pid

abbrev pub is_child_matching : ℕ → ℤ → ℕ → TaskStruct → Bool
is_child_matching parent_pid target_pid caller_pgid task =
    task.parent_pid == parent_pid
    && matches_wait_target task.pid task.process_group_id target_pid caller_pgid

unfoldable pub has_live_child_matching : List TaskStruct → ℕ → ℤ → ℕ → Bool
has_live_child_matching [] parent_pid target_pid caller_pgid = false
has_live_child_matching (task ∷ tasks) parent_pid target_pid caller_pgid =
    is_child_matching parent_pid target_pid caller_pgid task
    || has_live_child_matching tasks parent_pid target_pid caller_pgid

unfoldable pub first_stopped_child_matching : List TaskStruct → ℕ → ℤ → ℕ → Option ℕ
first_stopped_child_matching [] parent_pid target_pid caller_pgid = none
first_stopped_child_matching (task ∷ tasks) parent_pid target_pid caller_pgid =
    if task.parent_pid == parent_pid
      && (is_stopped task
          && matches_wait_target task.pid task.process_group_id target_pid caller_pgid)
    then some task.pid
    else first_stopped_child_matching tasks parent_pid target_pid caller_pgid
