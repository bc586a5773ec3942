-- ===== src/Task/Lifecycle.antt =====
-- The life of a process in ape/task.rs and ape/state.rs: marks, numbers and snapshots.
use ape.Base.{
  ℕ, ◌≡◌, refl, ◌⊎◌, inl, inr, true, Option, none, some, List, [], ◌∷◌, arith, lookup,
  lookup-insert, ◌==◌, if◌then◌else◌, Option-cases,
}
use ape.Task.Struct.{
  TaskStruct, TaskLifecycleState, code, from_code, get_lifecycle, is_stopped, mark_stopped,
  mark_running, mark_exiting, mark_exited,
}
use ape.Task.State.{ApeTaskState, ProcessLifecycleSnapshot, set_process_lifecycle_state, snapshot}

pub code-from_code : (state : TaskLifecycleState) → from_code (code state) ≡ state
unfolding from_code
code-from_code TaskLifecycleState.running = refl
code-from_code TaskLifecycleState.stopped = refl
code-from_code TaskLifecycleState.exiting = refl
code-from_code TaskLifecycleState.exited = refl

pub data Mark : Type 0 where
  stops runs leaves ends : Mark

unfoldable pub mark : TaskStruct → Mark → TaskStruct
mark t stops = mark_stopped t
mark t runs = mark_running t
mark t leaves = mark_exiting t
mark t ends = mark_exited t

unfoldable pub marks : TaskStruct → List Mark → TaskStruct
marks t [] = t
marks t (m ∷ ms) = marks (mark t m) ms

-- The flag against the lifecycle: they differ only while a stopped task is on its way out.
abbrev pub IsCoherent : TaskStruct → Type 0
IsCoherent t =
    (get_lifecycle t ≡ TaskLifecycleState.stopped → is_stopped t ≡ true)
    × (is_stopped t ≡ true
        → (get_lifecycle t ≡ TaskLifecycleState.stopped)
          ⊎ (get_lifecycle t ≡ TaskLifecycleState.exiting))

mark-IsCoherent : (t : TaskStruct) (m : Mark) → IsCoherent t → IsCoherent (mark t m)
unfolding mark mark_stopped mark_running mark_exiting mark_exited get_lifecycle from_code
mark-IsCoherent t stops c = (λ h. refl, λ h. inl refl)
mark-IsCoherent t runs c = (λ h. cc, λ h. cc)
mark-IsCoherent t leaves c = (λ h. cc, λ h. inr refl)
mark-IsCoherent t ends c = (λ h. cc, λ h. cc)

-- Under any sequence of marks a task whose lifecycle is Stopped has its stopped flag set, and one
-- with the flag set is Stopped or Exiting, provided that this held at first.
pub marks-IsCoherent : (t : TaskStruct) (ms : List Mark) → IsCoherent t → IsCoherent (marks t ms)
unfolding marks
marks-IsCoherent t [] c = c
marks-IsCoherent t (m ∷ ms) c = marks-IsCoherent (mark t m) ms (mark-IsCoherent t m c)

-- What a snapshot records after a change of state, by the task it is of.
abbrev pub refreshed :
    Option TaskStruct
    → Option ProcessLifecycleSnapshot
    → TaskLifecycleState
    → Option ProcessLifecycleSnapshot
refreshed none none state = none
refreshed none (some old) state = some (record old { state = state })
refreshed (some task) none state = some (record {
  parent_pid = task.parent_pid;
  process_group_id = task.process_group_id;
  state = state;
  wait_status = none;
})
refreshed (some task) (some old) state = some (record {
  parent_pid = task.parent_pid;
  process_group_id = task.process_group_id;
  state = state;
  wait_status = old.wait_status;
})

module _ {Reply : Type 0} where
  -- A change of lifecycle state reaches exactly the snapshot of that process: of a live process it
  -- takes over the parent and the group that the task has now and keeps a wait status, of a process
  -- that is gone it changes the state alone, and for an unknown number it makes no snapshot.
  pub lookup-set_process_lifecycle_state :
      (s : ApeTaskState Reply) (pid k : ℕ) (state : TaskLifecycleState)
      → lookup k (set_process_lifecycle_state s pid state).lifecycle ≡ (
          if pid == k
          then refreshed (lookup k s.tasks) (lookup k s.lifecycle) state
          else lookup k s.lifecycle)
  unfolding set_process_lifecycle_state
  lookup-set_process_lifecycle_state s pid k state = elim (Option-cases (lookup pid s.tasks)) [
    | inl gone ↦ elim (Option-cases (lookup pid s.lifecycle)) [
      | inl unknown ↦ ground arith
      | inr (old, e) ↦
          ground (arith, lookup-insert pid k (record old { state = state }) s.lifecycle)
    ]
    | inr (task, e) ↦ ground (
      arith,
      lookup-insert pid k
          (record (snapshot s pid task state) {
            parent_pid = task.parent_pid;
            process_group_id = task.process_group_id;
            state = state;
          })
          s.lifecycle,
    )
  ]

  pub kept-set_process_lifecycle_state :
      (s : ApeTaskState Reply) (pid : ℕ) (state : TaskLifecycleState)
      → let t = set_process_lifecycle_state s pid state in
        (t.tasks ≡ s.tasks) × (t.next_pid ≡ s.next_pid)
  unfolding set_process_lifecycle_state
  kept-set_process_lifecycle_state s pid state = ground arith
