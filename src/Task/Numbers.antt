-- ===== src/Task/Numbers.antt =====
-- Process numbers in ape/state.rs and ape/mod.rs: none is given to two processes.
use ape.Base.{
  Map, ℕ, ◌≤◌, ◌<◌, ◌≡◌, refl, none, arith, lookup, insert, remove, lookup-insert, lookup-remove,
  usize_max, ℤ,
}
use ape.Task.Struct.{TaskStruct, TaskLifecycleState}
use ape.Task.State.{
  ApeTaskState, alloc_pid, register_process, remove_process, set_process_lifecycle_state,
  mark_process_exited, clear_process_lifecycle, new,
}
use ape.Task.Lifecycle.{lookup-set_process_lifecycle_state, kept-set_process_lifecycle_state}

-- No entry at or above a number.
abbrev Below {ℓ} : {V : Type ℓ} → ℕ → Map V → Type ℓ
Below n m = (k : ℕ) → n ≤ k → lookup k m ≡ none

insert-Below {ℓ} :
    {V : Type ℓ} {n n' : ℕ} (k : ℕ) (v : V) (m : Map V)
    → k < n'
    → n ≤ n'
    → Below n m
    → Below n' (insert k v m)
insert-Below k v m lt le b i h = ground (arith, lookup-insert k i v m, b i)

remove-Below {ℓ} : {V : Type ℓ} {n : ℕ} (k : ℕ) (m : Map V) → Below n m → Below n (remove k m)
remove-Below k m b i h = ground (arith, lookup-remove k i m, b i)

-- `ApeManager::register_process`, as far as these tables go: a task that is built for the number just
-- handed out is registered under it. The capabilities, the ledger and the identity that the method
-- also sets up are elsewhere.
unfoldable pub spawn :
    {Reply : Type 0} → ApeTaskState Reply → ℕ → (ℕ → TaskStruct) → ℕ × ApeTaskState Reply
spawn s host_pid task =
    let (pid, s') = alloc_pid s in (pid, register_process s' pid host_pid (task pid))

module _ {Reply : Type 0} where
  -- The steps of the manager on its processes. It marks only processes that it knows as exited.
  pub data Step (s : ApeTaskState Reply) : ApeTaskState Reply → Type 0 where
    spawns :
        (host_pid : ℕ) (task : ℕ → TaskStruct)
        → s.next_pid < usize_max
        → Step s (spawn s host_pid task).1
    removes : (pid : ℕ) → Step s (remove_process s pid).1
    sets : (pid : ℕ) (state : TaskLifecycleState) → Step s (set_process_lifecycle_state s pid state)
    exits :
        (pid parent group : ℕ) (status : ℤ)
        → pid < s.next_pid
        → Step s (mark_process_exited s pid parent group status)
    clears : (pid : ℕ) → Step s (clear_process_lifecycle s pid)

  pub data Reach (s : ApeTaskState Reply) : ApeTaskState Reply → Type 0 where
    here : Reach s s
    next : {t u : ApeTaskState Reply} → Reach s t → Step t u → Reach s u

  -- No number from the next one on is in use.
  pub record IsFresh (s : ApeTaskState Reply) : Type 0 where
    pub tasks_below : (k : ℕ) → s.next_pid ≤ k → lookup k s.tasks ≡ none
    pub snapshots_below : (k : ℕ) → s.next_pid ≤ k → lookup k s.lifecycle ≡ none

  pub new-IsFresh : (n : ℕ) → IsFresh (new n)
  unfolding new lookup
  new-IsFresh n = record { tasks_below = λ k h. refl; snapshots_below = λ k h. refl }

  spawn-IsFresh :
      (s : ApeTaskState Reply) (host_pid : ℕ) (task : ℕ → TaskStruct)
      → s.next_pid < usize_max
      → IsFresh s
      → IsFresh (spawn s host_pid task).1
  unfolding spawn alloc_pid register_process
  spawn-IsFresh s host_pid task small f = record {
    tasks_below = insert-Below _ _ s.tasks (omega arith) (omega arith) f.tasks_below;
    snapshots_below = insert-Below _ _ s.lifecycle (omega arith) (omega arith) f.snapshots_below;
  }

  sets-IsFresh :
      (s : ApeTaskState Reply) (pid : ℕ) (state : TaskLifecycleState)
      → IsFresh s
      → IsFresh (set_process_lifecycle_state s pid state)
  sets-IsFresh s pid state f =
      let (same_tasks, same_next) = kept-set_process_lifecycle_state s pid state in
      record {
        tasks_below = λ k h. ground (arith, same_tasks, same_next, f.tasks_below k);
        snapshots_below = λ k h. ground (
          arith,
          same_next,
          lookup-set_process_lifecycle_state s pid k state,
          f.tasks_below k,
          f.snapshots_below k,
        );
      }

  Step-IsFresh : {s t : ApeTaskState Reply} → Step s t → IsFresh s → IsFresh t
  unfolding remove_process mark_process_exited clear_process_lifecycle
  Step-IsFresh {s} (spawns host_pid task small) f = spawn-IsFresh s host_pid task small f
  Step-IsFresh {s} (removes pid) f = record {
    tasks_below = remove-Below pid s.tasks f.tasks_below;
    snapshots_below = f.snapshots_below;
  }
  Step-IsFresh {s} (sets pid state) f = sets-IsFresh s pid state f
  Step-IsFresh {s} (exits pid parent group status known) f = record {
    tasks_below = f.tasks_below;
    snapshots_below = insert-Below _ _ s.lifecycle (omega arith) (omega arith) f.snapshots_below;
  }
  Step-IsFresh {s} (clears pid) f = record {
    tasks_below = f.tasks_below;
    snapshots_below = remove-Below pid s.lifecycle f.snapshots_below;
  }

  Reach-IsFresh : {s t : ApeTaskState Reply} → IsFresh s → Reach s t → IsFresh t
  Reach-IsFresh f here = f
  Reach-IsFresh f (next r st) = Step-IsFresh st (Reach-IsFresh f r)

  Step-le : {s t : ApeTaskState Reply} → Step s t → s.next_pid ≤ t.next_pid
  unfolding spawn alloc_pid register_process remove_process mark_process_exited
      clear_process_lifecycle
  Step-le {s} (spawns host_pid task small) = omega arith
  Step-le {s} (removes pid) = omega arith
  Step-le {s} (sets pid state) = omega (arith, (kept-set_process_lifecycle_state s pid state).1)
  Step-le {s} (exits pid parent group status known) = omega arith
  Step-le {s} (clears pid) = omega arith

  Reach-le : {s t : ApeTaskState Reply} → Reach s t → s.next_pid ≤ t.next_pid
  Reach-le here = omega arith
  Reach-le (next r st) = omega (arith, Reach-le r, Step-le st)

  -- A process that is started after another, whatever happened to processes in between, gets a
  -- greater number, which no task and no snapshot has at that time, as long as the counter has not
  -- reached the largest word.
  pub spawn_fresh :
      (n : ℕ) (s t : ApeTaskState Reply) (host host' : ℕ) (task task' : ℕ → TaskStruct)
      → s.next_pid < usize_max
      → Reach (new n) s
      → Reach (spawn s host task).1 t
      → let later = (spawn t host' task').0 in
        ((spawn s host task).0 < later)
        × (lookup later t.tasks ≡ none)
        × (lookup later t.lifecycle ≡ none)
  unfolding spawn alloc_pid register_process
  spawn_fresh n s t host host' task task' small before between =
      let f =
        Reach-IsFresh (spawn-IsFresh s host task small (Reach-IsFresh (new-IsFresh n) before))
          between in
      (
        omega (arith, Reach-le between),
        f.tasks_below t.next_pid (omega arith),
        f.snapshots_below t.next_pid (omega arith),
      )
