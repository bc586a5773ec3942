-- ===== src/Jobs/Groups.antt =====
-- What `do_setpgid` and `do_setsid` of task/job.rs may change.
use ape.Base.{
  ℕ, ◌≡◌, refl, ◌⊎◌, inl, inr, Bool, true, false, not, ◌&&◌, ◌||◌, Option, none, some, arith,
  lookup, lookup-insert, lookup-insert_self, ◌==◌, if◌then◌else◌, Option-cases, Bool-cases, ap, ◌∙◌,
  unwrap_or,
}
use ape.Task.Struct.{TaskStruct}
use ape.Jobs.{
  Processes, Result, ok, err, not_found, permission_denied, put_task, or_self, do_setpgid,
}

-- Who may be moved, and to which group.
abbrev pub MayMove : Processes → ℕ → ℕ → TaskStruct → ℕ → Type 0
MayMove s pid target_pid task new_pgid =
    ((target_pid ≡ pid)
      ⊎ ((task.parent_pid ≡ pid)
          × ((caller : TaskStruct) × (lookup pid s.tasks ≡ some caller)
              × (caller.session_id ≡ task.session_id))))
    × ((new_pgid ≡ target_pid)
        ⊎ ((leader : TaskStruct) × (lookup new_pgid s.tasks ≡ some leader)
            × (leader.session_id ≡ task.session_id)))

abbrev pub SetpgidOutcome : Processes → ℕ → ℕ → ℕ → Result ℕ × Processes → Type 0
SetpgidOutcome s pid target pgid (err e, after) = after ≡ s
SetpgidOutcome s pid target pgid (ok n, after) =
    (task : TaskStruct) × (lookup (or_self target pid) s.tasks ≡ some task)
    × MayMove s pid (or_self target pid) task (or_self pgid task.pid)
    × (lookup (or_self target pid) after.tasks
        ≡ some (record task { process_group_id = or_self pgid task.pid }))
    × ((other : ℕ)
        → ¬ (other ≡ or_self target pid)
        → lookup other after.tasks ≡ lookup other s.tasks)
    × (after.child_events ≡ s.child_events)

same_group :
    (task : TaskStruct) (group : ℕ)
    → task.process_group_id ≡ group
    → task ≡ record task { process_group_id = group }
same_group task group e = ap (λ g. record task { process_group_id = g }) e

some_injective {ℓ} : {A : Type ℓ} (a b : A) → some a ≡ some b → a ≡ b
some_injective a b e = ap (λ o. unwrap_or o a) e

module _ (s : Processes) (pid target_pid new_pgid : ℕ) (caller task : TaskStruct)
    (found_caller : lookup pid s.tasks ≡ some caller)
    (found : lookup target_pid s.tasks ≡ some task) where
  -- The tables once the group is stored.
  abbrev moved : Processes
  moved =
      if target_pid == pid && new_pgid == caller.process_group_id
      then s
      else put_task s target_pid (record task { process_group_id = new_pgid })

  same_task :
      (target_pid == pid && new_pgid == caller.process_group_id) ≡ true
      → task.process_group_id ≡ new_pgid
  same_task same = ground arith

  lookup-moved :
      (lookup target_pid moved.tasks ≡ some (record task { process_group_id = new_pgid }))
      × ((other : ℕ) → ¬ (other ≡ target_pid) → lookup other moved.tasks ≡ lookup other s.tasks)
      × (moved.child_events ≡ s.child_events)
  lookup-moved = elim (Bool-cases (target_pid == pid && new_pgid == caller.process_group_id)) [
    | inl same ↦
        rw same (found ∙ ap some (same_group task new_pgid (same_task same)), λ other h. refl, refl)
    | inr differs ↦ rw differs (
      lookup-insert_self target_pid _ s.tasks,
      λ other h. ground (
        arith,
        lookup-insert target_pid other (record task { process_group_id = new_pgid }) s.tasks,
      ),
      refl,
    )
  ]

module _ (s : Processes) (pid target pgid : ℕ) (caller task : TaskStruct)
    (found_caller : lookup pid s.tasks ≡ some caller)
    (found : lookup (or_self target pid) s.tasks ≡ some task) where
  abbrev target_pid : ℕ
  target_pid = or_self target pid

  abbrev new_pgid : ℕ
  new_pgid = or_self pgid task.pid

  abbrev stored : Processes
  stored = moved s pid target_pid new_pgid caller task found_caller found

  abbrev denied : Bool
  denied =
      not (target_pid == pid)
      && (not (task.parent_pid == pid) || not (task.session_id == caller.session_id))

  abbrev checked : Bool → Bool → Option TaskStruct → Result ℕ × Processes
  checked true own leader = (err permission_denied, s)
  checked false true leader = (ok 0, stored)
  checked false false none = (err not_found, s)
  checked false false (some leader) =
      if leader.session_id == task.session_id then (ok 0, stored) else (err permission_denied, s)

  do_setpgid_found :
      do_setpgid s pid target pgid
      ≡ checked denied (new_pgid == target_pid) (lookup new_pgid s.tasks)
  unfolding do_setpgid
  do_setpgid_found = ground arith

  moved-SetpgidOutcome :
      MayMove s pid target_pid task new_pgid → SetpgidOutcome s pid target pgid (ok 0, stored)
  moved-SetpgidOutcome may =
      let (at, others, events) =
        lookup-moved s pid target_pid new_pgid caller task found_caller found in
      (task, found, may, at, others, events)

  may_be_moved :
      denied ≡ false
      → (target_pid ≡ pid)
        ⊎ ((task.parent_pid ≡ pid)
            × ((caller : TaskStruct) × (lookup pid s.tasks ≡ some caller)
                × (caller.session_id ≡ task.session_id)))
  may_be_moved allowed = elim (Bool-cases (target_pid == pid)) [
    | inl self ↦ inl (ground arith)
    | inr child ↦ inr (ground arith, (caller, found_caller, ground arith))
  ]

  checked-SetpgidOutcome : SetpgidOutcome s pid target pgid (do_setpgid s pid target pgid)
  checked-SetpgidOutcome = elim (Bool-cases denied) [
    | inl refused ↦ rw (do_setpgid_found, refused) refl
    | inr allowed ↦ elim (Bool-cases (new_pgid == target_pid)) [
      | inl own ↦
          rw (do_setpgid_found, allowed, own)
            (moved-SetpgidOutcome (may_be_moved allowed, inl (ground arith)))
      | inr other ↦ elim (Option-cases (lookup new_pgid s.tasks)) [
        | inl e ↦ rw (do_setpgid_found, allowed, other, e) refl
        | inr (leader, e) ↦ elim (Bool-cases (leader.session_id == task.session_id)) [
          | inl same ↦
              rw (do_setpgid_found, allowed, other, e, same)
                (moved-SetpgidOutcome (may_be_moved allowed, inr (leader, e, ground arith)))
          | inr differs ↦ rw (do_setpgid_found, allowed, other, e, differs) refl
        ]
      ]
    ]
  ]

do_setpgid_missing :
    (s : Processes) (pid target pgid : ℕ)
    → (lookup pid s.tasks ≡ none) ⊎ (lookup (or_self target pid) s.tasks ≡ none)
    → do_setpgid s pid target pgid ≡ (err not_found, s)
unfolding do_setpgid
do_setpgid_missing s pid target pgid (inl e) = ground arith
do_setpgid_missing s pid target pgid (inr e) = elim (Option-cases (lookup pid s.tasks)) [
  | inl refused ↦ ground arith
  | inr (caller, found) ↦ ground arith
]

-- `setpgid` either fails and changes nothing, or moves exactly the target to the group asked for.
-- It then holds that the target is the caller itself, or a child of it in its session; and the group
-- is the target's own, or that of a process of the target's session.
pub do_setpgid-SetpgidOutcome :
    (s : Processes) (pid target pgid : ℕ)
    → SetpgidOutcome s pid target pgid (do_setpgid s pid target pgid)
do_setpgid-SetpgidOutcome s pid target pgid = elim (Option-cases (lookup pid s.tasks)) [
  | inl e ↦ rw (do_setpgid_missing s pid target pgid (inl e)) refl
  | inr (caller, found_caller) ↦ elim (Option-cases (lookup (or_self target pid) s.tasks)) [
    | inl e ↦ rw (do_setpgid_missing s pid target pgid (inr e)) refl
    | inr (task, found) ↦ checked-SetpgidOutcome s pid target pgid caller task found_caller found
  ]
]
