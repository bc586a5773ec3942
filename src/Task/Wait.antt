-- ===== src/Task/Wait.antt =====
-- What a `wait4` waits for, in ape/state.rs and ape/signal.rs.
use ape.Base.{ℕ, zero, suc, ◌≡◌, refl, ◌↔◌, true, some, List, [], ◌∷◌, arith, ℤ, pos, negsuc}
use ape.Signal.{SignalStruct, matches_wait4_target, wait4_block_matches, arm_wait4_block}
use ape.Task.Events.{has-push_event}
use ape.Task.Struct.{TaskStruct}
use ape.Task.State.{
  matches_wait_target, has_live_child_matching, first_stopped_child_matching, Queues,
  ChildStateEvent, ChildStateEventKind, WaitQuery, event_matches, event_kind_enabled,
  record_child_exit, has_child_event_matching,
}

-- The children that a target names, as wait4 documents it: any child at -1, the process of a
-- positive number, the caller's own group at 0, and the group of the number below -1.
abbrev pub Selects : ℕ → ℕ → ℕ → ℤ → Type 0
Selects pid pgid caller (pos zero) = pgid ≡ caller
Selects pid pgid caller (pos (suc n)) = pid ≡ suc n
Selects pid pgid caller (negsuc zero) = Unit
Selects pid pgid caller (negsuc (suc n)) = pgid ≡ suc (suc n)

-- Both places that test a child against the target of a wait, the search of the event queues and
-- the wake-up of a blocked caller, accept exactly the children that the target names.
pub matches_iff :
    (pid pgid caller : ℕ) (target : ℤ)
    → ((matches_wait_target pid pgid target caller ≡ true) ↔ Selects pid pgid caller target)
      × ((matches_wait4_target pid pgid (record { target_pid = target; caller_pgid = caller })
            ≡ true)
          ↔ Selects pid pgid caller target)
unfolding matches_wait_target matches_wait4_target
matches_iff pid pgid caller (pos zero) = ground arith
matches_iff pid pgid caller (pos (suc n)) = ground arith
matches_iff pid pgid caller (negsuc zero) = ((λ h. tt, λ h. refl), (λ h. tt, λ h. refl))
matches_iff pid pgid caller (negsuc (suc n)) = ground arith

-- A caller that blocked in wait4 for a target, and that the exit of a child wakes, finds an event
-- when it looks again with the same target, whatever its options are and whatever was queued.
pub woken_finds_event :
    (s : SignalStruct) (events : Queues) (parent child pgid caller options : ℕ) (target status : ℤ)
    → wait4_block_matches (arm_wait4_block s target caller) child pgid ≡ true
    → has_child_event_matching
        (record_child_exit events parent child status pgid)
        parent
        (record { target_pid = target; options = options; caller_pgid = caller })
      ≡ true
unfolding wait4_block_matches arm_wait4_block record_child_exit event_matches event_kind_enabled
woken_finds_event s events parent child pgid caller options target status h =
    let e : ChildStateEvent = record {
      child_pid = child;
      wait_status = status;
      process_group_id = pgid;
      kind = ChildStateEventKind.exited;
    } in
    let q : WaitQuery = record { target_pid = target; options = options; caller_pgid = caller } in
    let (queue, block) = matches_iff child pgid caller target in
    let hit : event_matches q e ≡ true = queue.1 (block.0 h) in
    ground (arith, has-push_event events parent parent e q, hit)

-- A stopped child that a wait finds is one of the children that keep the wait from failing.
pub stopped-live :
    (tasks : List TaskStruct) (parent caller pid : ℕ) (target : ℤ)
    → first_stopped_child_matching tasks parent target caller ≡ some pid
    → has_live_child_matching tasks parent target caller ≡ true
unfolding first_stopped_child_matching has_live_child_matching
stopped-live [] parent caller pid target h = cc
stopped-live (task ∷ tasks) parent caller pid target h =
    ground (arith, stopped-live tasks parent caller pid target)
