-- ===== src/Task/Tests.antt =====
-- Runs of ape/state.rs and ape/task.rs, and the theorems at concrete inputs.
use ape.Base.{ℕ, ◌≡◌, refl, true, false, some, List, [], ◌∷◌, arith, lookup, insert, pos, negsuc}
use ape.Signal
use ape.Signal.{matches_wait4_target}
use ape.Task.Struct
use ape.Task.Struct.{TaskStruct, TaskLifecycleState, from_code, get_lifecycle}
use ape.Task.State
use ape.Task.State.{
  ApeTaskState, ChildStateEvent, ChildStateEventKind, WaitQuery, Queues, pop_child_event_matching,
  has_child_event_matching, take_event, event_matches, event_kind_enabled, matches_wait_target,
  push_event, retain_frame_cap, release_frame_cap, record_child_exit, any_event,
  set_process_lifecycle_state, first_stopped_child_matching, has_live_child_matching,
}
use ape.Task.Events.{Pops, pop-Pops}
use ape.Task.Frames.{retains, releases, run, ever_frees, frees, step, release_frees_iff}
use ape.Task.Lifecycle.{IsCoherent}
use ape.Task.Regions
use ape.Task.Regions.{Answers, ApeFsState, allocate_fs_async_region, recycle_region}
use ape.Task.Regions.Ownership.{IsOwned, allocate-Grants, new-IsOwned}
use ape.Task.Ledger.{
  Entry, frame_alloc, frame_free, empty_ledger, apply_all, IsBalanced, apply_all-IsBalanced,
}

abbrev exit_of : ℕ → ChildStateEvent
exit_of pid = record {
  child_pid = pid;
  wait_status = pos 256;
  process_group_id = 5;
  kind = ChildStateEventKind.exited;
}

abbrev stop_of : ℕ → ChildStateEvent
stop_of pid = record (exit_of pid) { kind = ChildStateEventKind.stopped }

abbrev queues : Queues
queues = (1, stop_of 7 ∷ exit_of 8 ∷ exit_of 9 ∷ []) ∷ []

-- Any child, no options.
abbrev any_child : WaitQuery
any_child = record { target_pid = negsuc 0; options = 0; caller_pgid = 5 }

-- The stop of 7 is not asked for.
pop_skips :
    pop_child_event_matching queues 1 any_child
    ≡ (some (8, pos 256), (1, stop_of 7 ∷ exit_of 9 ∷ []) ∷ [])
unfolding pop_child_event_matching take_event event_matches event_kind_enabled matches_wait_target
    lookup insert
pop_skips = refl

pop-Pops_example : Pops queues 1 any_child (pop_child_event_matching queues 1 any_child)
pop-Pops_example = pop-Pops queues 1 any_child

-- Two more holders of frame 4, and one release: two more are needed, the second frees it.
release_frees_iff_example :
    (release_frame_cap (run [] (retains 4 ∷ retains 4 ∷ releases 4 ∷ [])) 4).0 ≡ false
unfolding lookup ever_frees frees step retain_frame_cap release_frame_cap insert
release_frees_iff_example =
    release_frees_iff 4 [] (retains 4 ∷ retains 4 ∷ releases 4 ∷ []) (omega arith) (omega arith)
      refl

abbrev task7 : TaskStruct
task7 = Struct.new 7 1 Signal.new

task7-IsCoherent : IsCoherent task7
unfolding Struct.new get_lifecycle from_code
task7-IsCoherent = (λ h. cc, λ h. cc)

abbrev Reply : Type 0
Reply = ℕ

abbrev fresh : ApeTaskState Reply
fresh = State.new 1

abbrev child : ℕ → TaskStruct
child pid = Struct.new pid 1 Signal.new

abbrev granted : Answers
granted = record { slot = some 30; has_level = true; page_allocated = true; page_mapped = true }

abbrev regions : ApeFsState
regions = Regions.new 0x1000 1

-- One region, held.
abbrev held_one : ApeFsState
held_one = (allocate_fs_async_region granted regions 0x4000).1

held_one-IsOwned : IsOwned 0x1000 held_one (0 ∷ [])
unfolding allocate_fs_async_region Regions.new
held_one-IsOwned = (allocate-Grants 0x1000 granted regions [] 0x4000 (new-IsOwned 0x1000 1)).1

abbrev entries : List Entry
entries = frame_alloc 5 1 ∷ frame_alloc 6 1 ∷ frame_free 5 1 ∷ []

apply_all-IsBalanced_example : IsBalanced (apply_all empty_ledger entries)
apply_all-IsBalanced_example = apply_all-IsBalanced empty_ledger entries (omega arith) (omega arith)
