-- ===== src/Exit/Wait.antt =====
-- task/lifecycle.rs: what `do_wait4` does with an event, and what it writes.
use ape.Base.{
  ℕ, ◌≡◌, ◌%◌, ◌*◌, ◌/◌, refl, inl, inr, ◌⊎◌, true, false, none, some, List, [], ◌∷◌, arith, lookup,
  lookup-remove_self, Bool-cases, ok, err, ◌==◌, if◌then◌else◌, ℤ, pos, ap, ◌∙◌, low_byte,
}
use ape.Signal.{clear_wait4_block}
use ape.Task.Struct.{TaskStruct}
use ape.Task.State.{
  WaitQuery, ChildStateEvent, take_event, pop_child_event_matching, clear_process_lifecycle,
}
use ape.Exit.{
  Kernel, Server, do_wait4, put_status, put_task, put_state, reap, i32_bytes, encode_wait_status,
}

-- The status of a process that exits, as the four bytes that user memory gets: the low byte of the
-- exit code is the second one.
abbrev pub exit_bytes : ℕ → List ℕ
exit_bytes exit_code = 0 ∷ exit_code % 256 ∷ 0 ∷ 0 ∷ []

abbrev pub exit_status : ℕ → ℤ
exit_status exit_code = pos (exit_code % 256 * 256)

pub encode_wait_status_lem : (exit_code : ℕ) → encode_wait_status exit_code ≡ exit_status exit_code
unfolding encode_wait_status
encode_wait_status_lem exit_code = ap (λ n. pos (n * 256)) (low_byte exit_code)

i32_bytes-exit_status : (exit_code : ℕ) → i32_bytes (exit_status exit_code) ≡ exit_bytes exit_code
unfolding i32_bytes ape.Base.to_bytes
i32_bytes-exit_status exit_code =
    let first : exit_code % 256 * 256 % 256 ≡ 0 = omega arith in
    let second : exit_code % 256 * 256 / 256 % 256 ≡ exit_code % 256 = omega arith in
    let third : exit_code % 256 * 256 / 256 / 256 % 256 ≡ 0 = omega arith in
    let fourth : exit_code % 256 * 256 / 256 / 256 / 256 % 256 ≡ 0 = omega arith in
    rw (first, second, third, fourth) refl

pub status_bytes : (exit_code : ℕ) → i32_bytes (encode_wait_status exit_code) ≡ exit_bytes exit_code
status_bytes exit_code =
    ap i32_bytes (encode_wait_status_lem exit_code) ∙ i32_bytes-exit_status exit_code

-- What user memory has got once a status is written, unless its address is 0.
abbrev pub with_status : ℕ → ℕ → List ℕ → List (ℕ × ℕ × List ℕ) → List (ℕ × ℕ × List ℕ)
with_status pid wstatus bytes before =
    if wstatus == 0 then before else (pid, wstatus, bytes) ∷ before

-- A status that is not asked for, or whose writing succeeds.
abbrev pub IsWritable : Kernel → ℕ → ℕ → List ℕ → Type 0
IsWritable kernel pid wstatus bytes =
    ((wstatus == 0) ≡ true) ⊎ (kernel.copied pid wstatus bytes ≡ ok tt)

pub put_status_lem :
    (kernel : Kernel) (s : Server) (pid wstatus : ℕ) (status : ℤ)
    → IsWritable kernel pid wstatus (i32_bytes status)
    → put_status kernel s pid wstatus status
      ≡ (ok tt, record s { written = with_status pid wstatus (i32_bytes status) s.written })
unfolding put_status
put_status_lem kernel s pid wstatus status writable = elim (Bool-cases (wstatus == 0)) [
  | inl nowhere ↦ rw (put_status, nowhere) refl
  | inr somewhere ↦ elim writable [
    | inl nowhere ↦ absurd (ground (arith, nowhere, somewhere))
    | inr copied ↦ rw (put_status, somewhere, copied) refl
  ]
]

-- A caller with an event: the first that its query matches is taken, and its status is written.
module _ (kernel : Kernel) (s : Server) (pid : ℕ) (task : TaskStruct) (target_pid : ℤ)
    (wstatus options : ℕ) (queue others : List ChildStateEvent) (e : ChildStateEvent)
    (here : lookup pid s.state.tasks ≡ some task)
    (queued : lookup pid s.state.child_events ≡ some queue) where
  abbrev pub query : WaitQuery
  query = record { target_pid = target_pid; options = options; caller_pgid = task.process_group_id }

  -- The tables without the event, and with the caller's wait over.
  abbrev popped : Server
  popped =
      let task' = record task { signal = clear_wait4_block task.signal } in
      let cleared = put_task s pid task' in
      put_state cleared (record (cleared.state) {
        child_events = (pop_child_event_matching s.state.child_events pid query).1;
      })

  do_wait4_pops :
      take_event query queue ≡ some (e, others)
      → do_wait4 kernel s pid target_pid wstatus options
        ≡ reap e.child_pid (put_status kernel popped pid wstatus e.wait_status)
  unfolding do_wait4 pop_child_event_matching
  do_wait4_pops taken = rw (do_wait4, here, queued, taken) refl

  pub do_wait4_reaps :
      take_event query queue ≡ some (e, others)
      → IsWritable kernel pid wstatus (i32_bytes e.wait_status)
      → let waited = do_wait4 kernel s pid target_pid wstatus options in
        (waited.0 ≡ ok (pos e.child_pid))
        × (lookup e.child_pid waited.1.state.lifecycle ≡ none)
        × (waited.1.written ≡ with_status pid wstatus (i32_bytes e.wait_status) s.written)
  unfolding clear_process_lifecycle reap
  do_wait4_reaps taken writable =
      rw (do_wait4_pops taken, put_status_lem kernel popped pid wstatus e.wait_status writable)
        (refl, lookup-remove_self e.child_pid s.state.lifecycle, refl)
