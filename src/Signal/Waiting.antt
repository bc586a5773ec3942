-- ===== src/Signal/Waiting.antt =====
-- system/signal.rs: the calls that set the mask or wait for a signal. Each runs on the process that
-- `get_process` finds at its first use; the process stays in the table while it runs.
use Prim.Native.Nat.{bit_and, bit_or}
use ape.Base.{
  ℕ, ◌+◌, ◌-◌, ◌%◌, ◌^◌, Bool, not, Option, none, some, List, [], ◌∷◌, Map, lookup, insert, ltb,
  leb, ◌==◌, if◌then◌else◌, Result, ok, err, not_found, invalid_args, invalid_address,
  out_of_memory, ℤ, pos, usize_max, to_bytes, zeros,
}
use ape.Signal.{
  SignalStruct, signal_unblockable_mask, and_not, set_blocked, get_blocked, arm_sigsuspend_wait,
  restore_mask_from_sigsuspend_wait, pop_pending_signal_from_mask,
}
use ape.Signal.Calls.{
  Process, UserMemory, Outcome, has_valid_sigset_size, import_sigset, export_sigset,
  parse_timeout_deadline, siginfo_compat_size, einval, eagain, eintr,
}

abbrev pub put_signal : Map Process → ℕ → Process → SignalStruct → Map Process
put_signal processes pid process signal = insert pid (record process { signal = signal }) processes

-- SIG_BLOCK, SIG_UNBLOCK and SIG_SETMASK, of the low 32 bits of `how`.
unfoldable pub change_mask : ℕ → SignalStruct → ℕ → Option SignalStruct
change_mask how s set_mask =
    if how % 2 ^ 32 == 0
    then some (set_blocked s (bit_or (get_blocked s) set_mask))
    else if how % 2 ^ 32 == 1
    then some (set_blocked s (and_not (get_blocked s) set_mask))
    else if how % 2 ^ 32 == 2
    then some (set_blocked s set_mask)
    else none

-- The writing of the old mask at the end of `do_rt_sigprocmask`.
unfoldable pub put_old_mask : UserMemory → Map Process → ℕ → ℕ → ℕ → Outcome
put_old_mask memory processes oldset old_mask sigsetsize =
    if oldset == 0 then (ok (pos 0), processes, []) else elim (export_sigset old_mask sigsetsize) [
      | err e ↦ (err e, processes, [])
      | ok out ↦ elim (memory.write oldset out) [
        | err e ↦ (err e, processes, [])
        | ok done ↦ (ok (pos 0), processes, (oldset, out) ∷ [])
      ]
    ]

unfoldable pub sigprocmask_set : UserMemory → Map Process → ℕ → ℕ → ℕ → ℕ → ℕ → ℕ → Outcome
sigprocmask_set memory processes pid how set oldset old_mask sigsetsize =
    if set == 0
    then put_old_mask memory processes oldset old_mask sigsetsize
    else elim (import_sigset memory set sigsetsize) [
      | err e ↦ (err e, processes, [])
      | ok set_mask ↦ elim (lookup pid processes) [
        | none ↦ (err not_found, processes, [])
        | some process ↦ elim (change_mask how process.signal set_mask) [
          | none ↦ (ok einval, processes, [])
          | some signal ↦
              put_old_mask memory (put_signal processes pid process signal) oldset old_mask
                sigsetsize
        ]
      ]
    ]

unfoldable pub do_rt_sigprocmask : UserMemory → Map Process → ℕ → ℕ → ℕ → ℕ → ℕ → Outcome
do_rt_sigprocmask memory processes pid how set oldset sigsetsize =
    if not (has_valid_sigset_size sigsetsize)
    then (ok einval, processes, [])
    else if oldset == 0
    then sigprocmask_set memory processes pid how set oldset 0 sigsetsize
    else elim (lookup pid processes) [
      | none ↦ (err not_found, processes, [])
      | some process ↦
          sigprocmask_set memory processes pid how set oldset (get_blocked process.signal)
            sigsetsize
    ]

unfoldable pub do_rt_sigpending : UserMemory → Map Process → ℕ → ℕ → ℕ → Outcome
do_rt_sigpending memory processes pid set sigsetsize =
    if not (has_valid_sigset_size sigsetsize)
    then (ok einval, processes, [])
    else if set == 0
    then (err invalid_address, processes, [])
    else elim (lookup pid processes) [
      | none ↦ (err not_found, processes, [])
      | some process ↦
          put_old_mask memory processes set
            (bit_and process.signal.signal_pending (get_blocked process.signal)) sigsetsize
    ]

-- One round of the waiting loop: the signals that others have queued by then, and the clock.
pub record Round : Type 0 where
  pub arrived : ℕ
  pub now : Result ℕ

-- The loop of `do_rt_sigtimedwait`, over the rounds that there are; `none` is for a loop that has not
-- ended by then. The result is the signal, or none at the deadline.
unfoldable pub wait_loop :
    List Round → SignalStruct → ℕ → ℕ → Option (Result (Option ℕ) × SignalStruct)
wait_loop [] s wait_mask deadline = none
wait_loop (round ∷ rounds) s wait_mask deadline =
    let seen = record s { signal_pending = bit_or s.signal_pending round.arrived } in
    let rest = wait_loop rounds seen wait_mask deadline in
    elim (pop_pending_signal_from_mask seen wait_mask) [
      | none ↦ none
      | some (some signum, taken) ↦ some (ok (some signum), taken)
      | some (none, same) ↦ elim round.now [
        | err e ↦ some (err e, seen)
        | ok t ↦ if leb deadline t then some (ok none, seen) else rest
      ]
    ]

-- The information for the caller: the number of the signal, and zeros.
unfoldable pub put_info : UserMemory → Map Process → ℕ → ℕ → Outcome
put_info memory processes info signum =
    if info == 0
    then (ok (pos signum), processes, [])
    else elim (memory.write info (to_bytes 4 signum)) [
      | err e ↦ (err e, processes, [])
      | ok done ↦
          if ltb usize_max (info + 4)
          then (err out_of_memory, processes, (info, to_bytes 4 signum) ∷ [])
          else elim (memory.write (info + 4) (zeros (siginfo_compat_size - 4))) [
            | err e ↦ (err e, processes, (info, to_bytes 4 signum) ∷ [])
            | ok finished ↦ (
              ok (pos signum),
              processes,
              (info, to_bytes 4 signum) ∷ (info + 4, zeros (siginfo_compat_size - 4)) ∷ [],
            )
          ]
    ]

-- `start` is what the clock answers before the loop.
unfoldable pub do_rt_sigtimedwait :
    UserMemory → Result ℕ → List Round → Map Process → ℕ → ℕ → ℕ → ℕ → ℕ → Option Outcome
do_rt_sigtimedwait memory start rounds processes pid set info timeout sigsetsize =
    if not (has_valid_sigset_size sigsetsize)
    then some (ok einval, processes, [])
    else elim (import_sigset memory set sigsetsize) [
      | err e ↦ some (err e, processes, [])
      | ok wait_mask ↦
          if wait_mask == 0
          then some (ok eagain, processes, [])
          else elim (parse_timeout_deadline memory start timeout) [
            | err e ↦ some (err invalid_args, processes, [])
            | ok deadline ↦ elim (lookup pid processes) [
              | none ↦ some (err not_found, processes, [])
              | some process ↦ elim (wait_loop rounds process.signal wait_mask deadline) [
                | none ↦ none
                | some (err e, signal) ↦ some (err e, put_signal processes pid process signal, [])
                | some (ok none, signal) ↦
                    some (ok eagain, put_signal processes pid process signal, [])
                | some (ok (some signum), signal) ↦
                    some (put_info memory (put_signal processes pid process signal) info signum)
              ]
            ]
          ]
    ]

-- What happens to the signal state: a signal that is pending is taken and the old mask set again, or
-- the wait is armed. `suspends` is whether the kernel suspends the thread.
unfoldable pub suspend_with : Bool → SignalStruct → ℕ → Option SignalStruct
suspend_with suspends s suspend_mask =
    let masked = set_blocked s suspend_mask in
    let deliverable = and_not masked.signal_pending (get_blocked masked) in
    elim (pop_pending_signal_from_mask masked deliverable) [
      | none ↦ none
      | some (some signum, taken) ↦ some (set_blocked taken (get_blocked s))
      | some (none, same) ↦
          let armed = arm_sigsuspend_wait masked (get_blocked s) in
          some (if suspends then armed else (restore_mask_from_sigsuspend_wait armed).1)
    ]

unfoldable pub do_rt_sigsuspend : UserMemory → Bool → Map Process → ℕ → ℕ → ℕ → Option Outcome
do_rt_sigsuspend memory suspends processes pid mask sigsetsize =
    if not (has_valid_sigset_size sigsetsize)
    then some (ok einval, processes, [])
    else elim (import_sigset memory mask sigsetsize) [
      | err e ↦ some (err e, processes, [])
      | ok given ↦ elim (lookup pid processes) [
        | none ↦ some (err not_found, processes, [])
        | some process ↦
            elim (suspend_with suspends process.signal (and_not given signal_unblockable_mask)) [
              | none ↦ none
              | some signal ↦ some (ok eintr, put_signal processes pid process signal, [])
            ]
      ]
    ]

unfoldable pub do_rt_sigreturn : Map Process → ℕ → Result ℤ × Map Process
do_rt_sigreturn processes pid = elim (lookup pid processes) [
  | none ↦ (ok (pos 0), processes)
  | some process ↦ (
    ok (pos 0),
    put_signal processes pid process (restore_mask_from_sigsuspend_wait process.signal).1,
  )
]
