-- ===== src/Signal.antt =====
-- ape/signal.rs: the signal state of a task. A method that changes the state returns it. The signal
-- numbers are those of the Linux interface, which the package linux_raw_sys spells out.
pub mod Masks
pub mod Pending
pub mod Calls
pub mod Waiting
pub mod Actions
pub mod Suspending
mod CallTests
mod Tests
use Prim.Native.Nat.{bit_and, bit_or}
use ape.Base.{
  ℕ, zero, suc, ◌+◌, ◌-◌, ◌^◌, Bool, true, false, not, ◌&&◌, Option, none, some, [], ◌==◌, leb,
  if◌then◌else◌, Map, lookup, unwrap_or, is_some, complement, trailing_zeros, ℤ, is_minus_one,
  is_positive, is_zero, unsigned_abs,
}

abbrev pub sigkill : ℕ
sigkill = 9

abbrev pub sigstop : ℕ
sigstop = 19

abbrev pub signal_min : ℕ
signal_min = 1

abbrev pub signal_max : ℕ
signal_max = 64

-- `!mask` and `a & !mask` on `u64`.
abbrev pub and_not : ℕ → ℕ → ℕ
and_not a mask = bit_and a (complement 64 mask)

unfoldable pub signal_unblockable_mask : ℕ
signal_unblockable_mask = bit_or (2 ^ (sigkill - 1)) (2 ^ (sigstop - 1))

pub record SignalAction : Type 0 where
  pub handler : ℕ
  pub flags : ℕ
  pub restorer : ℕ
  pub mask : ℕ

abbrev pub default_action : SignalAction
default_action = record { handler = 0; flags = 0; restorer = 0; mask = 0 }

unfoldable pub signal_bit : ℕ → Option ℕ
signal_bit signum =
    if leb signal_min signum && leb signum signal_max then some (2 ^ (signum - 1)) else none

pub record Wait4BlockRequest : Type 0 where
  pub target_pid : ℤ
  pub caller_pgid : ℕ

pub record SignalState : Type 0 where
  pub sigsuspend_saved_mask : Option ℕ
  pub wait4_blocked : Option Wait4BlockRequest
  pub clear_child_tid : ℕ

pub record SignalStruct : Type 0 where
  pub signal_blocked : ℕ
  pub signal_pending : ℕ
  pub state : SignalState

-- `SighandStruct`.
abbrev pub Sighand : Type 0
Sighand = Map SignalAction

unfoldable pub new : SignalStruct
new = record {
  signal_blocked = 0;
  signal_pending = 0;
  state = record { sigsuspend_saved_mask = none; wait4_blocked = none; clear_child_tid = 0 };
}

unfoldable pub set_blocked : SignalStruct → ℕ → SignalStruct
set_blocked s mask = record s { signal_blocked = and_not mask signal_unblockable_mask }

unfoldable pub get_blocked : SignalStruct → ℕ
get_blocked s = s.signal_blocked

unfoldable pub signal_action : Sighand → ℕ → SignalAction
signal_action sighand signum = unwrap_or (lookup signum sighand) default_action

unfoldable pub queue_signal : SignalStruct → ℕ → Bool × SignalStruct
queue_signal s signum = elim (signal_bit signum) [
  | none ↦ (false, s)
  | some mask ↦ (true, record s { signal_pending = bit_or s.signal_pending mask })
]

unfoldable pub arm_sigsuspend_wait : SignalStruct → ℕ → SignalStruct
arm_sigsuspend_wait s old_mask = record s {
  state = record (s.state) { sigsuspend_saved_mask = some old_mask };
}

unfoldable pub is_waiting_sigsuspend : SignalStruct → Bool
is_waiting_sigsuspend s = is_some s.state.sigsuspend_saved_mask

unfoldable pub restore_mask_from_sigsuspend_wait : SignalStruct → Bool × SignalStruct
restore_mask_from_sigsuspend_wait s = elim s.state.sigsuspend_saved_mask [
  | none ↦ (false, s)
  | some old_mask ↦ (
    true,
    record s {
      signal_blocked = and_not old_mask signal_unblockable_mask;
      state = record (s.state) { sigsuspend_saved_mask = none };
    },
  )
]

unfoldable pub arm_wait4_block : SignalStruct → ℤ → ℕ → SignalStruct
arm_wait4_block s target_pid caller_pgid = record s {
  state = record (s.state) {
    wait4_blocked = some (record { target_pid = target_pid; caller_pgid = caller_pgid });
  };
}

unfoldable pub clear_wait4_block : SignalStruct → SignalStruct
clear_wait4_block s = record s { state = record (s.state) { wait4_blocked = none } }

unfoldable pub matches_wait4_target : ℕ → ℕ → Wait4BlockRequest → Bool
matches_wait4_target child_pid child_pgid req =
    if is_minus_one req.target_pid
    then true
    else if is_positive req.target_pid
    then child_pid == unsigned_abs req.target_pid
    else if is_zero req.target_pid
    then child_pgid == req.caller_pgid
    else child_pgid == unsigned_abs req.target_pid

unfoldable pub wait4_block_matches : SignalStruct → ℕ → ℕ → Bool
wait4_block_matches s child_pid child_pgid = elim s.state.wait4_blocked [
  | none ↦ false
  | some req ↦ matches_wait4_target child_pid child_pgid req
]

-- The loop. Between the load and the `fetch_and` of a round other threads may change the pending
-- set: `others fuel p` is what they make of p. `none` is for fuel that runs out.
unfoldable pub pop_loop : (ℕ → ℕ → ℕ) → ℕ → SignalStruct → ℕ → Option (Option ℕ × SignalStruct)
pop_loop others zero s mask = none
pop_loop others (suc fuel) s mask =
    let ready = bit_and s.signal_pending mask in
    let idx = trailing_zeros 64 ready in
    let flag = 2 ^ idx in
    let seen = others fuel s.signal_pending in
    let s' = record s { signal_pending = and_not seen flag } in
    let again = pop_loop others fuel s' mask in
    if ready == 0
    then some (none, s)
    else if bit_and seen flag == 0
    then again
    else some (some (idx + 1), s')

-- With nobody in between, one round: `Signal.Pending` shows that it is enough.
unfoldable pub pop_pending_signal_from_mask : SignalStruct → ℕ → Option (Option ℕ × SignalStruct)
unfolding pop_loop
pop_pending_signal_from_mask s mask = pop_loop (λ _ p. p) 1 s mask
