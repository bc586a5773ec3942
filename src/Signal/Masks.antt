-- ===== src/Signal/Masks.antt =====
-- The masks of ape/signal.rs: SIGKILL and SIGSTOP are never blocked.
use ape.Base.{
  ℕ, ◌+◌, ◌-◌, ◌^◌, ◌<◌, ◌≡◌, refl, false, not, ◌&&◌, ◌||◌, Option, none, some, List, [], ◌∷◌, ◌==◌,
  arith, ℤ, bit, bit-bit_and, bit-bit_or, bit-complement, bit-pow, complement, Option-cases, inl,
  inr,
}
use ape.Signal.{
  SignalStruct, sigkill, sigstop, and_not, signal_unblockable_mask, set_blocked, queue_signal,
  arm_sigsuspend_wait, restore_mask_from_sigsuspend_wait, arm_wait4_block, clear_wait4_block, new,
  pop_pending_signal_from_mask,
}

pub bit-and_not :
    (i a m : ℕ) → i < 64 → m < 2 ^ 64 → bit i (and_not a m) ≡ (bit i a && not (bit i m))
bit-and_not i a m h lt =
    ground (arith, bit-bit_and i a (complement 64 m), bit-complement i 64 m h lt)

pub bit-unblockable : (i : ℕ) → bit i signal_unblockable_mask ≡ (i == 8 || i == 18)
unfolding signal_unblockable_mask
bit-unblockable i = ground (arith, bit-bit_or i (2 ^ 8) (2 ^ 18), bit-pow i 8, bit-pow i 18)

pub signal_unblockable_mask-lt : signal_unblockable_mask < 2 ^ 64
unfolding signal_unblockable_mask
signal_unblockable_mask-lt = omega arith

-- The mask that is stored is the one asked for, less SIGKILL and SIGSTOP: bit i is signal i + 1.
pub bit-set_blocked :
    (s : SignalStruct) (mask i : ℕ)
    → i < 64
    → bit i (set_blocked s mask).signal_blocked
      ≡ (bit i mask && not (i + 1 == sigkill || i + 1 == sigstop))
unfolding set_blocked
bit-set_blocked s mask i h = ground (
  arith,
  bit-and_not i mask signal_unblockable_mask h signal_unblockable_mask-lt,
  bit-unblockable i,
)

-- The methods that change the state, in any order.
pub data Call : Type 0 where
  sets queues arms pops : ℕ → Call
  arms_wait4 : ℤ → ℕ → Call
  restores clears_wait4 : Call

abbrev pub left_over : SignalStruct → Option (Option ℕ × SignalStruct) → SignalStruct
left_over s none = s
left_over s (some (_, s')) = s'

unfoldable pub step : SignalStruct → Call → SignalStruct
step s (sets mask) = set_blocked s mask
step s (queues signum) = (queue_signal s signum).1
step s (arms mask) = arm_sigsuspend_wait s mask
step s (pops mask) = left_over s (pop_pending_signal_from_mask s mask)
step s (arms_wait4 target pgid) = arm_wait4_block s target pgid
step s restores = (restore_mask_from_sigsuspend_wait s).1
step s clears_wait4 = clear_wait4_block s

unfoldable pub run : SignalStruct → List Call → SignalStruct
run s [] = s
run s (c ∷ cs) = run (step s c) cs

abbrev pub Unblocked : SignalStruct → Type 0
Unblocked s =
    (bit (sigkill - 1) s.signal_blocked ≡ false) × (bit (sigstop - 1) s.signal_blocked ≡ false)

set_blocked-Unblocked : (s : SignalStruct) (mask : ℕ) → Unblocked (set_blocked s mask)
set_blocked-Unblocked s mask =
    ground (arith, bit-set_blocked s mask 8 (omega arith), bit-set_blocked s mask 18 (omega arith))

blocked-pop :
    (s : SignalStruct) (mask : ℕ)
    → (left_over s (pop_pending_signal_from_mask s mask)).signal_blocked ≡ s.signal_blocked
unfolding pop_pending_signal_from_mask
blocked-pop s mask = ground arith

-- A mask that comes back goes through the same filter as one that is set.
blocked-restore :
    (s : SignalStruct) (old : ℕ)
    → s.state.sigsuspend_saved_mask ≡ some old
    → (restore_mask_from_sigsuspend_wait s).1.signal_blocked ≡ (set_blocked s old).signal_blocked
unfolding restore_mask_from_sigsuspend_wait set_blocked
blocked-restore s old e = ground arith

unarmed-restore :
    (s : SignalStruct)
    → s.state.sigsuspend_saved_mask ≡ none
    → (restore_mask_from_sigsuspend_wait s).1.signal_blocked ≡ s.signal_blocked
unfolding restore_mask_from_sigsuspend_wait
unarmed-restore s e = ground arith

step-Unblocked : (s : SignalStruct) (c : Call) → Unblocked s → Unblocked (step s c)
unfolding step queue_signal arm_sigsuspend_wait arm_wait4_block clear_wait4_block
step-Unblocked s (sets mask) u = set_blocked-Unblocked s mask
step-Unblocked s (queues signum) u = ground arith
step-Unblocked s (arms mask) u = u
step-Unblocked s (pops mask) u = rw (blocked-pop s mask) u
step-Unblocked s (arms_wait4 target pgid) u = u
step-Unblocked s restores u = elim (Option-cases s.state.sigsuspend_saved_mask) [
  | inl e ↦ rw (unarmed-restore s e) u
  | inr (old, e) ↦ rw (blocked-restore s old e) (set_blocked-Unblocked s old)
]
step-Unblocked s clears_wait4 u = u

-- From a state that blocks neither, such as a new task's, no sequence of calls blocks SIGKILL or SIGSTOP: neither a mask that is
-- set, whatever its bits, nor one that comes back after a wait for a signal.
pub run-Unblocked : (s : SignalStruct) (cs : List Call) → Unblocked s → Unblocked (run s cs)
unfolding run
run-Unblocked s [] u = u
run-Unblocked s (c ∷ cs) u = run-Unblocked (step s c) cs (step-Unblocked s c u)

pub new-Unblocked : Unblocked new
unfolding new bit
new-Unblocked = (refl, refl)
