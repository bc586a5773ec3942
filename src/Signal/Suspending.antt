-- ===== src/Signal/Suspending.antt =====
-- system/signal.rs: what the calls on masks leave, and that a wait for a signal keeps the mask.
use Prim.Native.Nat.{bit_or}
use ape.Base.{
  ℕ, zero, suc, ◌+◌, ◌^◌, ◌<◌, ◌≡◌, refl, Bool, true, false, not, ◌&&◌, ◌||◌, Option, none, some,
  List, [], ◌∷◌, arith, leb, ◌==◌, if◌then◌else◌, Result, ok, err, bit, bit-bit_or,
}
use ape.Signal.{
  SignalStruct, and_not, set_blocked, get_blocked, is_waiting_sigsuspend,
  restore_mask_from_sigsuspend_wait, sigkill, sigstop,
}
use ape.Signal.Masks.{bit-and_not, bit-set_blocked}
use ape.Signal.Waiting.{change_mask, Round}

-- A mask that leaves SIGKILL and SIGSTOP alone.
abbrev pub IsAllowed : ℕ → Type 0
IsAllowed mask = (mask < 2 ^ 64) × (bit 8 mask ≡ false) × (bit 18 mask ≡ false)

-- What a caller of the three requests of sigprocmask asks for, bit by bit.
abbrev pub asked_bit : ℕ → Bool → Bool → Bool
asked_bit how old given =
    if how == 0 then old || given else if how == 1 then old && not given else given

-- The three requests of sigprocmask, SIG_BLOCK, SIG_UNBLOCK and SIG_SETMASK, set the mask to what is
-- asked, but SIGKILL and SIGSTOP stay unblocked: bit i is signal i + 1.
pub change_mask_lem :
    (how : ℕ) (s : SignalStruct) (given i : ℕ)
    → how < 3
    → given < 2 ^ 64
    → i < 64
    → (t : SignalStruct) × (change_mask how s given ≡ some t)
      × (bit i t.signal_blocked ≡ (
          asked_bit how (bit i s.signal_blocked) (bit i given)
          && not (i + 1 == sigkill || i + 1 == sigstop)))
unfolding change_mask get_blocked
change_mask_lem zero s given i known small low = (
  set_blocked s (bit_or s.signal_blocked given),
  refl,
  ground (
    arith,
    bit-set_blocked s (bit_or s.signal_blocked given) i low,
    bit-bit_or i s.signal_blocked given,
  ),
)
change_mask_lem (suc zero) s given i known small low = (
  set_blocked s (and_not s.signal_blocked given),
  refl,
  ground (
    arith,
    bit-set_blocked s (and_not s.signal_blocked given) i low,
    bit-and_not i s.signal_blocked given low small,
  ),
)
change_mask_lem (suc (suc zero)) s given i known small low =
    (set_blocked s given, refl, bit-set_blocked s given i low)
change_mask_lem (suc (suc (suc how))) s given i known small low = absurd (omega arith)

-- The state once a wait that was armed is over.
abbrev pub settled : SignalStruct → SignalStruct
settled s = if is_waiting_sigsuspend s then (restore_mask_from_sigsuspend_wait s).1 else s

-- Whether the clock ends the wait in some round.
abbrev pub ends_by : ℕ → List Round → Bool
ends_by deadline [] = false
ends_by deadline (round ∷ rounds) =
    elim round.now [ err e ↦ true | ok t ↦ leb deadline t ] || ends_by deadline rounds

-- What a wait returns: a signal of the mask, taken out of the pending set, or none when no signal of
-- the mask is pending; nothing is said of an error of the clock.
abbrev pub WaitOutcome : ℕ → Result (Option ℕ) × SignalStruct → Type 0
WaitOutcome mask (ok (some signum), s) =
    (t : ℕ) × (signum ≡ t + 1) × (bit t mask ≡ true) × (bit t s.signal_pending ≡ false)
WaitOutcome mask (ok none, s) = (i : ℕ) → (bit i s.signal_pending && bit i mask) ≡ false
WaitOutcome mask (err e, s) = Unit {0}
