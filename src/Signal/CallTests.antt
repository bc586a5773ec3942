-- ===== src/Signal/CallTests.antt =====
-- Runs of the calls of system/signal.rs.
use ape.Base.{
  ℕ, ◌+◌, ◌-◌, ◌^◌, ◌≡◌, refl, not, ◌&&◌, ◌||◌, some, List, [], ◌∷◌, arith, Map, lookup, AtEntry,
  ◌==◌, ok, bit, Bool-cases, inl, inr,
}
use ape.Signal.{SignalAction, SignalStruct, new, sigkill, sigstop}
use ape.Signal.Calls.{Process, UserMemory, and_then, sigaction_bytes, sigaction_of, do_rt_sigaction}
use ape.Signal.Waiting.{Round, change_mask}
use ape.Signal.Actions.{IsGuarded, left, sigaction_of-sigaction_bytes, do_rt_sigaction-IsGuarded}
use ape.Signal.Suspending.{asked_bit, change_mask_lem}

abbrev handled : SignalAction
handled = record { handler = 0x4000; flags = 0x10000000; restorer = 0x5000; mask = 2 ^ 64 - 1 }

-- Memory that reads as the bytes of one action, and takes all writes.
abbrev memory : UserMemory
memory = record {
  read = λ address length. sigaction_bytes handled 8;
  write = λ address bytes. ok tt;
}

abbrev processes : Map Process
processes = (3, record { signal = new; sighand = [] }) ∷ []

processes-IsGuarded : (p : ℕ) → AtEntry IsGuarded (lookup p processes)
unfolding lookup
processes-IsGuarded p = elim (Bool-cases (3 == p)) [
  | inl here ↦ rw (here) (refl, refl, λ signum. tt)
  | inr nobody ↦ rw (nobody) tt
]

sigaction_of-sigaction_bytes_example :
    and_then (sigaction_bytes handled 8) sigaction_of ≡ ok handled
sigaction_of-sigaction_bytes_example =
    sigaction_of-sigaction_bytes handled (omega arith, omega arith, omega arith, omega arith)

do_rt_sigaction-IsGuarded_example :
    AtEntry IsGuarded (lookup 3 (left (do_rt_sigaction memory processes 3 10 4096 8192 8)))
do_rt_sigaction-IsGuarded_example =
    do_rt_sigaction-IsGuarded memory processes 3 10 4096 8192 8 processes-IsGuarded 3

change_mask_lem_example :
    (t : SignalStruct) × (change_mask 1 new 512 ≡ some t)
    × (bit 9 t.signal_blocked ≡ (
        asked_bit 1 (bit 9 new.signal_blocked) (bit 9 512)
        && not (9 + 1 == sigkill || 9 + 1 == sigstop)))
change_mask_lem_example = change_mask_lem 1 new 512 9 (omega arith) (omega arith) (omega arith)

abbrev rounds : List Round
rounds =
    record { arrived = 0; now = ok 10 }
    ∷ record { arrived = 2 ^ 14; now = ok 20 }
    ∷ record { arrived = 0; now = ok 30 }
    ∷ []
