-- ===== src/Signal/Tests.antt =====
-- Runs of ape/signal.rs, and the theorems at concrete inputs.
use ape.Base.{
  ℕ, ◌+◌, ◌-◌, ◌^◌, ◌<◌, ◌≡◌, ◌⊎◌, refl, true, false, not, ◌&&◌, none, some, [], ◌∷◌, arith, ◌==◌,
  bit, trailing_zeros, negsuc,
}
use ape.Signal.{
  SignalStruct, new, queue_signal, signal_bit, pop_pending_signal_from_mask, wait4_block_matches,
  arm_wait4_block, matches_wait4_target,
}
use ape.Signal.Masks.{sets, arms, restores, run, Unblocked, run-Unblocked, new-Unblocked}
use ape.Signal.Pending.{pop_pending_lem}

-- SIGUSR1 (10) and SIGTERM (15) pending.
abbrev pending : SignalStruct
pending = record new { signal_pending = 2 ^ 9 + 2 ^ 14 }

queued : queue_signal (queue_signal new 15).1 10 ≡ (true, pending)
unfolding queue_signal signal_bit new
queued = refl

popped :
    pop_pending_signal_from_mask pending (2 ^ 14 + 2 ^ 20)
    ≡ some (some 15, record new { signal_pending = 2 ^ 9 })
unfolding pop_pending_signal_from_mask trailing_zeros new
popped = refl

wait4_group : wait4_block_matches (arm_wait4_block new (negsuc 6) 3) 20 7 ≡ true
unfolding wait4_block_matches arm_wait4_block new matches_wait4_target
wait4_group = refl

run-Unblocked_example : Unblocked (run new (sets (2 ^ 64 - 1) ∷ arms (2 ^ 8) ∷ restores ∷ []))
run-Unblocked_example =
    run-Unblocked new (sets (2 ^ 64 - 1) ∷ arms (2 ^ 8) ∷ restores ∷ []) new-Unblocked

abbrev only_term : ℕ
only_term = 2 ^ 14

pop_pending_lem_example :
    ((pop_pending_signal_from_mask pending only_term ≡ some (none, pending))
      × ((i : ℕ) → (bit i pending.signal_pending && bit i only_term) ≡ false))
    ⊎ ((t : ℕ) × (t < 64)
        × ((bit t pending.signal_pending && bit t only_term) ≡ true)
        × ((j : ℕ) → j < t → (bit j pending.signal_pending && bit j only_term) ≡ false)
        × ((p : ℕ) × (pop_pending_signal_from_mask pending only_term
              ≡ some (some (t + 1), record pending { signal_pending = p }))
            × ((i : ℕ) → i < 64 → bit i p ≡ (bit i pending.signal_pending && not (i == t)))))
pop_pending_lem_example = pop_pending_lem pending only_term (omega arith)

-- Another thread takes SIGUSR1 before the first round does.
abbrev thief : ℕ → ℕ → ℕ
thief fuel p = 2 ^ 14
