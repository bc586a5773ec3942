-- ===== src/Signal/Actions.antt =====
-- system/signal.rs: the actions that `do_rt_sigaction` reads, writes and stores.
use ape.Base.{
  ℕ, ◌^◌, ◌<◌, ◌≡◌, refl, inl, inr, false, not, ◌||◌, none, [], arith, Map, lookup, insert, AtEntry,
  AtEntry-insert, ◌==◌, Bool-cases, Option-cases, Result-cases, ok, bit, to_bytes,
  from_bytes-to_bytes, lookup-insert,
}
use mathlib.Core.Path.{subst}
use ape.Signal.{SignalAction, signal_action, and_not, signal_unblockable_mask, sigkill, sigstop}
use ape.Signal.Masks.{bit-and_not, bit-unblockable, signal_unblockable_mask-lt}
use ape.Signal.Calls.{
  Process, UserMemory, Writes, Outcome, and_then, read_usize_from, write_usize_to, sigaction_bytes,
  sigaction_of, read_sigaction, write_sigaction, set_action, do_rt_sigaction, is_valid_signal,
  has_valid_sigset_size,
}

-- Fields that are words.
abbrev pub IsWords : SignalAction → Type 0
IsWords action =
    (action.handler < 2 ^ 64)
    × (action.flags < 2 ^ 64)
    × (action.restorer < 2 ^ 64)
    × (action.mask < 2 ^ 64)

same_action :
    {a b c d a' b' c' d' : ℕ}
    → a ≡ a'
    → b ≡ b'
    → c ≡ c'
    → d ≡ d'
    → let x : SignalAction = record { handler = a; flags = b; restorer = c; mask = d } in
      let y : SignalAction = record { handler = a'; flags = b'; restorer = c'; mask = d' } in
      ok x ≡ ok y
same_action p q r s = rw (p, q, r, s) refl

-- An action that is written to user memory and read again is the same.
pub sigaction_of-sigaction_bytes :
    (action : SignalAction)
    → IsWords action
    → and_then (sigaction_bytes action 8) sigaction_of ≡ ok action
unfolding and_then sigaction_bytes sigaction_of write_usize_to read_usize_from to_bytes
sigaction_of-sigaction_bytes action (h, f, r, m) =
    same_action (from_bytes-to_bytes 8 action.handler (omega arith))
      (from_bytes-to_bytes 8 action.flags (omega arith))
      (from_bytes-to_bytes 8 action.restorer (omega arith))
      (from_bytes-to_bytes 8 action.mask (omega arith))

-- SIGKILL and SIGSTOP have no action of their own, and no action blocks them while it runs: bit i is
-- signal i + 1.
abbrev pub IsGuarded : Process → Type 0
IsGuarded process =
    (lookup sigkill process.sighand ≡ none)
    × (lookup sigstop process.sighand ≡ none)
    × ((signum : ℕ)
        → AtEntry (λ action. (bit 8 action.mask ≡ false) × (bit 18 action.mask ≡ false))
            (lookup signum process.sighand))

masked_bits :
    (mask : ℕ)
    → (bit 8 (and_not mask signal_unblockable_mask) ≡ false)
      × (bit 18 (and_not mask signal_unblockable_mask) ≡ false)
masked_bits mask = (
  ground (
    arith,
    bit-and_not 8 mask signal_unblockable_mask (omega arith) signal_unblockable_mask-lt,
    bit-unblockable 8,
  ),
  ground (
    arith,
    bit-and_not 18 mask signal_unblockable_mask (omega arith) signal_unblockable_mask-lt,
    bit-unblockable 18,
  ),
)

put_action-IsGuarded :
    (process : Process) (signum : ℕ) (action : SignalAction)
    → IsGuarded process
    → (signum == sigkill || signum == sigstop) ≡ false
    → IsGuarded (record process {
      sighand =
          insert signum
            (record action { mask = and_not action.mask signal_unblockable_mask })
            process.sighand;
    })
put_action-IsGuarded process signum action (kill, stop, masks) plain =
    let masked : SignalAction = record action {
      mask = and_not action.mask signal_unblockable_mask;
    } in
    (
      ground (arith, plain, kill, lookup-insert signum sigkill masked process.sighand),
      ground (arith, plain, stop, lookup-insert signum sigstop masked process.sighand),
      AtEntry-insert (λ a. (bit 8 a.mask ≡ false) × (bit 18 a.mask ≡ false)) process.sighand signum
          masked masks (masked_bits action.mask),
    )

-- The processes of a result.
abbrev pub left : Outcome → Map Process
left outcome = outcome.1

set_action-IsGuarded :
    (memory : UserMemory) (processes : Map Process) (pid signum act sigsetsize : ℕ)
    (writes : Writes)
    → ((p : ℕ) → AtEntry IsGuarded (lookup p processes))
    → (p : ℕ)
    → AtEntry IsGuarded
        (lookup p (left (set_action memory processes pid signum act sigsetsize writes)))
unfolding set_action
set_action-IsGuarded memory processes pid signum act sigsetsize writes good p =
    elim (Bool-cases (act == 0)) [
      | inl nothing ↦ rw (set_action, nothing) (good p)
      | inr given ↦ elim (Bool-cases (signum == sigkill || signum == sigstop)) [
        | inl refused ↦ rw (set_action, given, refused) (good p)
        | inr plain ↦ elim (Result-cases (read_sigaction memory act sigsetsize)) [
          | inr (e, failed) ↦ rw (set_action, given, plain, failed) (good p)
          | inl (action, reads) ↦ elim (Option-cases (lookup pid processes)) [
            | inl missing ↦ rw (set_action, given, plain, reads, missing) (good p)
            | inr (process, here) ↦
                rw (set_action, given, plain, reads, here)
                  (AtEntry-insert IsGuarded processes pid _ good
                    (put_action-IsGuarded process signum action
                      (subst (AtEntry IsGuarded) here (good pid)) plain)
                    p)
          ]
        ]
      ]
    ]

-- On every branch, `do_rt_sigaction` leaves SIGKILL and SIGSTOP without an action, and no action with
-- a mask that blocks them.
pub do_rt_sigaction-IsGuarded :
    (memory : UserMemory) (processes : Map Process) (pid signum act oldact sigsetsize : ℕ)
    → ((p : ℕ) → AtEntry IsGuarded (lookup p processes))
    → (p : ℕ)
    → AtEntry IsGuarded
        (lookup p (left (do_rt_sigaction memory processes pid signum act oldact sigsetsize)))
unfolding do_rt_sigaction
do_rt_sigaction-IsGuarded memory processes pid signum act oldact sigsetsize good p =
    elim (Bool-cases (not (is_valid_signal signum) || not (has_valid_sigset_size sigsetsize))) [
      | inl refused ↦ rw (do_rt_sigaction, refused) (good p)
      | inr fine ↦ elim (Bool-cases (oldact == 0)) [
        | inl unasked ↦
            rw (do_rt_sigaction, fine, unasked)
              (set_action-IsGuarded memory processes pid signum act sigsetsize [] good p)
        | inr asked ↦ elim (Option-cases (lookup pid processes)) [
          | inl missing ↦ rw (do_rt_sigaction, fine, asked, missing) (good p)
          | inr (process, here) ↦
              elim (Result-cases
                (write_sigaction memory oldact (signal_action process.sighand signum) sigsetsize)) [
                  | inr (e, failed) ↦ rw (do_rt_sigaction, fine, asked, here, failed) (good p)
                  | inl (writes, written) ↦
                      rw (do_rt_sigaction, fine, asked, here, written)
                        (set_action-IsGuarded memory processes pid signum act sigsetsize writes good
                          p)
                ]
        ]
      ]
    ]
