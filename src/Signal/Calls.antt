-- ===== src/Signal/Calls.antt =====
-- system/signal.rs: the calls on signal actions and masks. What a process has is its signal state and
-- its actions. User memory (ape/user.rs) is a record of what it answers; a call gives the list of its
-- writes, of address and bytes, that were taken.
use ape.Base.{
  ℕ, ◌+◌, ◌-◌, ◌*◌, ◌^◌, Bool, not, ◌&&◌, ◌||◌, none, some, List, [], ◌∷◌, ◌++◌, Map, lookup,
  insert, length, take, drop, min, ltb, leb, ◌==◌, if◌then◌else◌, Result, ok, err, not_found,
  invalid_args, invalid_address, out_of_memory, ℤ, pos, negsuc, is_neg, unsigned_abs, usize_max,
  saturating_add, to_bytes, from_bytes, zeros,
}
use ape.Signal.{
  SignalAction, SignalStruct, Sighand, signal_max, sigkill, sigstop, signal_unblockable_mask,
  and_not, signal_action,
}

abbrev pub sigaction_head_len : ℕ
sigaction_head_len = 24

abbrev pub sigset_bytes : ℕ
sigset_bytes = 8

abbrev pub siginfo_compat_size : ℕ
siginfo_compat_size = 128

abbrev pub nsec_per_sec : ℕ
nsec_per_sec = 1000000000

abbrev pub signal_wait_fallback_ns : ℕ
signal_wait_fallback_ns = 2 * nsec_per_sec

-- `-EINVAL`, `-EAGAIN` and `-EINTR`.
abbrev pub einval : ℤ
einval = negsuc 21

abbrev pub eagain : ℤ
eagain = negsuc 10

abbrev pub eintr : ℤ
eintr = negsuc 3

pub record Process : Type 0 where
  pub signal : SignalStruct
  pub sighand : Sighand

pub record UserMemory : Type 0 where
  pub read : ℕ → ℕ → Result (List ℕ)
  pub write : ℕ → List ℕ → Result (Unit {0})

abbrev pub Writes : Type 0
Writes = List (ℕ × List ℕ)

-- What a call returns, leaves and writes.
abbrev pub Outcome : Type 0
Outcome = Result ℤ × Map Process × Writes

-- The `?` of Rust.
unfoldable pub and_then {ℓ κ} : {A : Type ℓ} {B : Type κ} → Result A → (A → Result B) → Result B
and_then (ok a) next = next a
and_then (err e) next = err e

unfoldable pub is_valid_signal : ℕ → Bool
is_valid_signal signum = leb 1 signum && leb signum signal_max

unfoldable pub has_valid_sigset_size : ℕ → Bool
has_valid_sigset_size sigsetsize = sigsetsize == sigset_bytes

unfoldable pub read_usize_from : List ℕ → ℕ → Result ℕ
read_usize_from bytes start =
    if ltb usize_max (start + 8)
    then err out_of_memory
    else if ltb (length bytes) (start + 8)
    then err invalid_args
    else ok (from_bytes (take 8 (drop start bytes)))

unfoldable pub write_usize_to : List ℕ → ℕ → ℕ → Result (List ℕ)
write_usize_to bytes start value =
    if ltb usize_max (start + 8)
    then err out_of_memory
    else if ltb (length bytes) (start + 8)
    then err invalid_args
    else ok (take start bytes ++ to_bytes 8 value ++ drop (start + 8) bytes)

unfoldable pub import_sigset : UserMemory → ℕ → ℕ → Result ℕ
import_sigset memory user_ptr sigsetsize =
    if not (has_valid_sigset_size sigsetsize)
    then err invalid_args
    else if user_ptr == 0
    then err invalid_address
    else and_then (memory.read user_ptr sigsetsize)
        (λ buf. ok (from_bytes (take (min 8 (length buf)) buf ++ zeros (8 - length buf))))

unfoldable pub export_sigset : ℕ → ℕ → Result (List ℕ)
export_sigset mask sigsetsize =
    if not (has_valid_sigset_size sigsetsize)
    then err invalid_args
    else ok (take (min 8 sigsetsize) (to_bytes 8 mask) ++ zeros (sigsetsize - 8))

pub record Timespec : Type 0 where
  pub tv_sec : ℤ
  pub tv_nsec : ℤ

unfoldable pub timespec_to_ns : Timespec → Result ℕ
timespec_to_ns ts =
    if is_neg ts.tv_sec || (is_neg ts.tv_nsec || leb nsec_per_sec (unsigned_abs ts.tv_nsec))
    then err invalid_args
    else if ltb usize_max (unsigned_abs ts.tv_sec * nsec_per_sec)
    then err out_of_memory
    else if ltb usize_max (unsigned_abs ts.tv_sec * nsec_per_sec + unsigned_abs ts.tv_nsec)
    then err out_of_memory
    else ok (unsigned_abs ts.tv_sec * nsec_per_sec + unsigned_abs ts.tv_nsec)

-- A word of 64 bits in two's complement.
abbrev pub signed : ℕ → ℤ
signed w = if ltb w (2 ^ 63) then pos w else negsuc (2 ^ 64 - 1 - w)

unfoldable pub read_user_timespec : UserMemory → ℕ → Result Timespec
read_user_timespec memory ptr = and_then (memory.read ptr 16) (λ raw. ok (record {
  tv_sec = signed (from_bytes (take 8 raw));
  tv_nsec = signed (from_bytes (take 8 (drop 8 raw)));
}))

-- `now` is what the clock answers.
unfoldable pub parse_timeout_deadline : UserMemory → Result ℕ → ℕ → Result ℕ
parse_timeout_deadline memory now timeout_ptr = and_then now (λ t.
    if timeout_ptr == 0
    then ok (saturating_add t signal_wait_fallback_ns)
    else and_then (read_user_timespec memory timeout_ptr)
        (λ ts. and_then (timespec_to_ns ts) (λ timeout_ns. ok (saturating_add t timeout_ns))))

-- The bytes of an action, and an action from bytes.
unfoldable pub sigaction_bytes : SignalAction → ℕ → Result (List ℕ)
sigaction_bytes action sigsetsize =
    if ltb usize_max (sigaction_head_len + sigsetsize)
    then err out_of_memory
    else and_then (write_usize_to (zeros (sigaction_head_len + sigsetsize)) 0 action.handler)
        (λ one. and_then (write_usize_to one 8 action.flags) (λ two.
          and_then (write_usize_to two 16 action.restorer) (λ out. ok (
            take sigaction_head_len out
            ++ take (min 8 sigsetsize) (to_bytes 8 action.mask)
            ++ drop (sigaction_head_len + min 8 sigsetsize) out))))

unfoldable pub sigaction_of : List ℕ → Result SignalAction
sigaction_of raw = and_then (read_usize_from raw 0) (λ handler.
    and_then (read_usize_from raw 8) (λ flags. and_then (read_usize_from raw 16) (λ restorer.
      let body = drop sigaction_head_len raw in
      ok (record {
        handler = handler;
        flags = flags;
        restorer = restorer;
        mask = from_bytes (take (min 8 (length body)) body ++ zeros (8 - length body));
      }))))

unfoldable pub read_sigaction : UserMemory → ℕ → ℕ → Result SignalAction
read_sigaction memory act sigsetsize =
    if act == 0
    then err invalid_address
    else if ltb usize_max (sigaction_head_len + sigsetsize)
    then err out_of_memory
    else and_then (memory.read act (sigaction_head_len + sigsetsize)) sigaction_of

unfoldable pub write_sigaction : UserMemory → ℕ → SignalAction → ℕ → Result Writes
write_sigaction memory oldact action sigsetsize =
    if oldact == 0
    then ok []
    else and_then (sigaction_bytes action sigsetsize)
        (λ out. and_then (memory.write oldact out) (λ done. ok ((oldact, out) ∷ [])))

-- The new action of `do_rt_sigaction`, after the old one is written.
unfoldable pub set_action : UserMemory → Map Process → ℕ → ℕ → ℕ → ℕ → Writes → Outcome
set_action memory processes pid signum act sigsetsize writes =
    if act == 0
    then (ok (pos 0), processes, writes)
    else if signum == sigkill || signum == sigstop
    then (ok einval, processes, writes)
    else elim (read_sigaction memory act sigsetsize) [
      | err e ↦ (err e, processes, writes)
      | ok action ↦ elim (lookup pid processes) [
        | none ↦ (err not_found, processes, writes)
        | some process ↦
            let masked = record action { mask = and_not action.mask signal_unblockable_mask } in
            (
              ok (pos 0),
              insert pid (record process { sighand = insert signum masked process.sighand })
                  processes,
              writes,
            )
      ]
    ]

unfoldable pub do_rt_sigaction : UserMemory → Map Process → ℕ → ℕ → ℕ → ℕ → ℕ → Outcome
do_rt_sigaction memory processes pid signum act oldact sigsetsize =
    if not (is_valid_signal signum) || not (has_valid_sigset_size sigsetsize)
    then (ok einval, processes, [])
    else if oldact == 0
    then set_action memory processes pid signum act sigsetsize []
    else elim (lookup pid processes) [
      | none ↦ (err not_found, processes, [])
      | some process ↦
          elim (write_sigaction memory oldact (signal_action process.sighand signum) sigsetsize) [
            | err e ↦ (err e, processes, [])
            | ok writes ↦ set_action memory processes pid signum act sigsetsize writes
          ]
    ]
