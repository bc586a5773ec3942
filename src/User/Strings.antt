-- ===== src/User/Strings.antt =====
-- ape/user.rs: strings of user memory, and the input of execve.
use ape.Base.{
  ℕ, zero, suc, ◌+◌, ◌-◌, ◌*◌, Bool, true, false, ◌&&◌, Option, none, some, List, [], ◌∷◌, ◌++◌,
  min, ltb, leb, ◌==◌, if◌then◌else◌, Result, ok, err, invalid_address, invalid_args,
  message_too_long, saturating_add, usize_max, from_bytes,
}
use ape.Memory.State.{Platform, MemoryMap}
use ape.User.{SharedPagePool, Kernel, acquire}
use ape.User.Copy.{UserAccessSession, lookup_map, bytes_at, shown, copy_from_user}

abbrev pub user_path_max : ℕ
user_path_max = 4096

abbrev pub user_exec_argv_max : ℕ
user_exec_argv_max = 256

abbrev pub user_exec_envp_max : ℕ
user_exec_envp_max = 256

abbrev pub user_exec_string_max : ℕ
user_exec_string_max = 4096

-- An answer and the session afterwards; `none` is for a loop that ran out of fuel.
abbrev pub Run {ℓ} : Type ℓ → Type ℓ
Run A = Option (Result A × UserAccessSession)

-- `?`.
unfoldable pub and_then {ℓ} : {A B : Type ℓ} → Run A → (A → UserAccessSession → Run B) → Run B
and_then none next = none
and_then (some (err e, s)) next = some (err e, s)
and_then (some (ok a, s)) next = next a s

-- What follows a first byte in UTF-8: how many bytes, and the least and the greatest first one.
unfoldable pub followers : ℕ → Option (ℕ × ℕ × ℕ)
followers b =
    if ltb b 128
    then some (0, 128, 191)
    else if ltb b 194
    then none
    else if ltb b 224
    then some (1, 128, 191)
    else if b == 224
    then some (2, 160, 191)
    else if b == 237
    then some (2, 128, 159)
    else if ltb b 240
    then some (2, 128, 191)
    else if b == 240
    then some (3, 144, 191)
    else if ltb b 244
    then some (3, 128, 191)
    else if b == 244
    then some (3, 128, 143)
    else none

-- `String::from_utf8` accepts the bytes, when `pending` bytes of a character are still to come.
unfoldable pub is_utf8_from : ℕ → ℕ → ℕ → List ℕ → Bool
is_utf8_from pending low high [] = pending == 0
is_utf8_from zero low high (b ∷ bytes) = elim (followers b) [
  | none ↦ false
  | some (more, least, most) ↦ is_utf8_from more least most bytes
]
is_utf8_from (suc pending) low high (b ∷ bytes) =
    leb low b && leb b high && is_utf8_from pending 128 191 bytes

unfoldable pub from_utf8 : List ℕ → Result (List ℕ)
from_utf8 bytes = if is_utf8_from 0 128 191 bytes then ok bytes else err invalid_args

abbrev pub pushed : ℕ → List ℕ × Bool → List ℕ × Bool
pushed b (out, found_nul) = (b ∷ out, found_nul)

-- The bytes before the first NUL, and whether there is one.
unfoldable pub until_nul : List ℕ → List ℕ × Bool
until_nul [] = ([], false)
until_nul (b ∷ bytes) = if b == 0 then ([], true) else pushed b (until_nul bytes)

-- The end of a round. Without a NUL all `available` bytes of the round are consumed.
unfoldable pub take_text :
    (UserAccessSession → List ℕ → ℕ → ℕ → Run (List ℕ))
    → UserAccessSession
    → List ℕ
    → (cursor available left : ℕ) → List ℕ × Bool
    → Run (List ℕ)
take_text go s out cursor available left (text, true) = some (from_utf8 (out ++ text), s)
take_text go s out cursor available left (text, false) =
    go s (out ++ text) (saturating_add cursor available) (left - available)

unfoldable pub text_of_slot :
    (UserAccessSession → List ℕ → ℕ → ℕ → Run (List ℕ))
    → UserAccessSession
    → List ℕ
    → (cursor start available left : ℕ) → Result ℕ × SharedPagePool
    → Run (List ℕ)
text_of_slot go s out cursor start available left (err e, pool) =
    some (err e, record s { pool = pool })
text_of_slot go s out cursor start available left (ok slot, pool) =
    take_text go (record s { pool = pool }) out cursor available left
      (until_nul (bytes_at (s.frames (shown pool slot)) start available))

unfoldable pub text_of_map :
    Kernel
    → Platform
    → (UserAccessSession → List ℕ → ℕ → ℕ → Run (List ℕ))
    → List ℕ
    → (cursor left : ℕ) → Result MemoryMap × UserAccessSession
    → Run (List ℕ)
text_of_map kernel p go out cursor left (err e, s) = some (err e, s)
text_of_map kernel p go out cursor left (ok map, s) =
    let start = cursor - map.vaddr in
    let available = min (map.size - start) left in
    if available == 0
    then some (err message_too_long, s)
    else text_of_slot go s out cursor start available left (acquire kernel p s.pool map p.perm_read)

-- The loop of `strncpy_from_user`: `left` is `max_len - out.len()`.
unfoldable pub strncpy_loop :
    Kernel → Platform → ℕ → ℕ → UserAccessSession → List ℕ → ℕ → ℕ → Run (List ℕ)
strncpy_loop kernel p pid zero s out cursor zero = some (err message_too_long, s)
strncpy_loop kernel p pid zero s out cursor (suc left) = none
strncpy_loop kernel p pid (suc fuel) s out cursor zero = some (err message_too_long, s)
strncpy_loop kernel p pid (suc fuel) s out cursor (suc left) =
    text_of_map kernel p (strncpy_loop kernel p pid fuel) out cursor (suc left)
      (lookup_map kernel p pid s cursor p.perm_read)

unfoldable pub strncpy_from_user : Kernel → Platform → ℕ → UserAccessSession → ℕ → ℕ → Run (List ℕ)
strncpy_from_user kernel p pid s user_src max_len =
    if user_src == 0
    then some (err invalid_address, s)
    else if max_len == 0
    then some (err invalid_args, s)
    else strncpy_loop kernel p pid max_len s [] user_src max_len

unfoldable pub read_user_usize : Kernel → Platform → ℕ → UserAccessSession → ℕ → Run ℕ
read_user_usize kernel p pid s user_src =
    and_then (copy_from_user kernel p pid s user_src 8)
      (λ buf after. some (ok (from_bytes buf), after))

-- The loop of `read_user_string_array`, from element `i` on, `count` of them at most.
unfoldable pub string_array_loop :
    Kernel
    → Platform
    → ℕ
    → (array_ptr max_str_len count i : ℕ) → List (List ℕ)
    → UserAccessSession
    → Run (List (List ℕ))
string_array_loop kernel p pid array_ptr max_str_len zero i out s = some (err message_too_long, s)
string_array_loop kernel p pid array_ptr max_str_len (suc count) i out s =
    if ltb usize_max (array_ptr + i * 8)
    then some (err invalid_address, s)
    else and_then (read_user_usize kernel p pid s (array_ptr + i * 8)) (λ elem_ptr after.
      if elem_ptr == 0
      then some (ok out, after)
      else and_then (strncpy_from_user kernel p pid after elem_ptr max_str_len) (λ text last.
        string_array_loop kernel p pid array_ptr max_str_len count (i + 1) (out ++ (text ∷ []))
          last))

unfoldable pub read_user_string_array :
    Kernel
    → Platform
    → ℕ
    → UserAccessSession
    → (array_ptr max_count max_str_len : ℕ) → Run (List (List ℕ))
read_user_string_array kernel p pid s array_ptr max_count max_str_len =
    if array_ptr == 0
    then some (ok [], s)
    else string_array_loop kernel p pid array_ptr max_str_len max_count 0 [] s

pub record ExecveUserInput : Type 0 where
  pub filename : List ℕ
  pub argv : List (List ℕ)
  pub envp : List (List ℕ)

unfoldable pub parse_execve_user_input :
    Kernel
    → Platform
    → ℕ
    → UserAccessSession
    → (filename_ptr argv_ptr envp_ptr : ℕ) → Run ExecveUserInput
parse_execve_user_input kernel p pid s filename_ptr argv_ptr envp_ptr =
    and_then (strncpy_from_user kernel p pid s filename_ptr user_path_max) (λ filename s1.
      and_then
        (read_user_string_array kernel p pid s1 argv_ptr user_exec_argv_max user_exec_string_max)
        (λ argv s2.
          and_then
            (read_user_string_array kernel p pid s2 envp_ptr user_exec_envp_max
              user_exec_string_max)
            (λ envp s3. some (ok (record { filename = filename; argv = argv; envp = envp }), s3))))
