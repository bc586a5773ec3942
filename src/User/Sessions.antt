-- ===== src/User/Sessions.antt =====
-- ape/user.rs, `impl ApeManager`: one session for each copy.
use ape.Base.{
  ℕ, zero, suc, ◌+◌, ◌-◌, ◌%◌, ◌^◌, ◌||◌, none, some, List, min, ◌==◌, if◌then◌else◌, Result, ok,
  err, zeros,
}
use ape.Memory.State.{Platform}
use ape.User.{SharedPagePool, Kernel, new, release_all}
use ape.User.Copy.{UserAccessSession, copy_from_user, copy_to_user}
use ape.User.Strings.{Run, strncpy_from_user, ExecveUserInput, parse_execve_user_input}

-- An error of the body is first, then one of the clean-up.
unfoldable pub after_cleanup {ℓ} :
    {A : Type ℓ}
    → Result A
    → UserAccessSession
    → Result (Unit {0}) × SharedPagePool
    → Result A × UserAccessSession
after_cleanup (err e) s (cleanup, pool) = (err e, record s { pool = pool })
after_cleanup (ok v) s (err e, pool) = (err e, record s { pool = pool })
after_cleanup (ok v) s (ok done, pool) = (ok v, record s { pool = pool })

unfoldable pub finish_session {ℓ} : {A : Type ℓ} → Kernel → Run A → Run A
finish_session kernel none = none
finish_session kernel (some (result, s)) = some (after_cleanup result s (release_all kernel s.pool))

-- The pool of the argument is not used: a session has a new one.
unfoldable pub with_user_session {ℓ} :
    {A : Type ℓ} → Kernel → (UserAccessSession → Run A) → UserAccessSession → Run A
with_user_session kernel body s = finish_session kernel (body (record s { pool = new }))

unfoldable pub manager_copy_from_user :
    Kernel → Platform → ℕ → UserAccessSession → ℕ → ℕ → Run (List ℕ)
manager_copy_from_user kernel p pid s user_src count =
    with_user_session kernel (λ sess. copy_from_user kernel p pid sess user_src count) s

unfoldable pub manager_copy_to_user :
    Kernel → Platform → ℕ → UserAccessSession → ℕ → List ℕ → Run (Unit {0})
manager_copy_to_user kernel p pid s user_dst src =
    with_user_session kernel (λ sess. copy_to_user kernel p pid sess user_dst src) s

unfoldable pub manager_strncpy_from_user :
    Kernel → Platform → ℕ → UserAccessSession → ℕ → ℕ → Run (List ℕ)
manager_strncpy_from_user kernel p pid s user_src max_len =
    with_user_session kernel (λ sess. strncpy_from_user kernel p pid sess user_src max_len) s

unfoldable pub manager_parse_execve_user_input :
    Kernel → Platform → ℕ → UserAccessSession → ℕ → ℕ → ℕ → Run ExecveUserInput
manager_parse_execve_user_input kernel p pid s filename_ptr argv_ptr envp_ptr =
    with_user_session kernel
      (λ sess. parse_execve_user_input kernel p pid sess filename_ptr argv_ptr envp_ptr) s

-- The loop of `write_zeros_to_user` with `left` bytes to write; a round writes one at least. The
-- address of a round wraps around.
unfoldable pub zeros_loop :
    Kernel → Platform → ℕ → ℕ → ℕ → ℕ → ℕ → UserAccessSession → Run (Unit {0})
zeros_loop kernel p pid user_ptr fuel at zero s = some (ok tt, s)
zeros_loop kernel p pid user_ptr zero at (suc left) s = none
zeros_loop kernel p pid user_ptr (suc fuel) at (suc left) s =
    let chunk = min (suc left) 64 in
    elim (manager_copy_to_user kernel p pid s ((user_ptr + at) % 2 ^ 64) (zeros chunk)) [
      | none ↦ none
      | some (err e, after) ↦ some (err e, after)
      | some (ok done, after) ↦
          zeros_loop kernel p pid user_ptr fuel (at + chunk) (suc left - chunk) after
    ]

unfoldable pub write_zeros_to_user :
    Kernel → Platform → ℕ → UserAccessSession → ℕ → ℕ → Run (Unit {0})
write_zeros_to_user kernel p pid s user_ptr len =
    if user_ptr == 0 || len == 0
    then some (ok tt, s)
    else zeros_loop kernel p pid user_ptr len 0 len s
