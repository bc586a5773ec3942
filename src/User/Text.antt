-- ===== src/User/Text.antt =====
-- ape/user.rs, `strncpy_from_user`: it reads the text before the first NUL.
use mathlib.Core.Path.{subst}
use ape.Base.{
  ℕ, zero, suc, ◌+◌, ◌-◌, ◌≤◌, ◌<◌, ◌≡◌, sym, ap, ◌∙◌, inl, inr, true, false, some, List, [], ◌++◌,
  append_assoc, arith, ltb, ◌==◌, Bool-cases, saturating_add, usize_max,
}
use ape.Memory.State.{Platform}
use ape.Memory.Layout.{IsLaidOut}
use ape.User.{SharedPagePool, Kernel}
use ape.User.Copy.{UserAccessSession, bytes_at}
use ape.User.Pool.{IsPool}
use ape.User.Acquire.{IsWilling}
use ape.User.Reading.{user_byte, Allows, bytes_at-add}
use ape.User.Strings.{from_utf8, until_nul, take_text, strncpy_loop, strncpy_from_user}
use ape.User.Rounds.{until_nul_none, until_nul_found, text_round}

-- A text at an address: readable bytes that are not NUL, and a readable NUL behind them.
pub record IsText (p : Platform) (s : UserAccessSession) (cursor n : ℕ) : Type 0 where
  pub readable : (k : ℕ) → k < suc n → Allows p.perm_read s (cursor + k)
  pub text : (k : ℕ) → k < n → (user_byte s (cursor + k) == 0) ≡ false
  pub nul : (user_byte s (cursor + n) == 0) ≡ true

-- What is left of a text after some of it.
later-IsText :
    (p : Platform) (s : UserAccessSession) (cursor n c : ℕ)
    → c ≤ n
    → IsText p s cursor n
    → IsText p s (cursor + c) (n - c)
later-IsText p s cursor n c within t = record {
  readable = λ k low.
      let place : cursor + (c + k) ≡ cursor + c + k = omega arith in
      subst (Allows p.perm_read s) place (t.readable (c + k) (omega (arith, low, within)));
  text = λ k low.
      let place : cursor + (c + k) ≡ cursor + c + k = omega arith in
      subst (λ a. (user_byte s a == 0) ≡ false) place (t.text (c + k) (omega (arith, low)));
  nul =
      let place : cursor + n ≡ cursor + c + (n - c) = omega (arith, within) in
      subst (λ a. (user_byte s a == 0) ≡ true) place t.nul;
}

-- The pool does not matter for a text.
pooled-IsText :
    (p : Platform) (s : UserAccessSession) (cursor n : ℕ) (pool : SharedPagePool)
    → IsText p s cursor n
    → IsText p (record s { pool = pool }) cursor n
pooled-IsText p s cursor n pool t = record { readable = t.readable; text = t.text; nul = t.nul }

text_ends :
    (kernel : Kernel) (p : Platform) (pid fuel : ℕ) (s : UserAccessSession) (out : List ℕ)
    (cursor n available left : ℕ) (pool : SharedPagePool)
    → n < available
    → IsText p s cursor n
    → take_text
        (strncpy_loop kernel p pid fuel)
        (record s { pool = pool })
        out
        cursor
        available
        (suc left)
        (until_nul (bytes_at (user_byte s) cursor available))
      ≡ some (from_utf8 (out ++ bytes_at (user_byte s) cursor n), record s { pool = pool })
unfolding take_text
text_ends kernel p pid fuel s out cursor n available left pool within t =
    ap
      (take_text (strncpy_loop kernel p pid fuel) (record s { pool = pool }) out cursor available
        (suc left))
      (until_nul_found (user_byte s) cursor n available within t.text t.nul)

text_goes_on :
    (kernel : Kernel) (p : Platform) (pid fuel : ℕ) (s : UserAccessSession) (out : List ℕ)
    (cursor n available left : ℕ) (pool : SharedPagePool)
    → available ≤ n
    → cursor + available ≤ usize_max
    → IsText p s cursor n
    → take_text
        (strncpy_loop kernel p pid fuel)
        (record s { pool = pool })
        out
        cursor
        available
        (suc left)
        (until_nul (bytes_at (user_byte s) cursor available))
      ≡ strncpy_loop kernel p pid fuel
          (record s { pool = pool })
          (out ++ bytes_at (user_byte s) cursor available)
          (cursor + available)
          (suc left - available)
unfolding take_text
text_goes_on kernel p pid fuel s out cursor n available left pool within small t =
    let next : saturating_add cursor available ≡ cursor + available = ground (arith, small) in
    ap
      (take_text (strncpy_loop kernel p pid fuel) (record s { pool = pool }) out cursor available
        (suc left))
      (until_nul_none (user_byte s) cursor available
        (λ k low. t.text k (omega (arith, low, within))))
    ∙ ap
        (λ c.
          strncpy_loop kernel p pid fuel (record s { pool = pool })
            (out ++ bytes_at (user_byte s) cursor available) c (suc left - available))
        next

joined :
    (f : ℕ → ℕ) (out : List ℕ) (cursor n c : ℕ)
    → c ≤ n
    → (out ++ bytes_at f cursor c) ++ bytes_at f (cursor + c) (n - c) ≡ out ++ bytes_at f cursor n
joined f out cursor n c within =
    let all : c + (n - c) ≡ n = omega (arith, within) in
    append_assoc out (bytes_at f cursor c) (bytes_at f (cursor + c) (n - c))
    ∙ ap (λ bytes. out ++ bytes)
        (sym (bytes_at-add f cursor c (n - c)) ∙ ap (bytes_at f cursor) all)

strncpy_loop_reads :
    (kernel : Kernel) (p : Platform) (pid fuel : ℕ) (s : UserAccessSession) (out : List ℕ)
    (cursor n left : ℕ)
    → IsWilling kernel
    → IsLaidOut 0 s.mm.memory_maps
    → IsPool s.pool
    → cursor + left ≤ usize_max
    → left ≤ fuel
    → n < left
    → IsText p s cursor n
    → (pool : SharedPagePool) × (strncpy_loop kernel p pid fuel s out cursor left
        ≡ some (from_utf8 (out ++ bytes_at (user_byte s) cursor n), record s { pool = pool }))
strncpy_loop_reads kernel p pid fuel s out cursor n zero willing laid good small enough room t =
    absurd (omega (arith, room))
strncpy_loop_reads kernel p pid zero s out cursor n (suc left) willing laid good small enough room
      t =
    absurd (omega (arith, enough))
strncpy_loop_reads kernel p pid (suc fuel) s out cursor n (suc left) willing laid good small enough
      room t =
    let here : cursor + 0 ≡ cursor = omega arith in
    let (available, pool, least, most, still, round) =
      text_round kernel p pid fuel s out cursor left willing laid good (omega (arith, small))
        (subst (Allows p.perm_read s) here (t.readable 0 (omega arith))) in
    elim (Bool-cases (ltb n available)) [
      | inl short ↦ (
        pool,
        round
            ∙ text_ends kernel p pid fuel s out cursor n available left pool (ground (arith, short))
                t,
      )
      | inr long ↦
          let within : available ≤ n = ground (arith, long) in
          let (last, rest) =
            strncpy_loop_reads kernel p pid fuel (record s { pool = pool })
              (out ++ bytes_at (user_byte s) cursor available) (cursor + available) (n - available)
              (suc left - available) willing laid still (omega (arith, small, most))
              (omega (arith, enough, least)) (omega (arith, room, within))
              (pooled-IsText p s (cursor + available) (n - available) pool
                (later-IsText p s cursor n available within t)) in
          (
            last,
            round
                ∙ text_goes_on kernel p pid fuel s out cursor n available left pool within
                    (omega (arith, small, most)) t
                ∙ rest
                ∙ ap (λ bytes. some (from_utf8 bytes, record s { pool = last }))
                    (joined (user_byte s) out cursor n available within),
          )
    ]

-- Reading a string gives exactly the bytes before its first NUL, across as many maps as it has, or the
-- error for bytes that are not UTF-8; it changes nothing but the pool. The bytes and the NUL are
-- readable, the string is shorter than the limit, the kernel shows every frame, the maps are laid out,
-- the pool is well formed, and the limit is not past the addresses.
pub strncpy_from_user_reads :
    (kernel : Kernel) (p : Platform) (pid : ℕ) (s : UserAccessSession) (user_src n max_len : ℕ)
    → IsWilling kernel
    → IsLaidOut 0 s.mm.memory_maps
    → IsPool s.pool
    → 0 < user_src
    → user_src + max_len ≤ usize_max
    → n < max_len
    → IsText p s user_src n
    → (pool : SharedPagePool) × (strncpy_from_user kernel p pid s user_src max_len
        ≡ some (from_utf8 (bytes_at (user_byte s) user_src n), record s { pool = pool }))
unfolding strncpy_from_user
strncpy_from_user_reads kernel p pid s user_src n max_len willing laid good real small room t =
    let some_address : (user_src == 0) ≡ false = ground (arith, real) in
    let some_room : (max_len == 0) ≡ false = ground (arith, room) in
    rw (strncpy_from_user, some_address, some_room)
      (strncpy_loop_reads kernel p pid max_len s [] user_src n max_len willing laid good small
        (omega arith) room t)
