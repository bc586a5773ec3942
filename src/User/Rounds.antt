-- ===== src/User/Rounds.antt =====
-- ape/user.rs: one round of `strncpy_from_user`.
use mathlib.Core.Path.{subst}
use ape.Base.{
  ℕ, zero, suc, ◌+◌, ◌-◌, ◌≤◌, ◌<◌, ◌≡◌, refl, ap, ◌∙◌, true, false, List, arith, min, ◌==◌, ok,
  usize_max,
}
use ape.Memory.State.{Platform, MemoryMap}
use ape.Memory.Layout.{IsLaidOut}
use ape.User.{SharedPagePool, Kernel, acquire}
use ape.User.Copy.{UserAccessSession, lookup_map, bytes_at, shown}
use ape.User.Pool.{IsPool}
use ape.User.Acquire.{IsWilling, acquire_lem}
use ape.User.Reading.{user_byte, Allows, lookup_map_allowed, read_chunk}
use ape.User.Strings.{pushed, until_nul, take_text, text_of_slot, text_of_map, strncpy_loop}

pub until_nul_none :
    (f : ℕ → ℕ) (start c : ℕ)
    → ((k : ℕ) → k < c → (f (start + k) == 0) ≡ false)
    → until_nul (bytes_at f start c) ≡ (bytes_at f start c, false)
unfolding until_nul bytes_at
until_nul_none f start zero some_text = refl
until_nul_none f start (suc c) some_text =
    let here : start + 0 ≡ start = omega arith in
    let first : (f start == 0) ≡ false =
      subst (λ a. (f a == 0) ≡ false) here (some_text 0 (omega arith)) in
    rw (first) (
      ap (pushed (f start)) (
        until_nul_none f (suc start) c (λ k low.
          let place : start + suc k ≡ suc start + k = omega arith in
          subst (λ a. (f a == 0) ≡ false) place (some_text (suc k) (omega arith)))))

pub until_nul_found :
    (f : ℕ → ℕ) (start n c : ℕ)
    → n < c
    → ((k : ℕ) → k < n → (f (start + k) == 0) ≡ false)
    → (f (start + n) == 0) ≡ true
    → until_nul (bytes_at f start c) ≡ (bytes_at f start n, true)
unfolding until_nul bytes_at
until_nul_found f start n zero within some_text nul = absurd (omega (arith, within))
until_nul_found f start zero (suc c) within some_text nul =
    let here : start + 0 ≡ start = omega arith in
    let first : (f start == 0) ≡ true = subst (λ a. (f a == 0) ≡ true) here nul in rw (first) refl
until_nul_found f start (suc n) (suc c) within some_text nul =
    let here : start + 0 ≡ start = omega arith in
    let first : (f start == 0) ≡ false =
      subst (λ a. (f a == 0) ≡ false) here (some_text 0 (omega arith)) in
    let last : start + suc n ≡ suc start + n = omega arith in
    rw (first) (
      ap (pushed (f start)) (
        until_nul_found f (suc start) n c (omega (arith, within))
          (λ k low.
            let place : start + suc k ≡ suc start + k = omega arith in
            subst (λ a. (f a == 0) ≡ false) place (some_text (suc k) (omega arith)))
          (subst (λ a. (f a == 0) ≡ true) last nul)))

text_step :
    (kernel : Kernel) (p : Platform) (pid fuel : ℕ) (s : UserAccessSession) (out : List ℕ)
    (cursor left slot : ℕ) (map : MemoryMap) (pool : SharedPagePool)
    → lookup_map kernel p pid s cursor p.perm_read ≡ (ok map, s)
    → acquire kernel p s.pool map p.perm_read ≡ (ok slot, pool)
    → (min (map.size - (cursor - map.vaddr)) (suc left) == 0) ≡ false
    → strncpy_loop kernel p pid (suc fuel) s out cursor (suc left)
      ≡ take_text
          (strncpy_loop kernel p pid fuel)
          (record s { pool = pool })
          out
          cursor
          (min (map.size - (cursor - map.vaddr)) (suc left))
          (suc left)
          (until_nul (
            bytes_at
              (s.frames (shown pool slot))
              (cursor - map.vaddr)
              (min (map.size - (cursor - map.vaddr)) (suc left))))
unfolding strncpy_loop text_of_map text_of_slot
text_step kernel p pid fuel s out cursor left slot map pool found acquired some_left =
    rw (strncpy_loop, found, text_of_map, some_left, acquired, text_of_slot) refl

-- A round at an address that is allowed: it takes at least one byte, and the text of what it takes.
pub text_round :
    (kernel : Kernel) (p : Platform) (pid fuel : ℕ) (s : UserAccessSession) (out : List ℕ)
    (cursor left : ℕ)
    → IsWilling kernel
    → IsLaidOut 0 s.mm.memory_maps
    → IsPool s.pool
    → cursor < usize_max
    → Allows p.perm_read s cursor
    → (available : ℕ) × (pool : SharedPagePool) × (0 < available)
      × (available ≤ suc left)
      × IsPool pool
      × (strncpy_loop kernel p pid (suc fuel) s out cursor (suc left)
          ≡ take_text
              (strncpy_loop kernel p pid fuel)
              (record s { pool = pool })
              out
              cursor
              available
              (suc left)
              (until_nul (bytes_at (user_byte s) cursor available)))
text_round kernel p pid fuel s out cursor left willing laid good small allowed =
    let map = allowed.0 in
    let low : map.vaddr ≤ cursor = allowed.2 in
    let high : cursor < map.vaddr + map.size = allowed.3 in
    let available = min (map.size - (cursor - map.vaddr)) (suc left) in
    let (slot, pool, acquired, still, shows) =
      acquire_lem kernel p s.pool map p.perm_read willing good in
    (
      available,
      pool,
      ground (arith, low, high),
      ground (arith, low),
      still,
      text_step kernel p pid fuel s out cursor left slot map pool
            (lookup_map_allowed kernel p pid s cursor p.perm_read small allowed) acquired
            (ground (arith, low, high))
          ∙ ap
              (λ bytes.
                take_text (strncpy_loop kernel p pid fuel) (record s { pool = pool }) out cursor
                  available (suc left) (until_nul bytes))
              (read_chunk s p.perm_read cursor (suc left) slot pool laid allowed shows),
    )
