-- ===== src/User/Reading.antt =====
-- ape/user.rs, `copy_from_user`: it reads what the maps of the process show.
use mathlib.Core.Path.{subst}
use ape.Base.{
  ℕ, zero, suc, ◌+◌, ◌-◌, ◌≤◌, ◌<◌, ◌≡◌, refl, sym, ap, ◌∙◌, true, false, ◌||◌, none, some, List,
  [], ◌∷◌, ◌++◌, arith, Map, min, ltb, leb, ◌==◌, ok, saturating_add, usize_max,
}
use ape.Memory.State.{Platform, MemoryMap, MmState, lookup_memory_map}
use ape.Memory.Layout.{IsLaidOut, first_covering, lookup_memory_map_lem}
use ape.User.{SharedPagePool, Kernel, allows, acquire}
use ape.User.Copy.{
  UserAccessSession, check_map, lookup_map, bytes_at, shown, copy_from_loop, copy_from_user,
  read_map, read_slot, prepend,
}
use ape.User.Pool.{IsPool}
use ape.User.Acquire.{IsWilling, acquire_lem}

-- The byte of a process at an address: the byte of the frame of the map there.
abbrev pub user_byte : UserAccessSession → ℕ → ℕ
user_byte s address = elim (lookup_memory_map s.mm address) [
  | none ↦ 0
  | some map ↦ s.frames map.frame_cap (address - map.vaddr)
]

-- An address with a map that holds it and allows an access.
abbrev pub Allows : ℕ → UserAccessSession → ℕ → Type 0
Allows required s address =
    (map : MemoryMap) × (lookup_memory_map s.mm address ≡ some map)
    × (map.vaddr ≤ address)
    × (address < map.vaddr + map.size)
    × ((map.frame_cap == 0) ≡ false)
    × (allows map.flags required ≡ true)

pub bytes_at-add :
    (f : ℕ → ℕ) (start n k : ℕ)
    → bytes_at f start (n + k) ≡ bytes_at f start n ++ bytes_at f (start + n) k
unfolding bytes_at
bytes_at-add f start zero k =
    let sum : zero + k ≡ k = omega arith in
    let same : start ≡ start + zero = omega arith in
    ap (bytes_at f start) sum ∙ ap (λ c. bytes_at f c k) same
bytes_at-add f start (suc n) k =
    let sum : suc n + k ≡ suc (n + k) = omega arith in
    let later : suc start + n ≡ start + suc n = omega arith in
    ap (bytes_at f start) sum
    ∙ ap (λ t. f start ∷ t)
        (bytes_at-add f (suc start) n k
          ∙ ap (λ c. bytes_at f (suc start) n ++ bytes_at f c k) later)

same_bytes :
    (f g : ℕ → ℕ) (a b n : ℕ)
    → ((k : ℕ) → k < n → f (a + k) ≡ g (b + k))
    → bytes_at f a n ≡ bytes_at g b n
unfolding bytes_at
same_bytes f g a b zero alike = refl
same_bytes f g a b (suc n) alike =
    let first : f a ≡ g b = ap f (omega arith) ∙ alike 0 (omega arith) ∙ ap g (omega arith) in
    rw
      (
        first,
        same_bytes f g (suc a) (suc b) n
            (λ k low. ap f (omega arith) ∙ alike (suc k) (omega arith) ∙ ap g (omega arith)),
      )
      refl

first_covering_above :
    (from : ℕ) (maps : Map MemoryMap) (a : ℕ) (map : MemoryMap)
    → IsLaidOut from maps
    → first_covering maps a ≡ some map
    → from ≤ map.vaddr
unfolding first_covering
first_covering_above from [] a map laid found = ground (arith, found)
first_covering_above from ((at, m) ∷ maps) a map laid found =
    ground (arith, laid, found, first_covering_above (m.vaddr + m.size) maps a map laid.3)

-- All addresses that a map holds find it.
first_covering_same :
    (from : ℕ) (maps : Map MemoryMap) (a b : ℕ) (map : MemoryMap)
    → IsLaidOut from maps
    → first_covering maps a ≡ some map
    → map.vaddr ≤ b
    → b < map.vaddr + map.size
    → first_covering maps b ≡ some map
unfolding first_covering
first_covering_same from [] a b map laid found low high = ground (arith, found)
first_covering_same from ((at, m) ∷ maps) a b map laid found low high = ground (
  arith,
  laid,
  found,
  first_covering_same (m.vaddr + m.size) maps a b map laid.3,
  first_covering_above (m.vaddr + m.size) maps a map laid.3,
)

lookup_memory_map_same :
    (mm : MmState) (a b : ℕ) (map : MemoryMap)
    → IsLaidOut 0 mm.memory_maps
    → lookup_memory_map mm a ≡ some map
    → map.vaddr ≤ b
    → b < map.vaddr + map.size
    → lookup_memory_map mm b ≡ some map
lookup_memory_map_same mm a b map laid found low high =
    lookup_memory_map_lem mm b laid
    ∙ first_covering_same 0 mm.memory_maps a b map laid
        (sym (lookup_memory_map_lem mm a laid) ∙ found) low high

pub lookup_map_allowed :
    (kernel : Kernel) (p : Platform) (pid : ℕ) (s : UserAccessSession) (address required : ℕ)
    → address < usize_max
    → (allowed : Allows required s address)
    → lookup_map kernel p pid s address required ≡ (ok allowed.0, s)
unfolding lookup_map check_map
lookup_map_allowed kernel p pid s address required small
      (map, found, low, high, framed, permitted) =
    let inside : (ltb address map.vaddr || leb (saturating_add map.vaddr map.size) address)
        ≡ false =
      ground (arith, low, high, small) in
    rw (lookup_map, found, framed, permitted, inside) refl

copy_from_step :
    (kernel : Kernel) (p : Platform) (pid fuel : ℕ) (s last : UserAccessSession)
    (cursor left slot : ℕ) (map : MemoryMap) (pool : SharedPagePool) (bytes : List ℕ)
    → lookup_map kernel p pid s cursor p.perm_read ≡ (ok map, s)
    → acquire kernel p s.pool map p.perm_read ≡ (ok slot, pool)
    → (min (map.size - (cursor - map.vaddr)) (suc left) == 0) ≡ false
    → copy_from_loop kernel p pid fuel
        (record s { pool = pool })
        (saturating_add cursor (min (map.size - (cursor - map.vaddr)) (suc left)))
        (suc left - min (map.size - (cursor - map.vaddr)) (suc left))
      ≡ some (ok bytes, last)
    → copy_from_loop kernel p pid (suc fuel) s cursor (suc left)
      ≡ some (
        ok (
            bytes_at
              (s.frames (shown pool slot))
              (cursor - map.vaddr)
              (min (map.size - (cursor - map.vaddr)) (suc left))
            ++ bytes),
        last,
      )
unfolding copy_from_loop read_map read_slot prepend
copy_from_step kernel p pid fuel s last cursor left slot map pool bytes found acquired some_left
      rest =
    rw (copy_from_loop, found, read_map, some_left, acquired, read_slot, rest) refl

-- A round reads the bytes of its addresses, and at least one.
pub read_chunk :
    (s : UserAccessSession) (required cursor left slot : ℕ) (pool : SharedPagePool)
    → IsLaidOut 0 s.mm.memory_maps
    → (allowed : Allows required s cursor) → (shown pool slot ≡ allowed.0.frame_cap)
    → bytes_at
        (s.frames (shown pool slot))
        (cursor - allowed.0.vaddr)
        (min (allowed.0.size - (cursor - allowed.0.vaddr)) left)
      ≡ bytes_at (user_byte s) cursor (min (allowed.0.size - (cursor - allowed.0.vaddr)) left)
read_chunk s required cursor left slot pool laid (map, found, low, high, framed, permitted) shows =
    rw (shows) (
      same_bytes (s.frames map.frame_cap) (user_byte s) (cursor - map.vaddr) cursor
        (min (map.size - (cursor - map.vaddr)) left)
        (λ k within.
          let short : k < map.size - (cursor - map.vaddr) = ground (arith, within) in
          let there : lookup_memory_map s.mm (cursor + k) ≡ some map =
            lookup_memory_map_same s.mm cursor (cursor + k) map laid found (omega (arith, low))
              (omega (arith, low, short)) in
          rw (user_byte, there) (ap (s.frames map.frame_cap) (omega (arith, low)))))

-- The loop, from any position.
copy_from_loop_reads :
    (kernel : Kernel) (p : Platform) (pid fuel : ℕ) (s : UserAccessSession) (cursor left : ℕ)
    → IsWilling kernel
    → IsLaidOut 0 s.mm.memory_maps
    → IsPool s.pool
    → cursor + left ≤ usize_max
    → left ≤ fuel
    → ((k : ℕ) → k < left → Allows p.perm_read s (cursor + k))
    → (pool : SharedPagePool) × IsPool pool
      × (copy_from_loop kernel p pid fuel s cursor left
          ≡ some (ok (bytes_at (user_byte s) cursor left), record s { pool = pool }))
unfolding copy_from_loop bytes_at
copy_from_loop_reads kernel p pid zero s cursor zero willing laid good small enough all =
    (s.pool, good, refl)
copy_from_loop_reads kernel p pid zero s cursor (suc left) willing laid good small enough all =
    absurd (omega (arith, enough))
copy_from_loop_reads kernel p pid (suc fuel) s cursor zero willing laid good small enough all =
    (s.pool, good, refl)
copy_from_loop_reads kernel p pid (suc fuel) s cursor (suc left) willing laid good small enough
      all =
    let same : cursor + 0 ≡ cursor = omega arith in
    let allowed : Allows p.perm_read s cursor =
      subst (Allows p.perm_read s) same (all 0 (omega arith)) in
    let map = allowed.0 in
    let low : map.vaddr ≤ cursor = allowed.2 in
    let high : cursor < map.vaddr + map.size = allowed.3 in
    let chunk = min (map.size - (cursor - map.vaddr)) (suc left) in
    let some_left : (chunk == 0) ≡ false = ground (arith, low, high) in
    let most : chunk ≤ suc left = ground (arith, low) in
    let least : 1 ≤ chunk = ground (arith, low, high) in
    let found =
      lookup_map_allowed kernel p pid s cursor p.perm_read (omega (arith, small)) allowed in
    let (slot, pool, acquired, still, shows) =
      acquire_lem kernel p s.pool map p.perm_read willing good in
    let next : saturating_add cursor chunk ≡ cursor + chunk = ground (arith, small, most) in
    let (last, full, rest) =
      copy_from_loop_reads kernel p pid fuel (record s { pool = pool }) (cursor + chunk)
        (suc left - chunk) willing laid still (omega (arith, small, most))
        (omega (arith, enough, least))
        (λ k within.
          let place : cursor + (chunk + k) ≡ cursor + chunk + k = omega arith in
          subst (Allows p.perm_read s) place (all (chunk + k) (omega (arith, within)))) in
    let all_bytes : chunk + (suc left - chunk) ≡ suc left = omega (arith, most) in
    (
      last,
      full,
      copy_from_step kernel p pid fuel s (record s { pool = last }) cursor left slot map pool
            (bytes_at (user_byte s) (cursor + chunk) (suc left - chunk)) found acquired some_left
            (ap
                (λ c.
                  copy_from_loop kernel p pid fuel (record s { pool = pool }) c (suc left - chunk))
                next
              ∙ rest)
          ∙ ap
              (λ bytes. some (
                ok (bytes ++ bytes_at (user_byte s) (cursor + chunk) (suc left - chunk)),
                record s { pool = last },
              ))
              (read_chunk s p.perm_read cursor (suc left) slot pool laid allowed shows)
          ∙ ap (λ bytes. some (ok bytes, record s { pool = last }))
              (sym (bytes_at-add (user_byte s) cursor chunk (suc left - chunk))
                ∙ ap (bytes_at (user_byte s) cursor) all_bytes),
    )

-- Reading from addresses that the maps of a process hold and allow to read always succeeds: it gives
-- the bytes of the frames there, across as many maps as the range has, whatever the pool holds before,
-- and changes nothing but the pool. The kernel shows every frame, the maps are laid out, the pool is
-- well formed, before and after, and the range does not start at 0 and ends within the addresses.
pub copy_from_user_reads :
    (kernel : Kernel) (p : Platform) (pid : ℕ) (s : UserAccessSession) (user_src count : ℕ)
    → IsWilling kernel
    → IsLaidOut 0 s.mm.memory_maps
    → IsPool s.pool
    → 0 < user_src
    → user_src + count ≤ usize_max
    → ((k : ℕ) → k < count → Allows p.perm_read s (user_src + k))
    → (pool : SharedPagePool) × IsPool pool
      × (copy_from_user kernel p pid s user_src count
          ≡ some (ok (bytes_at (user_byte s) user_src count), record s { pool = pool }))
unfolding copy_from_user bytes_at
copy_from_user_reads kernel p pid s user_src zero willing laid good real small all =
    (s.pool, good, refl)
copy_from_user_reads kernel p pid s zero (suc count) willing laid good real small all =
    absurd (omega (arith, real))
copy_from_user_reads kernel p pid s (suc at) (suc count) willing laid good real small all =
    let some_bytes : (suc count == 0) ≡ false = ground arith in
    let some_address : (suc at == 0) ≡ false = ground arith in
    rw (copy_from_user, some_bytes, some_address)
      (copy_from_loop_reads kernel p pid (suc count) s (suc at) (suc count) willing laid good small
        (omega arith) all)
