-- ===== src/User/Acquire.antt =====
-- ape/user.rs, `acquire`: whatever slot is taken, it shows the frame of the map.
use mathlib.Core.Path.{subst}
use ape.Base.{
  ℕ, ◌/◌, ◌<◌, ◌≡◌, refl, sym, ap, ◌∙◌, inl, inr, Bool, true, false, Option, none, some, List,
  arith, length, is_some, ◌==◌, ==_iff, Bool-cases, Option-cases, ok,
}
use ape.Memory.State.{Platform, MemoryMap}
use ape.Policy.{LruPolicy, touch, victim}
use ape.Policy.Victim.{VictimOutcome, victim-VictimOutcome}
use ape.User.{
  SharedPagePoolEntry, SharedPagePool, Kernel, set_at, entry_at, is_occupied, find_hit, first_free,
  pick_slot, unmap_slot, clear_slot, fill_slot, acquire,
}
use ape.User.Copy.{shown}
use ape.User.Pool.{
  IsPool, length-set_at, get_or-set_at, get_or-set_at_other, occupied_below, hit_shown, HitOutcome,
  find_hit-HitOutcome, FreeOutcome, first_free-FreeOutcome,
}

-- A kernel that can show every frame, and take every scratch address back.
abbrev pub IsWilling : Kernel → Type 0
IsWilling kernel =
    ((frame : ℕ) → (scratch : ℕ) × (kernel.map_scratch frame ≡ ok scratch))
    × ((scratch : ℕ) → kernel.unmap scratch ≡ ok tt)

-- When all slots are occupied, one of them is the victim.
some_victim :
    (order : LruPolicy) (occupied : List Bool) (r : Option ℕ × LruPolicy)
    → VictimOutcome order occupied r
    → ((k : ℕ) → k < length occupied → is_occupied occupied k ≡ true)
    → length occupied ≡ 16
    → (slot : ℕ) × (r.0 ≡ some slot) × (slot < 16)
some_victim order occupied (none, left) (_, free, _) used size =
    absurd (ground (arith, free 0, used 0 (omega arith)))
some_victim order occupied (some slot, left) (used_slot, _) used size =
    (slot, refl, omega (arith, occupied_below occupied slot used_slot, size))

pick_slot_lem :
    (pool : SharedPagePool)
    → IsPool pool
    → (slot : ℕ) × (after : SharedPagePool) × (pick_slot pool ≡ (ok slot, after))
      × (slot < 16)
      × IsPool after
unfolding pick_slot
pick_slot_lem pool good =
    let free = first_free-FreeOutcome 0 pool.occupied in
    elim (Option-cases (first_free 0 pool.occupied)) [
      | inr (slot, found) ↦
          let (k, place, low, _) = subst (FreeOutcome 0 pool.occupied) found free in
          (slot, pool, rw (pick_slot, found) refl, omega (arith, place, low, good), good)
      | inl full ↦
          let all_used : (k : ℕ) → k < length pool.occupied → is_occupied pool.occupied k ≡ true =
            subst (FreeOutcome 0 pool.occupied) full free in
          let (slot, given, low) =
            some_victim pool.policy pool.occupied (victim pool.policy pool.occupied)
              (victim-VictimOutcome pool.policy pool.occupied) all_used good.1 in
          (
            slot,
            record pool { policy = (victim pool.policy pool.occupied).1 },
            rw (pick_slot, full, given) refl,
            low,
            good,
          )
    ]

-- Setting a slot keeps that an occupied slot has an entry.
set_filled :
    (entries : List (Option SharedPagePoolEntry)) (occupied : List Bool) (slot : ℕ)
    (entry : Option SharedPagePoolEntry) (used : Bool)
    → slot < length entries
    → slot < length occupied
    → ((j : ℕ) → is_occupied occupied j ≡ true → is_some (entry_at entries j) ≡ true)
    → (used ≡ true → is_some entry ≡ true)
    → (j : ℕ) → is_occupied (set_at occupied slot used) j ≡ true
    → is_some (entry_at (set_at entries slot entry) j) ≡ true
set_filled entries occupied slot entry used low below filled has j = elim (Bool-cases (slot == j)) [
  | inl same ↦
      subst
        (λ n.
          is_occupied (set_at occupied slot used) n ≡ true
          → is_some (entry_at (set_at entries slot entry) n) ≡ true)
        ((==_iff slot j).0 same)
        (λ h.
          rw (get_or-set_at entries slot entry none low)
            (has (sym (get_or-set_at occupied slot used false below) ∙ h)))
  | inr apart ↦
      rw
        (
          get_or-set_at_other occupied slot j used false apart,
          get_or-set_at_other entries slot j entry none apart,
        )
        (filled j)
]

-- A slot is cleared, whatever was in it.
pub clear_slot_lem :
    (kernel : Kernel) (pool : SharedPagePool) (slot : ℕ)
    → IsWilling kernel
    → IsPool pool
    → (after : SharedPagePool) × (clear_slot kernel pool slot ≡ (ok tt, after)) × IsPool after
unfolding clear_slot unmap_slot
clear_slot_lem kernel pool slot (_, unmaps) (size, flags, filled) =
    elim (Bool-cases (is_occupied pool.occupied slot)) [
      | inr free ↦ (pool, rw (clear_slot, free) refl, (size, flags, filled))
      | inl used ↦ elim (Option-cases (entry_at pool.entries slot)) [
        | inl empty ↦ absurd (ground (arith, filled slot used, empty))
        | inr (entry, there) ↦
            let low = occupied_below pool.occupied slot used in
            let cleared : SharedPagePool = record pool {
              entries = set_at pool.entries slot none;
              occupied = set_at pool.occupied slot false;
            } in
            (
              cleared,
              rw (clear_slot, used, unmap_slot, there, unmaps entry.scratch_vaddr) refl,
              (
                length-set_at pool.entries slot none ∙ size,
                length-set_at pool.occupied slot false ∙ flags,
                set_filled pool.entries pool.occupied slot none false
                    (omega (arith, low, size, flags)) low filled (λ h. absurd (ground (arith, h))),
              ),
            )
      ]
    ]

fill_slot_lem :
    (kernel : Kernel) (p : Platform) (pool : SharedPagePool) (slot : ℕ) (map : MemoryMap)
    (perms : ℕ)
    → IsWilling kernel
    → IsPool pool
    → slot < 16
    → (after : SharedPagePool) × (fill_slot kernel p pool slot map perms ≡ (ok slot, after))
      × IsPool after
      × (shown after slot ≡ map.frame_cap)
unfolding fill_slot
fill_slot_lem kernel p pool slot map perms (shows, _) (size, flags, filled) low =
    let (scratch, given) = shows map.frame_cap in
    let entry : SharedPagePoolEntry = record {
      map_vaddr = map.vaddr;
      scratch_vaddr = scratch;
      pages = p.align_up map.size / p.pgsize;
      frame_cap = map.frame_cap;
      perms = perms;
    } in
    let after : SharedPagePool = record {
      entries = set_at pool.entries slot (some entry);
      occupied = set_at pool.occupied slot true;
      policy = touch pool.policy slot;
    } in
    let inside : slot < length pool.entries = omega (arith, low, size) in
    (
      after,
      rw (fill_slot, given) refl,
      (
        length-set_at pool.entries slot (some entry) ∙ size,
        length-set_at pool.occupied slot true ∙ flags,
        set_filled pool.entries pool.occupied slot (some entry) true inside
            (omega (arith, low, flags)) filled (λ h. refl),
      ),
      rw (shown, get_or-set_at pool.entries slot (some entry) none inside) refl,
    )

acquire_miss :
    (kernel : Kernel) (p : Platform) (pool chosen emptied : SharedPagePool) (map : MemoryMap)
    (perms slot : ℕ)
    → find_hit 0 pool.entries pool.occupied map perms ≡ none
    → pick_slot pool ≡ (ok slot, chosen)
    → clear_slot kernel chosen slot ≡ (ok tt, emptied)
    → acquire kernel p pool map perms ≡ fill_slot kernel p emptied slot map perms
unfolding acquire
acquire_miss kernel p pool chosen emptied map perms slot miss picked cleared =
    let to_chosen : (pick_slot pool).1 ≡ chosen = ap (λ r. r.1) picked in
    let to_emptied : (clear_slot kernel chosen slot).1 ≡ emptied = ap (λ r. r.1) cleared in
    rw (acquire, miss, picked, to_chosen, cleared)
      (ap (λ pool'. fill_slot kernel p pool' slot map perms)
        (ap (λ pool'. (clear_slot kernel pool' slot).1) to_chosen ∙ to_emptied))

-- With a kernel that can show every frame, `acquire` always gives a slot, the slot shows the frame of
-- the map, and the pool stays well formed: on a hit, on a free slot, and when a slot is given up.
pub acquire_lem :
    (kernel : Kernel) (p : Platform) (pool : SharedPagePool) (map : MemoryMap) (perms : ℕ)
    → IsWilling kernel
    → IsPool pool
    → (slot : ℕ) × (after : SharedPagePool) × (acquire kernel p pool map perms ≡ (ok slot, after))
      × IsPool after
      × (shown after slot ≡ map.frame_cap)
unfolding acquire
acquire_lem kernel p pool map perms willing good =
    elim (Option-cases (find_hit 0 pool.entries pool.occupied map perms)) [
      | inr (slot, found) ↦
          let (k, place, hit) =
            subst (HitOutcome 0 pool.entries map perms) found
              (find_hit-HitOutcome 0 pool.entries pool.occupied map perms) in
          (
            slot,
            record pool { policy = touch pool.policy slot },
            rw (acquire, found) refl,
            good,
            ap (shown pool) (omega (arith, place))
                ∙ hit_shown (entry_at pool.entries k) map perms hit,
          )
      | inl miss ↦
          let (slot, chosen, picked, low, still) = pick_slot_lem pool good in
          let (emptied, cleared, empty) = clear_slot_lem kernel chosen slot willing still in
          let (after, filled, full, shows) =
            fill_slot_lem kernel p emptied slot map perms willing empty low in
          (
            slot,
            after,
            acquire_miss kernel p pool chosen emptied map perms slot miss picked cleared ∙ filled,
            full,
            shows,
          )
    ]
