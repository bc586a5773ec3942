-- ===== src/Task/Regions/Ownership.antt =====
-- Who holds a region of ape/state.rs: no region is handed out twice, and no two overlap.
use ape.Base.{
  ℕ, zero, suc, ◌+◌, ◌≤◌, ◌<◌, ◌≡◌, refl, ◌⊎◌, inl, inr, false, ◌&&◌, Option, none, some, List, [],
  ◌∷◌, ◌++◌, arith, All, length, get_elem?, contains, ltb, usize_size, Option-cases, Bool-cases,
  length-append,
}
use mathlib.Core.Path.{subst}
use ape.Task.Regions.{
  ApeFsState, AsyncIoRegion, Answers, recycle_region, allocate_fs_async_region, new,
}

-- Numbers below `n`, each once.
abbrev pub Distinct : ℕ → List ℕ → Type 0
Distinct n [] = Unit {0}
Distinct n (i ∷ is) = (i < n) × (contains is i ≡ false) × Distinct n is

abbrev pub Disjoint : List ℕ → List ℕ → Type 0
Disjoint is js = All (λ i. contains js i ≡ false) is

-- Region i has the id i, each starts at or behind the end of the one before, and the last ends at or
-- before `limit`.
abbrev pub Laid : ℕ → ℕ → List AsyncIoRegion → ℕ → Type 0
Laid i start [] limit = start ≤ limit
Laid i start (r ∷ rs) limit =
    (r.id ≡ i) × (start ≤ r.vaddr) × Laid (suc i) (r.vaddr + r.size) rs limit

pub record IsOwned (base : ℕ) (s : ApeFsState) (held : List ℕ) : Type 0 where
  pub free_distinct : Distinct (length s.async_regions) s.async_free
  pub held_distinct : Distinct (length s.async_regions) held
  pub apart : Disjoint held s.async_free
  pub laid : Laid 0 base s.async_regions s.next_async_vaddr

Distinct-mono : {n m : ℕ} (is : List ℕ) → n ≤ m → Distinct n is → Distinct m is
Distinct-mono [] h d = tt
Distinct-mono (i ∷ is) h d = (omega arith, d.1, Distinct-mono is h d.2)

-- Dropping an entry from the free list, and adding one that nobody holds.
Disjoint-tail : (j : ℕ) (is js : List ℕ) → Disjoint is (j ∷ js) → Disjoint is js
Disjoint-tail j [] js d = tt
Disjoint-tail j (i ∷ is) js d = (ground arith, Disjoint-tail j is js d.1)

Disjoint-cons :
    (j : ℕ) (is js : List ℕ) → contains is j ≡ false → Disjoint is js → Disjoint is (j ∷ js)
Disjoint-cons j [] js h d = tt
Disjoint-cons j (i ∷ is) js h d = (ground arith, Disjoint-cons j is js (ground arith) d.1)

Disjoint-head : (j : ℕ) (is js : List ℕ) → Disjoint is (j ∷ js) → contains is j ≡ false
Disjoint-head j [] js d = refl
Disjoint-head j (i ∷ is) js d = ground (arith, Disjoint-head j is js d.1)

Distinct-outside : (n i : ℕ) (is : List ℕ) → Distinct n is → n ≤ i → contains is i ≡ false
Distinct-outside n i [] d h = refl
Distinct-outside n i (j ∷ is) d h = ground (arith, Distinct-outside n i is d.2 h)

Disjoint-outside : (n : ℕ) (is js : List ℕ) → Distinct n js → All (λ i. n ≤ i) is → Disjoint is js
Disjoint-outside n [] js d h = tt
Disjoint-outside n (i ∷ is) js d h = (Distinct-outside n i js d h.0, Disjoint-outside n is js d h.1)

get_elem?_below :
    (i : ℕ) (rs : List AsyncIoRegion)
    → i < length rs
    → (r : AsyncIoRegion) × (get_elem? rs i ≡ some r)
get_elem?_below i [] h = absurd (omega arith)
get_elem?_below zero (r ∷ rs) h = (r, refl)
get_elem?_below (suc i) (r ∷ rs) h = get_elem?_below i rs (omega arith)

Laid-get :
    (k start limit i : ℕ) (rs : List AsyncIoRegion) (r : AsyncIoRegion)
    → Laid k start rs limit
    → get_elem? rs i ≡ some r
    → r.id ≡ k + i
Laid-get k start limit i [] r l e = cc
Laid-get k start limit zero (x ∷ rs) r l e = ground arith
Laid-get k start limit (suc i) (x ∷ rs) r l e =
    omega (arith, Laid-get (suc k) (x.vaddr + x.size) limit i rs r l.2 e)

Laid-mono :
    (k start limit limit' : ℕ) (rs : List AsyncIoRegion)
    → limit ≤ limit'
    → Laid k start rs limit
    → Laid k start rs limit'
Laid-mono k start limit limit' [] h l = omega arith
Laid-mono k start limit limit' (x ∷ rs) h l =
    (l.0, l.1, Laid-mono (suc k) (x.vaddr + x.size) limit limit' rs h l.2)

Laid-push :
    (k start limit : ℕ) (rs : List AsyncIoRegion) (r : AsyncIoRegion)
    → Laid k start rs limit
    → r.id ≡ k + length rs
    → r.vaddr ≡ limit
    → Laid k start (rs ++ r ∷ []) (limit + r.size)
Laid-push k start limit [] r l e v = (omega arith, omega arith, omega arith)
Laid-push k start limit (x ∷ rs) r l e v =
    (l.0, l.1, Laid-push (suc k) (x.vaddr + x.size) limit rs r l.2 (omega arith) v)

-- What an allocation hands out: a region of which nobody else is the holder.
abbrev pub Grants : ℕ → List ℕ → Option AsyncIoRegion × ApeFsState → Type 0
Grants base held (none, s) = IsOwned base s held
Grants base held (some r, s) = (contains held r.id ≡ false) × IsOwned base s (r.id ∷ held)

id_at :
    (base : ℕ) (s : ApeFsState) (i : ℕ) (r : AsyncIoRegion)
    → Laid 0 base s.async_regions s.next_async_vaddr
    → get_elem? s.async_regions i ≡ some r
    → r.id ≡ i
id_at base s i r l g = omega (arith, Laid-get 0 base s.next_async_vaddr i s.async_regions r l g)

abbrev fresh_region : ApeFsState → ℕ → ℕ → AsyncIoRegion
fresh_region s frame_slot size = record {
  id = length s.async_regions;
  frame_slot = frame_slot;
  vaddr = s.next_async_vaddr;
  size = size;
}

allocate_reused :
    (a : Answers) (s : ApeFsState) (size i : ℕ) (rest : List ℕ) (r : AsyncIoRegion)
    → s.async_free ≡ i ∷ rest
    → get_elem? s.async_regions i ≡ some r
    → allocate_fs_async_region a s size ≡ (some r, record s { async_free = rest })
unfolding allocate_fs_async_region
allocate_reused a s size i rest r e g = ground arith

-- Without a free region: nothing, addresses that are lost, or a new region.
allocate_fresh :
    (a : Answers) (s : ApeFsState) (size : ℕ)
    → s.async_free ≡ []
    → (allocate_fs_async_region a s size ≡ (none, s))
      ⊎ (allocate_fs_async_region a s size
          ≡ (none, record s { next_async_vaddr = s.next_async_vaddr + size }))
      ⊎ ((slot : ℕ) × (allocate_fs_async_region a s size ≡ (
        some (fresh_region s slot size),
        record s {
          async_regions = s.async_regions ++ fresh_region s slot size ∷ [];
          next_async_vaddr = s.next_async_vaddr + size;
        },
      )))
unfolding allocate_fs_async_region
allocate_fresh a s size e = elim (Option-cases a.slot) [
  | inl no_slot ↦ inl (ground arith)
  | inr (slot, got) ↦
      elim (Bool-cases (ltb (length s.async_regions) 64 && (a.has_level && a.page_allocated))) [
        | inr refused ↦ inl (ground arith)
        | inl granted ↦ elim (Bool-cases (ltb (s.next_async_vaddr + size) usize_size)) [
          | inr full ↦ inl (ground arith)
          | inl fits ↦ elim (Bool-cases a.page_mapped) [
            | inl mapped ↦ inr (inr (slot, ground arith))
            | inr unmapped ↦ inr (inl (ground arith))
          ]
        ]
      ]
]

reused-IsOwned :
    (base : ℕ) (s : ApeFsState) (held : List ℕ) (i : ℕ) (rest : List ℕ) (r : AsyncIoRegion)
    → IsOwned base s held
    → s.async_free ≡ i ∷ rest
    → get_elem? s.async_regions i ≡ some r
    → Grants base held (some r, record s { async_free = rest })
reused-IsOwned base s held i rest r o e g =
    let id : r.id ≡ i = id_at base s i r o.laid g in
    let distinct : Distinct (length s.async_regions) (i ∷ rest) =
      subst (Distinct (length s.async_regions)) e o.free_distinct in
    let apart : Disjoint held (i ∷ rest) = subst (Disjoint held) e o.apart in
    rw id (
      Disjoint-head i held rest apart,
      record {
        free_distinct = distinct.2;
        held_distinct = (distinct.0, Disjoint-head i held rest apart, o.held_distinct);
        apart = (distinct.1, Disjoint-tail i held rest apart);
        laid = o.laid;
      },
    )

fresh-IsOwned :
    (base : ℕ) (s : ApeFsState) (held : List ℕ) (slot size : ℕ)
    → IsOwned base s held
    → s.async_free ≡ []
    → Grants base held (
      some (fresh_region s slot size),
      record s {
        async_regions = s.async_regions ++ fresh_region s slot size ∷ [];
        next_async_vaddr = s.next_async_vaddr + size;
      },
    )
fresh-IsOwned base s held slot size o e =
    let r = fresh_region s slot size in
    let n = length s.async_regions in
    let longer : length (s.async_regions ++ r ∷ []) ≡ n + 1 =
      omega (arith, length-append s.async_regions (r ∷ [])) in
    let outside : contains held n ≡ false =
      Distinct-outside n n held o.held_distinct (omega arith) in
    (
      outside,
      record {
        free_distinct = Distinct-mono s.async_free (omega (arith, longer)) o.free_distinct;
        held_distinct = (
          omega (arith, longer),
          outside,
          Distinct-mono held (omega (arith, longer)) o.held_distinct,
        );
        apart = (ground arith, o.apart);
        laid = Laid-push 0 base s.next_async_vaddr s.async_regions r o.laid (omega arith) refl;
      },
    )

allocate_none_free :
    (base : ℕ) (a : Answers) (s : ApeFsState) (held : List ℕ) (size : ℕ)
    → s.async_free ≡ []
    → IsOwned base s held
    → Grants base held (allocate_fs_async_region a s size)
allocate_none_free base a s held size e o = elim (allocate_fresh a s size e) [
  | inl same ↦ rw same o
  | inr (inl lost) ↦ rw lost (record {
    free_distinct = o.free_distinct;
    held_distinct = o.held_distinct;
    apart = o.apart;
    laid =
        Laid-mono 0 base s.next_async_vaddr (s.next_async_vaddr + size) s.async_regions
          (omega arith) o.laid;
  })
  | inr (inr (slot, got)) ↦ rw got (fresh-IsOwned base s held slot size o e)
]

allocate_from :
    (free : List ℕ) (base : ℕ) (a : Answers) (s : ApeFsState) (held : List ℕ) (size : ℕ)
    → s.async_free ≡ free
    → IsOwned base s held
    → Grants base held (allocate_fs_async_region a s size)
allocate_from [] base a s held size e o = allocate_none_free base a s held size e o
allocate_from (i ∷ rest) base a s held size e o =
    let distinct : Distinct (length s.async_regions) (i ∷ rest) =
      subst (Distinct (length s.async_regions)) e o.free_distinct in
    let (r, g) = get_elem?_below i s.async_regions distinct.0 in
    rw (allocate_reused a s size i rest r e g) (reused-IsOwned base s held i rest r o e g)

pub allocate-Grants :
    (base : ℕ) (a : Answers) (s : ApeFsState) (held : List ℕ) (size : ℕ)
    → IsOwned base s held
    → Grants base held (allocate_fs_async_region a s size)
allocate-Grants base a s held size o = allocate_from s.async_free base a s held size refl o

recycled :
    (s : ApeFsState) (i : ℕ)
    → i < length s.async_regions
    → contains s.async_free i ≡ false
    → recycle_region s i ≡ record s { async_free = i ∷ s.async_free }
unfolding recycle_region
recycled s i lt out = ground arith

-- A holder that gives its region back makes it free, for the next allocation to hand out, and takes
-- nothing from the other holders.
pub recycle-IsOwned :
    (base : ℕ) (s : ApeFsState) (i : ℕ) (held : List ℕ)
    → IsOwned base s (i ∷ held)
    → IsOwned base (recycle_region s i) held
      × ((a : Answers) (size : ℕ)
          → (r : AsyncIoRegion) × (r.id ≡ i)
            × (allocate_fs_async_region a (recycle_region s i) size ≡ (some r, s)))
recycle-IsOwned base s i held o =
    let (lt, once, others) = o.held_distinct in
    let (out, apart) = o.apart in
    rw (recycled s i lt out) (
      record {
        free_distinct = (lt, out, o.free_distinct);
        held_distinct = others;
        apart = Disjoint-cons i held s.async_free once apart;
        laid = o.laid;
      },
      λ a size.
          let (r, g) = get_elem?_below i s.async_regions lt in
          (
            r,
            id_at base s i r o.laid g,
            allocate_reused a (record s { async_free = i ∷ s.async_free }) size i s.async_free r
                refl g,
          ),
    )

pub new-IsOwned : (base badge : ℕ) → IsOwned base (new base badge) []
unfolding new
new-IsOwned base badge = omega arith
