-- ===== src/Memory/Search.antt =====
-- The search of mm/mod.rs for a free range, the heap's break, and the choice of
-- ape/fault_policy.rs.
use Prim.Native.Nat.{zero, suc, ◌+◌, ◌*◌, ◌≤◌, ◌<◌, max}
use ape.Base.{
  ℕ, ◌≡◌, refl, ◌⊎◌, inl, inr, true, Option, none, some, arith, leb, if◌then◌else◌, usize_max,
  saturating_add, Bool-cases, ◌∙◌, sym,
}
use ape.Memory.State.{Platform, MmState}
use ape.Memory.Ranges.{range_is_free, search, find_free_remap_target}

module _ (p : Platform) where
  -- The k-th address that a search from `first` tries.
  abbrev pub candidate_at : ℕ → ℕ → ℕ
  candidate_at first k = first + k * p.pgsize

  abbrev pub IsFreeAt : MmState → ℕ → ℕ → Type 0
  IsFreeAt mm len_aligned candidate = range_is_free mm candidate (candidate + len_aligned) ≡ true

  abbrev pub SearchOutcome : MmState → ℕ → ℕ → Option ℕ → Type 0
  SearchOutcome mm len_aligned first none =
      (k : ℕ)
      → candidate_at first k + len_aligned ≤ mm.mmap_limit
      → ¬ IsFreeAt mm len_aligned (candidate_at first k)
  SearchOutcome mm len_aligned first (some found) =
      (k : ℕ) × (found ≡ candidate_at first k)
      × (found + len_aligned ≤ mm.mmap_limit)
      × IsFreeAt mm len_aligned found
      × ((j : ℕ) → j < k → ¬ IsFreeAt mm len_aligned (candidate_at first j))

  candidate_next : (first k : ℕ) → candidate_at (first + p.pgsize) k ≡ candidate_at first (suc k)
  candidate_next first k = omega arith

  -- Below the limit the addition does not saturate.
  candidate_unsaturated :
      (first k limit : ℕ)
      → limit < usize_max
      → candidate_at first (suc k) ≤ limit ⊎ candidate_at (saturating_add first p.pgsize) k ≤ limit
      → candidate_at (saturating_add first p.pgsize) k ≡ candidate_at first (suc k)
  candidate_unsaturated first k limit small (inl h) = ground (arith, candidate_next first k)
  candidate_unsaturated first k limit small (inr h) = ground (arith, candidate_next first k)

  first_candidate : (first : ℕ) → candidate_at first 0 ≡ first
  first_candidate first = omega arith

  candidate_mono : (first j k : ℕ) → j ≤ k → candidate_at first j ≤ candidate_at first k
  candidate_mono first zero k h = omega arith
  candidate_mono first (suc j) zero h = omega arith
  candidate_mono first (suc j) (suc k) h =
      let under = candidate_mono first j k (omega arith) in omega arith

  module _ (mm : MmState) (len_aligned first : ℕ) (small : mm.mmap_limit < usize_max) where
    later-none :
        ¬ IsFreeAt mm len_aligned first
        → SearchOutcome mm len_aligned (saturating_add first p.pgsize) none
        → SearchOutcome mm len_aligned first none
    later-none busy outcome zero fits free = busy (rw (← first_candidate first) free)
    later-none busy outcome (suc k) fits free =
        let same = candidate_unsaturated first k mm.mmap_limit small (inl (omega arith)) in
        outcome k (rw same fits) (rw same free)

    later-before :
        (k : ℕ)
        → candidate_at (saturating_add first p.pgsize) k ≤ mm.mmap_limit
        → ¬ IsFreeAt mm len_aligned first
        → ((j : ℕ)
            → j < k
            → ¬ IsFreeAt mm len_aligned (candidate_at (saturating_add first p.pgsize) j))
        → (j : ℕ) → j < suc k
        → ¬ IsFreeAt mm len_aligned (candidate_at first j)
    later-before k fits busy before zero h free = busy (rw (← first_candidate first) free)
    later-before k fits busy before (suc j) h free =
        let under = candidate_mono (saturating_add first p.pgsize) j k (omega arith) in
        let same = candidate_unsaturated first j mm.mmap_limit small (inr (omega arith)) in
        before j (omega arith) (rw same free)

    candidate_fits :
        (found k : ℕ)
        → found ≡ candidate_at (saturating_add first p.pgsize) k
        → found + len_aligned ≤ mm.mmap_limit
        → candidate_at (saturating_add first p.pgsize) k ≤ mm.mmap_limit
    candidate_fits found k e h = omega arith

    later-SearchOutcome :
        (found : Option ℕ)
        → ¬ IsFreeAt mm len_aligned first
        → SearchOutcome mm len_aligned (saturating_add first p.pgsize) found
        → SearchOutcome mm len_aligned first found
    later-SearchOutcome none busy outcome = later-none busy outcome
    later-SearchOutcome (some found) busy (k, e, fits, free, before) =
        let near = candidate_fits found k e fits in
        let same = candidate_unsaturated first k mm.mmap_limit small (inr near) in
        (suc k, e ∙ same, fits, free, later-before k near busy before)

    search-SearchOutcome_found :
        IsFreeAt mm len_aligned first
        → first + len_aligned ≤ mm.mmap_limit
        → SearchOutcome mm len_aligned first (some first)
    search-SearchOutcome_found free fits =
        (zero, sym (first_candidate first), fits, free, λ j h free. omega arith)

  search_spent : (mm : MmState) (len_aligned first : ℕ) → search p 0 mm len_aligned first ≡ none
  unfolding search
  search_spent mm len_aligned first = refl

  -- One step of the search, below the greatest address.
  search_step :
      (fuel : ℕ) (mm : MmState) (len_aligned first : ℕ)
      → mm.mmap_limit < usize_max
      → search p (suc fuel) mm len_aligned first ≡ (
          if leb (first + len_aligned) mm.mmap_limit
          then if range_is_free mm first (first + len_aligned)
            then some first
            else search p fuel mm len_aligned (saturating_add first p.pgsize)
          else none)
  unfolding search
  search_step fuel mm len_aligned first small = ground (arith)

  -- With fuel for every step up to the limit, a search finds the first free candidate or shows that
  -- there is none.
  search-SearchOutcome :
      (fuel : ℕ) (mm : MmState) (len_aligned first : ℕ)
      → mm.mmap_limit < usize_max
      → mm.mmap_limit < fuel + first
      → SearchOutcome mm len_aligned first (search p fuel mm len_aligned first)
  search-SearchOutcome zero mm len_aligned first small enough =
      rw (search_spent mm len_aligned first) (λ k fits free. omega arith)
  search-SearchOutcome (suc fuel) mm len_aligned first small enough =
      elim (Bool-cases (leb (first + len_aligned) mm.mmap_limit)) [
        | inl fits ↦ elim (Bool-cases (range_is_free mm first (first + len_aligned))) [
          | inl free ↦
              rw (search_step fuel mm len_aligned first small, fits, free)
                (search-SearchOutcome_found mm len_aligned first small free (ground arith))
          | inr busy ↦
              rw (search_step fuel mm len_aligned first small, fits, busy)
                (later-SearchOutcome mm len_aligned first small _ (λ free. ground arith)
                  (search-SearchOutcome fuel mm len_aligned _ small
                    (ground (arith, p.pgsize-positive))))
        ]
        | inr beyond ↦
            rw (search_step fuel mm len_aligned first small, beyond)
              (λ k fits free. ground (arith, candidate_mono first 0 k (omega arith)))
      ]

-- When the window ends below the greatest address, `find_free_remap_target` returns the first of the
-- addresses start, start + page, start + 2 pages, ... at which the wanted length is free and inside
-- the window, where start is `mmap_next` or the window's base; it returns nothing only when no such
-- address is free. The search always ends.
pub find_free_remap_target-SearchOutcome :
    (p : Platform) (mm : MmState) (len_aligned : ℕ)
    → mm.mmap_limit < usize_max
    → SearchOutcome p mm len_aligned
        (max mm.mmap_next mm.mmap_base)
        (find_free_remap_target p mm len_aligned)
unfolding find_free_remap_target
find_free_remap_target-SearchOutcome p mm len_aligned small =
    search-SearchOutcome p _ mm len_aligned _ small (omega arith)
