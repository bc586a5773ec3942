-- ===== src/Files/Numbers.antt =====
-- The numbers that fs/fd.rs hands out: the search for a free one, and `next_fd`.
use ape.Base.{
  ℕ, zero, suc, ◌+◌, ◌≤◌, ◌<◌, ◌≡◌, inl, inr, true, false, Option, none, some, [], ◌∷◌, arith, Map,
  lookup, contains_key, length, Above, lookup_below, leb, ◌==◌, if◌then◌else◌, Bool-cases,
}
use ape.Files.Calls.{u32_max, first_free}

module _ {ℓ} {V : Type ℓ} where
  -- How many keys are n or more.
  abbrev count_from : ℕ → Map V → ℕ
  count_from n [] = 0
  count_from n ((k, v) ∷ m) = (if leb n k then 1 else 0) + count_from n m

  count_from-le : (n : ℕ) (m : Map V) → count_from n m ≤ length m
  count_from-le n [] = omega arith
  count_from-le n ((k, v) ∷ m) = ground (arith, count_from-le n m)

  count_from_lem :
      (low n : ℕ) (m : Map V)
      → Above low m
      → count_from n m ≡ (if contains_key n m then 1 else 0) + count_from (n + 1) m
  unfolding lookup
  count_from_lem low n [] a = omega arith
  count_from_lem low n ((k, v) ∷ m) a =
      ground (arith, count_from_lem (suc k) n m a.1, lookup_below (suc k) n m a.1)

  -- What a search for a free number from `n` on finds.
  abbrev pub FirstFree : ℕ → Map V → Option ℕ → Type 0
  FirstFree n m none = (j : ℕ) → n ≤ j → j ≤ u32_max → contains_key j m ≡ true
  FirstFree n m (some found) =
      (n ≤ found)
      × (found ≤ u32_max)
      × (contains_key found m ≡ false)
      × ((j : ℕ) → n ≤ j → j < found → contains_key j m ≡ true)

  taken_from :
      (n j : ℕ) (m : Map V)
      → contains_key n m ≡ true
      → n ≤ j
      → (n + 1 ≤ j → contains_key j m ≡ true)
      → contains_key j m ≡ true
  taken_from n j m taken low rest = elim (Bool-cases (j == n)) [
    | inl same ↦ ground (arith, taken)
    | inr differs ↦ rest (ground arith)
  ]

  later-FirstFree :
      (n : ℕ) (m : Map V) (found : Option ℕ)
      → contains_key n m ≡ true
      → FirstFree (n + 1) m found
      → FirstFree n m found
  later-FirstFree n m none taken rest =
      λ j low high. taken_from n j m taken low (λ above. rest j above high)
  later-FirstFree n m (some found) taken (low, high, free, rest) = (
    omega arith,
    high,
    free,
    λ j above below. taken_from n j m taken above (λ later. rest j later below),
  )

  first_free_step :
      (fuel n : ℕ) (m : Map V)
      → first_free (suc fuel) n m ≡ (
          if contains_key n m
          then if n == u32_max then none else first_free fuel (n + 1) m
          else some n)
  unfolding first_free
  first_free_step fuel n m = ground arith

  last_taken :
      (n : ℕ) (m : Map V) → contains_key n m ≡ true → (n == u32_max) ≡ true → FirstFree n m none
  last_taken n m taken last = λ j low high. taken_from n j m taken low (λ above. ground arith)

  -- With one step for each key from n on and one more, the search finds the first free number, or
  -- shows that there is none.
  search-FirstFree :
      (fuel n : ℕ) (m : Map V)
      → Above 0 m
      → n ≤ u32_max
      → count_from n m < fuel
      → FirstFree n m (first_free fuel n m)
  search-FirstFree zero n m a high enough = absurd (omega arith)
  search-FirstFree (suc fuel) n m a high enough = elim (Bool-cases (contains_key n m)) [
    | inl taken ↦ elim (Bool-cases (n == u32_max)) [
      | inl last ↦ rw (first_free_step fuel n m, taken, last) (last_taken n m taken last)
      | inr more ↦
          rw (first_free_step fuel n m, taken, more)
            (later-FirstFree n m (first_free fuel (n + 1) m) taken (
              search-FirstFree fuel (n + 1) m a (ground arith)
                (ground (arith, count_from_lem 0 n m a))))
    ]
    | inr free ↦
        rw (first_free_step fuel n m, free)
          (omega arith, high, free, λ j low below. absurd (omega arith))
  ]

  -- The search for a descriptor always ends: it finds the first number from n on that the table does
  -- not have, and nothing only when the table has every number from n to the last `u32`.
  pub first_free-FirstFree :
      (n : ℕ) (m : Map V)
      → Above 0 m
      → n ≤ u32_max
      → FirstFree n m (first_free (suc (length m)) n m)
  first_free-FirstFree n m a high =
      search-FirstFree (suc (length m)) n m a high (omega (arith, count_from-le n m))
