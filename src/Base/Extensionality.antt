-- ===== src/Base/Extensionality.antt =====
-- Two maps in order that read alike at every key are the same.
use Prim.Native.Nat.{ℕ, suc}
use mathlib.Core.Path.{◌≡◌, refl, sym, ap, subst, ◌∙◌}
use mathlib.Core.Logic.{inl, inr}
use mathlib.Core.Bool.{false}
use mathlib.Core.List.{[], ◌∷◌}
use mathlib.Core.Option.{some}
use native.Mathlib.Omega.{arith}
use ape.Base.Tests.{◌==◌, unwrap_or, Bool-cases}
use ape.Base.Maps.{Map, Above, lookup, lookup_below}

module _ {V : Type 0} where
  some_injective : (v w : V) → some v ≡ some w → v ≡ w
  some_injective v w e = ap (λ o. unwrap_or o v) e

  lookup_head : (k : ℕ) (v : V) (m : Map V) → lookup k ((k, v) ∷ m) ≡ some v
  unfolding lookup
  lookup_head k v m = ground arith

  lookup_tail :
      (k j : ℕ) (v : V) (m : Map V) → (j == k) ≡ false → lookup k ((j, v) ∷ m) ≡ lookup k m
  unfolding lookup
  lookup_tail k j v m apart = rw (apart) refl

  tails_alike :
      (j : ℕ) (v w : V) (a b : Map V)
      → Above (suc j) a
      → Above (suc j) b
      → ((k : ℕ) → lookup k ((j, v) ∷ a) ≡ lookup k ((j, w) ∷ b))
      → (k : ℕ) → lookup k a ≡ lookup k b
  tails_alike j v w a b above_a above_b alike k = elim (Bool-cases (j == k)) [
    | inl same ↦ ground (arith, lookup_below (suc j) k a above_a, lookup_below (suc j) k b above_b)
    | inr apart ↦ ground (arith, alike k, lookup_tail k j v a apart, lookup_tail k j w b apart)
  ]

  heads_alike :
      (n i j : ℕ) (v w : V) (a b : Map V)
      → Above n ((i, v) ∷ a)
      → Above n ((j, w) ∷ b)
      → ((k : ℕ) → lookup k ((i, v) ∷ a) ≡ lookup k ((j, w) ∷ b))
      → i ≡ j
  unfolding lookup
  heads_alike n i j v w a b above_a above_b alike = ground (
    arith,
    alike i,
    alike j,
    lookup_below (suc j) i b above_b.1,
    lookup_below (suc i) j a above_a.1,
  )

  pub map_ext :
      (n : ℕ) (a b : Map V) → Above n a → Above n b → ((k : ℕ) → lookup k a ≡ lookup k b) → a ≡ b
  unfolding lookup
  map_ext n [] [] above_a above_b alike = refl
  map_ext n [] ((j, w) ∷ b) above_a above_b alike =
      absurd (ground (arith, alike j, lookup_head j w b))
  map_ext n ((i, v) ∷ a) [] above_a above_b alike =
      absurd (ground (arith, alike i, lookup_head i v a))
  map_ext n ((i, v) ∷ a) ((j, w) ∷ b) above_a above_b alike =
      let same : i ≡ j = heads_alike n i j v w a b above_a above_b alike in
      let alike_j : (k : ℕ) → lookup k ((j, v) ∷ a) ≡ lookup k ((j, w) ∷ b) =
        subst (λ x. (k : ℕ) → lookup k ((x, v) ∷ a) ≡ lookup k ((j, w) ∷ b)) same alike in
      let below : Above (suc j) a = subst (λ x. Above (suc x) a) same above_a.1 in
      let values : v ≡ w =
        some_injective v w (sym (lookup_head j v a) ∙ alike_j j ∙ lookup_head j w b) in
      let tails : a ≡ b =
        map_ext (suc j) a b below above_b.1 (tails_alike j v w a b below above_b.1 alike_j) in
      rw (same, values, tails) refl
