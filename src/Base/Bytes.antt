-- ===== src/Base/Bytes.antt =====
-- Words as bytes in memory: `to_ne_bytes` and `from_ne_bytes` on the little-endian machines that the
-- program is built for.
use Prim.Native.Nat.{ℕ, zero, suc, ◌+◌, ◌*◌, ◌/◌, ◌%◌, ◌^◌, ◌<◌}
use mathlib.Core.Path.{◌≡◌, refl, ap}
use mathlib.Core.List.{List, [], ◌∷◌, ◌++◌}
use native.Mathlib.Omega.{arith}
use native.Mathlib.Nat.{pow-suc}
use ape.Base.Lists.{length, take, drop}

-- A word of so many bytes.
unfoldable pub to_bytes : ℕ → ℕ → List ℕ
to_bytes zero x = []
to_bytes (suc n) x = x % 256 ∷ to_bytes n (x / 256)

unfoldable pub from_bytes : List ℕ → ℕ
from_bytes [] = 0
from_bytes (b ∷ bs) = b + 256 * from_bytes bs

-- `[0; n]`.
abbrev pub zeros : ℕ → List ℕ
zeros zero = []
zeros (suc n) = 0 ∷ zeros n

pub length-zeros : (n : ℕ) → length (zeros n) ≡ n
length-zeros zero = refl
length-zeros (suc n) = omega (arith, length-zeros n)

pub length-to_bytes : (n x : ℕ) → length (to_bytes n x) ≡ n
unfolding to_bytes
length-to_bytes zero x = refl
length-to_bytes (suc n) x = omega (arith, length-to_bytes n (x / 256))

pub from_bytes-to_bytes : (n x : ℕ) → x < 256 ^ n → from_bytes (to_bytes n x) ≡ x
unfolding to_bytes from_bytes
from_bytes-to_bytes zero x h = omega arith
from_bytes-to_bytes (suc n) x h =
    omega (arith, pow-suc 256 n, from_bytes-to_bytes n (x / 256) (omega (arith, pow-suc 256 n)))

-- Reading one field of a run of bytes.
module _ {ℓ} {A : Type ℓ} where
  pub take_of-append : (xs ys : List A) → take (length xs) (xs ++ ys) ≡ xs
  take_of-append [] ys = refl
  take_of-append (x ∷ xs) ys = ap (λ t. x ∷ t) (take_of-append xs ys)

  pub drop_of-append : (xs ys : List A) → drop (length xs) (xs ++ ys) ≡ ys
  drop_of-append [] ys = refl
  drop_of-append (x ∷ xs) ys = drop_of-append xs ys

pub take-to_bytes : (n x : ℕ) (ys : List ℕ) → take n (to_bytes n x ++ ys) ≡ to_bytes n x
unfolding to_bytes
take-to_bytes zero x ys = refl
take-to_bytes (suc n) x ys = ap (λ t. x % 256 ∷ t) (take-to_bytes n (x / 256) ys)

pub drop-to_bytes : (n x : ℕ) (ys : List ℕ) → drop n (to_bytes n x ++ ys) ≡ ys
unfolding to_bytes
drop-to_bytes zero x ys = refl
drop-to_bytes (suc n) x ys = drop-to_bytes n (x / 256) ys
