-- ===== src/Base/Bits.antt =====
-- The bits of a number, and what the bitwise operations do to them at any position.
use Prim.Native.Nat.{
  ℕ, zero, suc, ◌+◌, ◌-◌, ◌*◌, ◌/◌, ◌%◌, ◌^◌, ◌≤◌, ◌<◌, min, max, bit_and, bit_or, digits,
  bit_and-bitwise, bit_or-bitwise,
}
use mathlib.Core.Path.{◌≡◌, refl, ap, ◌∙◌}
use mathlib.Core.Logic.{◌≢◌, inl, inr}
use mathlib.Core.Bool.{Bool, true, false, not, ◌&&◌, ◌||◌}
use native.Mathlib.Omega.{arith}
use native.Mathlib.Nat.{pow-suc}
use ape.Base.Tests.{◌==◌, if◌then◌else◌, Bool-cases}

unfoldable pub bit : ℕ → ℕ → Bool
bit zero x = x % 2 == 1
bit (suc i) x = bit i (x / 2)

-- `u64::trailing_zeros`, over a word of `w` bits.
unfoldable pub trailing_zeros : ℕ → ℕ → ℕ
trailing_zeros zero x = 0
trailing_zeros (suc w) x = if x % 2 == 1 then 0 else suc (trailing_zeros w (x / 2))

pub bit-zero : (i : ℕ) → bit i 0 ≡ false
unfolding bit
bit-zero zero = refl
bit-zero (suc i) = bit-zero i

-- What a digit and its rest contribute.
bit-digit : (i d r : ℕ) → r < 2 → bit (suc i) (d * 2 + r) ≡ bit i d
unfolding bit
bit-digit i d r h = ap (bit i) (omega arith)

bit-and_digits : (i n a b : ℕ) → a ≤ n → bit i (digits (λ _. 0) min n a b) ≡ (bit i a && bit i b)
unfolding bit
bit-and_digits i zero zero b h = ground (arith, bit-zero i)
bit-and_digits i (suc n) zero b h = ground (arith, bit-zero i)
bit-and_digits i zero (suc a) b h = absurd (omega arith)
bit-and_digits zero (suc n) (suc a) b h = ground arith
bit-and_digits (suc i) (suc n) (suc a) b h =
    let d = digits (λ _. 0) min n (suc a / 2) (b / 2) in
    bit-digit i d (min (suc a % 2) (b % 2)) (omega arith)
    ∙ bit-and_digits i n (suc a / 2) (b / 2) (omega arith)

bit-or_digits : (i n a b : ℕ) → a ≤ n → bit i (digits (λ y. y) max n a b) ≡ (bit i a || bit i b)
unfolding bit
bit-or_digits i zero zero b h = ground (arith, bit-zero i)
bit-or_digits i (suc n) zero b h = ground (arith, bit-zero i)
bit-or_digits i zero (suc a) b h = absurd (omega arith)
bit-or_digits zero (suc n) (suc a) b h = ground arith
bit-or_digits (suc i) (suc n) (suc a) b h =
    let d = digits (λ y. y) max n (suc a / 2) (b / 2) in
    bit-digit i d (max (suc a % 2) (b % 2)) (omega arith)
    ∙ bit-or_digits i n (suc a / 2) (b / 2) (omega arith)

pub bit-bit_and : (i a b : ℕ) → bit i (bit_and a b) ≡ (bit i a && bit i b)
bit-bit_and i a b = ap (bit i) (bit_and-bitwise a b) ∙ bit-and_digits i a a b (omega arith)

pub bit-bit_or : (i a b : ℕ) → bit i (bit_or a b) ≡ (bit i a || bit i b)
bit-bit_or i a b = ap (bit i) (bit_or-bitwise a b) ∙ bit-or_digits i a a b (omega arith)

-- `!x` on a word of `w` bits.
abbrev pub complement : ℕ → ℕ → ℕ
complement w x = 2 ^ w - 1 - x

pub bit-complement : (i w x : ℕ) → i < w → x < 2 ^ w → bit i (complement w x) ≡ not (bit i x)
unfolding bit
bit-complement i zero x h lt = absurd (omega arith)
bit-complement zero (suc w) x h lt = ground (arith, pow-suc 2 w)
bit-complement (suc i) (suc w) x h lt =
    ap (bit i) (omega (arith, pow-suc 2 w))
    ∙ bit-complement i w (x / 2) (omega arith) (omega (arith, pow-suc 2 w))

pub bit-pow : (i k : ℕ) → bit i (2 ^ k) ≡ (i == k)
unfolding bit
bit-pow zero zero = refl
bit-pow (suc i) zero = bit-zero i ∙ ground arith
bit-pow zero (suc k) = ground (arith, pow-suc 2 k)
bit-pow (suc i) (suc k) = ap (bit i) (omega (arith, pow-suc 2 k)) ∙ bit-pow i k ∙ ground arith

-- A number with no bit below `w` that is less than 2 ^ w is 0, and so for two numbers.
pub eq_of_bits : (w x y : ℕ) → x < 2 ^ w → y < 2 ^ w → ((i : ℕ) → i < w → bit i x ≡ bit i y) → x ≡ y
unfolding bit
eq_of_bits zero x y hx hy same = omega arith
eq_of_bits (suc w) x y hx hy same =
    let low : (x % 2 == 1) ≡ (y % 2 == 1) = same 0 (omega arith) in
    let high : x / 2 ≡ y / 2 =
      eq_of_bits w (x / 2) (y / 2) (omega (arith, pow-suc 2 w)) (omega (arith, pow-suc 2 w))
        λ i h. same (suc i) (omega arith) in
    ground (arith, low, high)

and_digits-le : (n a b : ℕ) → a ≤ n → digits (λ _. 0) min n a b ≤ a
and_digits-le zero zero b h = omega arith
and_digits-le (suc n) zero b h = omega arith
and_digits-le zero (suc a) b h = absurd (omega arith)
and_digits-le (suc n) (suc a) b h = omega (arith, and_digits-le n (suc a / 2) (b / 2) (omega arith))

pub bit_and-le : (a b : ℕ) → bit_and a b ≤ a
bit_and-le a b = omega (arith, bit_and-bitwise a b, and_digits-le a a b (omega arith))

or_digits-lt : (w n a b : ℕ) → a ≤ n → a < 2 ^ w → b < 2 ^ w → digits (λ y. y) max n a b < 2 ^ w
or_digits-lt w zero zero b h ha hb = hb
or_digits-lt w (suc n) zero b h ha hb = hb
or_digits-lt w zero (suc a) b h ha hb = absurd (omega arith)
or_digits-lt zero (suc n) (suc a) b h ha hb = absurd (omega arith)
or_digits-lt (suc w) (suc n) (suc a) b h ha hb = omega (
  arith,
  pow-suc 2 w,
  or_digits-lt w n (suc a / 2) (b / 2) (omega arith) (omega (arith, pow-suc 2 w))
      (omega (arith, pow-suc 2 w)),
)

pub bit_or-lt : (w a b : ℕ) → a < 2 ^ w → b < 2 ^ w → bit_or a b < 2 ^ w
bit_or-lt w a b ha hb = omega (arith, bit_or-bitwise a b, or_digits-lt w a a b (omega arith) ha hb)

-- The number of trailing zeros is the position of the lowest bit.
pub trailing_zeros_lem :
    (w x : ℕ)
    → x ≢ 0
    → x < 2 ^ w
    → let t = trailing_zeros w x in (t < w) × (bit t x ≡ true) × ((j : ℕ) → j < t → bit j x ≡ false)
unfolding bit trailing_zeros
trailing_zeros_lem zero x nz lt = absurd (omega arith)
trailing_zeros_lem (suc w) x nz lt = elim (Bool-cases (x % 2 == 1)) [
  | inl odd ↦ rw odd (omega arith, odd, λ j h. absurd (omega arith))
  | inr even ↦
      let ih = trailing_zeros_lem w (x / 2) (ground arith) (omega (arith, pow-suc 2 w)) in
      rw even
        (omega (arith, ih), ih.1, elim [ zero ↦ λ h. even | suc j ↦ λ h. ih.2 j (omega arith) ])
]

and_digits-lt : (w n a b : ℕ) → a ≤ n → b < 2 ^ w → digits (λ _. 0) min n a b < 2 ^ w
and_digits-lt w zero zero b h hb = omega (arith, hb)
and_digits-lt w (suc n) zero b h hb = omega (arith, hb)
and_digits-lt w zero (suc a) b h hb = absurd (omega arith)
and_digits-lt zero (suc n) (suc a) b h hb =
    omega (arith, hb, and_digits-lt zero n (suc a / 2) (b / 2) (omega arith) (omega (arith, hb)))
and_digits-lt (suc w) (suc n) (suc a) b h hb = omega (
  arith,
  pow-suc 2 w,
  and_digits-lt w n (suc a / 2) (b / 2) (omega arith) (omega (arith, hb, pow-suc 2 w)),
)

bit_and-lt : (w a b : ℕ) → b < 2 ^ w → bit_and a b < 2 ^ w
bit_and-lt w a b h = omega (arith, bit_and-bitwise a b, and_digits-lt w a a b (omega arith) h)

-- The bits of the low byte.
bit-low_byte : (i x : ℕ) → i < 8 → bit i (bit_and x 0xff) ≡ bit i (x % 256)
unfolding bit
bit-low_byte zero x h = bit-bit_and 0 x 0xff ∙ ground arith
bit-low_byte (suc zero) x h = bit-bit_and 1 x 0xff ∙ ground arith
bit-low_byte (suc (suc zero)) x h = bit-bit_and 2 x 0xff ∙ ground arith
bit-low_byte (suc (suc (suc zero))) x h = bit-bit_and 3 x 0xff ∙ ground arith
bit-low_byte (suc (suc (suc (suc zero)))) x h = bit-bit_and 4 x 0xff ∙ ground arith
bit-low_byte (suc (suc (suc (suc (suc zero))))) x h = bit-bit_and 5 x 0xff ∙ ground arith
bit-low_byte (suc (suc (suc (suc (suc (suc zero)))))) x h = bit-bit_and 6 x 0xff ∙ ground arith
bit-low_byte (suc (suc (suc (suc (suc (suc (suc zero))))))) x h =
    bit-bit_and 7 x 0xff ∙ ground arith
bit-low_byte (suc (suc (suc (suc (suc (suc (suc (suc i)))))))) x h = absurd (omega (arith, h))

pub low_byte : (x : ℕ) → bit_and x 0xff ≡ x % 256
low_byte x =
    eq_of_bits 8 (bit_and x 0xff) (x % 256) (bit_and-lt 8 x 0xff (omega arith)) (omega arith)
      λ i h. bit-low_byte i x h
