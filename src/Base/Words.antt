-- ===== src/Base/Words.antt =====
-- `usize` and `u64` arithmetic: 64-bit words as native numbers, wrapping where the source wraps.
use Prim.Native.Nat.{ℕ, ◌+◌, ◌-◌, ◌%◌, ◌^◌, ◌<◌, min}
use mathlib.Core.Path.{◌≡◌}
use mathlib.Core.Option.{Option, none, some}
use native.Mathlib.Omega.{arith}
use ape.Base.Tests.{ltb, if◌then◌else◌}

abbrev pub usize_size : ℕ
usize_size = 2 ^ 64

abbrev pub usize_max : ℕ
usize_max = 2 ^ 64 - 1

abbrev pub wrapping_add : ℕ → ℕ → ℕ
wrapping_add a b = (a + b) % 2 ^ 64

abbrev pub saturating_add : ℕ → ℕ → ℕ
saturating_add a b = min (a + b) usize_max

abbrev pub saturating_sub : ℕ → ℕ → ℕ
saturating_sub a b = a - b

abbrev pub checked_add : ℕ → ℕ → Option ℕ
checked_add a b = if ltb (a + b) usize_size then some (a + b) else none

pub checked_add-eq_some : (a b c : ℕ) → checked_add a b ≡ some c → (c ≡ a + b) × (c < usize_size)
checked_add-eq_some a b c h = ground arith
