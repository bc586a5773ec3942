-- ===== src/Signal/Pending.antt =====
-- The pending set of ape/signal.rs: which signal a pop returns, and what it leaves.
use Prim.Native.Nat.{bit_and}
use native.Mathlib.Nat.{pow-le-pow_right}
use ape.Base.{
  ℕ, zero, suc, ◌+◌, ◌-◌, ◌^◌, ◌<◌, ◌≡◌, ◌≢◌, sym, ap, ◌∙◌, ◌⊎◌, inl, inr, true, false, not, ◌&&◌,
  ◌||◌, none, some, ◌==◌, arith, bit, bit-zero, bit-bit_and, bit-bit_or, bit-pow, complement,
  bit_and-le, eq_of_bits, leb, trailing_zeros, trailing_zeros_lem, Bool-cases, ==_self,
}
use native.Mathlib.Decide.{ℕ_discrete}
use ape.Signal.{
  SignalStruct, and_not, signal_bit, queue_signal, pop_loop, pop_pending_signal_from_mask,
}
use ape.Signal.Masks.{bit-and_not}

pub pow-lt : (k : ℕ) → k < 64 → 2 ^ k < 2 ^ 64
pow-lt k h = omega (arith, pow-le-pow_right {n = 2} (omega arith) {i = k} {j = 63} (omega arith))

-- Signal numbers from 1 to 64 are queued, once each, whatever was pending; any other number is
-- refused, and changes nothing.
pub bit-queue_signal :
    (s : SignalStruct) (signum i : ℕ)
    → i < 64
    → let (accepted, s') = queue_signal s signum in
      (accepted ≡ (leb 1 signum && leb signum 64))
      × (bit i s'.signal_pending ≡ (bit i s.signal_pending || (accepted && i + 1 == signum)))
      × (s' ≡ record s { signal_pending = s'.signal_pending })
unfolding queue_signal signal_bit
bit-queue_signal s signum i h =
    ground (arith, bit-bit_or i s.signal_pending (2 ^ (signum - 1)), bit-pow i (signum - 1))

flag_hit : (t p : ℕ) → bit t p ≡ true → bit_and p (2 ^ t) ≢ 0
flag_hit t p h e = cc (ap (bit t) e, bit-bit_and t p (2 ^ t), bit-pow t t, bit-zero t, h, ==_self t)

bit-bit_and_pow : (t p i : ℕ) → bit t p ≡ false → bit i (bit_and p (2 ^ t)) ≡ false
bit-bit_and_pow t p i h = ground (arith, bit-bit_and i p (2 ^ t), bit-pow i t)

hit_flag : (t p : ℕ) → p < 2 ^ 64 → bit_and p (2 ^ t) ≢ 0 → bit t p ≡ true
hit_flag t p lt h = elim (Bool-cases (bit t p)) [
  | inl on ↦ on
  | inr off ↦ absurd (
      h (
        eq_of_bits 64 (bit_and p (2 ^ t)) 0 (omega (arith, bit_and-le p (2 ^ t))) (omega arith)
          λ i b. bit-bit_and_pow t p i off ∙ sym (bit-zero i)))
]

module _ (s : SignalStruct) (mask : ℕ) where
  pop_nothing :
      bit_and s.signal_pending mask ≡ 0 → pop_pending_signal_from_mask s mask ≡ some (none, s)
  unfolding pop_pending_signal_from_mask
  pop_nothing e = ground arith

  pop_lowest :
      let t = trailing_zeros 64 (bit_and s.signal_pending mask) in
      bit_and s.signal_pending mask ≢ 0
      → bit_and s.signal_pending (2 ^ t) ≢ 0
      → pop_pending_signal_from_mask s mask
        ≡ some (some (t + 1), record s { signal_pending = and_not s.signal_pending (2 ^ t) })
  unfolding pop_pending_signal_from_mask
  pop_lowest ne hit = ground arith

-- A pop with nobody in between returns in one round. It returns nothing exactly if no signal of
-- the mask is pending, and changes nothing then; otherwise it returns the lowest pending signal of
-- the mask, takes just that one away, and leaves all else as it was.
pub pop_pending_lem :
    (s : SignalStruct) (mask : ℕ)
    → s.signal_pending < 2 ^ 64
    → ((pop_pending_signal_from_mask s mask ≡ some (none, s))
        × ((i : ℕ) → (bit i s.signal_pending && bit i mask) ≡ false))
      ⊎ ((t : ℕ) × (t < 64)
          × ((bit t s.signal_pending && bit t mask) ≡ true)
          × ((j : ℕ) → j < t → (bit j s.signal_pending && bit j mask) ≡ false)
          × ((p : ℕ) × (pop_pending_signal_from_mask s mask
                ≡ some (some (t + 1), record s { signal_pending = p }))
              × ((i : ℕ) → i < 64 → bit i p ≡ (bit i s.signal_pending && not (i == t)))))
pop_pending_lem s mask lt =
    let ready = bit_and s.signal_pending mask in
    let t = trailing_zeros 64 ready in
    elim (ℕ_discrete ready 0) [
      | yes e ↦ inl (
        pop_nothing s mask e,
        λ i. sym (bit-bit_and i s.signal_pending mask) ∙ (ap (bit i) e ∙ bit-zero i),
      )
      | no ne ↦
          let low =
            trailing_zeros_lem 64 ready ne (omega (arith, bit_and-le s.signal_pending mask)) in
          let pending : bit t s.signal_pending ≡ true =
            ground (arith, bit-bit_and t s.signal_pending mask, low.1) in
          inr (
            t,
            low.0,
            sym (bit-bit_and t s.signal_pending mask) ∙ low.1,
            λ j h. sym (bit-bit_and j s.signal_pending mask) ∙ low.2 j h,
            (
              and_not s.signal_pending (2 ^ t),
              pop_lowest s mask ne (flag_hit t s.signal_pending pending),
              λ i h.
                  bit-and_not i s.signal_pending (2 ^ t) h (pow-lt t low.0)
                  ∙ ap (λ b. bit i s.signal_pending && not b) (bit-pow i t),
            ),
          )
    ]

-- With other threads in between, whatever they do to the pending set: a pop that returns a signal
-- is one of its mask, was still pending in the set that the others had left when the pop came to
-- take it, and is taken out of that set, which is otherwise kept. So a signal that another thread
-- has taken first is never returned.
pub pop_loop_takes :
    (others : ℕ → ℕ → ℕ) (fuel : ℕ) (s : SignalStruct) (mask n : ℕ) (s' : SignalStruct)
    → ((f p : ℕ) → others f p < 2 ^ 64)
    → s.signal_pending < 2 ^ 64
    → pop_loop others fuel s mask ≡ some (some n, s')
    → (t : ℕ) × (f : ℕ) × (q : ℕ) × (n ≡ t + 1)
      × (t < 64)
      × (bit t mask ≡ true)
      × (bit t (others f q) ≡ true)
      × (s'.signal_pending ≡ and_not (others f q) (2 ^ t))
unfolding pop_loop
pop_loop_takes others zero s mask n s' word lt e = cc
pop_loop_takes others (suc fuel) s mask n s' word lt e =
    let ready = bit_and s.signal_pending mask in
    let t = trailing_zeros 64 ready in
    let seen = others fuel s.signal_pending in
    elim (ℕ_discrete ready 0) [
      | yes z ↦ absurd (ground arith)
      | no ne ↦
          let low =
            trailing_zeros_lem 64 ready ne (omega (arith, bit_and-le s.signal_pending mask)) in
          elim (ℕ_discrete (bit_and seen (2 ^ t)) 0) [
            | yes gone ↦
                pop_loop_takes others fuel (record s { signal_pending = and_not seen (2 ^ t) }) mask
                  n s' word
                  (omega
                    (arith, word fuel s.signal_pending, bit_and-le seen (complement 64 (2 ^ t))))
                  (ground arith)
            | no hit ↦ (
              t,
              fuel,
              s.signal_pending,
              ground arith,
              low.0,
              ground (arith, bit-bit_and t s.signal_pending mask, low.1),
              hit_flag t seen (word fuel s.signal_pending) hit,
              ground arith,
            )
          ]
    ]
