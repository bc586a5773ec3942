-- ===== src/Task/Frames.antt =====
-- The reference counts of shared frames of ape/state.rs: which release frees a frame.
use ape.Base.{
  ℕ, ◌+◌, ◌-◌, ◌≤◌, ◌<◌, ◌≡◌, refl, Bool, false, ◌||◌, List, [], ◌∷◌, arith, Map, lookup,
  lookup-insert, lookup-remove, unwrap_or, usize_size, ◌==◌, if◌then◌else◌, Option-cases, length,
  inl, inr, saturating_add,
}
use ape.Task.State.{retain_frame_cap, release_frame_cap}

pub data FrameOp : Type 0 where
  retains releases : ℕ → FrameOp

unfoldable pub step : Map ℕ → FrameOp → Map ℕ
step refs (retains slot) = retain_frame_cap refs slot
step refs (releases slot) = (release_frame_cap refs slot).1

unfoldable pub run : Map ℕ → List FrameOp → Map ℕ
run refs [] = refs
run refs (o ∷ os) = run (step refs o) os

-- A frame with no entry has one holder.
abbrev pub holders : ℕ → Map ℕ → ℕ
holders slot refs = unwrap_or (lookup slot refs) 1

-- Whether the operation frees `slot`.
unfoldable pub frees : ℕ → Map ℕ → FrameOp → Bool
frees slot refs (retains other) = false
frees slot refs (releases other) = if other == slot then (release_frame_cap refs other).0 else false

unfoldable pub ever_frees : ℕ → Map ℕ → List FrameOp → Bool
ever_frees slot refs [] = false
ever_frees slot refs (o ∷ os) = frees slot refs o || ever_frees slot (step refs o) os

abbrev pub retain_count : ℕ → FrameOp → ℕ
retain_count slot (retains other) = if other == slot then 1 else 0
retain_count slot (releases other) = 0

abbrev pub release_count : ℕ → FrameOp → ℕ
release_count slot (retains other) = 0
release_count slot (releases other) = if other == slot then 1 else 0

abbrev pub sum_over : (FrameOp → ℕ) → List FrameOp → ℕ
sum_over f [] = 0
sum_over f (o ∷ os) = f o + sum_over f os

step-holders :
    (slot : ℕ) (refs : Map ℕ) (o : FrameOp)
    → holders slot refs + 1 < usize_size
    → frees slot refs o ≡ false
    → holders slot (step refs o) + release_count slot o ≡ holders slot refs + retain_count slot o
unfolding step retain_frame_cap release_frame_cap frees
step-holders slot refs (retains other) small kept =
    ground (arith, lookup-insert other slot (saturating_add (holders other refs) 1) refs)
step-holders slot refs (releases other) small kept = elim (Option-cases (lookup other refs)) [
  | inl e ↦ ground arith
  | inr (n, e) ↦
      ground (arith, lookup-insert other slot (n - 1) refs, lookup-remove other slot refs)
]

retain_count-le : (slot : ℕ) (o : FrameOp) → retain_count slot o ≤ 1
retain_count-le slot (retains other) = ground arith
retain_count-le slot (releases other) = omega arith

step-held :
    (slot : ℕ) (refs : Map ℕ) (o : FrameOp) → 0 < holders slot refs → 0 < holders slot (step refs o)
unfolding step retain_frame_cap release_frame_cap
step-held slot refs (retains other) held =
    ground (arith, lookup-insert other slot (saturating_add (holders other refs) 1) refs)
step-held slot refs (releases other) held = elim (Option-cases (lookup other refs)) [
  | inl e ↦ ground arith
  | inr (n, e) ↦
      ground (arith, lookup-insert other slot (n - 1) refs, lookup-remove other slot refs)
]

run-held :
    (slot : ℕ) (refs : Map ℕ) (os : List FrameOp)
    → 0 < holders slot refs
    → 0 < holders slot (run refs os)
unfolding run
run-held slot refs [] held = held
run-held slot refs (o ∷ os) held = run-held slot (step refs o) os (step-held slot refs o held)

run-holders :
    (slot : ℕ) (refs : Map ℕ) (os : List FrameOp)
    → holders slot refs + length os < usize_size
    → ever_frees slot refs os ≡ false
    → holders slot (run refs os) + sum_over (release_count slot) os
      ≡ holders slot refs + sum_over (retain_count slot) os
unfolding run ever_frees
run-holders slot refs [] small kept = refl
run-holders slot refs (o ∷ os) small kept =
    let one = step-holders slot refs o (omega arith) (ground arith) in
    let few : retain_count slot o ≤ 1 = retain_count-le slot o in
    omega (arith, one, run-holders slot (step refs o) os (omega (arith, one, few)) (ground arith))

-- However retains and releases of frames are mixed: as long as none of them has freed the frame, a
-- release frees it exactly if, with this one, the releases are as many as the holders it had at
-- first and the retains since. The counts stay below the largest word.
pub release_frees_iff :
    (slot : ℕ) (refs : Map ℕ) (os : List FrameOp)
    → 0 < holders slot refs
    → holders slot refs + length os < usize_size
    → ever_frees slot refs os ≡ false
    → (release_frame_cap (run refs os) slot).0 ≡ (
        sum_over (release_count slot) os + 1 == holders slot refs + sum_over (retain_count slot) os)
unfolding release_frame_cap
release_frees_iff slot refs os held small kept =
    ground (arith, run-holders slot refs os small kept, run-held slot refs os held)
