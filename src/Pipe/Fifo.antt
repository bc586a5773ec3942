-- ===== src/Pipe/Fifo.antt =====
-- The bytes of a pipe of vfs/pipe.rs come out in the order in which they went in.
use ape.Base.{
  ℕ, ◌+◌, ◌-◌, ◌≤◌, ◌<◌, ◌≡◌, refl, inl, inr, ◌≢◌, none, some, List, [], ◌∷◌, ◌++◌, arith, true,
  append_assoc, append-nil, lookup, insert, lookup-insert, lookup-remove, length, take, drop,
  take-append-drop, usize_size, min, Option-cases, contains_key,
}
use ape.Pipe.Trace.{
  Call, creates, opens, clones, closes, reads, writes, step, run, delivered, accepted, clone_end,
  close_end, all_delivered, all_accepted, contents,
}
use ape.Pipe.Laws.{drain_lem}
use ape.Pipe.{
  PipeState, PipeRegistry, PipeEnd, read_end, write_end, pipe_default_capacity, create_pipe,
  open_pipe, pipe_read, pipe_write, close_pipe_read_end, close_pipe_write_end, clone_pipe_read_end,
  clone_pipe_write_end, put_pipe, close_or_keep, retain,
}

-- What a call does to pipe `j`: a pipe that is left was there before, with these bytes.
abbrev Moves : ℕ → PipeRegistry → Call → Type 0
Moves j r c =
    contains_key j (step r c).pipes ≡ true
    → (contains_key j r.pipes ≡ true)
      × (delivered j r c ++ contents j (step r c) ≡ contents j r ++ accepted j r c)

creates-Moves : (j : ℕ) (r : PipeRegistry) → j ≢ r.next_pipe_id → Moves j r creates
unfolding step create_pipe delivered accepted
creates-Moves j r ne h = ground (
  arith,
  lookup-insert r.next_pipe_id j (record { buf = []; readers = 0; writers = 0 }) r.pipes,
  append-nil (contents j r),
)

-- A change of pipe `id` that keeps its bytes, seen from pipe `j`.
Keeps : ℕ → PipeRegistry → PipeRegistry → Type 0
Keeps j r r' =
    contains_key j r'.pipes ≡ true
    → (contains_key j r.pipes ≡ true) × (contents j r' ≡ contents j r)

put_pipe-Keeps :
    (j : ℕ) (r : PipeRegistry) (id : ℕ) (p q : PipeState)
    → lookup id r.pipes ≡ some p
    → q.buf ≡ p.buf
    → Keeps j r (put_pipe r id q)
unfolding Keeps
put_pipe-Keeps j r id p q e b h = ground (arith, lookup-insert id j q r.pipes)

close_or_keep-Keeps :
    (j : ℕ) (r : PipeRegistry) (id : ℕ) (p q : PipeState)
    → lookup id r.pipes ≡ some p
    → q.buf ≡ p.buf
    → Keeps j r (close_or_keep r id q)
unfolding Keeps
close_or_keep-Keeps j r id p q e b h =
    ground (arith, lookup-insert id j q r.pipes, lookup-remove id j (insert id q r.pipes))

-- A method that leaves a missing pipe alone and writes back one that is there.
ends-Keeps :
    (j : ℕ) (r : PipeRegistry) (id : ℕ) (next : PipeState → PipeRegistry)
    → ((p : PipeState) → lookup id r.pipes ≡ some p → Keeps j r (next p))
    → Keeps j r (elim (lookup id r.pipes) [ none ↦ r | some p ↦ next p ])
unfolding Keeps
ends-Keeps j r id next keep = elim (Option-cases (lookup id r.pipes)) [
  | inl e ↦ rw e λ h. (h, refl)
  | inr (p, e) ↦ rw e (keep p e)
]

open_pipe-Keeps :
    (j : ℕ) (r : PipeRegistry) (id : ℕ) (end : PipeEnd) → Keeps j r (open_pipe r id end).1
unfolding open_pipe Keeps
open_pipe-Keeps j r id end = elim (Option-cases (lookup id r.pipes)) [
  | inl e ↦ rw (e, open_pipe) λ h. (h, refl)
  | inr (p, e) ↦ rw (e, open_pipe) (put_pipe-Keeps j r id p (retain end p) e (retain-buf p end))
]
  where
    retain-buf : (p : PipeState) (end : PipeEnd) → (retain end p).buf ≡ p.buf
    retain-buf p read_end = refl
    retain-buf p write_end = refl

clone_end-Keeps :
    (j : ℕ) (r : PipeRegistry) (id : ℕ) (end : PipeEnd) → Keeps j r (clone_end r id end)
unfolding clone_pipe_read_end clone_pipe_write_end
clone_end-Keeps j r id read_end = ends-Keeps j r id _ λ p e. put_pipe-Keeps j r id p _ e refl
clone_end-Keeps j r id write_end = ends-Keeps j r id _ λ p e. put_pipe-Keeps j r id p _ e refl

close_end-Keeps :
    (j : ℕ) (r : PipeRegistry) (id : ℕ) (end : PipeEnd) → Keeps j r (close_end r id end)
unfolding close_pipe_read_end close_pipe_write_end
close_end-Keeps j r id read_end =
    ends-Keeps j r id _
      λ p e. close_or_keep-Keeps j r id p (record p { readers = p.readers - 1 }) e refl
close_end-Keeps j r id write_end =
    ends-Keeps j r id _
      λ p e. close_or_keep-Keeps j r id p (record p { writers = p.writers - 1 }) e refl

reads-Moves : (j : ℕ) (r : PipeRegistry) (id room : ℕ) → Moves j r (reads id room)
unfolding step pipe_read delivered accepted
reads-Moves j r id room h = elim (Option-cases (lookup id r.pipes)) [
  | inl e ↦ ground (arith, append-nil (contents j r))
  | inr (p, e) ↦ ground (
    arith,
    drain_lem room p.buf,
    take-append-drop room p.buf,
    append-nil (contents j r),
    lookup-insert id j (record p { buf = drop room p.buf }) r.pipes,
  )
]

writes-Moves : (j : ℕ) (r : PipeRegistry) (id : ℕ) (src : List ℕ) → Moves j r (writes id src)
unfolding step pipe_write delivered accepted
writes-Moves j r id src h = elim (Option-cases (lookup id r.pipes)) [
  | inl e ↦ ground (arith, append-nil (contents j r))
  | inr (p, e) ↦
      let w = min (pipe_default_capacity - length p.buf) (length src) in
      ground (
        arith,
        append-nil (contents j r),
        lookup-insert id j (record p { buf = p.buf ++ take w src }) r.pipes,
      )
]

keep-Moves :
    (j : ℕ) (r : PipeRegistry) (c : Call)
    → Keeps j r (step r c)
    → delivered j r c ≡ []
    → accepted j r c ≡ []
    → Moves j r c
unfolding Keeps
keep-Moves j r c keep d a h = ground (arith, keep h, append-nil (contents j r))

step-Moves : (j : ℕ) (r : PipeRegistry) (c : Call) → j < r.next_pipe_id → Moves j r c
unfolding step delivered accepted
step-Moves j r creates lt = creates-Moves j r (omega arith)
step-Moves j r (opens id end) lt =
    keep-Moves j r (opens id end) (open_pipe-Keeps j r id end) refl refl
step-Moves j r (clones id end) lt =
    keep-Moves j r (clones id end) (clone_end-Keeps j r id end) refl refl
step-Moves j r (closes id end) lt =
    keep-Moves j r (closes id end) (close_end-Keeps j r id end) refl refl
step-Moves j r (reads id room) lt = reads-Moves j r id room
step-Moves j r (writes id src) lt = writes-Moves j r id src

next_pipe_id-step :
    (r : PipeRegistry) (c : Call)
    → r.next_pipe_id + 1 < usize_size
    → (r.next_pipe_id ≤ (step r c).next_pipe_id) × ((step r c).next_pipe_id ≤ r.next_pipe_id + 1)
unfolding step create_pipe open_pipe pipe_read pipe_write close_pipe_read_end close_pipe_write_end
    clone_pipe_read_end clone_pipe_write_end
next_pipe_id-step r creates h = omega arith
next_pipe_id-step r (opens id read_end) h = ground arith
next_pipe_id-step r (opens id write_end) h = ground arith
next_pipe_id-step r (clones id read_end) h = ground arith
next_pipe_id-step r (clones id write_end) h = ground arith
next_pipe_id-step r (closes id read_end) h = ground arith
next_pipe_id-step r (closes id write_end) h = ground arith
next_pipe_id-step r (reads id room) h = ground arith
next_pipe_id-step r (writes id src) h = ground arith

run-Moves :
    (j : ℕ) (r : PipeRegistry) (cs : List Call)
    → j < r.next_pipe_id
    → r.next_pipe_id + length cs < usize_size
    → contains_key j (run r cs).pipes ≡ true
    → (contains_key j r.pipes ≡ true)
      × (all_delivered j r cs ++ contents j (run r cs) ≡ contents j r ++ all_accepted j r cs)
unfolding run all_delivered all_accepted
run-Moves j r [] lt small h = (h, ground (arith, append-nil (contents j r)))
run-Moves j r (c ∷ cs) lt small h =
    let next = next_pipe_id-step r c (omega arith) in
    let later = run-Moves j (step r c) cs (omega (arith, next)) (omega (arith, next)) h in
    let now = step-Moves j r c lt later.0 in
    (
      now.0,
      cc (
        later.1,
        now.1,
        append_assoc (delivered j r c) (all_delivered j (step r c) cs)
            (contents j (run (step r c) cs)),
        append_assoc (delivered j r c) (contents j (step r c)) (all_accepted j (step r c) cs),
        append_assoc (contents j r) (accepted j r c) (all_accepted j (step r c) cs),
      ),
    )

-- In any sequence of calls on any pipes, creations of others included, a pipe that was handed out
-- before and still exists afterwards has kept every byte in order: what was read from it, then
-- what it still holds, is what it held at first, then what the writes to it report as taken. The
-- sequence is short enough that no pipe number is given out twice.
pub run_fifo :
    (j : ℕ) (r : PipeRegistry) (cs : List Call)
    → j < r.next_pipe_id
    → r.next_pipe_id + length cs < usize_size
    → contains_key j (run r cs).pipes ≡ true
    → all_delivered j r cs ++ contents j (run r cs) ≡ contents j r ++ all_accepted j r cs
run_fifo j r cs lt small h = (run-Moves j r cs lt small h).1
