-- ===== src/Pipe/Handles.antt =====
-- `read` and `write` of a handle of vfs/pipe.rs, on every branch.
use ape.Base.{
  ℕ, ◌-◌, ◌≤◌, ◌<◌, ◌≡◌, refl, ◌⊎◌, inl, inr, none, some, arith, Bool-cases, lookup, lookup-insert,
  ◌==◌, Option-cases, if◌then◌else◌, take, drop, length, min, List, ◌++◌, length-take,
  length-append,
}
use ape.Pipe.Laws.{drain_lem}
use ape.Pipe.{
  PipeState, PipeRegistry, read_end, write_end, PipeHandle, read, write, pipe_read, pipe_write, ok,
  err, not_found, io_error, Result, pipe_default_capacity, put_pipe,
}

-- The outcome of a write on the write end, by the state of the pipe.
abbrev pub WriteOutcome : PipeHandle → PipeRegistry → List ℕ → Result ℕ × PipeRegistry → Type 0
WriteOutcome h r src (ok n, r') =
    (p : PipeState) × (lookup h.pipe_id r.pipes ≡ some p)
    × (0 < p.readers)
    × (n ≤ length src)
    × ((k : ℕ)
        → lookup k r'.pipes ≡ (
            if h.pipe_id == k
            then some (record p { buf = p.buf ++ take n src })
            else lookup k r.pipes))
    × (n < length src → pipe_default_capacity ≤ length (p.buf ++ take n src))
WriteOutcome h r src (err e, r') =
    (r' ≡ r)
    × (((e ≡ not_found) × (lookup h.pipe_id r.pipes ≡ none))
        ⊎ ((e ≡ io_error)
            × ((p : PipeState) × (lookup h.pipe_id r.pipes ≡ some p) × (p.readers ≡ 0))))

module _ (h : PipeHandle) (r : PipeRegistry) (src : List ℕ) (w : h.end ≡ write_end) where
  write_gone : lookup h.pipe_id r.pipes ≡ none → write h r src ≡ (err not_found, r)
  unfolding write pipe_write
  write_gone e = ground arith

  write_broken :
      (p : PipeState)
      → lookup h.pipe_id r.pipes ≡ some p
      → p.readers ≡ 0
      → write h r src ≡ (err io_error, r)
  unfolding write pipe_write
  write_broken p e z = ground arith

  write_taken :
      (p : PipeState)
      → lookup h.pipe_id r.pipes ≡ some p
      → 0 < p.readers
      → let n = min (pipe_default_capacity - length p.buf) (length src) in
        write h r src ≡ (ok n, put_pipe r h.pipe_id (record p { buf = p.buf ++ take n src }))
  unfolding write pipe_write
  write_taken p e z = ground arith

-- A write on the write end of a pipe takes a prefix of the bytes, appends it to that pipe's buffer
-- and leaves all else alone, and takes less than everything only if the buffer is full afterwards.
-- It fails exactly where the pipe is gone or has no reader, and then changes nothing.
pub write-WriteOutcome :
    (h : PipeHandle) (r : PipeRegistry) (src : List ℕ)
    → h.end ≡ write_end
    → WriteOutcome h r src (write h r src)
write-WriteOutcome h r src w = elim (Option-cases (lookup h.pipe_id r.pipes)) [
  | inl e ↦ rw (write_gone h r src w e) (refl, inl (refl, e))
  | inr (p, e) ↦ elim (Bool-cases (p.readers == 0)) [
    | inl broken ↦
        let z : p.readers ≡ 0 = ground arith in
        rw (write_broken h r src w p e z) (refl, inr (refl, (p, e, z)))
    | inr alive ↦
        let z : 0 < p.readers = ground arith in
        let n = min (pipe_default_capacity - length p.buf) (length src) in
        rw (write_taken h r src w p e z) (
          p,
          e,
          z,
          omega arith,
          λ k. lookup-insert h.pipe_id k (record p { buf = p.buf ++ take n src }) r.pipes,
          λ short. omega (arith, length-append p.buf (take n src), length-take n src),
        )
  ]
]

-- A read on the read end of a pipe that exists returns the first bytes of its buffer, as many as
-- fit, and takes just these away; where the pipe is gone it fails, and changes nothing.
pub read_lem :
    (h : PipeHandle) (r : PipeRegistry) (room : ℕ)
    → h.end ≡ read_end
    → ((lookup h.pipe_id r.pipes ≡ none) × (read h r room ≡ (err not_found, r)))
      ⊎ ((p : PipeState) × (lookup h.pipe_id r.pipes ≡ some p)
          × (read h r room
              ≡ (ok (take room p.buf), put_pipe r h.pipe_id (record p { buf = drop room p.buf }))))
unfolding read pipe_read
read_lem h r room e = elim (Option-cases (lookup h.pipe_id r.pipes)) [
  | inl gone ↦ inl (gone, ground arith)
  | inr (p, found) ↦ inr (p, found, ground (arith, drain_lem room p.buf))
]
