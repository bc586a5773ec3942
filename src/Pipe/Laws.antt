-- ===== src/Pipe/Laws.antt =====
-- The registry's invariant, and that every method of vfs/pipe.rs keeps it.
use ape.Base.{
  ℕ, zero, suc, ◌-◌, ◌≤◌, ◌≡◌, refl, inl, inr, some, List, [], ◌∷◌, arith, Bool-cases, lookup,
  insert, lookup-insert, lookup-remove, length, length-append, length-take, take, drop, usize_max,
  ◌==◌, min, length-drop, Option-cases,
}
use ape.Pipe.Trace.{Call, creates, opens, clones, closes, reads, writes, step, run}
use ape.Pipe.{
  PipeState, PipeRegistry, PipeEnd, read_end, write_end, pipe_default_capacity, create_pipe,
  open_pipe, drain, pipe_read, pipe_write, close_pipe_read_end, close_pipe_write_end,
  clone_pipe_read_end, clone_pipe_write_end, put_pipe, new, close_or_keep,
}

pub drain_lem : (room : ℕ) (bs : List ℕ) → drain room bs ≡ (take room bs, drop room bs)
unfolding drain
drain_lem zero [] = refl
drain_lem (suc room) [] = refl
drain_lem zero (b ∷ bs) = refl
drain_lem (suc room) (b ∷ bs) = ground (arith, drain_lem room bs)

-- A buffer within the capacity, and counts that are words.
pub record Fits (p : PipeState) : Type 0 where
  pub bounded : length p.buf ≤ pipe_default_capacity
  pub readers_word : p.readers ≤ usize_max
  pub writers_word : p.writers ≤ usize_max

abbrev pub IsValid : PipeRegistry → Type 0
IsValid r = (k : ℕ) (p : PipeState) → lookup k r.pipes ≡ some p → Fits p

pub put_pipe-IsValid :
    (r : PipeRegistry) (id : ℕ) (p : PipeState) → IsValid r → Fits p → IsValid (put_pipe r id p)
put_pipe-IsValid r id p v f k q h = ground (arith, lookup-insert id k p r.pipes, v k q)

close_or_keep-IsValid :
    (r : PipeRegistry) (id : ℕ) (p : PipeState)
    → IsValid r
    → Fits p
    → IsValid (close_or_keep r id p)
close_or_keep-IsValid r id p v f k q h =
    ground (arith, lookup-insert id k p r.pipes, lookup-remove id k (insert id p r.pipes), v k q)

module _ (r : PipeRegistry) (id : ℕ) (v : IsValid r) where
  create_pipe-IsValid : IsValid (create_pipe r).1
  unfolding create_pipe
  create_pipe-IsValid k q h = ground (
    arith,
    lookup-insert r.next_pipe_id k (record { buf = []; readers = 0; writers = 0 }) r.pipes,
    v k q,
  )

  open_pipe-IsValid : (end : PipeEnd) → IsValid (open_pipe r id end).1
  unfolding open_pipe
  open_pipe-IsValid end = elim (Option-cases (lookup id r.pipes)) [
    | inl e ↦ rw (e, open_pipe) v
    | inr (p, e) ↦
        rw (e, open_pipe) (put_pipe-IsValid r id _ v (let f : Fits p = v id p e in ground arith))
  ]

  pipe_read-IsValid : (room : ℕ) → IsValid (pipe_read r id room).1
  unfolding pipe_read
  pipe_read-IsValid room = elim (Option-cases (lookup id r.pipes)) [
    | inl e ↦ rw (e, pipe_read) v
    | inr (p, e) ↦
        rw (e, pipe_read)
          (put_pipe-IsValid r id _ v (
            let f : Fits p = v id p e in
            ground (arith, drain_lem room p.buf, length-drop room p.buf)))
  ]

  pipe_write-IsValid : (src : List ℕ) → IsValid (pipe_write r id src).1
  unfolding pipe_write
  pipe_write-IsValid src = elim (Option-cases (lookup id r.pipes)) [
    | inl e ↦ rw (e, pipe_write) v
    | inr (p, e) ↦ elim (Bool-cases (p.readers == 0)) [
      | inl broken ↦ rw (e, pipe_write, broken) v
      | inr alive ↦
          let w = min (pipe_default_capacity - length p.buf) (length src) in
          rw (e, pipe_write, alive)
            (put_pipe-IsValid r id _ v (
              let f : Fits p = v id p e in
              ground (arith, length-append p.buf (take w src), length-take w src)))
    ]
  ]

  close_pipe_read_end-IsValid : IsValid (close_pipe_read_end r id)
  unfolding close_pipe_read_end
  close_pipe_read_end-IsValid = elim (Option-cases (lookup id r.pipes)) [
    | inl e ↦ rw (e, close_pipe_read_end) v
    | inr (p, e) ↦
        rw (e, close_pipe_read_end)
          (close_or_keep-IsValid r id (record p { readers = p.readers - 1 }) v
            (let f : Fits p = v id p e in ground arith))
  ]

  close_pipe_write_end-IsValid : IsValid (close_pipe_write_end r id)
  unfolding close_pipe_write_end
  close_pipe_write_end-IsValid = elim (Option-cases (lookup id r.pipes)) [
    | inl e ↦ rw (e, close_pipe_write_end) v
    | inr (p, e) ↦
        rw (e, close_pipe_write_end)
          (close_or_keep-IsValid r id (record p { writers = p.writers - 1 }) v
            (let f : Fits p = v id p e in ground arith))
  ]

  clone_pipe_read_end-IsValid : IsValid (clone_pipe_read_end r id)
  unfolding clone_pipe_read_end
  clone_pipe_read_end-IsValid = elim (Option-cases (lookup id r.pipes)) [
    | inl e ↦ rw (e, clone_pipe_read_end) v
    | inr (p, e) ↦
        rw (e, clone_pipe_read_end)
          (put_pipe-IsValid r id _ v (let f : Fits p = v id p e in ground arith))
  ]

  clone_pipe_write_end-IsValid : IsValid (clone_pipe_write_end r id)
  unfolding clone_pipe_write_end
  clone_pipe_write_end-IsValid = elim (Option-cases (lookup id r.pipes)) [
    | inl e ↦ rw (e, clone_pipe_write_end) v
    | inr (p, e) ↦
        rw (e, clone_pipe_write_end)
          (put_pipe-IsValid r id _ v (let f : Fits p = v id p e in ground arith))
  ]

step-IsValid : (r : PipeRegistry) (c : Call) → IsValid r → IsValid (step r c)
unfolding step
step-IsValid r creates v = create_pipe-IsValid r 0 v
step-IsValid r (opens id end) v = open_pipe-IsValid r id v end
step-IsValid r (clones id read_end) v = clone_pipe_read_end-IsValid r id v
step-IsValid r (clones id write_end) v = clone_pipe_write_end-IsValid r id v
step-IsValid r (closes id read_end) v = close_pipe_read_end-IsValid r id v
step-IsValid r (closes id write_end) v = close_pipe_write_end-IsValid r id v
step-IsValid r (reads id room) v = pipe_read-IsValid r id v room
step-IsValid r (writes id src) v = pipe_write-IsValid r id v src

-- From a registry in which every buffer is within the capacity and every count is a word, each
-- sequence of calls on any pipes leads to such a registry.
pub run-IsValid : (r : PipeRegistry) (cs : List Call) → IsValid r → IsValid (run r cs)
unfolding run
run-IsValid r [] v = v
run-IsValid r (c ∷ cs) v = run-IsValid (step r c) cs (step-IsValid r c v)

-- The new registry is valid.
pub new-IsValid : IsValid new
unfolding new lookup
new-IsValid k p h = cc
