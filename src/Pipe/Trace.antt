-- ===== src/Pipe/Trace.antt =====
-- Calls of vfs/pipe.rs in any order, on any pipes, with the bytes that each moves.
use ape.Base.{ℕ, Bool, Option, none, some, List, [], ◌∷◌, ◌++◌, lookup, take, ◌==◌, if◌then◌else◌}
use ape.Pipe.{
  PipeRegistry, PipeEnd, read_end, write_end, create_pipe, open_pipe, pipe_read, pipe_write,
  close_pipe_read_end, close_pipe_write_end, clone_pipe_read_end, clone_pipe_write_end,
}

pub data Call : Type 0 where
  creates : Call
  opens clones closes : ℕ → PipeEnd → Call
  reads : ℕ → ℕ → Call
  writes : ℕ → List ℕ → Call

abbrev pub clone_end : PipeRegistry → ℕ → PipeEnd → PipeRegistry
clone_end r id read_end = clone_pipe_read_end r id
clone_end r id write_end = clone_pipe_write_end r id

abbrev pub close_end : PipeRegistry → ℕ → PipeEnd → PipeRegistry
close_end r id read_end = close_pipe_read_end r id
close_end r id write_end = close_pipe_write_end r id

unfoldable pub step : PipeRegistry → Call → PipeRegistry
step r creates = (create_pipe r).1
step r (opens id end) = (open_pipe r id end).1
step r (clones id end) = clone_end r id end
step r (closes id end) = close_end r id end
step r (reads id room) = (pipe_read r id room).1
step r (writes id src) = (pipe_write r id src).1

abbrev pub bytes_read : Option (List ℕ × Bool) → List ℕ
bytes_read none = []
bytes_read (some (out, _)) = out

-- The bytes of `src` that a write took, by the count that it returned.
abbrev pub bytes_taken : List ℕ → Option (ℕ × Bool) → List ℕ
bytes_taken src none = []
bytes_taken src (some (n, _)) = take n src

-- What the call reads from pipe `j`, and what it writes to it.
unfoldable pub delivered : ℕ → PipeRegistry → Call → List ℕ
delivered j r (reads id room) = if id == j then bytes_read (pipe_read r id room).0 else []
delivered j r _ = []

unfoldable pub accepted : ℕ → PipeRegistry → Call → List ℕ
accepted j r (writes id src) = if id == j then bytes_taken src (pipe_write r id src).0 else []
accepted j r _ = []

unfoldable pub run : PipeRegistry → List Call → PipeRegistry
run r [] = r
run r (c ∷ cs) = run (step r c) cs

unfoldable pub all_delivered : ℕ → PipeRegistry → List Call → List ℕ
all_delivered j r [] = []
all_delivered j r (c ∷ cs) = delivered j r c ++ all_delivered j (step r c) cs

unfoldable pub all_accepted : ℕ → PipeRegistry → List Call → List ℕ
all_accepted j r [] = []
all_accepted j r (c ∷ cs) = accepted j r c ++ all_accepted j (step r c) cs

-- The bytes that wait in pipe `j`.
abbrev pub contents : ℕ → PipeRegistry → List ℕ
contents j r = elim (lookup j r.pipes) [ none ↦ [] | some p ↦ p.buf ]
