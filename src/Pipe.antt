-- ===== src/Pipe.antt =====
-- vfs/pipe.rs: the registry of pipes and the handles on their ends. The registry is the state, and
-- each method returns it. The handles' registry is shared behind a mutex; a call locks it once, so
-- a call on a handle is one step on the registry.
pub mod Trace
pub mod Laws
pub mod Fifo
pub mod Ends
pub mod Handles
mod Tests
pub use ape.Base.{Error, Result, ok, err, invalid_type, not_found, io_error, invalid_args}
use ape.Base.{
  zero, suc, ℕ, ◌+◌, ◌*◌, ◌%◌, ◌^◌, min, Bool, true, false, ◌&&◌, Option, none, some, List, [], ◌∷◌,
  ◌++◌, Map, lookup, insert, remove, length, take, drop, ◌==◌, if◌then◌else◌, wrapping_add,
  saturating_add, saturating_sub,
}

pub data PipeEnd : Type 0 where
  read_end write_end : PipeEnd

abbrev pub pipe_default_capacity : ℕ
pipe_default_capacity = 64 * 1024

pub record PipeState : Type 0 where
  pub buf : List ℕ
  pub readers : ℕ
  pub writers : ℕ

pub record PipeRegistry : Type 0 where
  pub pipes : Map PipeState
  pub next_pipe_id : ℕ

unfoldable pub new : PipeRegistry
new = record { pipes = []; next_pipe_id = 1 }

unfoldable pub create_pipe : PipeRegistry → ℕ × PipeRegistry
create_pipe r = (
  r.next_pipe_id,
  record {
    pipes = insert r.next_pipe_id (record { buf = []; readers = 0; writers = 0 }) r.pipes;
    next_pipe_id = wrapping_add r.next_pipe_id 1;
  },
)

-- Writing back the pipe that `get_mut` lends.
abbrev pub put_pipe : PipeRegistry → ℕ → PipeState → PipeRegistry
put_pipe r id p = record r { pipes = insert id p r.pipes }

abbrev pub retain : PipeEnd → PipeState → PipeState
retain read_end p = record p { readers = saturating_add p.readers 1 }
retain write_end p = record p { writers = saturating_add p.writers 1 }

unfoldable pub open_pipe : PipeRegistry → ℕ → PipeEnd → Bool × PipeRegistry
open_pipe r id end = elim (lookup id r.pipes) [
  | none ↦ (false, r)
  | some p ↦ (true, put_pipe r id (retain end p))
]

-- The loop moves bytes from the front of the buffer to `dst` while both last. Its result here is
-- the bytes, whose number is the source's `n`, and what stays in the buffer.
unfoldable pub drain : ℕ → List ℕ → List ℕ × List ℕ
drain room [] = ([], [])
drain zero (b ∷ bs) = ([], b ∷ bs)
drain (suc room) (b ∷ bs) = let (out, rest) = drain room bs in (b ∷ out, rest)

unfoldable pub pipe_read : PipeRegistry → ℕ → ℕ → Option (List ℕ × Bool) × PipeRegistry
pipe_read r id room = elim (lookup id r.pipes) [
  | none ↦ (none, r)
  | some p ↦
      let (out, rest) = drain room p.buf in
      (some (out, p.writers == 0), put_pipe r id (record p { buf = rest }))
]

unfoldable pub pipe_write : PipeRegistry → ℕ → List ℕ → Option (ℕ × Bool) × PipeRegistry
pipe_write r id src = elim (lookup id r.pipes) [
  | none ↦ (none, r)
  | some p ↦
      if p.readers == 0
      then (some (0, true), r)
      else let free = saturating_sub pipe_default_capacity (length p.buf) in
        let write_len = min free (length src) in
        (some (write_len, false), put_pipe r id (record p { buf = p.buf ++ take write_len src }))
]

-- The tail that both `close` methods share: a pipe with no end left is removed.
abbrev pub close_or_keep : PipeRegistry → ℕ → PipeState → PipeRegistry
close_or_keep r id p =
    if p.readers == 0 && p.writers == 0
    then record r { pipes = remove id (insert id p r.pipes) }
    else put_pipe r id p

unfoldable pub close_pipe_read_end : PipeRegistry → ℕ → PipeRegistry
close_pipe_read_end r id = elim (lookup id r.pipes) [
  | none ↦ r
  | some p ↦ close_or_keep r id (record p { readers = saturating_sub p.readers 1 })
]

unfoldable pub close_pipe_write_end : PipeRegistry → ℕ → PipeRegistry
close_pipe_write_end r id = elim (lookup id r.pipes) [
  | none ↦ r
  | some p ↦ close_or_keep r id (record p { writers = saturating_sub p.writers 1 })
]

unfoldable pub clone_pipe_read_end : PipeRegistry → ℕ → PipeRegistry
clone_pipe_read_end r id = elim (lookup id r.pipes) [
  | none ↦ r
  | some p ↦ put_pipe r id (record p { readers = saturating_add p.readers 1 })
]

unfoldable pub clone_pipe_write_end : PipeRegistry → ℕ → PipeRegistry
clone_pipe_write_end r id = elim (lookup id r.pipes) [
  | none ↦ r
  | some p ↦ put_pipe r id (record p { writers = saturating_add p.writers 1 })
]

-- A handle without its reference to the registry, which is an argument of each call.
pub record PipeHandle : Type 0 where
  pub pipe_id : ℕ
  pub end : PipeEnd

unfoldable pub close : PipeHandle → PipeRegistry → Result (Unit {0}) × PipeRegistry
close h r = elim h.end [
  | read_end ↦ (ok tt, close_pipe_read_end r h.pipe_id)
  | write_end ↦ (ok tt, close_pipe_write_end r h.pipe_id)
]

-- The bytes put into the buffer of `room` bytes; the source returns their number.
unfoldable pub read : PipeHandle → PipeRegistry → ℕ → Result (List ℕ) × PipeRegistry
read h r room = elim h.end [
  | write_end ↦ (err invalid_type, r)
  | read_end ↦
      let (res, r') = pipe_read r h.pipe_id room in
      elim res [ none ↦ (err not_found, r') | some (out, _) ↦ (ok out, r') ]
]

unfoldable pub write : PipeHandle → PipeRegistry → List ℕ → Result ℕ × PipeRegistry
write h r src = elim h.end [
  | read_end ↦ (err invalid_type, r)
  | write_end ↦
      let (res, r') = pipe_write r h.pipe_id src in
      elim res [
        | none ↦ (err not_found, r')
        | some (n, no_readers) ↦ (if no_readers then err io_error else ok n, r')
      ]
]

-- The calls that a pipe refuses or ignores whatever its end.
unfoldable pub getdents : PipeHandle → ℕ → Result ℕ
getdents h count = err invalid_type

unfoldable pub seek : PipeHandle → ℕ → ℕ → Result ℕ
seek h offset whence = err invalid_args

unfoldable pub sync : PipeHandle → Result (Unit {0})
sync h = ok tt

unfoldable pub truncate : PipeHandle → ℕ → Result (Unit {0})
truncate h size = err invalid_type
