-- ===== src/Pipe/Ends.antt =====
-- How long a pipe of vfs/pipe.rs lives: the counts of its open ends.
use ape.Base.{
  List, [], ◌∷◌, ℕ, suc, ◌-◌, ◌≤◌, ◌<◌, ◌≡◌, inl, inr, Option, none, some, arith, true, false, Bool,
  Bool-cases, ◌&&◌, lookup, insert, lookup-insert, lookup-remove, usize_max, ◌==◌, Option-cases,
  if◌then◌else◌,
}
use ape.Pipe.Trace.{clone_end, close_end}
use ape.Pipe.{
  PipeState, PipeRegistry, PipeEnd, read_end, write_end, close_pipe_read_end, close_pipe_write_end,
  clone_pipe_read_end, clone_pipe_write_end, close_or_keep, retain,
}

-- What one close of an end leaves of a pipe.
abbrev pub released : PipeEnd → PipeState → PipeState
released read_end p = record p { readers = p.readers - 1 }
released write_end p = record p { writers = p.writers - 1 }

abbrev pub live : PipeState → Bool
live p = if p.readers == 0 && p.writers == 0 then false else true

-- The pipe after a close, `none` where it is gone.
abbrev pub survivor : PipeEnd → Option PipeState → Option PipeState
survivor end none = none
survivor end (some p) = if live (released end p) then some (released end p) else none

close_or_keep-lookup :
    (r : PipeRegistry) (id k : ℕ) (p : PipeState)
    → lookup k (close_or_keep r id p).pipes
      ≡ (if id == k then (if live p then some p else none) else lookup k r.pipes)
close_or_keep-lookup r id k p =
    ground (arith, lookup-insert id k p r.pipes, lookup-remove id k (insert id p r.pipes))

pub lookup-close_end :
    (r : PipeRegistry) (id k : ℕ) (end : PipeEnd)
    → lookup k (close_end r id end).pipes
      ≡ (if id == k then survivor end (lookup k r.pipes) else lookup k r.pipes)
unfolding close_pipe_read_end close_pipe_write_end
lookup-close_end r id k read_end = elim (Option-cases (lookup id r.pipes)) [
  | inl e ↦ ground arith
  | inr (p, e) ↦ ground (arith, close_or_keep-lookup r id k (released read_end p))
]
lookup-close_end r id k write_end = elim (Option-cases (lookup id r.pipes)) [
  | inl e ↦ ground arith
  | inr (p, e) ↦ ground (arith, close_or_keep-lookup r id k (released write_end p))
]

pub lookup-clone_end :
    (r : PipeRegistry) (id k : ℕ) (end : PipeEnd) (p : PipeState)
    → lookup id r.pipes ≡ some p
    → lookup k (clone_end r id end).pipes
      ≡ (if id == k then some (retain end p) else lookup k r.pipes)
unfolding clone_pipe_read_end clone_pipe_write_end
lookup-clone_end r id k read_end p e =
    ground (arith, lookup-insert id k (retain read_end p) r.pipes)
lookup-clone_end r id k write_end p e =
    ground (arith, lookup-insert id k (retain write_end p) r.pipes)

unfoldable pub close_all : PipeRegistry → ℕ → List PipeEnd → PipeRegistry
close_all r id [] = r
close_all r id (end ∷ ends) = close_all (close_end r id end) id ends

abbrev pub count_end : PipeEnd → List PipeEnd → ℕ
count_end e [] = 0
count_end read_end (read_end ∷ ends) = suc (count_end read_end ends)
count_end read_end (write_end ∷ ends) = count_end read_end ends
count_end write_end (read_end ∷ ends) = count_end write_end ends
count_end write_end (write_end ∷ ends) = suc (count_end write_end ends)

close_all_gone :
    (ends : List PipeEnd) (r : PipeRegistry) (id : ℕ)
    → lookup id r.pipes ≡ none
    → lookup id (close_all r id ends).pipes ≡ none
unfolding close_all
close_all_gone [] r id e = e
close_all_gone (end ∷ ends) r id e =
    close_all_gone ends (close_end r id end) id (ground (arith, lookup-close_end r id id end))

-- A pipe with an open end is removed by the close that takes its last end away, and by none
-- before: as long as no more ends of a kind are closed than are open, in any order, the pipe is
-- still there with its bytes and the counts that remain, unless both counts have come down to 0.
pub close_all-lookup :
    (ends : List PipeEnd) (r : PipeRegistry) (id : ℕ) (p : PipeState)
    → lookup id r.pipes ≡ some p
    → live p ≡ true
    → count_end read_end ends ≤ p.readers
    → count_end write_end ends ≤ p.writers
    → lookup id (close_all r id ends).pipes ≡ (
        if p.readers == count_end read_end ends && p.writers == count_end write_end ends
        then none
        else some (record p {
          readers = p.readers - count_end read_end ends;
          writers = p.writers - count_end write_end ends;
        }))
unfolding close_all
close_all-lookup [] r id p e l hr hw = ground arith
close_all-lookup (read_end ∷ ends) r id p e l hr hw =
    elim (Bool-cases (live (released read_end p))) [
      | inl kept ↦
          let ih =
            close_all-lookup ends (close_end r id read_end) id (released read_end p)
              (ground (arith, lookup-close_end r id id read_end)) kept (omega arith)
              (omega arith) in
          ground (arith, ih)
      | inr gone ↦ ground (
        arith,
        close_all_gone ends (close_end r id read_end) id
            (ground (arith, lookup-close_end r id id read_end)),
      )
    ]
close_all-lookup (write_end ∷ ends) r id p e l hr hw =
    elim (Bool-cases (live (released write_end p))) [
      | inl kept ↦
          let ih =
            close_all-lookup ends (close_end r id write_end) id (released write_end p)
              (ground (arith, lookup-close_end r id id write_end)) kept (omega arith)
              (omega arith) in
          ground (arith, ih)
      | inr gone ↦ ground (
        arith,
        close_all_gone ends (close_end r id write_end) id
            (ground (arith, lookup-close_end r id id write_end)),
      )
    ]

-- A cloned end, closed again, leaves every pipe as it was, if the pipe has an open end and the
-- count has not reached the largest word.
pub close-clone_end :
    (r : PipeRegistry) (id k : ℕ) (end : PipeEnd) (p : PipeState)
    → lookup id r.pipes ≡ some p
    → live p ≡ true
    → p.readers < usize_max
    → p.writers < usize_max
    → lookup k (close_end (clone_end r id end) id end).pipes ≡ lookup k r.pipes
close-clone_end r id k read_end p e l hr hw = ground (
  arith,
  lookup-close_end (clone_end r id read_end) id k read_end,
  lookup-clone_end r id k read_end p e,
)
close-clone_end r id k write_end p e l hr hw = ground (
  arith,
  lookup-close_end (clone_end r id write_end) id k write_end,
  lookup-clone_end r id k write_end p e,
)
