-- ===== src/Pipe/Tests.antt =====
-- Runs of the pipes of vfs/pipe.rs, and the theorems at concrete inputs.
use ape.Base.{◌≡◌, refl, none, List, [], ◌∷◌, ◌++◌, arith, lookup, insert, remove}
use ape.Pipe.Trace.{
  Call, creates, opens, closes, reads, writes, step, run, delivered, all_delivered, all_accepted,
  contents,
}
use ape.Pipe.Laws.{IsValid, run-IsValid, new-IsValid}
use ape.Pipe.Fifo.{run_fifo}
use ape.Pipe.{
  PipeState, PipeRegistry, PipeEnd, read_end, write_end, PipeHandle, new, create_pipe, drain,
  pipe_read, pipe_write, close_pipe_read_end, close_pipe_write_end,
}

-- A pipe with both ends open and two bytes in it.
abbrev flowing : PipeState
flowing = record { buf = 7 ∷ 8 ∷ []; readers = 1; writers = 2 }

abbrev registry : PipeRegistry
registry = record { pipes = (1, flowing) ∷ []; next_pipe_id = 2 }

abbrev calls : List Call
calls = writes 1 (9 ∷ []) ∷ reads 1 2 ∷ creates ∷ closes 1 write_end ∷ reads 1 5 ∷ []

calls_deliver : all_delivered 1 registry calls ≡ 7 ∷ 8 ∷ 9 ∷ []
unfolding all_delivered delivered step create_pipe pipe_read pipe_write close_pipe_write_end drain
    lookup insert
calls_deliver = refl

-- Without a reader a write is refused, and the second close removes the pipe.
closed_pipe :
    lookup 1 (run registry (closes 1 read_end ∷ closes 1 write_end ∷ closes 1 write_end ∷ [])).pipes
    ≡ none
unfolding run step close_pipe_read_end close_pipe_write_end lookup insert remove
closed_pipe = refl

run-IsValid_example : IsValid (run new (creates ∷ opens 1 read_end ∷ writes 1 (5 ∷ []) ∷ []))
run-IsValid_example =
    run-IsValid new (creates ∷ opens 1 read_end ∷ writes 1 (5 ∷ []) ∷ []) new-IsValid

run_fifo_example :
    all_delivered 1 registry calls ++ contents 1 (run registry calls)
    ≡ (7 ∷ 8 ∷ []) ++ all_accepted 1 registry calls
unfolding lookup run step create_pipe pipe_read pipe_write close_pipe_write_end drain insert
run_fifo_example = run_fifo 1 registry calls (omega arith) (omega arith) refl

abbrev closing : List PipeEnd
closing = write_end ∷ read_end ∷ write_end ∷ []

abbrev reading : PipeHandle
reading = record { pipe_id = 1; end = read_end }
