-- ===== src/Files/Trace.antt =====
-- Sequences of the calls of fs/fd.rs on descriptors that are open.
use ape.Base.{ℕ, List, [], ◌∷◌, sym}
use mathlib.Core.Path.{subst}
use ape.Files.State.{Descriptors}
use ape.Files.Calls.{do_close, do_fcntl, do_dup, do_dup3}
use ape.Files.Getdents.{GetdentsAnswers, do_getdents64}
use ape.Files.Sharing.{IsSound}
use ape.Files.Closing.{do_close-IsSound, do_fcntl-IsSound}
use ape.Files.Opening.{do_dup3-IsSound}
use ape.Files.Returned.{do_getdents64_returns}

-- A call of a process, with its arguments.
pub data Call : Type 0 where
  closes dups : (pid fd : ℕ) → Call
  controls dups_to : (pid fd a b : ℕ) → Call
  reads : GetdentsAnswers → (pid fd dirp count : ℕ) → Call

unfoldable pub step : Call → Descriptors → Descriptors
step (closes pid fd) d = (do_close d pid fd).1
step (dups pid fd) d = (do_dup d pid fd).1
step (controls pid fd cmd arg) d = (do_fcntl d pid fd cmd arg).1
step (dups_to pid oldfd newfd flags) d = (do_dup3 d pid oldfd newfd flags).1
step (reads a pid fd dirp count) d = (do_getdents64 a d pid fd dirp count).1

unfoldable pub run : List Call → Descriptors → Descriptors
run [] d = d
run (call ∷ calls) d = run calls (step call d)

step-IsSound : (call : Call) (d : Descriptors) → IsSound d → IsSound (step call d)
unfolding step do_dup
step-IsSound (closes pid fd) d sound = do_close-IsSound d pid fd sound
step-IsSound (dups pid fd) d sound = do_fcntl-IsSound d pid fd 0 0 sound
step-IsSound (controls pid fd cmd arg) d sound = do_fcntl-IsSound d pid fd cmd arg sound
step-IsSound (dups_to pid oldfd newfd flags) d sound = do_dup3-IsSound d pid oldfd newfd flags sound
step-IsSound (reads a pid fd dirp count) d sound =
    subst IsSound (sym (do_getdents64_returns a d pid fd dirp count sound)) sound

-- Whatever calls close, duplicate, set and read descriptors, in whatever processes and order, and
-- whether they succeed or not: an endpoint stays open at its service exactly while some descriptor
-- of some process has it, and the descriptors of each process stay below its next number, as long as
-- that is not u32::MAX.
pub run-IsSound : (calls : List Call) (d : Descriptors) → IsSound d → IsSound (run calls d)
unfolding run
run-IsSound [] d sound = sound
run-IsSound (call ∷ calls) d sound = run-IsSound calls (step call d) (step-IsSound call d sound)
