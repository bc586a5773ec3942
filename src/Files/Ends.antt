-- ===== src/Files/Ends.antt =====
-- fs/fd.rs: the two descriptors of a new pipe.
use mathlib.Core.Path.{subst}
use ape.Base.{
  ℕ, suc, ◌+◌, ◌≤◌, ◌<◌, ◌≡◌, inl, inr, Bool, ◌||◌, Option, none, some, ◌∷◌, arith, lookup, insert,
  length, remove_absent, lookup-insert, ◌==◌, Bool-cases, Option-cases, insert-Above,
}
use ape.Files.State.{NormalFileHandle, FilesState, Descriptors}
use ape.Files.Maps.{any_value-insert}
use ape.Files.Calls.{u32_max, uses, first_free}
use ape.Files.Opens.{pipe_handle, put_pipe_ends, pipe_fds}
use ape.Files.Numbers.{FirstFree, first_free-FirstFree}
use ape.Files.Sharing.{IsNumbered, IsSound, shared_before, sound_at, replace-IsSound}
use ape.Files.Closing.{absent_lookup}

-- Two numbers that are free, the second behind the first.
abbrev pub PipeNumbers : FilesState → Option (ℕ × ℕ) → Type 0
PipeNumbers files none = Unit {0}
PipeNumbers files (some (read_fd, write_fd)) =
    (lookup read_fd files.fds ≡ none)
    × (lookup write_fd files.fds ≡ none)
    × (files.next_fd ≤ read_fd)
    × (read_fd < write_fd)
    × (write_fd ≤ u32_max)

pub pipe_fds-PipeNumbers :
    (files : FilesState) → IsNumbered files → PipeNumbers files (pipe_fds files)
unfolding pipe_fds
pipe_fds-PipeNumbers files good =
    elim (Option-cases (first_free (suc (length files.fds)) files.next_fd files.fds)) [
      | inl full ↦ rw (pipe_fds, full) tt
      | inr (r, free) ↦ elim (Bool-cases (r == u32_max)) [
        | inl last ↦ rw (pipe_fds, free, last) tt
        | inr more ↦
            let low : FirstFree files.next_fd files.fds (some r) =
              subst (FirstFree files.next_fd files.fds) free
                (first_free-FirstFree files.next_fd files.fds good.0 good.2) in
            elim (Option-cases (first_free (suc (length files.fds)) (r + 1) files.fds)) [
              | inl full ↦ rw (pipe_fds, free, more, full) tt
              | inr (w, behind) ↦
                  let high : FirstFree (r + 1) files.fds (some w) =
                    subst (FirstFree (r + 1) files.fds) behind (
                      first_free-FirstFree (r + 1) files.fds good.0
                        (ground (arith, low.1, more))) in
                  rw (pipe_fds, free, more, behind)
                    (
                      absent_lookup r files.fds low.2,
                      absent_lookup w files.fds high.2,
                      low.0,
                      omega (arith, high.0),
                      high.1,
                    )
            ]
      ]
    ]

module _ (files : FilesState) (read_fd write_fd read_slot write_slot : ℕ) (cloexec : Bool)
    (good : IsNumbered files) (numbers : PipeNumbers files (some (read_fd, write_fd))) where
  abbrev with_pipe : FilesState
  with_pipe = put_pipe_ends files read_fd write_fd read_slot write_slot cloexec

  put_pipe_ends-IsNumbered : IsNumbered with_pipe
  unfolding put_pipe_ends
  put_pipe_ends-IsNumbered =
      let one = insert-Above 0 read_fd (pipe_handle read_slot) files.fds (omega arith) good.0 in
      (
        insert-Above 0 write_fd (pipe_handle write_slot)
            (insert read_fd (pipe_handle read_slot) files.fds) (omega arith) one,
        λ fd found below. ground (
          arith,
          numbers,
          good.1 fd,
          lookup-insert write_fd fd (pipe_handle write_slot)
              (insert read_fd (pipe_handle read_slot) files.fds),
          lookup-insert read_fd fd (pipe_handle read_slot) files.fds,
        ),
        omega arith,
      )

  uses-put_pipe_ends :
      (slot : ℕ)
      → uses slot with_pipe ≡ (write_slot == slot || read_slot == slot || uses slot files)
  unfolding put_pipe_ends uses
  uses-put_pipe_ends slot =
      let one = insert-Above 0 read_fd (pipe_handle read_slot) files.fds (omega arith) good.0 in
      let test : NormalFileHandle → Bool = λ h. h.fs_ep_slot == slot in
      ground (
        arith,
        numbers,
        any_value-insert test 0 write_fd (pipe_handle write_slot)
            (insert read_fd (pipe_handle read_slot) files.fds) one,
        any_value-insert test 0 read_fd (pipe_handle read_slot) files.fds good.0,
        remove_absent read_fd files.fds,
        remove_absent write_fd (insert read_fd (pipe_handle read_slot) files.fds),
        lookup-insert read_fd write_fd (pipe_handle read_slot) files.fds,
      )

pub piped-IsSound :
    (d after : Descriptors) (pid : ℕ) (files : FilesState)
    (read_fd write_fd read_slot write_slot : ℕ) (cloexec : Bool)
    → IsSound d
    → lookup pid d.files ≡ some files
    → PipeNumbers files (some (read_fd, write_fd))
    → after.files
      ≡ insert pid (put_pipe_ends files read_fd write_fd read_slot write_slot cloexec) d.files
    → after.open_slots ≡ write_slot ∷ read_slot ∷ d.open_slots
    → IsSound after
piped-IsSound d after pid files read_fd write_fd read_slot write_slot cloexec sound here numbers put
      opened =
    let good = sound_at d pid files sound here in
    replace-IsSound d after pid (put_pipe_ends files read_fd write_fd read_slot write_slot cloexec)
      sound put
      (put_pipe_ends-IsNumbered files read_fd write_fd read_slot write_slot cloexec good numbers)
      (λ slot. rw (opened) (
        ground (
          arith,
          sound.backed slot,
          shared_before d.files pid sound.in_order files slot here,
          uses-put_pipe_ends files read_fd write_fd read_slot write_slot cloexec good numbers slot,
        )))
