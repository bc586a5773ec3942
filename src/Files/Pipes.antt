-- ===== src/Files/Pipes.antt =====
-- fs/fd.rs: what opening a pipe does to the endpoints.
use Prim.Native.Nat.{bit_and}
use ape.Base.{
  true, false, not, Error, ℕ, ◌<◌, ◌≡◌, Bool, ◌||◌, none, some, ◌∷◌, lookup, ltb, ◌==◌, Result, ok,
  err,
}
use ape.Files.State.{FilesState, Descriptors}
use ape.Files.Calls.{o_cloexec}
use ape.Files.Opens.{pipe_handle, pipe_fds, refused_flags, PipeAnswers, i32_max, pipe_bytes}
use ape.Files.Sharing.{IsSound}

-- A pipe with both ends open: each has its own descriptor that was free, with the close-on-exec flag
-- that was asked for; the caller gets the two numbers; and all else that the process has is kept.
pub record PipeOpened (a : PipeAnswers) (d after : Descriptors) (pid : ℕ) (cloexec : Bool)
    : Type 0 where
  pub files : FilesState
  pub opened : FilesState
  pub read_fd : ℕ
  pub write_fd : ℕ
  pub read_slot : ℕ
  pub write_slot : ℕ
  pub before : lookup pid d.files ≡ some files
  pub behind : lookup pid after.files ≡ some opened
  pub free : (lookup read_fd files.fds ≡ none) × (lookup write_fd files.fds ≡ none)
  pub apart : read_fd < write_fd
  pub ends : (a.read_slot ≡ ok read_slot) × (a.write_slot ≡ ok write_slot)
  pub slots : after.open_slots ≡ write_slot ∷ read_slot ∷ d.open_slots
  pub handles :
      (lookup read_fd opened.fds ≡ some (pipe_handle read_slot))
      × (lookup write_fd opened.fds ≡ some (pipe_handle write_slot))
  pub flagged :
      (lookup read_fd opened.fd_cloexec ≡ some cloexec)
      × (lookup write_fd opened.fd_cloexec ≡ some cloexec)
  pub others :
      (fd : ℕ)
      → (read_fd == fd) ≡ false
      → (write_fd == fd) ≡ false
      → lookup fd opened.fds ≡ lookup fd files.fds
  pub told : a.copied (pipe_bytes read_fd write_fd) ≡ ok tt
  pub sound : IsSound after

-- Why no pipe opens.
pub data NoPipe (a : PipeAnswers) (d : Descriptors) (pid pipefd flags : ℕ) : Type 0 where
  no_address : (pipefd == 0) ≡ true → NoPipe a d pid pipefd flags
  bad_flags : refused_flags flags ≡ true → NoPipe a d pid pipefd flags
  no_number : (a.pipe_id == 0) ≡ true → NoPipe a d pid pipefd flags
  no_read_end : (e : Error) → a.read_slot ≡ err e → NoPipe a d pid pipefd flags
  no_write_end : (e : Error) → a.write_slot ≡ err e → NoPipe a d pid pipefd flags
  no_process : lookup pid d.files ≡ none → NoPipe a d pid pipefd flags
  no_descriptors :
      (files : FilesState)
      → lookup pid d.files ≡ some files
      → pipe_fds files ≡ none
      → NoPipe a d pid pipefd flags
  high_descriptor :
      (files : FilesState) (read_fd write_fd : ℕ)
      → pipe_fds files ≡ some (read_fd, write_fd)
      → (ltb i32_max read_fd || ltb i32_max write_fd) ≡ true
      → NoPipe a d pid pipefd flags
  not_copied :
      (files : FilesState) (read_fd write_fd : ℕ) (e : Error)
      → pipe_fds files ≡ some (read_fd, write_fd)
      → a.copied (pipe_bytes read_fd write_fd) ≡ err e
      → NoPipe a d pid pipefd flags

-- What `pipe2` does, by its answer.
abbrev pub PipeOutcome : PipeAnswers → Descriptors → ℕ → ℕ → ℕ → Result ℕ × Descriptors → Type 0
PipeOutcome a d pid pipefd flags (ok n, after) =
    (n ≡ 0) × PipeOpened a d after pid (not (bit_and flags o_cloexec == 0))
PipeOutcome a d pid pipefd flags (err e, after) = NoPipe a d pid pipefd flags

module _ (a : PipeAnswers) (d : Descriptors) (pid pipefd flags read_slot write_slot : ℕ) where
  abbrev with_ends : Descriptors
  with_ends = record d { open_slots = write_slot ∷ read_slot ∷ d.open_slots }

  abbrev cloexec : Bool
  cloexec = not (bit_and flags o_cloexec == 0)
