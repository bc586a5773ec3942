-- ===== src/Files/Opening.antt =====
-- fs/fd.rs: what `do_dup3`, opening a file and opening a pipe do to the endpoints.
use mathlib.Core.Path.{subst}
use ape.Base.{
  ℕ, ◌+◌, ◌<◌, ◌≡◌, refl, inl, inr, Bool, true, false, not, ◌&&◌, ◌||◌, Option, none, some, List,
  ◌∷◌, arith, lookup, insert, contains_key, remove_absent, lookup-insert, lookup-insert_self,
  lookup-remove, lookup-remove_self, ltb, ◌==◌, ◌%◌, ◌^◌, Result-cases, if◌then◌else◌, Bool-cases,
  Option-cases, Result, ok, insert-Above, remove-Above,
}
use ape.Files.State.{NormalFileHandle, FilesState, Descriptors}
use ape.Files.Maps.{any_value-insert}
use ape.Files.Calls.{
  u32_max, uses, forget, close_handle, do_close, dup3_end, after_close, do_dup3, o_cloexec,
}
use ape.Files.Opens.{OpenAnswers, open_ring, put_open, open_via_nexus_fs}
use ape.Files.Sharing.{
  IsNumbered, IsSound, shared_before, sound_at, replace-IsSound, uses_found, put_duplicate-IsSound,
}
use ape.Files.Closing.{do_close-IsSound}

do_close_found :
    (d : Descriptors) (pid fd : ℕ) (files : FilesState) (handle : NormalFileHandle)
    → ltb u32_max fd ≡ false
    → lookup pid d.files ≡ some files
    → lookup fd files.fds ≡ some handle
    → do_close d pid fd
      ≡ (ok 0, close_handle (record d { files = insert pid (forget files fd) d.files }) pid handle)
unfolding do_close
do_close_found d pid fd files handle low here found = rw (low, here, found) refl

dup3_end-IsSound :
    (d : Descriptors) (pid fd : ℕ) (files : FilesState) (handle : NormalFileHandle)
    (path : Option (List ℕ)) (cloexec : Bool)
    → IsSound d
    → lookup pid d.files ≡ some files
    → uses handle.fs_ep_slot files ≡ true
    → lookup fd files.fds ≡ none
    → IsSound (dup3_end d pid fd handle path cloexec).1
unfolding dup3_end
dup3_end-IsSound d pid fd files handle path cloexec sound here used absent =
    rw (dup3_end, here)
      (put_duplicate-IsSound d pid fd files sound here _ handle path cloexec used absent refl refl)

module _ (d : Descriptors) (pid oldfd newfd : ℕ) (files : FilesState) (handle : NormalFileHandle)
    (sound : IsSound d) (here : lookup pid d.files ≡ some files)
    (found : lookup oldfd files.fds ≡ some handle) (low : ltb u32_max newfd ≡ false) where
  abbrev dup3_closed : Result ℕ × Descriptors
  dup3_closed = if contains_key newfd files.fds then do_close d pid newfd else (ok 0, d)

  dup3_closed-IsSound :
      (path : Option (List ℕ)) (cloexec : Bool)
      → (oldfd == newfd) ≡ false
      → IsSound (after_close dup3_closed pid newfd handle path cloexec).1
  unfolding close_handle forget after_close uses
  dup3_closed-IsSound path cloexec apart =
      let good = sound_at d pid files sound here in
      let used = uses_found files oldfd handle good.0 found in
      elim (Option-cases (lookup newfd files.fds)) [
        | inl absent ↦
            rw (absent)
              (dup3_end-IsSound d pid newfd files handle path cloexec sound here used absent)
        | inr (old, there) ↦
            let after = do_close_found d pid newfd files old low here there in
            let sound_after = subst (λ r. IsSound r.1) after (do_close-IsSound d pid newfd sound) in
            rw (there, after)
              (dup3_end-IsSound _ pid newfd (forget files newfd) handle path cloexec sound_after
                (lookup-insert_self pid (forget files newfd) d.files)
                (uses_found (forget files newfd) oldfd handle
                  (remove-Above 0 newfd files.fds good.0)
                  (ground (arith, lookup-remove newfd oldfd files.fds, found)))
                (lookup-remove_self newfd files.fds))
      ]

-- Duplicating to a chosen number keeps the invariant on every branch.
pub do_dup3-IsSound :
    (d : Descriptors) (pid oldfd newfd flags : ℕ)
    → IsSound d
    → IsSound (do_dup3 d pid oldfd newfd flags).1
unfolding do_dup3
do_dup3-IsSound d pid oldfd newfd flags sound =
    elim (Bool-cases (ltb u32_max oldfd || ltb u32_max newfd)) [
      | inl high ↦ rw (high) sound
      | inr low ↦ elim (Bool-cases (oldfd == newfd)) [
        | inl same ↦ rw (low, same) sound
        | inr apart ↦ elim (Bool-cases (not (flags == 0) && not (flags == o_cloexec))) [
          | inl bad ↦ rw (low, apart, bad) sound
          | inr fine ↦ elim (Option-cases (lookup pid d.files)) [
            | inl missing ↦ rw (low, apart, fine, missing) sound
            | inr (files, here) ↦ elim (Option-cases (lookup oldfd files.fds)) [
              | inl missing ↦ rw (low, apart, fine, here, missing) sound
              | inr (handle, found) ↦
                  rw (low, apart, fine, here, found)
                    (dup3_closed-IsSound d pid oldfd newfd files handle sound here found
                      (ground (arith, low)) (lookup oldfd files.fd_paths) (not (flags == 0)) apart)
            ]
          ]
        ]
      ]
    ]

put_open-IsNumbered :
    (files : FilesState) (handle : NormalFileHandle) (path : List ℕ)
    → IsNumbered files
    → files.next_fd < u32_max
    → IsNumbered (put_open files handle path)
unfolding put_open
put_open-IsNumbered files handle path good room =
    let next : (files.next_fd + 1) % 2 ^ 32 ≡ files.next_fd + 1 = omega arith in
    (
      insert-Above 0 files.next_fd handle files.fds (omega arith) good.0,
      λ fd found below.
          ground (arith, next, good.1 fd, lookup-insert files.next_fd fd handle files.fds),
      omega arith,
    )

uses-put_open :
    (files : FilesState) (handle : NormalFileHandle) (path : List ℕ) (slot : ℕ)
    → IsNumbered files
    → files.next_fd < u32_max
    → uses slot (put_open files handle path) ≡ (handle.fs_ep_slot == slot || uses slot files)
unfolding uses put_open
uses-put_open files handle path slot good room = ground (
  arith,
  any_value-insert (λ h. h.fs_ep_slot == slot) 0 files.next_fd handle files.fds good.0,
  good.1 files.next_fd,
  remove_absent files.next_fd files.fds,
)

-- The state with one endpoint more, and one handle on it.
opened-IsSound :
    (d : Descriptors) (pid : ℕ) (files : FilesState)
    → IsSound d
    → lookup pid d.files ≡ some files
    → files.next_fd < u32_max
    → (path : List ℕ) (after : Descriptors) (handle : NormalFileHandle)
    → after.files ≡ insert pid (put_open files handle path) d.files
    → after.open_slots ≡ handle.fs_ep_slot ∷ d.open_slots
    → IsSound after
opened-IsSound d pid files sound here room path after handle put opened =
    let good = sound_at d pid files sound here in
    replace-IsSound d after pid (put_open files handle path) sound put
      (put_open-IsNumbered files handle path good room)
      (λ slot. rw (opened) (
        ground (
          arith,
          sound.backed slot,
          shared_before d.files pid sound.in_order files slot here,
          uses-put_open files handle path slot good room,
        )))

-- Opening a file keeps the invariant on every branch, when the process is there and `next_fd` is not
-- the last number.
pub open_via_nexus_fs-IsSound :
    (a : OpenAnswers) (d : Descriptors) (pid : ℕ) (path : List ℕ) (files : FilesState)
    → IsSound d
    → lookup pid d.files ≡ some files
    → files.next_fd < u32_max
    → IsSound (open_via_nexus_fs a d pid path).1
unfolding open_via_nexus_fs put_open uses
open_via_nexus_fs-IsSound a d pid path files sound here room = elim (Result-cases a.slot) [
  | inr (e, failed) ↦ rw (failed) sound
  | inl (slot, given) ↦ elim (Result-cases a.opened) [
    | inr (e, failed) ↦ rw (given, failed) sound
    | inl (done, opened) ↦
        rw (open_via_nexus_fs, given, opened, here)
          (opened-IsSound d pid files sound here room path _
            (record { fs_ep_slot = slot; offset = 0; async_io = (open_ring a d.regions).0 }) refl
            refl)
  ]
]
