-- ===== src/Files/Closing.antt =====
-- fs/fd.rs: what `do_close` and the duplications do to the endpoints.
use ape.Base.{
  ℕ, suc, ◌≡◌, refl, ◌∙◌, sym, inl, inr, Bool, true, false, ◌||◌, none, some, arith, Map, lookup,
  insert, contains_key, length, remove_absent, ltb, ◌==◌, Bool-cases, Option-cases,
}
use mathlib.Core.Path.{subst}
use ape.Files.State.{NormalFileHandle, FilesState, Descriptors}
use ape.Files.Calls.{
  u32_max, uses, is_shared, forget, close_handle, do_close, first_free, dup_fd, fcntl_on,
  FcntlCommand, dupfd, getfd, setfd, getfl, setfl, dupfd_cloexec, other, command_of, set_cloexec,
  run_fcntl, do_fcntl,
}
use ape.Files.Numbers.{FirstFree, first_free-FirstFree}
use ape.Files.Sharing.{
  IsSound, others, shared_before, shared_after, sound_at, replace-IsSound, uses_found, uses-forget,
  same_number, contains-without, forget-IsNumbered, put_duplicate-IsSound,
}

module _ (d : Descriptors) (pid fd : ℕ) (files : FilesState) (sound : IsSound d)
    (here : lookup pid d.files ≡ some files) where
  abbrev pub closed_files : Descriptors
  closed_files = record d { files = insert pid (forget files fd) d.files }

  forget-IsSound : lookup fd files.fds ≡ none → IsSound closed_files
  unfolding forget uses
  forget-IsSound absent =
      let good = sound_at d pid files sound here in
      replace-IsSound d closed_files pid (forget files fd) sound refl
        (forget-IsNumbered files fd good)
        (λ slot.
          rw
            (
              sound.backed slot,
              shared_before d.files pid sound.in_order files slot here,
              remove_absent fd files.fds absent,
            )
            refl)

  -- Whether a process of this one's new state or another has an endpoint, read at an equal number.
  abbrev left : ℕ → Bool
  left slot = uses slot (forget files fd) || others d.files pid slot

  left_same :
      (at slot : ℕ) (b : Bool)
      → is_shared at (insert pid (forget files fd) d.files) ≡ b
      → at == slot ≡ true
      → left slot ≡ b
  left_same at slot b shared e =
      subst (λ x. left x ≡ b) (same_number at slot e)
        (sym (shared_after d.files pid sound.in_order (forget files fd) at) ∙ shared)

  close_handle-IsSound :
      (handle : NormalFileHandle)
      → lookup fd files.fds ≡ some handle
      → IsSound (close_handle closed_files pid handle)
  unfolding close_handle
  close_handle-IsSound handle found =
      let good = sound_at d pid files sound here in
      replace-IsSound d (close_handle closed_files pid handle) pid (forget files fd) sound refl
        (forget-IsNumbered files fd good)
        (λ slot.
          elim (Bool-cases (is_shared handle.fs_ep_slot (insert pid (forget files fd) d.files))) [
            | inl shared ↦
                rw
                  (
                    shared,
                    sound.backed slot,
                    shared_before d.files pid sound.in_order files slot here,
                    uses-forget files fd handle slot good.0 found,
                  )
                  (ground (arith, left_same handle.fs_ep_slot slot true shared))
            | inr alone ↦
                rw
                  (
                    alone,
                    contains-without handle.fs_ep_slot d.open_slots slot,
                    sound.backed slot,
                    shared_before d.files pid sound.in_order files slot here,
                    uses-forget files fd handle slot good.0 found,
                  )
                  (ground (arith, left_same handle.fs_ep_slot slot false alone))
          ])

-- Closing keeps the invariant on every branch, the refused ones included.
pub do_close-IsSound : (d : Descriptors) (pid fd : ℕ) → IsSound d → IsSound (do_close d pid fd).1
unfolding do_close
do_close-IsSound d pid fd sound = elim (Bool-cases (ltb u32_max fd)) [
  | inl high ↦ rw (high) sound
  | inr low ↦ elim (Option-cases (lookup pid d.files)) [
    | inl missing ↦ rw (low, missing) sound
    | inr (files, here) ↦ elim (Option-cases (lookup fd files.fds)) [
      | inl absent ↦ rw (low, here, absent) (forget-IsSound d pid fd files sound here absent)
      | inr (handle, found) ↦
          rw (low, here, found) (close_handle-IsSound d pid fd files sound here handle found)
    ]
  ]
]

pub absent_lookup : {V : Type 0} (k : ℕ) (m : Map V) → contains_key k m ≡ false → lookup k m ≡ none
absent_lookup k m absent = ground (arith, absent)

dup_fd-IsSound :
    (d : Descriptors) (pid fd arg : ℕ) (files : FilesState) (cloexec : Bool)
    → IsSound d
    → lookup pid d.files ≡ some files
    → IsSound (dup_fd d pid files fd arg cloexec).1
unfolding dup_fd
dup_fd-IsSound d pid fd arg files cloexec sound here = elim (Option-cases (lookup fd files.fds)) [
  | inl missing ↦ rw (dup_fd, missing) sound
  | inr (handle, found) ↦ elim (Bool-cases (ltb u32_max arg)) [
    | inl high ↦ rw (dup_fd, found, high) sound
    | inr low ↦
        let good = sound_at d pid files sound here in
        let search = first_free-FirstFree arg files.fds good.0 (ground (arith, low)) in
        elim (Option-cases (first_free (suc (length files.fds)) arg files.fds)) [
          | inl full ↦ rw (dup_fd, found, low, full) sound
          | inr (new_fd, free) ↦
              let at : FirstFree arg files.fds (some new_fd) =
                subst (FirstFree arg files.fds) free search in
              rw (dup_fd, found, low, free)
                (put_duplicate-IsSound d pid new_fd files sound here _ handle
                  (lookup fd files.fd_paths) cloexec (uses_found files fd handle good.0 found)
                  (absent_lookup new_fd files.fds at.2) refl refl)
        ]
  ]
]

fcntl_on-IsSound :
    (d : Descriptors) (pid fd arg : ℕ) (files : FilesState) (command : FcntlCommand)
    → IsSound d
    → lookup pid d.files ≡ some files
    → IsSound (fcntl_on d pid files fd command arg).1
unfolding fcntl_on set_cloexec uses
fcntl_on-IsSound d pid fd arg files dupfd sound here =
    dup_fd-IsSound d pid fd arg files false sound here
fcntl_on-IsSound d pid fd arg files dupfd_cloexec sound here =
    dup_fd-IsSound d pid fd arg files true sound here
fcntl_on-IsSound d pid fd arg files getfd sound here = ground (arith, sound)
fcntl_on-IsSound d pid fd arg files getfl sound here = ground (arith, sound)
fcntl_on-IsSound d pid fd arg files setfl sound here = ground (arith, sound)
fcntl_on-IsSound d pid fd arg files other sound here = sound
fcntl_on-IsSound d pid fd arg files setfd sound here =
    elim (Bool-cases (contains_key fd files.fds)) [
      | inl there ↦ rw (there) (
          replace-IsSound d _ pid (set_cloexec files fd arg) sound refl
            (sound_at d pid files sound here)
            (λ slot. sound.backed slot ∙ shared_before d.files pid sound.in_order files slot here))
      | inr closed ↦ rw (closed) sound
    ]

run_fcntl-IsSound :
    (d : Descriptors) (pid fd : ℕ) (command : FcntlCommand) (arg : ℕ)
    → IsSound d
    → IsSound (run_fcntl d pid fd command arg).1
unfolding run_fcntl
run_fcntl-IsSound d pid fd other arg sound = sound
run_fcntl-IsSound d pid fd command arg sound = elim (Option-cases (lookup pid d.files)) [
  | inl missing ↦ rw (run_fcntl, missing) sound
  | inr (files, here) ↦
      rw (run_fcntl, here) (fcntl_on-IsSound d pid fd arg files command sound here)
]

pub do_fcntl-IsSound :
    (d : Descriptors) (pid fd cmd arg : ℕ) → IsSound d → IsSound (do_fcntl d pid fd cmd arg).1
unfolding do_fcntl
do_fcntl-IsSound d pid fd cmd arg sound = elim (Bool-cases (ltb u32_max fd)) [
  | inl high ↦ rw (high) sound
  | inr low ↦ rw (low) (run_fcntl-IsSound d pid fd (command_of cmd) arg sound)
]
