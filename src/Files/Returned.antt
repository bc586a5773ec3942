-- ===== src/Files/Returned.antt =====
-- fs/fd.rs, `do_getdents64`: the handle that is taken out while a directory is read comes back.
use mathlib.Core.Path.{subst}
use ape.Base.{
  ℕ, ◌≡◌, refl, sym, ◌∙◌, inl, inr, false, some, arith, Map, lookup, insert, remove, Above,
  insert-Above, remove-Above, lookup-insert, lookup-insert_self, lookup-remove, map_ext, ltb, ◌==◌,
  Bool-cases, Option-cases,
}
use ape.Files.State.{NormalFileHandle, FilesState, Descriptors}
use ape.Files.Calls.{u32_max}
use ape.Files.Getdents.{GetdentsAnswers, with_handle_out, do_getdents64, dirent64_min_reclen}
use ape.Files.Sharing.{IsSound, sound_at, same_number}

-- Putting back at a key what a map had there.
insert_back :
    {V : Type 0} (m changed : Map V) (k : ℕ) (v : V)
    → Above 0 m
    → Above 0 changed
    → lookup k m ≡ some v
    → ((j : ℕ) → (k == j) ≡ false → lookup j changed ≡ lookup j m)
    → insert k v changed ≡ m
insert_back m changed k v in_order order found alike =
    map_ext 0 (insert k v changed) m (insert-Above 0 k v changed (omega arith) order) in_order (λ j.
      elim (Bool-cases (k == j)) [
        | inl same ↦
            subst (λ x. lookup x (insert k v changed) ≡ lookup x m) (same_number k j same)
              (lookup-insert_self k v changed ∙ sym found)
        | inr apart ↦ rw (lookup-insert k j v changed, apart, alike j apart) refl
      ])

with_handle_out_returns :
    (a : GetdentsAnswers) (d : Descriptors) (pid fd count : ℕ) (files : FilesState)
    (handle : NormalFileHandle)
    → IsSound d
    → lookup pid d.files ≡ some files
    → lookup fd files.fds ≡ some handle
    → (with_handle_out a d pid fd count files handle).1 ≡ d
unfolding with_handle_out
with_handle_out_returns a d pid fd count files handle sound here found =
    let order = (sound_at d pid files sound here).0 in
    let short : FilesState = record files { fds = remove fd files.fds } in
    let back : insert fd handle (remove fd files.fds) ≡ files.fds =
      insert_back files.fds (remove fd files.fds) fd handle order
        (remove-Above 0 fd files.fds order) found
        (λ j apart. rw (lookup-remove fd j files.fds, apart) refl) in
    let same : insert pid files (insert pid short d.files) ≡ d.files =
      insert_back d.files (insert pid short d.files) pid files sound.in_order
        (insert-Above 0 pid short d.files (omega arith) sound.in_order) here
        (λ j apart. rw (lookup-insert pid j short d.files, apart) refl) in
    rw (with_handle_out, lookup-insert_self pid short d.files, back, same) refl

-- Reading a directory leaves the descriptors of every process as they were, on every branch.
pub do_getdents64_returns :
    (a : GetdentsAnswers) (d : Descriptors) (pid fd dirp count : ℕ)
    → IsSound d
    → (do_getdents64 a d pid fd dirp count).1 ≡ d
unfolding do_getdents64
do_getdents64_returns a d pid fd dirp count sound = elim (Bool-cases (count == 0)) [
  | inl nothing ↦ rw (nothing) refl
  | inr some_room ↦ elim (Bool-cases (dirp == 0)) [
    | inl nowhere ↦ rw (some_room, nowhere) refl
    | inr somewhere ↦ elim (Bool-cases (ltb count dirent64_min_reclen)) [
      | inl short ↦ rw (some_room, somewhere, short) refl
      | inr enough ↦ elim (Bool-cases (ltb u32_max fd)) [
        | inl high ↦ rw (some_room, somewhere, enough, high) refl
        | inr low ↦ elim (Option-cases (lookup pid d.files)) [
          | inl missing ↦ rw (some_room, somewhere, enough, low, missing) refl
          | inr (files, here) ↦ elim (Option-cases (lookup fd files.fds)) [
            | inl closed ↦ rw (some_room, somewhere, enough, low, here, closed) refl
            | inr (handle, found) ↦
                rw (some_room, somewhere, enough, low, here, found)
                  (with_handle_out_returns a d pid fd count files handle sound here found)
          ]
        ]
      ]
    ]
  ]
]
