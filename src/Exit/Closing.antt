-- ===== src/Exit/Closing.antt =====
-- task/lifecycle.rs: what the end of a process leaves of its descriptors.
use mathlib.Core.Path.{subst}
use ape.Base.{
  ℕ, ◌≤◌, ◌≡◌, refl, sym, ap, ◌∙◌, inl, inr, true, false, none, some, List, [], ◌∷◌, arith, Map,
  lookup, remove, contains, contains_key, keys, AtEntry, remove-Above, remove_absent,
  lookup-insert_self, lookup-remove, map_ext, ltb, ◌==◌, if◌then◌else◌, Bool-cases, Option-cases,
  All,
}
use ape.Files.State.{FilesState, Descriptors}
use ape.Files.Maps.{any_value}
use ape.Files.Calls.{u32_max, uses, forget, close_handle, do_close}
use ape.Files.Sharing.{IsNumbered, IsSound, shared_before, sound_at}
use ape.Files.Closing.{do_close-IsSound}
use ape.Exit.{close_all, fd_list}

do_close_files :
    (d : Descriptors) (pid fd : ℕ) (files : FilesState)
    → fd ≤ u32_max
    → lookup pid d.files ≡ some files
    → lookup pid (do_close d pid fd).1.files ≡ some (forget files fd)
unfolding do_close close_handle
do_close_files d pid fd files small here =
    let low : ltb u32_max fd ≡ false = ground (arith, small) in
    elim (Option-cases (lookup fd files.fds)) [
      | inl absent ↦
          rw (do_close, low, here, absent) (lookup-insert_self pid (forget files fd) d.files)
      | inr (handle, found) ↦
          rw (do_close, low, here, found) (lookup-insert_self pid (forget files fd) d.files)
    ]

-- Descriptors that are closed, and those that are left.
close_all_files :
    (d : Descriptors) (pid : ℕ) (files : FilesState) (fds : List ℕ)
    → All (λ fd. fd ≤ u32_max) fds
    → lookup pid d.files ≡ some files
    → (after : FilesState) × (lookup pid (close_all d pid fds).files ≡ some after)
      × ((fd : ℕ) → lookup fd after.fds ≡ (if contains fds fd then none else lookup fd files.fds))
unfolding close_all forget
close_all_files d pid files [] small here = (files, here, λ fd. refl)
close_all_files d pid files (x ∷ fds) small here =
    let (after, there, left) =
      close_all_files (do_close d pid x).1 pid (forget files x) fds small.1
        (do_close_files d pid x files small.0 here) in
    (after, there, λ fd. left fd ∙ ground (arith, lookup-remove x fd files.fds))

close_all-IsSound :
    (d : Descriptors) (pid : ℕ) (fds : List ℕ) → IsSound d → IsSound (close_all d pid fds)
unfolding close_all
close_all-IsSound d pid [] sound = sound
close_all-IsSound d pid (fd ∷ fds) sound =
    close_all-IsSound (do_close d pid fd).1 pid fds (do_close-IsSound d pid fd sound)

contains-keys : {V : Type 0} (m : Map V) (k : ℕ) → contains (keys m) k ≡ contains_key k m
unfolding lookup
contains-keys [] k = refl
contains-keys ((j, v) ∷ m) k = ground (arith, contains-keys m k)

keys_small :
    {V : Type 0} (m whole : Map V)
    → ((k : ℕ) → contains_key k whole ≡ true → k ≤ u32_max)
    → ((k : ℕ) → contains (keys m) k ≡ true → contains_key k whole ≡ true)
    → All (λ k. k ≤ u32_max) (keys m)
keys_small [] whole small inside = tt
keys_small ((k, v) ∷ m) whole small inside = (
  small k (inside k (ground arith)),
  keys_small m whole small (λ j h. inside j (ground (arith, h))),
)

-- Once all are closed, a process has no descriptor.
all_closed :
    (d : Descriptors) (pid : ℕ) (files : FilesState)
    → IsSound d
    → ((fd : ℕ) → contains_key fd files.fds ≡ true → fd ≤ u32_max)
    → lookup pid d.files ≡ some files
    → (after : FilesState) × (lookup pid (close_all d pid (keys files.fds)).files ≡ some after)
      × (after.fds ≡ [])
unfolding lookup
all_closed d pid files sound small here =
    let (after, there, left) =
      close_all_files d pid files (keys files.fds)
        (keys_small files.fds files.fds small (λ k h. sym (contains-keys files.fds k) ∙ h)) here in
    let order =
      (sound_at (close_all d pid (keys files.fds)) pid after
        (close_all-IsSound d pid (keys files.fds) sound) there).0 in
    (
      after,
      there,
      map_ext 0 after.fds [] order tt (λ fd. left fd ∙ ground (arith, contains-keys files.fds fd)),
    )

AtEntry-remove :
    {V : Type 0} (P : V → Type 0) (m : Map V) (k : ℕ)
    → ((j : ℕ) → AtEntry P (lookup j m))
    → (j : ℕ) → AtEntry P (lookup j (remove k m))
AtEntry-remove P m k before j =
    rw (lookup-remove k j m)
      (elim (Bool-cases (k == j)) [ inl same ↦ rw (same) tt | inr other ↦ rw (other) (before j) ])

-- A process that has no descriptor leaves the table with no change of the others.
removed-IsSound :
    (d after : Descriptors) (pid : ℕ) (files : FilesState)
    → IsSound d
    → lookup pid d.files ≡ some files
    → files.fds ≡ []
    → after.files ≡ remove pid d.files
    → after.open_slots ≡ d.open_slots
    → IsSound after
unfolding uses any_value
removed-IsSound d after pid files sound here empty less same = record {
  in_order = rw (less) (remove-Above 0 pid d.files sound.in_order);
  numbered = rw (less) (AtEntry-remove IsNumbered d.files pid sound.numbered);
  backed = λ slot.
      rw
        (
          same,
          less,
          sound.backed slot,
          shared_before d.files pid sound.in_order files slot here,
          empty,
        )
        refl;
}

-- The numbers of the descriptors are of 32 bits.
abbrev pub HasWords : FilesState → Type 0
HasWords files = (fd : ℕ) → contains_key fd files.fds ≡ true → fd ≤ u32_max

-- When all descriptors of a process are closed and the process goes, an endpoint stays open at its
-- service exactly while some descriptor of a remaining process has it.
pub close_all_removed-IsSound :
    (d after : Descriptors) (pid : ℕ)
    → IsSound d
    → AtEntry HasWords (lookup pid d.files)
    → after.files ≡ remove pid (close_all d pid (fd_list d pid)).files
    → after.open_slots ≡ (close_all d pid (fd_list d pid)).open_slots
    → IsSound after
unfolding close_all
close_all_removed-IsSound d after pid sound small less same =
    elim (Option-cases (lookup pid d.files)) [
      | inl missing ↦
          let none_listed : fd_list d pid ≡ [] = rw (fd_list, missing) refl in
          let still : close_all d pid (fd_list d pid) ≡ d = ap (close_all d pid) none_listed in
          let absent = remove_absent pid d.files missing in
          record {
            in_order = rw (less, still, absent) sound.in_order;
            numbered = rw (less, still, absent) sound.numbered;
            backed = λ slot. rw (same, less, still, absent) (sound.backed slot);
          }
      | inr (files, here) ↦
          let (left, there, empty) =
            all_closed d pid files sound (subst (AtEntry HasWords) here small) here in
          let listed : fd_list d pid ≡ keys files.fds = rw (fd_list, here) refl in
          removed-IsSound (close_all d pid (keys files.fds)) after pid left
            (close_all-IsSound d pid (keys files.fds) sound) there empty
            (less ∙ ap (λ fds. remove pid (close_all d pid fds).files) listed)
            (same ∙ ap (λ fds. (close_all d pid fds).open_slots) listed)
    ]
