-- ===== src/Files/Sharing.antt =====
-- The endpoints behind the descriptors of ape/files.rs: which are open at the services, and when
-- `do_close` of fs/fd.rs closes one.
use ape.Base.{
  AtEntry, AtEntry-insert, ℕ, ◌≤◌, ◌<◌, ◌≡◌, refl, ◌∙◌, sym, inl, inr, Bool, true, not, ◌&&◌, ◌||◌,
  Option, none, some, List, [], ◌∷◌, arith, Map, lookup, insert, remove, contains, contains_key,
  Above, insert-Above, remove-Above, remove_absent, lookup-insert, lookup-remove, ◌==◌, Bool-cases,
}
use mathlib.Core.Path.{subst}
use ape.Files.State.{NormalFileHandle, FilesState, Descriptors}
use ape.Files.Maps.{any_value-insert, any_value-remove}
use ape.Files.Calls.{
  u32_max, uses, is_shared, without, forget, put_duplicate, duplicate_normal_handle,
}

-- The descriptors of one process: in order, and below the next number, until that is the last.
abbrev pub IsNumbered : FilesState → Type 0
IsNumbered files =
    Above 0 files.fds
    × ((fd : ℕ) → contains_key fd files.fds ≡ true → files.next_fd < u32_max → fd < files.next_fd)
    × (files.next_fd ≤ u32_max)

-- And an endpoint is open at its service exactly while some descriptor of some process has it.
pub record IsSound (d : Descriptors) : Type 0 where
  pub in_order : Above 0 d.files
  pub numbered : (pid : ℕ) → AtEntry IsNumbered (lookup pid d.files)
  pub backed : (slot : ℕ) → contains d.open_slots slot ≡ is_shared slot d.files

pub contains-without :
    (slot : ℕ) (xs : List ℕ) (a : ℕ)
    → contains (without slot xs) a ≡ (contains xs a && not (a == slot))
unfolding without
contains-without slot [] a = refl
contains-without slot (x ∷ xs) a = ground (arith, contains-without slot xs a)

pub uses-forget :
    (files : FilesState) (fd : ℕ) (handle : NormalFileHandle) (slot : ℕ)
    → Above 0 files.fds
    → lookup fd files.fds ≡ some handle
    → uses slot files ≡ (handle.fs_ep_slot == slot || uses slot (forget files fd))
unfolding uses forget
uses-forget files fd handle slot a found =
    any_value-remove (λ h. h.fs_ep_slot == slot) 0 fd handle files.fds a found

-- Whether another process has the endpoint.
abbrev pub others : Map FilesState → ℕ → ℕ → Bool
others files pid slot = is_shared slot (remove pid files)

module _ (files : Map FilesState) (pid : ℕ) (in_order : Above 0 files) where
  pub shared_before :
      (old : FilesState) (slot : ℕ)
      → lookup pid files ≡ some old
      → is_shared slot files ≡ (uses slot old || others files pid slot)
  unfolding is_shared
  shared_before old slot found = any_value-remove (uses slot) 0 pid old files in_order found

  pub shared_after :
      (new : FilesState) (slot : ℕ)
      → is_shared slot (insert pid new files) ≡ (uses slot new || others files pid slot)
  unfolding is_shared
  shared_after new slot = any_value-insert (uses slot) 0 pid new files in_order

pub sound_at :
    (d : Descriptors) (pid : ℕ) (files : FilesState)
    → IsSound d
    → lookup pid d.files ≡ some files
    → IsNumbered files
sound_at d pid files sound found = subst (AtEntry IsNumbered) found (sound.numbered pid)

pub uses_found :
    (files : FilesState) (fd : ℕ) (handle : NormalFileHandle)
    → Above 0 files.fds
    → lookup fd files.fds ≡ some handle
    → uses handle.fs_ep_slot files ≡ true
uses_found files fd handle a found =
    ground (arith, uses-forget files fd handle handle.fs_ep_slot a found)

-- A change of the descriptors of one process and of the open endpoints that fits it.
pub replace-IsSound :
    (d after : Descriptors) (pid : ℕ) (new : FilesState)
    → IsSound d
    → after.files ≡ insert pid new d.files
    → IsNumbered new
    → ((slot : ℕ) → contains after.open_slots slot ≡ (uses slot new || others d.files pid slot))
    → IsSound after
replace-IsSound d after pid new sound put good fits = record {
  in_order = rw (put) (insert-Above 0 pid new d.files (omega arith) sound.in_order);
  numbered = rw (put) (AtEntry-insert IsNumbered d.files pid new sound.numbered good);
  backed = λ slot. rw (put) (fits slot ∙ sym (shared_after d.files pid sound.in_order new slot));
}

pub forget-IsNumbered :
    (files : FilesState) (fd : ℕ) → IsNumbered files → IsNumbered (forget files fd)
unfolding forget
forget-IsNumbered files fd good = (
  remove-Above 0 fd files.fds good.0,
  λ other found below. ground (arith, good.1 other, lookup-remove fd other files.fds),
  good.2,
)

put_duplicate-IsNumbered :
    (files : FilesState) (fd : ℕ) (handle : NormalFileHandle) (path : Option (List ℕ))
    (cloexec : Bool)
    → IsNumbered files
    → IsNumbered (put_duplicate files fd handle path cloexec)
unfolding put_duplicate
put_duplicate-IsNumbered files fd handle path cloexec good = (
  insert-Above 0 fd (duplicate_normal_handle handle) files.fds (omega arith) good.0,
  λ other found below.
      ground
        (arith, good.1 other, lookup-insert fd other (duplicate_normal_handle handle) files.fds),
  ground (arith, good.2),
)

uses-put_duplicate :
    (files : FilesState) (fd : ℕ) (handle : NormalFileHandle) (path : Option (List ℕ))
    (cloexec : Bool) (slot : ℕ)
    → Above 0 files.fds
    → lookup fd files.fds ≡ none
    → uses slot (put_duplicate files fd handle path cloexec)
      ≡ (handle.fs_ep_slot == slot || uses slot files)
unfolding uses put_duplicate duplicate_normal_handle
uses-put_duplicate files fd handle path cloexec slot a absent = ground (
  arith,
  any_value-insert (λ h. h.fs_ep_slot == slot) 0 fd (duplicate_normal_handle handle) files.fds a,
  remove_absent fd files.fds absent,
)

pub same_number : (m n : ℕ) → m == n ≡ true → m ≡ n
same_number m n e = ground (arith, e)

-- An endpoint that is used already adds nothing.
pub or_used :
    (at slot : ℕ) (files : FilesState)
    → uses at files ≡ true
    → (at == slot || uses slot files) ≡ uses slot files
or_used at slot files used = elim (Bool-cases (at == slot)) [
  | inl e ↦ rw (e, subst (λ x. uses x files ≡ true) (same_number at slot e) used) refl
  | inr differs ↦ rw (differs) refl
]

module _ (d : Descriptors) (pid fd : ℕ) (files : FilesState) (sound : IsSound d)
    (here : lookup pid d.files ≡ some files) where
  -- Adding a copy of a handle that the process has, at a free number.
  pub put_duplicate-IsSound :
      (after : Descriptors) (handle : NormalFileHandle) (path : Option (List ℕ)) (cloexec : Bool)
      → uses handle.fs_ep_slot files ≡ true
      → lookup fd files.fds ≡ none
      → after.files ≡ insert pid (put_duplicate files fd handle path cloexec) d.files
      → after.open_slots ≡ d.open_slots
      → IsSound after
  put_duplicate-IsSound after handle path cloexec used absent put same =
      let good = sound_at d pid files sound here in
      replace-IsSound d after pid (put_duplicate files fd handle path cloexec) sound put
        (put_duplicate-IsNumbered files fd handle path cloexec good)
        (λ slot.
          rw
            (
              same,
              sound.backed slot,
              shared_before d.files pid sound.in_order files slot here,
              uses-put_duplicate files fd handle path cloexec slot good.0 absent,
            )
            (ground (arith, or_used handle.fs_ep_slot slot files used)))
