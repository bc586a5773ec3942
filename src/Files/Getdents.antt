-- ===== src/Files/Getdents.antt =====
-- fs/fd.rs, `do_getdents64`: the entries of a directory, packed for the caller. The entries come from
-- the service; an entry's offset is the word that its bytes make.
use ape.Base.{
  ℕ, ◌+◌, ◌-◌, ◌*◌, ◌/◌, none, some, List, [], ◌∷◌, ◌++◌, lookup, insert, remove, length, ltb, ◌==◌,
  if◌then◌else◌, Result, ok, err, invalid_address, invalid_args, invalid_slot, not_found,
  out_of_memory, saturating_add, is_empty, to_bytes, zeros,
}
use ape.Files.State.{NormalFileHandle, FilesState, Descriptors}
use ape.Files.Calls.{u32_max}

abbrev pub dirent64_fixed_size : ℕ
dirent64_fixed_size = 19

abbrev pub dirent64_min_reclen : ℕ
dirent64_min_reclen = 24

abbrev pub u16_max : ℕ
u16_max = 0xffff

-- `(v + 7) & !7`: the multiple of 8 from v on.
unfoldable pub align_up_8 : ℕ → ℕ
align_up_8 v = (v + 7) / 8 * 8

pub record DEntry : Type 0 where
  pub d_ino : ℕ
  pub d_off : ℕ
  pub d_type : ℕ
  pub d_name : List ℕ

-- The bytes of a name before its first 0.
unfoldable pub name_bytes : List ℕ → List ℕ
name_bytes [] = []
name_bytes (b ∷ bs) = if b == 0 then [] else b ∷ name_bytes bs

unfoldable pub reclen : DEntry → ℕ
reclen entry = align_up_8 (dirent64_fixed_size + length (name_bytes entry.d_name) + 1)

-- What one entry adds: its fields, the name with a 0, and zeros up to its length.
unfoldable pub dirent_bytes : DEntry → List ℕ
dirent_bytes entry =
    to_bytes 8 entry.d_ino
    ++ to_bytes 8 entry.d_off
    ++ to_bytes 2 (reclen entry)
    ++ entry.d_type ∷ name_bytes entry.d_name
    ++ 0 ∷ zeros (reclen entry - (dirent64_fixed_size + length (name_bytes entry.d_name) + 1))

unfoldable pub pack : ℕ → List DEntry → List ℕ → Result (List ℕ)
pack count [] packed = ok packed
pack count (entry ∷ entries) packed =
    let rest = pack count entries (packed ++ dirent_bytes entry) in
    if ltb u16_max (reclen entry)
    then err out_of_memory
    else if ltb count (saturating_add (length packed) (reclen entry))
    then ok packed
    else rest

-- The service's answer about the directory, and whether the bytes reach the caller.
pub record GetdentsAnswers : Type 0 where
  pub entries : Result (List DEntry)
  pub copied : Result (Unit {0})

unfoldable pub read_directory : GetdentsAnswers → ℕ → Result (List ℕ)
read_directory a count = elim a.entries [
  | err e ↦ err e
  | ok entries ↦ elim (pack count entries []) [
    | err e ↦ err e
    | ok packed ↦
        if is_empty packed then ok [] else elim a.copied [ err e ↦ err e | ok done ↦ ok packed ]
  ]
]

-- The handle is out of the table while the directory is read, and back afterwards. A result is the
-- bytes that the caller gets.
unfoldable pub with_handle_out :
    GetdentsAnswers
    → Descriptors
    → ℕ
    → ℕ
    → ℕ
    → FilesState
    → NormalFileHandle
    → Result (List ℕ) × Descriptors
with_handle_out a d pid fd count files handle =
    let taken = insert pid (record files { fds = remove fd files.fds }) d.files in
    elim (lookup pid taken) [
      | none ↦ (err not_found, record d { files = taken })
      | some now ↦ (
        read_directory a count,
        record d { files = insert pid (record now { fds = insert fd handle now.fds }) taken },
      )
    ]

unfoldable pub do_getdents64 :
    GetdentsAnswers → Descriptors → ℕ → ℕ → ℕ → ℕ → Result (List ℕ) × Descriptors
do_getdents64 a d pid fd dirp count =
    if count == 0
    then (ok [], d)
    else if dirp == 0
    then (err invalid_address, d)
    else if ltb count dirent64_min_reclen
    then (err invalid_args, d)
    else if ltb u32_max fd
    then (err invalid_slot, d)
    else elim (lookup pid d.files) [
      | none ↦ (err not_found, d)
      | some files ↦ elim (lookup fd files.fds) [
        | none ↦ (err invalid_slot, d)
        | some handle ↦ with_handle_out a d pid fd count files handle
      ]
    ]
