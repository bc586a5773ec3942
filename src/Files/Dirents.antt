-- ===== src/Files/Dirents.antt =====
-- The packed directory of fs/fd.rs, read back.
use ape.Base.{
  ℕ, zero, suc, ◌+◌, ◌-◌, ◌^◌, ◌≤◌, ◌<◌, ◌≡◌, refl, sym, ap, ◌∙◌, inl, inr, true, false, List, [],
  ◌∷◌, ◌++◌, map, append_assoc, append-nil, arith, length, length-append, All, take, drop, get_or,
  ltb, leb, ◌==◌, if◌then◌else◌, Bool-cases, ok, saturating_add, usize_max, to_bytes, from_bytes,
  zeros, length-zeros, from_bytes-to_bytes, drop_of-append,
}
use ape.Files.Getdents.{
  dirent64_fixed_size, u16_max, align_up_8, DEntry, name_bytes, reclen, dirent_bytes, pack,
}

-- An entry as the caller sees it: the number, the offset, the type and the name.
abbrev pub View : Type 0
View = ℕ × ℕ × ℕ × List ℕ

abbrev pub view : DEntry → View
view entry = (entry.d_ino, entry.d_off, entry.d_type, name_bytes entry.d_name)

-- What a C program does with the buffer: read an entry, and go on `d_reclen` bytes further.
unfoldable pub read_dirents : ℕ → List ℕ → List View
read_dirents zero bytes = []
read_dirents (suc fuel) [] = []
read_dirents (suc fuel) (b ∷ bs) =
    let bytes = b ∷ bs in
    let rest = read_dirents fuel (drop (from_bytes (take 2 (drop 16 bytes))) bytes) in
    (
      from_bytes (take 8 bytes),
      from_bytes (take 8 (drop 8 bytes)),
      get_or bytes 18 0,
      name_bytes (drop 19 bytes),
    )
    ∷ rest

-- The longest run of entries from the first that fits in the room.
unfoldable pub fitting : ℕ → List DEntry → List DEntry
fitting room [] = []
fitting room (entry ∷ entries) =
    let rest = fitting (room - reclen entry) entries in
    if leb (reclen entry) room then entry ∷ rest else []

unfoldable pub encode : List DEntry → List ℕ
encode [] = []
encode (entry ∷ entries) = dirent_bytes entry ++ encode entries

-- What the fields of the source's struct hold, with a length of at most a `u16`.
abbrev pub IsDirent : DEntry → Type 0
IsDirent entry = (entry.d_ino < 2 ^ 64) × (entry.d_off < 2 ^ 64) × (reclen entry ≤ u16_max)

pub reclen_room :
    (entry : DEntry) → dirent64_fixed_size + length (name_bytes entry.d_name) + 1 ≤ reclen entry
unfolding reclen align_up_8
reclen_room entry = omega arith

pub length-dirent_bytes : (entry : DEntry) → length (dirent_bytes entry) ≡ reclen entry
unfolding dirent_bytes to_bytes
length-dirent_bytes entry =
    let name = name_bytes entry.d_name in
    let pad = reclen entry - (dirent64_fixed_size + length name + 1) in
    omega (arith, reclen_room entry, length-append name (0 ∷ zeros pad), length-zeros pad)

pub pack_lem :
    (count : ℕ) (entries : List DEntry) (packed : List ℕ)
    → count < usize_max
    → length packed ≤ count
    → All (λ e. reclen e ≤ u16_max) entries
    → pack count entries packed ≡ ok (packed ++ encode (fitting (count - length packed) entries))
unfolding pack fitting encode
pack_lem count [] packed word low small = rw (append-nil packed) refl
pack_lem count (entry ∷ entries) packed word low small =
    let fits : ltb u16_max (reclen entry) ≡ false = ground (arith, small.0) in
    let size = length-append packed (dirent_bytes entry) in
    elim (Bool-cases (leb (reclen entry) (count - length packed))) [
      | inr over ↦
          let full : ltb count (saturating_add (length packed) (reclen entry)) ≡ true =
            ground (arith, over) in
          rw (fits, full, over, append-nil packed) refl
      | inl under ↦
          let room : ltb count (saturating_add (length packed) (reclen entry)) ≡ false =
            ground (arith, under) in
          let after : count - length (packed ++ dirent_bytes entry)
              ≡ count - length packed - reclen entry =
            omega (arith, size, length-dirent_bytes entry) in
          let ih =
            pack_lem count entries (packed ++ dirent_bytes entry) word
              (ground (arith, size, length-dirent_bytes entry, under)) small.1 in
          rw
            (
              fits,
              room,
              under,
              ih,
              after,
              append_assoc packed (dirent_bytes entry)
                  (encode (fitting (count - length packed - reclen entry) entries)),
            )
            refl
    ]

name_bytes-name_bytes :
    (name pad rest : List ℕ) → name_bytes ((name_bytes name ++ 0 ∷ pad) ++ rest) ≡ name_bytes name
unfolding name_bytes
name_bytes-name_bytes [] pad rest = refl
name_bytes-name_bytes (b ∷ bs) pad rest = elim (Bool-cases (b == 0)) [
  | inl ends ↦ rw (ends) refl
  | inr more ↦ rw (more, more) (ap (λ t. b ∷ t) (name_bytes-name_bytes bs pad rest))
]

same_views :
    {a b c d t : ℕ} {name name' : List ℕ} {rest rest' : List View}
    → a ≡ b
    → c ≡ d
    → name ≡ name'
    → rest ≡ rest'
    → (a, c, t, name) ∷ rest ≡ (b, d, t, name') ∷ rest'
same_views p q r s = rw (p, q, r, s) refl

-- Reading one entry at the head of a buffer.
module _ (entry : DEntry) (rest : List ℕ) (legal : IsDirent entry) where
  reclen_field : from_bytes (take 2 (drop 16 (dirent_bytes entry ++ rest))) ≡ reclen entry
  unfolding dirent_bytes to_bytes
  reclen_field = from_bytes-to_bytes 2 (reclen entry) (omega arith)

  past_entry :
      drop (from_bytes (take 2 (drop 16 (dirent_bytes entry ++ rest)))) (dirent_bytes entry ++ rest)
      ≡ rest
  past_entry =
      ap (λ n. drop n (dirent_bytes entry ++ rest)) (reclen_field ∙ sym (length-dirent_bytes entry))
      ∙ drop_of-append (dirent_bytes entry) rest

  read_entry :
      (fuel : ℕ)
      → read_dirents (suc fuel) (dirent_bytes entry ++ rest) ≡ view entry ∷ read_dirents fuel rest
  unfolding read_dirents dirent_bytes to_bytes
  read_entry fuel =
      let number = from_bytes-to_bytes 8 entry.d_ino (omega arith) in
      let offset = from_bytes-to_bytes 8 entry.d_off (omega arith) in
      let name =
        name_bytes-name_bytes entry.d_name
          (zeros (reclen entry - (dirent64_fixed_size + length (name_bytes entry.d_name) + 1)))
          rest in
      let tail : read_dirents fuel (
            drop (from_bytes (take 2 (drop 16 (dirent_bytes entry ++ rest))))
              (dirent_bytes entry ++ rest))
          ≡ read_dirents fuel rest =
        ap (read_dirents fuel) past_entry in
      same_views number offset name tail

-- The size of what fits, and reading it back.
pub length-encode-fitting :
    (room : ℕ) (entries : List DEntry) → length (encode (fitting room entries)) ≤ room
unfolding encode fitting
length-encode-fitting room [] = omega arith
length-encode-fitting room (entry ∷ entries) = elim (Bool-cases (leb (reclen entry) room)) [
  | inl under ↦ rw (under) (
      ground (
        arith,
        under,
        length-append (dirent_bytes entry) (encode (fitting (room - reclen entry) entries)),
        length-dirent_bytes entry,
        length-encode-fitting (room - reclen entry) entries,
      ))
  | inr over ↦ rw (over) (omega arith)
]

read_dirents-encode :
    (fuel : ℕ) (entries : List DEntry)
    → All IsDirent entries
    → length entries ≤ fuel
    → read_dirents fuel (encode entries) ≡ map view entries
unfolding encode read_dirents
read_dirents-encode zero [] legal enough = refl
read_dirents-encode (suc fuel) [] legal enough = refl
read_dirents-encode zero (entry ∷ entries) legal enough = absurd (omega arith)
read_dirents-encode (suc fuel) (entry ∷ entries) legal enough =
    read_entry entry (encode entries) legal.0 fuel
    ∙ ap (λ t. view entry ∷ t) (read_dirents-encode fuel entries legal.1 (omega arith))

fitting_legal :
    (room : ℕ) (entries : List DEntry) → All IsDirent entries → All IsDirent (fitting room entries)
unfolding fitting
fitting_legal room [] legal = tt
fitting_legal room (entry ∷ entries) legal = elim (Bool-cases (leb (reclen entry) room)) [
  | inl under ↦ rw (under) (legal.0, fitting_legal (room - reclen entry) entries legal.1)
  | inr over ↦ rw (over) tt
]

short_lengths :
    (entries : List DEntry) → All IsDirent entries → All (λ e. reclen e ≤ u16_max) entries
short_lengths [] legal = tt
short_lengths (entry ∷ entries) legal = (legal.0.2, short_lengths entries legal.1)

length-encode-ge : (entries : List DEntry) → length entries ≤ length (encode entries)
unfolding encode
length-encode-ge [] = omega arith
length-encode-ge (entry ∷ entries) = omega (
  arith,
  length-append (dirent_bytes entry) (encode entries),
  length-dirent_bytes entry,
  reclen_room entry,
  length-encode-ge entries,
)

-- A directory whose entries have 64-bit numbers and offsets and records of at most u16::MAX bytes packs,
-- into at most `count` bytes, and a program that reads the buffer entry by entry gets back the number,
-- offset, type and name of the entries that fit, in their order. `count` is below usize::MAX.
pub pack-read_dirents :
    (count : ℕ) (entries : List DEntry)
    → count < usize_max
    → All IsDirent entries
    → (bytes : List ℕ) × (pack count entries [] ≡ ok bytes)
      × (length bytes ≤ count)
      × (read_dirents (length bytes) bytes ≡ map view (fitting count entries))
pack-read_dirents count entries word legal =
    let fits = fitting count entries in
    (
      encode fits,
      pack_lem count entries [] word (omega arith) (short_lengths entries legal)
          ∙ ap (λ room. ok (encode (fitting room entries))) (omega arith),
      length-encode-fitting count entries,
      read_dirents-encode (length (encode fits)) fits (fitting_legal count entries legal)
          (length-encode-ge fits),
    )
