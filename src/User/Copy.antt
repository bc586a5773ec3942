-- ===== src/User/Copy.antt =====
-- ape/user.rs: growing the stack, finding the map of an address, and the two copying loops.
use Prim.Native.Nat.{bit_or}
use ape.Base.{
  ℕ, zero, suc, ◌+◌, ◌-◌, ◌*◌, ◌/◌, Bool, true, false, not, ◌&&◌, ◌||◌, Option, none, some, List,
  [], ◌∷◌, ◌++◌, min, length, take, drop, get_or, ltb, leb, ◌==◌, if◌then◌else◌, Result, ok, err,
  invalid_address, saturating_add,
}
use ape.Task.Ledger.{ApeResourceLedger, log, frame_alloc}
use ape.Memory.State.{Platform, MemoryType, MemoryMap, MmState, lookup_memory_map, add_memory_map}
use ape.User.{SharedPagePool, Kernel, allows, acquire, entry_at}

pub record UserAccessSession : Type 0 where
  pub mm : MmState
  pub ledger : ApeResourceLedger
  pub frames : ℕ → ℕ → ℕ
  pub pool : SharedPagePool

-- The map of one new page of the stack.
abbrev stack_page : Platform → ℕ → ℕ → MemoryMap
stack_page p vaddr slot = record {
  vaddr = vaddr;
  paddr = 0;
  size = p.pgsize;
  flags = bit_or p.perm_read p.perm_write;
  mem_type = MemoryType.stack;
  cow = false;
  frame_cap = slot;
  file_backing_fd = none;
  file_backing_offset = 0;
}

-- The loop of the growth: the pages below `low`, from page `idx` on, as many as `pages`.
unfoldable pub grow_pages :
    Kernel → Platform → ℕ → ℕ → ℕ → ℕ → UserAccessSession → Result (Unit {0}) × UserAccessSession
grow_pages kernel p pid low idx zero s = (ok tt, s)
grow_pages kernel p pid low idx (suc pages) s =
    let vaddr = low - (idx + 1) * p.pgsize in
    elim (kernel.new_frame vaddr) [
      | err e ↦ (err e, s)
      | ok slot ↦
          let logged = record s { ledger = log s.ledger pid (frame_alloc slot 1) } in
          let mm = add_memory_map s.mm (stack_page p vaddr slot) in
          let grown = record logged {
            mm = record mm { stack_size = saturating_add mm.stack_size p.pgsize };
          } in
          let rest = grow_pages kernel p pid low (idx + 1) pages grown in
          elim (kernel.map_frame vaddr) [ err e ↦ (err e, logged) | ok done ↦ rest ]
    ]

unfoldable pub try_grow_stack_for_user_addr :
    Kernel → Platform → ℕ → UserAccessSession → ℕ → Result Bool × UserAccessSession
try_grow_stack_for_user_addr kernel p pid s user_addr =
    let page_addr = p.align_down user_addr in
    let low = s.mm.stack_bottom - s.mm.stack_size in
    let pages = (low - page_addr) / p.pgsize in
    if not
      (ltb user_addr s.mm.stack_bottom && leb (s.mm.stack_bottom - s.mm.max_stack_size) user_addr)
    then (ok false, s)
    else if leb low page_addr
    then (ok false, s)
    else if pages == 0
    then (ok false, s)
    else let (done, grown) = grow_pages kernel p pid low 0 pages s in
      (elim done [ err e ↦ err e | ok unit ↦ ok true ], grown)

-- The tests of a map that was found.
unfoldable pub check_map : MemoryMap → ℕ → ℕ → Result MemoryMap
check_map map user_addr required =
    if map.frame_cap == 0 || not (allows map.flags required)
    then err invalid_address
    else if ltb user_addr map.vaddr || leb (saturating_add map.vaddr map.size) user_addr
    then err invalid_address
    else ok map

unfoldable pub lookup_map :
    Kernel → Platform → ℕ → UserAccessSession → ℕ → ℕ → Result MemoryMap × UserAccessSession
lookup_map kernel p pid s user_addr required = elim (lookup_memory_map s.mm user_addr) [
  | some map ↦ (check_map map user_addr required, s)
  | none ↦
      let (grew, after) = try_grow_stack_for_user_addr kernel p pid s user_addr in
      elim grew [
        | err e ↦ (err invalid_address, after)
        | ok false ↦ (err invalid_address, after)
        | ok true ↦ elim (lookup_memory_map after.mm user_addr) [
          | none ↦ (err invalid_address, after)
          | some map ↦ (check_map map user_addr required, after)
        ]
      ]
]

-- A run of bytes.
unfoldable pub bytes_at : (ℕ → ℕ) → ℕ → ℕ → List ℕ
bytes_at f start zero = []
bytes_at f start (suc n) = f start ∷ bytes_at f (suc start) n

-- The frame that the scratch address of a slot shows.
abbrev pub shown : SharedPagePool → ℕ → ℕ
shown pool slot = elim (entry_at pool.entries slot) [ none ↦ 0 | some entry ↦ entry.frame_cap ]

abbrev pub Reads : Type 0
Reads = Option (Result (List ℕ) × UserAccessSession)

-- The bytes of a round before those of the rounds after it.
unfoldable pub prepend : List ℕ → Reads → Reads
prepend bytes none = none
prepend bytes (some (err e, last)) = some (err e, last)
prepend bytes (some (ok more, last)) = some (ok (bytes ++ more), last)

-- A round of `copy_from_user`, with what `acquire` gave, and with what `lookup_map` gave. `go` are the
-- rounds after it, from a position on with so many bytes left.
unfoldable pub read_slot :
    (UserAccessSession → ℕ → ℕ → Reads)
    → UserAccessSession
    → (cursor start chunk left : ℕ) → Result ℕ × SharedPagePool
    → Reads
read_slot go s cursor start chunk left (err e, pool) = some (err e, record s { pool = pool })
read_slot go s cursor start chunk left (ok slot, pool) =
    prepend (bytes_at (s.frames (shown pool slot)) start chunk)
      (go (record s { pool = pool }) (saturating_add cursor chunk) (left - chunk))

unfoldable pub read_map :
    Kernel
    → Platform
    → (UserAccessSession → ℕ → ℕ → Reads)
    → (cursor left : ℕ) → Result MemoryMap × UserAccessSession
    → Reads
read_map kernel p go cursor left (err e, s) = some (err e, s)
read_map kernel p go cursor left (ok map, s) =
    let start = cursor - map.vaddr in
    let chunk = min (map.size - start) left in
    if chunk == 0
    then some (err invalid_address, s)
    else read_slot go s cursor start chunk left (acquire kernel p s.pool map p.perm_read)

-- The loop of `copy_from_user`, with `left` bytes to read; a round reads one at least, and the first
-- error ends it.
unfoldable pub copy_from_loop : Kernel → Platform → ℕ → ℕ → UserAccessSession → ℕ → ℕ → Reads
copy_from_loop kernel p pid zero s cursor zero = some (ok [], s)
copy_from_loop kernel p pid zero s cursor (suc left) = none
copy_from_loop kernel p pid (suc fuel) s cursor zero = some (ok [], s)
copy_from_loop kernel p pid (suc fuel) s cursor (suc left) =
    read_map kernel p (copy_from_loop kernel p pid fuel) cursor (suc left)
      (lookup_map kernel p pid s cursor p.perm_read)

unfoldable pub copy_from_user : Kernel → Platform → ℕ → UserAccessSession → ℕ → ℕ → Reads
copy_from_user kernel p pid s user_src count =
    if count == 0
    then some (ok [], s)
    else if user_src == 0
    then some (err invalid_address, s)
    else copy_from_loop kernel p pid count s user_src count

-- Memory with a run of bytes written at an offset of one frame.
unfoldable pub put_bytes : (ℕ → ℕ → ℕ) → ℕ → ℕ → List ℕ → ℕ → ℕ → ℕ
put_bytes frames cap start bytes frame offset =
    if frame == cap && (leb start offset && ltb offset (start + length bytes))
    then get_or bytes (offset - start) 0
    else frames frame offset

unfoldable pub copy_to_loop :
    Kernel
    → Platform
    → ℕ
    → ℕ
    → UserAccessSession
    → ℕ
    → List ℕ
    → Option (Result (Unit {0}) × UserAccessSession)
copy_to_loop kernel p pid fuel s cursor [] = some (ok tt, s)
copy_to_loop kernel p pid zero s cursor (b ∷ src) = none
copy_to_loop kernel p pid (suc fuel) s cursor (b ∷ src) =
    let (found, after) = lookup_map kernel p pid s cursor p.perm_write in
    elim found [
      | err e ↦ some (err e, after)
      | ok map ↦
          let start = cursor - map.vaddr in
          let chunk = min (map.size - start) (length (b ∷ src)) in
          let (acquired, pool) =
            acquire kernel p after.pool map (bit_or p.perm_read p.perm_write) in
          elim acquired [
            | err e ↦
                if chunk == 0
                then some (err invalid_address, after)
                else some (err e, record after { pool = pool })
            | ok slot ↦
                let next = record after {
                  pool = pool;
                  frames = put_bytes after.frames (shown pool slot) start (take chunk (b ∷ src));
                } in
                let rest =
                  copy_to_loop kernel p pid fuel next (saturating_add cursor chunk)
                    (drop chunk (b ∷ src)) in
                if chunk == 0 then some (err invalid_address, after) else rest
          ]
    ]

unfoldable pub copy_to_user :
    Kernel
    → Platform
    → ℕ
    → UserAccessSession
    → ℕ
    → List ℕ
    → Option (Result (Unit {0}) × UserAccessSession)
copy_to_user kernel p pid s user_dst src =
    if length src == 0
    then some (ok tt, s)
    else if user_dst == 0
    then some (err invalid_address, s)
    else copy_to_loop kernel p pid (length src) s user_dst src
