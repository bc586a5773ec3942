-- ===== src/Memory/Faults.antt =====
-- The heap's break of mm/mod.rs, and what a fault asks for in ape/fault_policy.rs.
use Prim.Native.Nat.{◌+◌, ◌*◌, ◌-◌, ◌/◌, ◌≤◌, ◌<◌}
use native.Mathlib.Nat.{mul-div_cancel}
use ape.Base.{
  ℕ, ◌≡◌, refl, ◌⊎◌, inl, inr, none, some, arith, lookup, insert, lookup-insert, lookup-insert_self,
  Bool-cases, true, false, ltb, leb, ◌==◌, if◌then◌else◌, Option-cases, ◌&&◌, ◌||◌,
}
use ape.Memory.State.{Platform, MemoryMap, MmState, lookup_lazy_memory_map}
use ape.Memory.Ranges.{
  FaultAction, stack_growth, heap_lazy, lazy_mmap, unmanaged, classify_fault, Spaces, Result, ok,
  do_brk,
}

-- What becomes of a process when it asks for a break, and of the answer.
abbrev pub BrkOutcome : Spaces → ℕ → ℕ → MmState → Result ℕ × Spaces → Type 0
BrkOutcome spaces pid addr mm (answer, after) =
    (brk : ℕ) × (answer ≡ ok brk)
    × (lookup pid after ≡ some (record mm { heap_brk = brk }))
    × (mm.heap_start ≤ brk)
    × (brk ≤ mm.heap_limit)
    × (0 < addr → mm.heap_start ≤ addr → addr ≤ mm.heap_limit → brk ≡ addr)
    × ((brk ≡ mm.heap_brk) ⊎ (brk ≡ addr))
    × ((other : ℕ) → ¬ (other ≡ pid) → lookup other after ≡ lookup other spaces)

module _ (spaces : Spaces) (pid addr : ℕ) (mm : MmState) (found : lookup pid spaces ≡ some mm) where
  do_brk_refused :
      (addr == 0 || ltb addr mm.heap_start || ltb mm.heap_limit addr) ≡ true
      → do_brk spaces pid addr ≡ (ok mm.heap_brk, spaces)
  unfolding do_brk
  do_brk_refused h = ground arith

  do_brk_taken :
      (addr == 0 || ltb addr mm.heap_start || ltb mm.heap_limit addr) ≡ false
      → do_brk spaces pid addr ≡ (ok addr, insert pid (record mm { heap_brk = addr }) spaces)
  unfolding do_brk
  do_brk_taken h = ground arith

  taken_elsewhere :
      (other : ℕ)
      → ¬ (other ≡ pid)
      → lookup other (insert pid (record mm { heap_brk = addr }) spaces) ≡ lookup other spaces
  taken_elsewhere other h =
      ground (arith, lookup-insert pid other (record mm { heap_brk = addr }) spaces)

-- A request for a break of a process whose break lies in its heap answers with the break that the
-- process has afterwards: the address asked for, when it is not 0 and lies in the heap, and
-- otherwise the old break or the address. The break still lies in the heap, and no other process
-- changes.
pub do_brk-BrkOutcome :
    (spaces : Spaces) (pid addr : ℕ) (mm : MmState)
    → lookup pid spaces ≡ some mm
    → mm.heap_start ≤ mm.heap_brk
    → mm.heap_brk ≤ mm.heap_limit
    → BrkOutcome spaces pid addr mm (do_brk spaces pid addr)
do_brk-BrkOutcome spaces pid addr mm found low high =
    elim (Bool-cases (addr == 0 || ltb addr mm.heap_start || ltb mm.heap_limit addr)) [
      | inl refused ↦
          rw (do_brk_refused spaces pid addr mm found refused)
            (mm.heap_brk, refl, found, low, high, λ a b c. ground arith, inl refl, λ other h. refl)
      | inr taken ↦ rw (do_brk_taken spaces pid addr mm found taken) (
        addr,
        refl,
        lookup-insert_self pid _ spaces,
        ground arith,
        ground arith,
        λ a b c. refl,
        inr refl,
        taken_elsewhere spaces pid addr mm found,
      )
    ]

module _ (p : Platform) where
  abbrev pub FaultReason : MmState → ℕ → ℕ → FaultAction → Type 0
  FaultReason mm addr page_addr (lazy_mmap map) = lookup_lazy_memory_map mm addr ≡ some map
  FaultReason mm addr page_addr (stack_growth current_stack_low pages_to_map) =
      (lookup_lazy_memory_map mm addr ≡ none)
      × (mm.stack_bottom - mm.max_stack_size ≤ addr)
      × (current_stack_low ≡ mm.stack_bottom - mm.stack_size)
      × (addr < current_stack_low)
      × ((n : ℕ) → page_addr + n * p.pgsize ≡ current_stack_low → pages_to_map ≡ n)
  FaultReason mm addr page_addr heap_lazy =
      (lookup_lazy_memory_map mm addr ≡ none) × (mm.heap_start ≤ addr) × (addr < mm.heap_brk)
  FaultReason mm addr page_addr unmanaged =
      (lookup_lazy_memory_map mm addr ≡ none)
      × (mm.heap_start ≤ addr → addr < mm.heap_brk → ⊥)
      × (mm.stack_bottom - mm.max_stack_size ≤ addr → addr < mm.stack_bottom - mm.stack_size → ⊥)

  module _ (mm : MmState) (addr page_addr : ℕ) where
    fault_lazy :
        (map : MemoryMap)
        → lookup_lazy_memory_map mm addr ≡ some map
        → classify_fault p mm addr page_addr ≡ lazy_mmap map
    unfolding classify_fault
    fault_lazy map e = ground arith

    -- The choice where no lazy map has the address.
    fault_eager :
        lookup_lazy_memory_map mm addr ≡ none
        → classify_fault p mm addr page_addr ≡ (
            if leb (mm.stack_bottom - mm.max_stack_size) addr
              && ltb addr (mm.stack_bottom - mm.stack_size)
            then stack_growth
                (mm.stack_bottom - mm.stack_size)
                ((mm.stack_bottom - mm.stack_size - page_addr) / p.pgsize)
            else if leb mm.heap_start addr && ltb addr mm.heap_brk
            then heap_lazy
            else unmanaged)
    unfolding classify_fault
    fault_eager e = ground arith

    pages_of_growth :
        (low n : ℕ) → page_addr + n * p.pgsize ≡ low → (low - page_addr) / p.pgsize ≡ n
    pages_of_growth low n e =
        let same : low - page_addr ≡ n * p.pgsize = omega arith in
        rw same (mul-div_cancel n p.pgsize-positive)

    -- A fault is answered by its reason: a lazy map has the address; or none has, and the address
    -- lies in the room of the stack below what the stack has, where from a page boundary the pages
    -- to map reach from that page exactly up to the stack; or it lies in the heap below the break;
    -- or none of the three.
    pub classify_fault-FaultReason :
        FaultReason mm addr page_addr (classify_fault p mm addr page_addr)
    classify_fault-FaultReason = elim (Option-cases (lookup_lazy_memory_map mm addr)) [
      | inl e ↦
          elim (Bool-cases (
            leb (mm.stack_bottom - mm.max_stack_size) addr
            && ltb addr (mm.stack_bottom - mm.stack_size))) [
              | inl stack ↦
                  rw (fault_eager e, stack)
                    (e, ground arith, refl, ground arith, λ n. pages_of_growth _ n)
              | inr no_stack ↦ elim (Bool-cases (leb mm.heap_start addr && ltb addr mm.heap_brk)) [
                | inl heap ↦ rw (fault_eager e, no_stack, heap) (e, ground arith, ground arith)
                | inr no_heap ↦
                    rw (fault_eager e, no_stack, no_heap)
                      (e, λ a b. ground arith, λ a b. ground arith)
              ]
            ]
      | inr (map, e) ↦ rw (fault_lazy map e) e
    ]
