-- ===== src/Task/Ledger.antt =====
-- ape/state.rs, `ApeResourceLedger`: what each process has allocated and freed. A capability is its
-- number; the counters are words, and those that the source adds to with `+=` wrap.
use ape.Base.{
  ℕ, ◌+◌, ◌≤◌, ◌<◌, ◌≡◌, refl, ap, ◌∙◌, Bool, true, false, List, [], ◌∷◌, arith, max, Map, lookup,
  insert, remove, contains_key, lookup-insert, lookup-remove, unwrap_or, length, length-insert,
  length-remove-le, Above, insert-Above, remove-Above, ◌==◌, if◌then◌else◌, wrapping_add,
  saturating_add, usize_size,
}

-- `BTreeSet<CapPtr>`.
abbrev pub CapSet : Type 0
CapSet = Map (Unit {0})

pub record ApeProcessLedger : Type 0 where
  pub alloc_frames : ℕ
  pub free_frames : ℕ
  pub alloc_pages : ℕ
  pub free_pages : ℕ
  pub alloc_pagetables : ℕ
  pub free_pagetables : ℕ
  pub fd_opened : ℕ
  pub fd_closed : ℕ
  pub async_regions_allocated : ℕ
  pub async_regions_reused : ℕ
  pub peak_live_frames : ℕ
  pub live_frames : CapSet
  pub live_pagetables : CapSet

abbrev pub empty_ledger : ApeProcessLedger
empty_ledger = record {
  alloc_frames = 0;
  free_frames = 0;
  alloc_pages = 0;
  free_pages = 0;
  alloc_pagetables = 0;
  free_pagetables = 0;
  fd_opened = 0;
  fd_closed = 0;
  async_regions_allocated = 0;
  async_regions_reused = 0;
  peak_live_frames = 0;
  live_frames = [];
  live_pagetables = [];
}

unfoldable pub touch_peak : ApeProcessLedger → ApeProcessLedger
touch_peak p = record p { peak_live_frames = max p.peak_live_frames (length p.live_frames) }

abbrev pub ApeResourceLedger : Type 0
ApeResourceLedger = Map ApeProcessLedger

-- `entry(pid).or_default()`, and the change that is made through it.
abbrev pub process_of : ApeResourceLedger → ℕ → ApeProcessLedger
process_of l pid = unwrap_or (lookup pid l) empty_ledger

-- The changes of one process's ledger.
pub data Entry : Type 0 where
  frame_alloc frame_free : ℕ → ℕ → Entry
  pagetable_alloc pagetable_free : ℕ → Entry
  fd_open fd_close async_region_allocated async_region_reused : Entry

unfoldable pub apply : ApeProcessLedger → Entry → ApeProcessLedger
unfolding touch_peak
apply p (frame_alloc slot pages) = touch_peak (record p {
  alloc_frames = wrapping_add p.alloc_frames 1;
  alloc_pages = saturating_add p.alloc_pages pages;
  live_frames = insert slot tt p.live_frames;
})
apply p (frame_free slot pages) = record p {
  free_frames = wrapping_add p.free_frames 1;
  free_pages = saturating_add p.free_pages pages;
  live_frames = remove slot p.live_frames;
}
apply p (pagetable_alloc slot) = record p {
  alloc_pagetables = wrapping_add p.alloc_pagetables 1;
  live_pagetables = insert slot tt p.live_pagetables;
}
apply p (pagetable_free slot) = record p {
  free_pagetables = wrapping_add p.free_pagetables 1;
  live_pagetables = remove slot p.live_pagetables;
}
apply p fd_open = record p { fd_opened = wrapping_add p.fd_opened 1 }
apply p fd_close = record p { fd_closed = wrapping_add p.fd_closed 1 }
apply p async_region_allocated = record p {
  async_regions_allocated = wrapping_add p.async_regions_allocated 1;
}
apply p async_region_reused = record p {
  async_regions_reused = wrapping_add p.async_regions_reused 1;
}

unfoldable pub log : ApeResourceLedger → ℕ → Entry → ApeResourceLedger
log l pid e = insert pid (apply (process_of l pid) e) l

unfoldable pub take_process : ApeResourceLedger → ℕ → ApeProcessLedger × ApeResourceLedger
take_process l pid = (process_of l pid, remove pid l)

unfoldable pub apply_all : ApeProcessLedger → List Entry → ApeProcessLedger
apply_all p [] = p
apply_all p (e ∷ es) = apply_all (apply p e) es

-- The peak against the frames that are live, and the live frames against the counters.
pub record IsBalanced (p : ApeProcessLedger) : Type 0 where
  pub in_order : Above 0 p.live_frames
  pub under_peak : length p.live_frames ≤ p.peak_live_frames
  pub peak_allocated : p.peak_live_frames ≤ p.alloc_frames
  pub counted : length p.live_frames ≤ p.alloc_frames

apply-IsBalanced :
    (p : ApeProcessLedger) (e : Entry)
    → p.alloc_frames + 1 < usize_size
    → IsBalanced p
    → IsBalanced (apply p e)
unfolding apply
apply-IsBalanced p (frame_alloc slot pages) small b =
    let grown = length-insert 0 slot tt p.live_frames b.in_order in
    ground (arith, grown, insert-Above 0 slot tt p.live_frames (omega arith) b.in_order)
apply-IsBalanced p (frame_free slot pages) small b =
    ground
      (arith, length-remove-le slot p.live_frames, remove-Above 0 slot p.live_frames b.in_order)
apply-IsBalanced p (pagetable_alloc slot) small b = ground arith
apply-IsBalanced p (pagetable_free slot) small b = ground arith
apply-IsBalanced p fd_open small b = ground arith
apply-IsBalanced p fd_close small b = ground arith
apply-IsBalanced p async_region_allocated small b = ground arith
apply-IsBalanced p async_region_reused small b = ground arith

alloc_frames-apply :
    (p : ApeProcessLedger) (e : Entry) → (apply p e).alloc_frames ≤ p.alloc_frames + 1
unfolding apply
alloc_frames-apply p (frame_alloc slot pages) = omega arith
alloc_frames-apply p (frame_free slot pages) = omega arith
alloc_frames-apply p (pagetable_alloc slot) = omega arith
alloc_frames-apply p (pagetable_free slot) = omega arith
alloc_frames-apply p fd_open = omega arith
alloc_frames-apply p fd_close = omega arith
alloc_frames-apply p async_region_allocated = omega arith
alloc_frames-apply p async_region_reused = omega arith

-- As long as no counter wraps, any sequence of entries keeps the balance: the live frames are at
-- most the peak, and the peak is at most the frames that were ever allocated.
pub apply_all-IsBalanced :
    (p : ApeProcessLedger) (es : List Entry)
    → p.alloc_frames + length es < usize_size
    → IsBalanced p
    → IsBalanced (apply_all p es)
unfolding apply_all
apply_all-IsBalanced p [] small b = b
apply_all-IsBalanced p (e ∷ es) small b =
    apply_all-IsBalanced (apply p e) es (omega (arith, alloc_frames-apply p e))
      (apply-IsBalanced p e (omega arith) b)

-- Whether `slot` is live after the entries, if it was `live` before.
abbrev pub live_after : ℕ → Bool → List Entry → Bool
live_after slot live [] = live
live_after slot live (frame_alloc s pages ∷ es) =
    live_after slot (if s == slot then true else live) es
live_after slot live (frame_free s pages ∷ es) =
    live_after slot (if s == slot then false else live) es
live_after slot live (pagetable_alloc s ∷ es) = live_after slot live es
live_after slot live (pagetable_free s ∷ es) = live_after slot live es
live_after slot live (fd_open ∷ es) = live_after slot live es
live_after slot live (fd_close ∷ es) = live_after slot live es
live_after slot live (async_region_allocated ∷ es) = live_after slot live es
live_after slot live (async_region_reused ∷ es) = live_after slot live es

-- The frames that the ledger holds as live are those whose last entry is an allocation, or that
-- were live at first and have no entry.
pub live-apply_all :
    (slot : ℕ) (p : ApeProcessLedger) (es : List Entry)
    → contains_key slot (apply_all p es).live_frames
      ≡ live_after slot (contains_key slot p.live_frames) es
unfolding apply_all apply
live-apply_all slot p [] = refl
live-apply_all slot p (frame_alloc s pages ∷ es) =
    live-apply_all slot (apply p (frame_alloc s pages)) es
    ∙ ap (λ b. live_after slot b es) (ground (arith, lookup-insert s slot tt p.live_frames))
live-apply_all slot p (frame_free s pages ∷ es) =
    live-apply_all slot (apply p (frame_free s pages)) es
    ∙ ap (λ b. live_after slot b es) (ground (arith, lookup-remove s slot p.live_frames))
live-apply_all slot p (pagetable_alloc s ∷ es) =
    live-apply_all slot (apply p (pagetable_alloc s)) es
live-apply_all slot p (pagetable_free s ∷ es) = live-apply_all slot (apply p (pagetable_free s)) es
live-apply_all slot p (fd_open ∷ es) = live-apply_all slot (apply p fd_open) es
live-apply_all slot p (fd_close ∷ es) = live-apply_all slot (apply p fd_close) es
live-apply_all slot p (async_region_allocated ∷ es) =
    live-apply_all slot (apply p async_region_allocated) es
live-apply_all slot p (async_region_reused ∷ es) =
    live-apply_all slot (apply p async_region_reused) es
