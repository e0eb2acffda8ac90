-- ===== src/AddrSpace.antt =====
-- kern/vm/addrspace.c: the regions, the heap and the page table of a process. The locks of page
-- table entries are held from the start to the end of each step.
pub mod Regions
pub mod Destroy
mod Tests
use linux_like_os.Prelude.{
  ℕ, ◌+◌, ◌-◌, ◌*◌, ◌/◌, ◌%◌, ◌^◌, bit_and, Bool, true, false, not, List, [], ◌∷◌, ◌++◌, ltb, ◌==◌,
  if◌then◌else◌, Run, ok, ◌>>=◌, ◌>>◌, kassert, enomem, Reply, done, fail,
}
use linux_like_os.Bitmap.{Bitmap, bitmap_unmark, bitmap_isset}
use linux_like_os.Coremap.{page_size, Coremap, release_physical_page}

-- `vpage_state`
pub data VpageState : Type 0 where
  mapped unmapped swapped : VpageState

abbrev pub is_swapped : VpageState → Bool
is_swapped swapped = true
is_swapped _ = false

-- `struct page_table_entry`; one that is not `live` was given back to kmalloc, and no field of it may
-- be read.
pub record PageTableEntry : Type 0 where
  pub live : Bool
  pub as_vpage : ℕ
  pub as_ppage : ℕ
  pub vpage_permission : ℕ
  pub state : VpageState
  pub diskpage_location : ℕ

-- `struct region`
pub record Region : Type 0 where
  pub start : ℕ
  pub size : ℕ
  pub npages : ℕ
  pub read : Bool
  pub write : Bool
  pub execute : Bool

-- `struct addrspace`
pub record Addrspace : Type 0 where
  pub regions : List Region
  pub page_table : List PageTableEntry
  pub heap_start : ℕ
  pub heap_end : ℕ

abbrev pub as_create : Addrspace
as_create = record { regions = []; page_table = []; heap_start = 0; heap_end = 0 }

-- `a & PAGE_FRAME`, and `a & ~PAGE_FRAME`
abbrev pub page_frame : ℕ → ℕ
page_frame a = a / page_size * page_size

abbrev pub page_offset : ℕ → ℕ
page_offset a = a % page_size

-- The region that as_define_region makes.
abbrev pub new_region : (vaddr memsize readable writeable executable : ℕ) → Region
new_region vaddr memsize readable writeable executable =
    let base = page_frame vaddr in
    let memsize' = page_frame ((memsize + page_offset base + page_size - 1) % 2 ^ 32) in
    record {
      start = base;
      size = memsize';
      npages = memsize' / page_size;
      read = not (bit_and readable 4 == 0);
      write = not (bit_and writeable 2 == 0);
      execute = not (bit_and executable 1 == 0);
    }

-- `got_memory` says whether kmalloc succeeds.
unfoldable pub as_define_region :
    Addrspace
    → (vaddr memsize readable writeable executable : ℕ) → (got_memory : Bool)
    → Reply (Unit {0}) × Addrspace
as_define_region as_ vaddr memsize readable writeable executable got_memory =
    if got_memory
    then (
      done tt,
      record as_ {
        regions = as_.regions ++ new_region vaddr memsize readable writeable executable ∷ [];
      },
    )
    else (fail enomem, as_)

-- The loop of as_prepare_load over the regions.
unfoldable pub largest_end : List Region → (heap_start : ℕ) → ℕ
largest_end [] heap_start = heap_start
largest_end (current ∷ rs) heap_start =
    let region_end = (current.start + current.size) % 2 ^ 32 in
    largest_end rs (if ltb heap_start region_end then region_end else heap_start)

unfoldable pub as_prepare_load : Addrspace → Run Addrspace
unfolding largest_end
as_prepare_load as_ = do
  let heap_start = page_frame ((largest_end as_.regions 0 + page_size - 1) % 2 ^ 32)
  kassert (heap_start % page_size == 0)
  ok (record as_ { heap_start = heap_start; heap_end = heap_start })

-- kern/vm/vm.c; the bitmap is that of the swap disk.
unfoldable pub unmark_swap_bitmap : ℕ → Bitmap → Run Bitmap
unmark_swap_bitmap index swap = do
  marked ← bitmap_isset swap index
  if marked == 0 then ok swap else bitmap_unmark swap index

-- What becomes of the coremap when as_destroy frees an entry with its lock, a region, or the address
-- space itself: kfree may give back pages that kmalloc took for itself.
pub record Kfree : Type 0 where
  pub entry : PageTableEntry → Coremap → Coremap
  pub region : Region → Coremap → Coremap
  pub space : Addrspace → Coremap → Coremap

-- One round of the first loop of as_destroy. A page that is being evicted is passed over, and its
-- entry is not freed.
unfoldable pub release_entry :
    (PageTableEntry → Coremap → Coremap)
    → PageTableEntry
    → Coremap
    → Bitmap
    → Run (Coremap × Bitmap)
unfolding unmark_swap_bitmap
release_entry kfree pte c swap = do
  kassert pte.live
  elim (pte.state) [
    | swapped ↦ do swap' ← unmark_swap_bitmap pte.diskpage_location swap; ok (kfree pte c, swap')
    | mapped ↦ do
      (err, c') ← release_physical_page pte.as_ppage c
      ok (if err == 0 then kfree pte c' else c', swap)
    | unmapped ↦ ok (kfree pte c, swap)
  ]

unfoldable pub release_entries :
    (PageTableEntry → Coremap → Coremap)
    → List PageTableEntry
    → Coremap
    → Bitmap
    → Run (Coremap × Bitmap)
unfolding release_entry
release_entries kfree [] c swap = ok (c, swap)
release_entries kfree (pte ∷ ptes) c swap = do
  (c', swap') ← release_entry kfree pte c swap
  release_entries kfree ptes c' swap'

-- The second loop of as_destroy.
unfoldable pub free_regions : (Region → Coremap → Coremap) → List Region → Coremap → Coremap
free_regions kfree [] c = c
free_regions kfree (r ∷ rs) c = free_regions kfree rs (kfree r c)

-- The coremap and the bitmap of the swap disk after as_destroy.
unfoldable pub as_destroy : Kfree → Addrspace → Coremap → Bitmap → Run (Coremap × Bitmap)
unfolding release_entries free_regions
as_destroy kfree as_ c swap = do
  (c', swap') ← release_entries kfree.entry as_.page_table c swap
  ok (kfree.space as_ (free_regions kfree.region as_.regions c'), swap')

-- These two have nothing to do; the stack starts at the top of user space.
abbrev pub as_complete_load : Addrspace → Reply (Unit {0})
as_complete_load as_ = done tt

abbrev pub as_define_stack : Addrspace → Reply ℕ
as_define_stack as_ = done (2 ^ 31)
