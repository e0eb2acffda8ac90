-- ===== src/Coremap.antt =====
-- kern/vm/vm.c: the coremap, which says of each page of physical memory who uses it.
-- The spinlock `coremap_lock` is held from the start to the end of each operation, so an
-- operation is one step on the state.
pub mod Pages
pub mod Valid
pub mod Search
pub mod Block
pub mod Blocks
pub mod Kernel
pub mod User
pub mod Bootstrap
pub mod Sweep
pub mod Clock
pub mod Victim
pub mod Tests
use linux_like_os.Prelude.{
  ℕ, zero, suc, ◌+◌, ◌-◌, ◌*◌, ◌/◌, ◌%◌, ◌^◌, Bool, false, not, ◌&&◌, Option, none, some, List, [],
  ◌∷◌, ltb, leb, ◌==◌, if◌then◌else◌, get_elem?, set, Run, ok, panic, ◌>>=◌, ◌>>◌, kassert, fetch,
}
use linux_like_os.Prelude.Int.{ℤ, pos, pos_part, ◌+ℤ◌, ◌-ℤ◌}
use linux_like_os.Coremap.Pages.{
  free, fixed, used, in_eviction, Page, is_free, is_used, is_evicting, free_page, page,
}

-- `paddr` of a page is its index times the page size.
abbrev pub page_size : ℕ
page_size = 4096

-- `memory_start`, `memory_end`, the array `coremap`, `allocated_pages_count`, the clock hand, and
-- the contents of physical memory by address.
pub record Coremap : Type 0 where
  pub memory_start : ℕ
  pub memory_end : ℕ
  pub pages : List Page
  pub allocated : ℤ
  pub eviction_pointer : ℕ
  pub ram : ℕ → ℕ

-- `as_zero_region`
abbrev pub as_zero_region : (paddr npages : ℕ) → (ℕ → ℕ) → ℕ → ℕ
as_zero_region paddr npages ram a =
    if leb paddr a && ltb a (paddr + npages * page_size) then 0 else ram a

-- The loop of coremap_bootstrap; `junk` is what the memory of the array held before.
unfoldable pub init_pages : (rounds i used_pages : ℕ) → (junk : ℕ → Page) → List Page
init_pages zero i used_pages junk = []
init_pages (suc n) i used_pages junk =
    record (junk i) { chunk_size = 0; state = if ltb i used_pages then fixed else free }
    ∷ init_pages n (i + 1) used_pages junk

-- Rounding up to a page, where `& PAGE_FRAME` clears the low twelve bits of 32.
abbrev pub align_up : ℕ → ℕ
align_up a = (a + page_size - 1) % 2 ^ 32 / page_size * page_size

-- `memory_start` behind the coremap itself, of `entry_size` bytes for each page.
abbrev pub start_after : (entry_size ramsize first_free : ℕ) → ℕ
start_after entry_size ramsize first_free =
    (if not (first_free % page_size == 0) then align_up first_free else first_free)
    + (entry_size * (ramsize / page_size) + page_size - 1) / page_size * page_size

-- `ramsize` and `first_free` are what ram_getsize and ram_getfirstfree return.
unfoldable pub coremap_bootstrap :
    (entry_size ramsize first_free : ℕ) → (junk : ℕ → Page) → (ℕ → ℕ) → Run Coremap
unfolding init_pages
coremap_bootstrap entry_size ramsize first_free junk ram = do
  let start = start_after entry_size ramsize first_free
  kassert (start % page_size == 0)
  let used_pages = start / page_size
  ok (record {
    memory_start = start;
    memory_end = ramsize;
    pages = init_pages (ramsize / page_size) 0 used_pages junk;
    allocated = pos 0;
    eviction_pointer = used_pages;
    ram = ram;
  })

-- The search of allocate_kernel_pages from page `i` on, with the rounds left and the number of
-- free pages just before `i`. The result is an address, 0 if there is no block.
unfoldable pub find_block : (npages rounds i contiguous : ℕ) → List Page → Run ℕ
find_block npages zero i contiguous ps = ok 0
find_block npages (suc n) i contiguous ps = elim (get_elem? ps i) [
  | none ↦ panic
  | some p ↦
      let contiguous' : ℕ = if is_free p.state then contiguous + 1 else 0 in
      let rest = find_block npages n (i + 1) contiguous' ps in
      if is_free p.state && contiguous' == npages then ok ((i + 1 - npages) * page_size) else rest
]

-- for (i = 0; i < npages; i++) coremap[base + i] = f i, with the rounds left
unfoldable pub for_pages : (ℕ → Page → Page) → (rounds i base : ℕ) → List Page → Run (List Page)
for_pages f zero i base ps = ok ps
for_pages f (suc n) i base ps = do
  p ← fetch ps (base + i)
  for_pages f n (i + 1) base (set ps (base + i) (f i p))

-- The metadata of page `i` of a kernel block of `npages`.
abbrev pub fix_page : ℕ → ℕ → Page → Page
fix_page npages i p = record p { state = fixed; chunk_size = if i == 0 then npages else 0 }

unfoldable pub allocate_kernel_pages : ℕ → Coremap → Run (ℕ × Coremap)
unfolding ◌+ℤ◌
allocate_kernel_pages npages c = do
  let start_idx = c.memory_start / page_size
  let end_idx = c.memory_end / page_size
  addr ← find_block npages (end_idx - start_idx) start_idx 0 c.pages
  if addr == 0 then ok (0, c) else (do
    ps ← for_pages (fix_page npages) npages 0 (addr / page_size) c.pages
    ok (
      addr,
      record c {
        pages = ps;
        allocated = c.allocated +ℤ pos npages;
        ram = as_zero_region addr npages c.ram;
      },
    ))

-- The search of allocate_user_page from page `i` on: the address and the pages with the new owner.
unfoldable pub take_free : (rounds i : ℕ) → Page → List Page → Run (ℕ × List Page)
take_free zero i page ps = ok (0, ps)
take_free (suc n) i page ps = elim (get_elem? ps i) [
  | none ↦ panic
  | some p ↦
      let rest = take_free n (i + 1) page ps in
      if is_free p.state then ok (i * page_size, set ps i page) else rest
]

-- A page of an address space; a page that is copied to has not been referenced.
abbrev pub user_page : (owner vaddr : ℕ) → (copy_call : Bool) → Page
user_page owner vaddr copy_call = record {
  chunk_size = 1;
  state = used;
  owner_addrspace = some owner;
  owner_vaddr = vaddr;
  ref_bit = not copy_call;
}

unfoldable pub allocate_user_page :
    (pages owner vpage_addr : ℕ) → (copy_call : Bool) → Coremap → Run (ℕ × Coremap)
unfolding ◌+ℤ◌
allocate_user_page pages owner vpage_addr copy_call c = do
  kassert (pages == 1)
  let start_idx = c.memory_start / page_size
  let end_idx = c.memory_end / page_size
  (addr, ps) ←
      take_free (end_idx - start_idx) start_idx (user_page owner vpage_addr copy_call) c.pages
  ok (
      if addr == 0 then (0, record c { pages = ps }) else (
        addr,
        record c {
          pages = ps;
          allocated = c.allocated +ℤ pos 1;
          ram = as_zero_region addr pages c.ram;
        },
      ))

-- `PADDR_TO_KVADDR` in 32 bits, and back
abbrev pub kvaddr : ℕ → ℕ
kvaddr paddr = (paddr + 2 ^ 31) % 2 ^ 32

abbrev pub kpaddr : ℕ → ℕ
kpaddr addr = (addr + 2 ^ 32 - 2 ^ 31) % 2 ^ 32

unfoldable pub alloc_kpages : ℕ → Coremap → Run (ℕ × Coremap)
alloc_kpages npages c = do
  (addr, c') ← allocate_kernel_pages npages c
  ok (if addr == 0 then 0 else kvaddr addr, c')

-- The block that starts at a page becomes free.
unfoldable pub free_block : ℕ → Coremap → Run Coremap
unfolding ◌-ℤ◌
free_block start_index c = do
  head ← fetch c.pages start_index
  ps ← for_pages (λ i p. free_page) head.chunk_size 0 start_index c.pages
  ok (record c { pages = ps; allocated = c.allocated -ℤ pos head.chunk_size })

unfoldable pub free_kpages : ℕ → Coremap → Run Coremap
free_kpages addr c = do
  kassert (kpaddr addr % page_size == 0)
  free_block (kpaddr addr / page_size) c

-- The result is the return value: 1 for a page that is being evicted.
unfoldable pub release_physical_page : ℕ → Coremap → Run (ℕ × Coremap)
unfolding ◌-ℤ◌
release_physical_page page_paddr c = do
  kassert (page_paddr % page_size == 0)
  let page_idx = page_paddr / page_size
  p ← fetch c.pages page_idx
  ok (
      if is_evicting p.state then (1, c) else (
        0,
        record c { pages = set c.pages page_idx free_page; allocated = c.allocated -ℤ pos 1 },
      ))

-- `allocated_pages_count * PAGE_SIZE` in 32 bits, for a count that is not negative.
unfoldable pub coremap_memory_usage : Coremap → ℕ
coremap_memory_usage c = pos_part c.allocated * page_size % 2 ^ 32

-- The clock of evict_page on fuel: the hand stops at a used page that was not referenced since the
-- hand last passed. `none` means that the fuel ran out.
unfoldable pub clock_loop : (fuel total : ℕ) → (hand : ℕ) → List Page → Run (Option (ℕ × List Page))
clock_loop zero total hand ps = ok none
clock_loop (suc fuel) total hand ps = elim (get_elem? ps hand) [
  | none ↦ panic
  | some p ↦
      let ps' : List Page =
        if is_used p.state then set ps hand (record p { ref_bit = false }) else ps in
      let rest = clock_loop fuel total ((hand + 1) % total) ps' in
      if is_used p.state && not p.ref_bit then ok (some (hand, ps)) else rest
]

-- The first part of evict_page, up to the release of the spinlock: the page's index, and the
-- coremap in which it is being evicted.
unfoldable pub pick_victim : Coremap → Run (Option (ℕ × Coremap))
unfolding clock_loop
pick_victim c = do
  let total = c.memory_end / page_size
  found ← clock_loop (2 * total + 1) total c.eviction_pointer c.pages
  elim found [
    | none ↦ ok none
    | some (hand, ps) ↦ do
      p ← fetch ps hand
      kassert (is_used p.state)
      ok (
          some (
            hand,
            record c {
              pages = set ps hand (record p { state = in_eviction });
              eviction_pointer = (hand + 1) % total;
            },
          ))
  ]
