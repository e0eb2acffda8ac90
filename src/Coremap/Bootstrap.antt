-- ===== src/Coremap/Bootstrap.antt =====
-- coremap_bootstrap.
use Prim.Native.Nat.{min}
use linux_like_os.Prelude.{
  ℕ, zero, suc, ◌+◌, ◌-◌, ◌/◌, ◌%◌, ◌^◌, ◌≤◌, ◌<◌, ◌≡◌, refl, ap, subst, arith, ltb, if◌then◌else◌,
  length, ok,
}
use linux_like_os.Prelude.Int.{pos, ◌+ℤ◌}
use linux_like_os.Coremap.{page_size, Coremap, init_pages, start_after, coremap_bootstrap}
use linux_like_os.Coremap.Pages.{free, fixed, Page, page}
use linux_like_os.Coremap.Valid.{nonfree, IsValid}
use linux_like_os.Coremap.Blocks.{empty-IsBlock}

module _ (used_pages : ℕ) (junk : ℕ → Page) where
  length-init_pages : (n i : ℕ) → length (init_pages n i used_pages junk) ≡ n
  unfolding init_pages
  length-init_pages zero i = refl
  length-init_pages (suc n) i = ap suc (length-init_pages n (i + 1))

  page-init_pages :
      (n i j : ℕ)
      → j < n
      → ((page (init_pages n i used_pages junk) j).state
          ≡ (if ltb (i + j) used_pages then fixed else free))
        × ((page (init_pages n i used_pages junk) j).chunk_size ≡ 0)
  unfolding init_pages
  page-init_pages zero i j h = absurd (omega arith)
  page-init_pages (suc n) i zero h = (ground arith, refl)
  page-init_pages (suc n) i (suc j) h =
      let shift : i + 1 + j ≡ i + suc j = omega arith in
      subst
        (λ t.
          ((page (init_pages n (i + 1) used_pages junk) j).state
            ≡ (if ltb t used_pages then fixed else free))
          × ((page (init_pages n (i + 1) used_pages junk) j).chunk_size ≡ 0))
        shift (page-init_pages n (i + 1) j (omega arith))

  nonfree-init_pages : (n i : ℕ) → nonfree (init_pages n i used_pages junk) ≡ min (used_pages - i) n
  unfolding init_pages nonfree
  nonfree-init_pages zero i = omega arith
  nonfree-init_pages (suc n) i = ground (arith, nonfree-init_pages n (i + 1))

start_aligned :
    (entry_size ramsize first_free : ℕ) → start_after entry_size ramsize first_free % page_size ≡ 0
start_aligned entry_size ramsize first_free = ground arith

-- `coremap_bootstrap`, where the memory behind the kernel and the coremap lies above page 0 and in
-- RAM of less than 4 GB, passes its assertion and makes a valid coremap: the pages below
-- `memory_start` are fixed, all others free, and none counts as allocated.
pub coremap_bootstrap-IsValid :
    (entry_size ramsize first_free : ℕ) (junk : ℕ → Page) (ram : ℕ → ℕ)
    → ramsize < 2 ^ 32
    → 0 < start_after entry_size ramsize first_free / page_size
    → start_after entry_size ramsize first_free ≤ ramsize
    → (c : Coremap) × (coremap_bootstrap entry_size ramsize first_free junk ram ≡ ok c)
      × IsValid c
      × (c.allocated ≡ pos 0)
      × ((j : ℕ)
          → j < c.memory_end / page_size
          → (page c.pages j).state ≡ (if ltb j (c.memory_start / page_size) then fixed else free))
unfolding coremap_bootstrap ◌+ℤ◌
coremap_bootstrap-IsValid entry_size ramsize first_free junk ram small above fits =
    let start = start_after entry_size ramsize first_free in
    let first = start / page_size in
    let n = ramsize / page_size in
    let ps = init_pages n 0 first junk in
    let inside : first ≤ n = omega arith in
    let len = length-init_pages first junk n 0 in
    (
      record {
        memory_start = start;
        memory_end = ramsize;
        pages = ps;
        allocated = pos 0;
        eviction_pointer = first;
        ram = ram;
      },
      rw (start_aligned entry_size ramsize first_free),
      record {
        covers = len;
        addressable = small;
        above_zero = above;
        inside = inside;
        blocks = λ b h.
            let size = (page-init_pages first junk n 0 b (omega arith)).1 in
            rw size (empty-IsBlock ps b h);
        accounted = ground (arith, nonfree-init_pages first junk n 0);
      },
      refl,
      λ j h. ground (arith, (page-init_pages first junk n 0 j h).0),
    )
