-- ===== src/Coremap/Kernel.antt =====
-- Kernel blocks: allocate_kernel_pages, alloc_kpages and free_kpages.
use linux_like_os.Prelude.Int.{pos, ◌+ℤ◌, ◌-ℤ◌, +ℤ_cancel}
use linux_like_os.Prelude.{
  ℕ, ◌+◌, ◌-◌, ◌*◌, ◌/◌, ◌%◌, ◌≤◌, ◌<◌, ◌≡◌, refl, ap, ◌∙◌, subst, ◌≢◌, ◌⊎◌, inl, inr, List, arith,
  dec_lt, ◌==◌, if◌then◌else◌, length, get_elem?-some, ok,
}
use linux_like_os.Coremap.{
  page_size, Coremap, as_zero_region, find_block, for_pages, fix_page, allocate_kernel_pages,
  kvaddr, kpaddr, alloc_kpages, free_block, free_kpages,
}
use linux_like_os.Coremap.Pages.{Page, is_free, free_page, no_page, page}
use linux_like_os.Coremap.Blocks.{new-IsBlock, alloc-Blocks, free-Blocks}
use linux_like_os.Coremap.Valid.{nonfree, IsValid, accounted_more, accounted_less}
use linux_like_os.Coremap.Search.{FreeRun, FirstFit, Scanned, find_block-FirstFit}
use linux_like_os.Coremap.Block.{block_weight_free, block_weight_used, Mapped, for_pages-Mapped}

-- What a successful allocation of `n` pages for the kernel does: the block at `addr` is the first
-- fit; its pages become fixed, the first one carrying the size, and no other page changes; its
-- memory is zero and the rest is untouched; and the count grows by `n`.
pub record Reserved (n addr : ℕ) (c c' : Coremap) : Type 0 where
  pub mapped : Mapped (fix_page n) (addr / page_size) n c.pages c'.pages
  pub counted : c'.allocated ≡ c.allocated +ℤ pos n
  pub zeroed : (a : ℕ) → addr ≤ a → a < addr + n * page_size → c'.ram a ≡ 0
  pub untouched : (a : ℕ) → (a < addr) ⊎ (addr + n * page_size ≤ a) → c'.ram a ≡ c.ram a

-- A block of free pages behind page 0 was found at `b`.
module _ (c : Coremap) (n : ℕ) (v : IsValid c) (some_pages : 0 < n) where
  abbrev Outcome : ℕ → Type 0
  Outcome addr =
      (a : ℕ) × (c' : Coremap) × (allocate_kernel_pages n c ≡ ok (a, c'))
      × IsValid c'
      × FirstFit c.pages n (c.memory_start / page_size) (c.memory_end / page_size) a
      × (a ≡ 0 → c' ≡ c)
      × (a ≢ 0 → Reserved n a c c')

  reserve :
      (addr b : ℕ)
      → addr ≡ b * page_size
      → c.memory_start / page_size ≤ b
      → b + n ≤ c.memory_end / page_size
      → FreeRun c.pages b n
      → find_block n
          (c.memory_end / page_size - c.memory_start / page_size)
          (c.memory_start / page_size)
          0
          c.pages
        ≡ ok addr
      → (c' : Coremap) × (allocate_kernel_pages n c ≡ ok (addr, c'))
        × IsValid c'
        × Reserved n addr c c'
  unfolding allocate_kernel_pages
  reserve addr b at_b lo hi run found =
      let fits : b + n ≤ length c.pages = omega (arith, v.covers) in
      let index : addr / page_size ≡ b = omega arith in
      let (ps, loop, m) = for_pages-Mapped (fix_page n) b n c.pages fits in
      let loop' : for_pages (fix_page n) n 0 (addr / page_size) c.pages ≡ ok ps = rw index loop in
      let busy = block_weight_used ps b n (new-IsBlock c.pages ps b n run fits m).in_use in
      let was_free = block_weight_free c.pages b n run in
      let c' : Coremap = record c {
        pages = ps;
        allocated = c.allocated +ℤ pos n;
        ram = as_zero_region addr n c.ram;
      } in
      (
        c',
        ground (arith, found, loop', v.above_zero),
        record {
          covers = m.same_length ∙ v.covers;
          addressable = v.addressable;
          above_zero = v.above_zero;
          inside = v.inside;
          blocks = alloc-Blocks c.pages ps b n run fits m v.blocks;
          accounted =
              accounted_more (nonfree c.pages) (nonfree ps) n (c.memory_start / page_size)
                c.allocated (omega (arith, m.count)) v.accounted;
        },
        record {
          mapped = rw index m;
          counted = refl;
          zeroed = λ a low high. ground arith;
          untouched = λ a out. ground arith;
        },
      )

  by_fit :
      (addr : ℕ)
      → find_block n
          (c.memory_end / page_size - c.memory_start / page_size)
          (c.memory_start / page_size)
          0
          c.pages
        ≡ ok addr
      → FirstFit c.pages n (c.memory_start / page_size) (c.memory_end / page_size) addr
      → Outcome addr
  unfolding allocate_kernel_pages
  by_fit addr found (inl (zero', nothing)) =
      (0, c, ground (arith, found), v, inl (refl, nothing), λ e. refl, λ ne. absurd (ne refl))
  by_fit addr found (inr (b, at_b, lo, hi, run, before)) =
      let (c', done', v', r) = reserve addr b at_b lo hi run found in
      (
        addr,
        c',
        done',
        v',
        inr (b, at_b, lo, hi, run, before),
        λ z. absurd (omega (arith, v.above_zero)),
        λ ne. r,
      )

-- `allocate_kernel_pages` of at least one page never stops the kernel and keeps the coremap valid.
-- It returns 0 and changes nothing exactly if there is no block of that many free pages, and else
-- takes the first such block.
pub allocate_kernel_pages-Reserved :
    (c : Coremap) (n : ℕ)
    → IsValid c
    → 0 < n
    → (addr : ℕ) × (c' : Coremap) × (allocate_kernel_pages n c ≡ ok (addr, c'))
      × IsValid c'
      × FirstFit c.pages n (c.memory_start / page_size) (c.memory_end / page_size) addr
      × (addr ≡ 0 → c' ≡ c)
      × (addr ≢ 0 → Reserved n addr c c')
allocate_kernel_pages-Reserved c n v some_pages =
    let first = c.memory_start / page_size in
    let stop = c.memory_end / page_size in
    let start : Scanned c.pages n first some_pages first 0 = record {
      low = omega arith;
      short = some_pages;
      tail_free = λ j hj near. absurd (omega arith);
      none_before = λ b hb early. absurd (omega arith);
    } in
    let (addr, found, fit) =
      find_block-FirstFit c.pages n first some_pages (stop - first) first 0 start
        (omega (arith, v.covers, v.inside)) in
    let whole : first + (stop - first) ≡ stop = omega (arith, v.inside) in
    by_fit c n v some_pages addr found (subst (λ e. FirstFit c.pages n first e addr) whole fit)

free_block-ok :
    (c : Coremap) (b : ℕ)
    → b < length c.pages
    → (ps : List Page)
    → for_pages (λ i p. free_page) (page c.pages b).chunk_size 0 b c.pages ≡ ok ps
    → free_block b c
      ≡ ok (record c { pages = ps; allocated = c.allocated -ℤ pos (page c.pages b).chunk_size })
unfolding free_block
free_block-ok c b hb ps loop = ground (arith, get_elem?-some c.pages b no_page hb, loop)

-- `free_kpages` of the kernel address of page `b` frees the block that starts there: its pages
-- become free, no other page changes, the count drops by its size, and the coremap stays valid.
free_kpages_lem :
    (c : Coremap) (b : ℕ)
    → IsValid c
    → b < length c.pages
    → (c' : Coremap) × (free_kpages (kvaddr (b * page_size)) c ≡ ok c')
      × IsValid c'
      × Mapped (λ i p. free_page) b (page c.pages b).chunk_size c.pages c'.pages
      × (c'.allocated ≡ c.allocated -ℤ pos (page c.pages b).chunk_size)
unfolding free_kpages
free_kpages_lem c b v hb =
    let n = (page c.pages b).chunk_size in
    let block = v.blocks b hb in
    let (ps, loop, m) = for_pages-Mapped (λ i p. free_page) b n c.pages block.fits in
    let address : kpaddr (kvaddr (b * page_size)) ≡ b * page_size =
      omega (arith, v.addressable, v.covers) in
    let index : b * page_size / page_size ≡ b = omega arith in
    let aligned : b * page_size % page_size ≡ 0 = omega arith in
    let busy = block_weight_used c.pages b n block.in_use in
    let now_free = block_weight_free ps b n (λ k hk. ground (arith, m.changed k hk)) in
    let c' : Coremap = record c { pages = ps; allocated = c.allocated -ℤ pos n } in
    (
      c',
      rw address (rw aligned (rw (index, free_block-ok c b hb ps loop))),
      record {
        covers = m.same_length ∙ v.covers;
        addressable = v.addressable;
        above_zero = v.above_zero;
        inside = v.inside;
        blocks = free-Blocks c.pages ps b n m hb refl v.blocks;
        accounted =
            accounted_less (nonfree c.pages) (nonfree ps) n (c.memory_start / page_size) c.allocated
              (omega (arith, m.count)) v.accounted;
      },
      m,
      refl,
    )

-- The pages of a block that was taken and freed again.
same_states :
    (ps qs rs : List Page) (b n : ℕ)
    → FreeRun ps b n
    → Mapped (fix_page n) b n ps qs
    → Mapped (λ i p. free_page) b n qs rs
    → (j : ℕ) → is_free (page rs j).state ≡ is_free (page ps j).state
same_states ps qs rs b n run m m' j = elim (dec_lt j b) [
  | yes lo ↦ rw (m'.below j lo, m.below j lo)
  | no h ↦ elim (dec_lt j (b + n)) [
    | no hi ↦ rw (m'.above j (omega arith), m.above j (omega arith))
    | yes mid ↦
        let here : b + (j - b) ≡ j = omega arith in
        let now = rw here at (m'.changed (j - b) (omega arith)) in
        let then' = rw here at (run (j - b) (omega arith)) in rw (now, then')
  ]
]

-- The block of a successful allocation can be freed.
freed_again :
    (c c' : Coremap) (n b : ℕ)
    → IsValid c'
    → 0 < n
    → b + n ≤ length c.pages
    → FreeRun c.pages b n
    → Reserved n (b * page_size) c c'
    → (c'' : Coremap) × (free_kpages (kvaddr (b * page_size)) c' ≡ ok c'')
      × IsValid c''
      × ((j : ℕ) → is_free (page c''.pages j).state ≡ is_free (page c.pages j).state)
      × (c''.allocated ≡ c.allocated)
freed_again c c' n b v' some_pages fits run r =
    let index : b * page_size / page_size ≡ b = omega arith in
    let m = subst (λ t. Mapped (fix_page n) t n c.pages c'.pages) index r.mapped in
    let start : b + 0 ≡ b = omega arith in
    let first = rw start at (m.changed 0 some_pages) in
    let size : (page c'.pages b).chunk_size ≡ n = ap (λ (p : Page). p.chunk_size) first in
    let (c'', freed, v'', m', count) = free_kpages_lem c' b v' (omega (arith, m.same_length)) in
    let m'' = subst (λ t. Mapped (λ i p. free_page) b t c'.pages c''.pages) size m' in
    (
      c'',
      freed,
      v'',
      same_states c.pages c'.pages c''.pages b n run m m'',
      count ∙ rw (size, r.counted) (+ℤ_cancel c.allocated (pos n)),
    )

-- A kernel block that is freed again leaves every page as free or as taken as it was, and the
-- count as it was: `free_kpages` takes back the address that `alloc_kpages` gave.
pub alloc_kpages-free_kpages :
    (c : Coremap) (n : ℕ)
    → IsValid c
    → 0 < n
    → (addr : ℕ) × (c' : Coremap) × (alloc_kpages n c ≡ ok (addr, c'))
      × (addr ≢ 0
          → (c'' : Coremap) × (free_kpages addr c' ≡ ok c'')
            × IsValid c''
            × ((j : ℕ) → is_free (page c''.pages j).state ≡ is_free (page c.pages j).state)
            × (c''.allocated ≡ c.allocated))
unfolding alloc_kpages
alloc_kpages-free_kpages c n v some_pages =
    let (addr, c', run, v', fit, failed, reserved) =
      allocate_kernel_pages-Reserved c n v some_pages in
    let result : ℕ = if addr == 0 then 0 else kvaddr addr in
    (result, c', ground (arith, run), λ ne. by_case addr c' v' fit reserved ne)
  where
    by_case :
        (addr : ℕ) (c' : Coremap)
        → IsValid c'
        → FirstFit c.pages n (c.memory_start / page_size) (c.memory_end / page_size) addr
        → (addr ≢ 0 → Reserved n addr c c')
        → (if addr == 0 then 0 else kvaddr addr) ≢ 0
        → (c'' : Coremap) × (free_kpages (if addr == 0 then 0 else kvaddr addr) c' ≡ ok c'')
          × IsValid c''
          × ((j : ℕ) → is_free (page c''.pages j).state ≡ is_free (page c.pages j).state)
          × (c''.allocated ≡ c.allocated)
    by_case addr c' v' (inl (z, nothing)) reserved ne = absurd (ground arith)
    by_case addr c' v' (inr (b, at_b, lo, hi, run, before)) reserved ne =
        let nonzero : addr ≢ 0 = omega (arith, v.above_zero) in
        let same : (if addr == 0 then 0 else kvaddr addr) ≡ kvaddr (b * page_size) = ground arith in
        let r = subst (λ t. Reserved n t c c') at_b (reserved nonzero) in
        rw same (freed_again c c' n b v' some_pages (omega (arith, v.covers)) run r)
