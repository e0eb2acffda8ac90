-- ===== src/Coremap/Tests.antt =====
-- The theorems of the coremap at six pages: two below `memory_start`, two free, one of the kernel
-- and one of an address space.
use linux_like_os.Prelude.{
  ℕ, zero, suc, ◌+◌, ◌/◌, ◌<◌, ◌≡◌, refl, ◌≢◌, true, false, some, List, [], ◌∷◌, arith, ltb,
  if◌then◌else◌, length, ok,
}
use linux_like_os.Prelude.Int.{pos, ◌+ℤ◌}
use linux_like_os.Coremap.{
  page_size, Coremap, coremap_bootstrap, find_block, for_pages, allocate_kernel_pages, user_page,
  alloc_kpages, free_kpages, pick_victim,
}
use linux_like_os.Coremap.Pages.{
  free, fixed, in_eviction, Page, is_free, is_used, free_page, no_page, page,
}
use linux_like_os.Coremap.Valid.{nonfree, IsBlock, IsValid}
use linux_like_os.Coremap.Search.{FirstFit}
use linux_like_os.Coremap.Blocks.{empty-IsBlock, Blocks}
use linux_like_os.Coremap.Kernel.{
  Reserved, allocate_kernel_pages-Reserved, alloc_kpages-free_kpages,
}
use linux_like_os.Coremap.User.{FirstFree, allocate_user_page-first}
use linux_like_os.Coremap.Sweep.{Aged}
use linux_like_os.Coremap.Clock.{pick_victim-finds}
use linux_like_os.Coremap.Bootstrap.{coremap_bootstrap-IsValid}

abbrev kernel_page : Page
kernel_page = record no_page { chunk_size = 1 }

abbrev pub six : Coremap
six = record {
  memory_start = 8192;
  memory_end = 24576;
  pages = no_page ∷ no_page ∷ free_page ∷ free_page ∷ kernel_page ∷ user_page 70 4096 false ∷ [];
  allocated = pos 2;
  eviction_pointer = 3;
  ram = λ a. 1;
}

pub single-IsBlock :
    (ps : List Page) (b : ℕ) → b < length ps → is_free (page ps b).state ≡ false → IsBlock ps b 1
single-IsBlock ps b h busy = record {
  fits = omega arith;
  in_use = λ k hk. let here : b + k ≡ b = omega arith in rw here busy;
  inner = λ k p hk. absurd (omega arith);
}

six-Blocks : Blocks six.pages
six-Blocks zero h = empty-IsBlock six.pages 0 h
six-Blocks (suc zero) h = empty-IsBlock six.pages 1 h
six-Blocks (suc (suc zero)) h = empty-IsBlock six.pages 2 h
six-Blocks (suc (suc (suc zero))) h = empty-IsBlock six.pages 3 h
six-Blocks (suc (suc (suc (suc zero)))) h = single-IsBlock six.pages 4 h refl
six-Blocks (suc (suc (suc (suc (suc zero))))) h = single-IsBlock six.pages 5 h refl
six-Blocks (suc (suc (suc (suc (suc (suc b)))))) h = absurd (omega arith)

pub six-IsValid : IsValid six
unfolding nonfree ◌+ℤ◌
six-IsValid = record {
  covers = refl;
  addressable = omega arith;
  above_zero = omega arith;
  inside = omega arith;
  blocks = six-Blocks;
  accounted = refl;
}

-- Two pages fit at page 2; three do not fit.
alloc_two : (c' : Coremap) × (allocate_kernel_pages 2 six ≡ ok (8192, c'))
unfolding allocate_kernel_pages find_block for_pages
alloc_two = (_, refl)

alloc_three : allocate_kernel_pages 3 six ≡ ok (0, six)
unfolding allocate_kernel_pages find_block for_pages
alloc_three = refl

allocate_kernel_pages-Reserved_example :
    (addr : ℕ) × (c' : Coremap) × (allocate_kernel_pages 2 six ≡ ok (addr, c'))
    × IsValid c'
    × FirstFit six.pages 2 (six.memory_start / page_size) (six.memory_end / page_size) addr
    × (addr ≡ 0 → c' ≡ six)
    × (addr ≢ 0 → Reserved 2 addr six c')
allocate_kernel_pages-Reserved_example =
    allocate_kernel_pages-Reserved six 2 six-IsValid (omega arith)

alloc_kpages-free_kpages_example :
    (addr : ℕ) × (c' : Coremap) × (alloc_kpages 2 six ≡ ok (addr, c'))
    × (addr ≢ 0
        → (c'' : Coremap) × (free_kpages addr c' ≡ ok c'')
          × IsValid c''
          × ((j : ℕ) → is_free (page c''.pages j).state ≡ is_free (page six.pages j).state)
          × (c''.allocated ≡ pos 2))
alloc_kpages-free_kpages_example = alloc_kpages-free_kpages six 2 six-IsValid (omega arith)

allocate_user_page-first_example : FirstFree six 71 8192 true
allocate_user_page-first_example = allocate_user_page-first six 71 8192 true six-IsValid

pick_victim-finds_example :
    (b : ℕ) × (c' : Coremap) × (pick_victim six ≡ ok (some (b, c')))
    × (is_used (page six.pages b).state ≡ true)
    × (page c'.pages b ≡ record (page six.pages b) { state = in_eviction; ref_bit = false })
    × ((j : ℕ)
        → j < six.memory_end / page_size
        → is_used (page six.pages j).state ≡ true
        → (page six.pages j).ref_bit ≡ false
        → (page six.pages b).ref_bit ≡ false)
    × ((j : ℕ) → j ≢ b → Aged (page six.pages j) (page c'.pages j))
    × (c' ≡ record six { pages = c'.pages; eviction_pointer = c'.eviction_pointer })
    × (c'.eviction_pointer < six.memory_end / page_size)
pick_victim-finds_example = pick_victim-finds six 5 six-IsValid (omega arith) (omega arith) refl

coremap_bootstrap-IsValid_example :
    (c : Coremap) × (coremap_bootstrap 20 65536 5000 (λ i. free_page) (λ a. 1) ≡ ok c)
    × IsValid c
    × (c.allocated ≡ pos 0)
    × ((j : ℕ)
        → j < c.memory_end / page_size
        → (page c.pages j).state ≡ (if ltb j (c.memory_start / page_size) then fixed else free))
coremap_bootstrap-IsValid_example =
    coremap_bootstrap-IsValid 20 65536 5000 (λ i. free_page) (λ a. 1) (omega arith) (omega arith)
      (omega arith)
