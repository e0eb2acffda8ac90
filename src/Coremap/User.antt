-- ===== src/Coremap/User.antt =====
-- Pages of address spaces: allocate_user_page and release_physical_page.
use linux_like_os.Prelude.Int.{pos, ◌+ℤ◌, ◌-ℤ◌}
use linux_like_os.Coremap.Valid.{nonfree, IsValid, nonfree-set, accounted_more, accounted_less}
use linux_like_os.Coremap.Blocks.{kept-IsBlock, Blocks, free-Blocks}
use linux_like_os.Prelude.{
  ℕ, zero, suc, ◌+◌, ◌-◌, ◌*◌, ◌/◌, ◌%◌, ◌≤◌, ◌<◌, ◌≡◌, refl, sym, ap, ◌∙◌, subst, ◌⊎◌, inl, inr,
  Bool, true, false, List, arith, ℕ_discrete, ◌==◌, if◌then◌else◌, Bool-cases, length, set,
  length-set, get_or-set, get_elem?-some, get_or-set_self, ok,
}
use linux_like_os.Coremap.{
  page_size, Coremap, as_zero_region, for_pages, take_free, user_page, allocate_user_page,
  release_physical_page,
}
use linux_like_os.Coremap.Pages.{Page, is_free, is_used, is_evicting, free_page, no_page, page}
use linux_like_os.Coremap.Block.{Mapped, for_pages-Mapped}

-- One write is a loop over one page.
set-Mapped :
    (ps : List Page) (i : ℕ) (v : Page) → i < length ps → Mapped (λ k p. v) i 1 ps (set ps i v)
unfolding for_pages
set-Mapped ps i v h =
    let (qs, run, m) = for_pages-Mapped (λ k p. v) i 1 ps (omega arith) in
    let same : qs ≡ set ps i v = ground (arith, run, get_elem?-some ps i no_page h) in
    subst (Mapped (λ k p. v) i 1 ps) same m

-- What the search of `r` pages from `i` on gives: nothing, all being in use; or the first free page.
abbrev Taken : Page → List Page → ℕ → ℕ → Type 0
Taken page' ps r i =
    ((take_free r i page' ps ≡ ok (0, ps))
      × ((j : ℕ) → i ≤ j → j < i + r → is_free (page ps j).state ≡ false))
    ⊎ ((b : ℕ) × (take_free r i page' ps ≡ ok (b * page_size, set ps b page'))
        × (i ≤ b)
        × (b < i + r)
        × (is_free (page ps b).state ≡ true)
        × ((j : ℕ) → i ≤ j → j < b → is_free (page ps j).state ≡ false))

module _ (page' : Page) (ps : List Page) where
  take_free_step :
      (r i : ℕ)
      → i < length ps
      → is_free (page ps i).state ≡ false
      → Taken page' ps r (i + 1)
      → Taken page' ps (suc r) i
  unfolding take_free
  take_free_step r i h taken (inl (run, all)) = inl (
    ground (arith, run, get_elem?-some ps i no_page h),
    λ j a b. elim (ℕ_discrete j i) [
      | yes same ↦ rw same taken
      | no ne ↦ all j (omega arith) (omega arith)
    ],
  )
  take_free_step r i h taken (inr (b, run, lo, hi, fr, before)) = inr (
    b,
    ground (arith, run, get_elem?-some ps i no_page h),
    omega arith,
    omega arith,
    fr,
    λ j a b. elim (ℕ_discrete j i) [ yes same ↦ rw same taken | no ne ↦ before j (omega arith) b ],
  )

  take_free_lem : (r i : ℕ) → i + r ≤ length ps → Taken page' ps r i
  unfolding take_free
  take_free_lem zero i h = inl (refl, λ j a b. absurd (omega arith))
  take_free_lem (suc r) i h = elim (Bool-cases (is_free (page ps i).state)) [
    | inl fr ↦ inr (
      i,
      ground (arith, get_elem?-some ps i no_page (omega arith)),
      omega arith,
      omega arith,
      fr,
      λ j a b. absurd (omega arith),
    )
    | inr taken ↦ take_free_step r i (omega arith) taken (take_free_lem r (i + 1) (omega arith))
  ]

-- Where a free page became a page of an address space.
taken-Blocks :
    (ps : List Page) (b : ℕ) (v : Page)
    → b < length ps
    → is_free (page ps b).state ≡ true
    → is_free v.state ≡ false
    → v.chunk_size ≡ 1
    → Blocks ps
    → Blocks (set ps b v)
taken-Blocks ps b v h fr busy one' bs j hj = elim (ℕ_discrete j b) [
  | yes same ↦
      rw (same, size)
        (record {
          fits = omega (arith, length-set ps b v);
          in_use = λ k hk. ground (arith, get_or-set ps b (b + k) v no_page h);
          inner = λ k p hk. absurd (omega arith);
        })
  | no ne ↦
      let kept : page (set ps b v) j ≡ page ps j = ground (arith, get_or-set ps b j v no_page h) in
      let block = bs j (omega (arith, length-set ps b v)) in
      rw kept (
        kept-IsBlock ps (set ps b v) j (page ps j).chunk_size (length-set ps b v) block
          (λ k hk. ground (arith, get_or-set ps b (j + k) v no_page h, block.in_use k hk)))
]
  where
    here : page (set ps b v) b ≡ v
    here = get_or-set_self ps b v no_page h

    size : (page (set ps b v) b).chunk_size ≡ 1
    size = ap (λ (p : Page). p.chunk_size) here ∙ one'

-- What an allocation for an address space gives: 0 and the same state, no page being free; or the
-- first free page, owned and zeroed, every other page and all other memory being as before.
abbrev pub FirstFree : Coremap → (owner vaddr : ℕ) → Bool → Type 0
FirstFree c owner vaddr copy_call =
    ((allocate_user_page 1 owner vaddr copy_call c ≡ ok (0, c))
      × ((j : ℕ)
          → c.memory_start / page_size ≤ j
          → j < c.memory_end / page_size
          → is_free (page c.pages j).state ≡ false))
    ⊎ ((b : ℕ) × (c' : Coremap) × (allocate_user_page 1 owner vaddr copy_call c
          ≡ ok (b * page_size, c'))
        × IsValid c'
        × (c.memory_start / page_size ≤ b)
        × (is_free (page c.pages b).state ≡ true)
        × ((j : ℕ)
            → c.memory_start / page_size ≤ j
            → j < b
            → is_free (page c.pages j).state ≡ false)
        × (c'.pages ≡ set c.pages b (user_page owner vaddr copy_call))
        × ((a : ℕ) → c'.ram a ≡ (if a / page_size == b then 0 else c.ram a)))

-- `allocate_user_page` of one page never stops the kernel and keeps the coremap valid. If a page is
-- free it takes the first one, for the given owner, and zeroes its memory, and no other page and no
-- other memory changes; else it returns 0 and changes nothing.
pub allocate_user_page-first :
    (c : Coremap) (owner vaddr : ℕ) (copy_call : Bool)
    → IsValid c
    → FirstFree c owner vaddr copy_call
unfolding allocate_user_page
allocate_user_page-first c owner vaddr copy_call v = by_search (
    take_free_lem (user_page owner vaddr copy_call) c.pages
      (c.memory_end / page_size - c.memory_start / page_size) (c.memory_start / page_size)
      (omega (arith, v.covers, v.inside)))
  where
    by_search :
        Taken
          (user_page owner vaddr copy_call)
          c.pages
          (c.memory_end / page_size - c.memory_start / page_size)
          (c.memory_start / page_size)
        → FirstFree c owner vaddr copy_call
    by_search (inl (run, all)) = inl (ground (arith, run), λ j a b. all j a (omega arith))
    by_search (inr (b, run, lo, hi, fr, before)) =
        let h : b < length c.pages = omega (arith, v.covers) in
        let new = user_page owner vaddr copy_call in
        let c' : Coremap = record c {
          pages = set c.pages b new;
          allocated = c.allocated +ℤ pos 1;
          ram = as_zero_region (b * page_size) 1 c.ram;
        } in
        inr (
          b,
          c',
          ground (arith, run, v.above_zero),
          record {
            covers = length-set c.pages b new ∙ v.covers;
            addressable = v.addressable;
            above_zero = v.above_zero;
            inside = v.inside;
            blocks = taken-Blocks c.pages b new h fr refl refl v.blocks;
            accounted =
                accounted_more (nonfree c.pages) (nonfree (set c.pages b new)) 1
                  (c.memory_start / page_size) c.allocated
                  (ground (arith, nonfree-set c.pages b new h)) v.accounted;
          },
          lo,
          fr,
          before,
          refl,
          λ a. ground arith,
        )

-- `release_physical_page` of a page that an address space uses frees this page and no other, takes
-- it off the count, returns 0 and keeps the coremap valid; of a page that is being evicted it
-- returns 1 and changes nothing.
pub release_physical_page_lem :
    (c : Coremap) (b : ℕ)
    → IsValid c
    → b < length c.pages
    → (is_used (page c.pages b).state ≡ true
        → (page c.pages b).chunk_size ≡ 1
        → (c' : Coremap) × (release_physical_page (b * page_size) c ≡ ok (0, c'))
          × IsValid c'
          × (c'.pages ≡ set c.pages b free_page)
          × (c'.allocated ≡ c.allocated -ℤ pos 1))
      × (is_evicting (page c.pages b).state ≡ true
          → release_physical_page (b * page_size) c ≡ ok (1, c))
unfolding release_physical_page
release_physical_page_lem c b v h =
    let index : b * page_size / page_size ≡ b = omega arith in
    let aligned : b * page_size % page_size ≡ 0 = omega arith in
    let there = get_elem?-some c.pages b no_page h in
    let m = set-Mapped c.pages b free_page h in
    (
      λ busy size. (
        record c { pages = set c.pages b free_page; allocated = c.allocated -ℤ pos 1 },
        rw (aligned, index) (ground (arith, there)),
        record {
          covers = length-set c.pages b free_page ∙ v.covers;
          addressable = v.addressable;
          above_zero = v.above_zero;
          inside = v.inside;
          blocks = free-Blocks c.pages (set c.pages b free_page) b 1 m h (sym size) v.blocks;
          accounted =
              accounted_less (nonfree c.pages) (nonfree (set c.pages b free_page)) 1
                (c.memory_start / page_size) c.allocated
                (ground (arith, nonfree-set c.pages b free_page h)) v.accounted;
        },
        refl,
        refl,
      ),
      λ busy. rw (aligned, index) (ground (arith, there)),
    )
