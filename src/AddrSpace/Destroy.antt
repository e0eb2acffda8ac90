-- ===== src/AddrSpace/Destroy.antt =====
-- The end of an address space: as_destroy.
use linux_like_os.Prelude.{
  ℕ, ◌*◌, ◌/◌, ◌<◌, ◌≡◌, refl, ap, ◌∙◌, subst, ◌≢◌, true, false, List, [], ◌∷◌, arith, length, set,
  length-set, get_or-set, get_or-set_self, ok,
}
use linux_like_os.Bitmap.{Bitmap}
use linux_like_os.Coremap.{page_size, Coremap}
use linux_like_os.Coremap.Pages.{Page, is_free, is_used, is_fixed, free_page, no_page, page}
use linux_like_os.Coremap.Valid.{IsValid}
use linux_like_os.Coremap.User.{release_physical_page_lem}
use linux_like_os.AddrSpace.{
  mapped, PageTableEntry, Region, Addrspace, Kfree, release_entries, free_regions, as_destroy,
}

-- A mapped entry whose page is in use.
abbrev pub HasPage : Coremap → PageTableEntry → Type 0
HasPage c pte =
    (b : ℕ) × (pte.live ≡ true)
    × (pte.state ≡ mapped)
    × (pte.as_ppage ≡ b * page_size)
    × (b < length c.pages)
    × (is_used (page c.pages b).state ≡ true)
    × ((page c.pages b).chunk_size ≡ 1)

-- No entry has the page at an address.
abbrev pub Elsewhere : ℕ → List PageTableEntry → Type 0
Elsewhere a [] = Unit
Elsewhere a (pte ∷ ptes) = (pte.as_ppage ≢ a) × Elsewhere a ptes

-- Each entry has a page of its own.
abbrev pub Mapping : Coremap → List PageTableEntry → Type 0
Mapping c [] = Unit
Mapping c (pte ∷ ptes) = HasPage c pte × Elsewhere pte.as_ppage ptes × Mapping c ptes

-- What kfree may do to the coremap: only pages that are fixed, those of the kernel, change.
pub record KernelOnly (c c' : Coremap) : Type 0 where
  pub valid : IsValid c'
  pub same_length : length c'.pages ≡ length c.pages
  pub kept : (b : ℕ) → is_fixed (page c.pages b).state ≡ false → page c'.pages b ≡ page c.pages b

abbrev pub KfreeKeeps : {A : Type 0} → (A → Coremap → Coremap) → Type 0
KfreeKeeps {A} kfree = (x : A) (c : Coremap) → IsValid c → KernelOnly c (kfree x c)

pub KernelOnly-Mapping :
    (c c' : Coremap) (ptes : List PageTableEntry)
    → KernelOnly c c'
    → Mapping c ptes
    → Mapping c' ptes
KernelOnly-Mapping c c' [] only h = tt
KernelOnly-Mapping c c' (pte ∷ ptes) only ((b, l, mp, at, lt, busy, one), apart, rest) =
    let same = only.kept b (ground (arith, busy)) in
    (
      (
        b,
        l,
        mp,
        at,
        omega (arith, only.same_length, lt),
        ap (λ (p : Page). is_used p.state) same ∙ busy,
        ap (λ (p : Page). p.chunk_size) same ∙ one,
      ),
      apart,
      KernelOnly-Mapping c c' ptes only rest,
    )

KernelOnly-trans : (c d e : Coremap) → KernelOnly c d → KernelOnly d e → KernelOnly c e
KernelOnly-trans c d e first second = record {
  valid = second.valid;
  same_length = second.same_length ∙ first.same_length;
  kept = λ b loose.
      let same = first.kept b loose in
      second.kept b (ap (λ (p : Page). is_fixed p.state) same ∙ loose) ∙ same;
}

free_regions-KernelOnly :
    (kfree : Region → Coremap → Coremap) (rs : List Region) (c : Coremap)
    → KfreeKeeps kfree
    → IsValid c
    → KernelOnly c (free_regions kfree rs c)
unfolding free_regions
free_regions-KernelOnly kfree [] c keeps valid = record {
  valid = valid;
  same_length = refl;
  kept = λ b loose. refl;
}
free_regions-KernelOnly kfree (r ∷ rs) c keeps valid =
    let one = keeps r c valid in
    KernelOnly-trans c (kfree r c) (free_regions kfree rs (kfree r c)) one
      (free_regions-KernelOnly kfree rs (kfree r c) keeps one.valid)

-- The pages of the entries are free.
abbrev pub AllReturned : Coremap → List PageTableEntry → Type 0
AllReturned c [] = Unit
AllReturned c (pte ∷ ptes) =
    (is_free (page c.pages (pte.as_ppage / page_size)).state ≡ true) × AllReturned c ptes

-- The other entries keep their pages when one page changes.
pub keep-Mapping :
    (c c' : Coremap) (b : ℕ) (v : Page) (ptes : List PageTableEntry)
    → b < length c.pages
    → c'.pages ≡ set c.pages b v
    → Elsewhere (b * page_size) ptes
    → Mapping c ptes
    → Mapping c' ptes
keep-Mapping c c' b v [] inside same other rest = tt
keep-Mapping c c' b v (pte ∷ ptes) inside same (ne, other)
      ((i, l, m, at, lt, busy, one), apart, rest) =
    let differ : b ≢ i = λ x. ne (omega (arith, at, x)) in
    let kept : page c'.pages i ≡ page c.pages i =
      ap (λ ps. page ps i) same ∙ ground (arith, get_or-set c.pages b i v no_page inside) in
    (
      (
        i,
        l,
        m,
        at,
        omega (arith, ap length same, length-set c.pages b v),
        ap (λ p. is_used p.state) kept ∙ busy,
        ap (λ p. p.chunk_size) kept ∙ one,
      ),
      apart,
      keep-Mapping c c' b v ptes inside same other rest,
    )

KernelOnly-AllReturned :
    (c c' : Coremap) (ptes : List PageTableEntry)
    → KernelOnly c c'
    → AllReturned c ptes
    → AllReturned c' ptes
KernelOnly-AllReturned c c' [] only h = tt
KernelOnly-AllReturned c c' (pte ∷ ptes) only (f, h) =
    let same = only.kept (pte.as_ppage / page_size) (ground (arith, f)) in
    (ap (λ (p : Page). is_free p.state) same ∙ f, KernelOnly-AllReturned c c' ptes only h)

-- What releasing the pages of the entries does.
abbrev pub Returned : List PageTableEntry → (c c' : Coremap) → Type 0
Returned ptes c c' =
    IsValid c'
    × AllReturned c' ptes
    × (length c'.pages ≡ length c.pages)
    × ((b : ℕ)
        → Elsewhere (b * page_size) ptes
        → is_fixed (page c.pages b).state ≡ false
        → page c'.pages b ≡ page c.pages b)

release_entries-Returned :
    (kfree : PageTableEntry → Coremap → Coremap) (ptes : List PageTableEntry) (c : Coremap)
    (swap : Bitmap)
    → KfreeKeeps kfree
    → IsValid c
    → Mapping c ptes
    → (c' : Coremap) × (release_entries kfree ptes c swap ≡ ok (c', swap)) × Returned ptes c c'
unfolding release_entries
release_entries-Returned kfree [] c swap keeps valid m =
    (c, refl, (valid, tt, refl, λ b o loose. refl))
release_entries-Returned kfree (pte ∷ ptes) c swap keeps valid
      ((b, l, m, at, lt, busy, one), apart, rest) =
    let (c1, run1, valid1, pages1, count1) = (release_physical_page_lem c b valid lt).0 busy one in
    let only = keeps pte c1 valid1 in
    let apart' : Elsewhere (b * page_size) ptes = subst (λ a. Elsewhere a ptes) at apart in
    let (c', run, (valid', all, same_length, others)) =
      release_entries-Returned kfree ptes (kfree pte c1) swap keeps only.valid (
        KernelOnly-Mapping c1 (kfree pte c1) ptes only
          (keep-Mapping c c1 b free_page ptes lt pages1 apart' rest)) in
    let emptied : page c1.pages b ≡ free_page =
      ap (λ ps. page ps b) pages1 ∙ get_or-set_self c.pages b free_page no_page lt in
    let still : page (kfree pte c1).pages b ≡ free_page =
      only.kept b (ap (λ (p : Page). is_fixed p.state) emptied) ∙ emptied in
    let gone : page c'.pages b ≡ free_page =
      others b apart' (ap (λ (p : Page). is_fixed p.state) still) ∙ still in
    let index : pte.as_ppage / page_size ≡ b = omega (arith, at) in
    (
      c',
      ground (arith, l, m, run1, run, at),
      (
        valid',
        (rw index (ap (λ (p : Page). is_free p.state) gone), all),
        same_length ∙ only.same_length ∙ ap length pages1 ∙ length-set c.pages b free_page,
        λ i (ne, o) loose.
            let differ : b ≢ i = λ x. ne (omega (arith, at, x)) in
            let same1 : page c1.pages i ≡ page c.pages i =
              ap (λ ps. page ps i) pages1
              ∙ ground (arith, get_or-set c.pages b i free_page no_page lt) in
            let loose1 = ap (λ (p : Page). is_fixed p.state) same1 ∙ loose in
            let same2 = only.kept i loose1 in
            others i o (ap (λ (p : Page). is_fixed p.state) same2 ∙ loose1) ∙ same2 ∙ same1,
      ),
    )

-- as_destroy of an address space whose entries are mapped to used pages, no two to the same one,
-- in a valid coremap, where kfree keeps the coremap valid and changes no page but fixed ones: it
-- returns, each of the pages is free afterwards, every other page that is not fixed is as it was,
-- and the coremap is valid; the bitmap of the swap disk stays.
pub as_destroy-Returned :
    (kfree : Kfree) (as_ : Addrspace) (c : Coremap) (swap : Bitmap)
    → KfreeKeeps kfree.entry
    → KfreeKeeps kfree.region
    → KfreeKeeps kfree.space
    → IsValid c
    → Mapping c as_.page_table
    → (c' : Coremap) × (as_destroy kfree as_ c swap ≡ ok (c', swap)) × Returned as_.page_table c c'
unfolding as_destroy
as_destroy-Returned kfree as_ c swap entries regions spaces valid m =
    let (c1, run, (valid1, all, same_length, others)) =
      release_entries-Returned kfree.entry as_.page_table c swap entries valid m in
    let c2 = free_regions kfree.region as_.regions c1 in
    let second = free_regions-KernelOnly kfree.region as_.regions c1 regions valid1 in
    let c3 = kfree.space as_ c2 in
    let only = KernelOnly-trans c1 c2 c3 second (spaces as_ c2 second.valid) in
    (
      c3,
      rw run refl,
      (
        only.valid,
        KernelOnly-AllReturned c1 c3 as_.page_table only all,
        only.same_length ∙ same_length,
        λ b o loose.
            let same = others b o loose in
            only.kept b (ap (λ (p : Page). is_fixed p.state) same ∙ loose) ∙ same,
      ),
    )
