-- ===== src/Paging/Range.antt =====
-- The loop of sys_sbrk takes a range of pages out of the page table.
use linux_like_os.Prelude.{
  ℕ, zero, suc, ◌+◌, ◌-◌, ◌*◌, ◌%◌, ◌^◌, ◌≤◌, ◌<◌, ◌≡◌, refl, ap, ◌∙◌, subst, inl, inr, ◌&&◌,
  Option, some, List, [], ◌∷◌, arith, dec_lt, ℕ_discrete, ltb, leb, if◌then◌else◌, Run, ok,
}
use linux_like_os.Coremap.{page_size, Coremap}
use linux_like_os.AddrSpace.{PageTableEntry}
use linux_like_os.AddrSpace.Destroy.{Elsewhere, Mapping, KfreeKeeps}
use linux_like_os.Paging.{Memory}
use linux_like_os.Paging.Sbrk.{remove_page, remove_pages}
use linux_like_os.Paging.NewPage.{ValidCoremap}
use linux_like_os.Paging.TlbUser.{UserEach}
use linux_like_os.Coremap.Pages.{Page, is_free, is_fixed}
use linux_like_os.Paging.Shrink.{
  without, Distinct, Distinct-without, Elsewhere-without, GaveBack, nothing_removed,
  remove_page-GaveBack,
}

-- The entries of the pages outside a range of addresses.
unfoldable pub outside : (lo hi : ℕ) → List PageTableEntry → List PageTableEntry
outside lo hi [] = []
outside lo hi (pte ∷ ptes) =
    let rest = outside lo hi ptes in
    if leb lo pte.as_vpage && ltb pte.as_vpage hi then rest else pte ∷ rest

abbrev pub Aligned : List PageTableEntry → Type 0
Aligned [] = Unit
Aligned (pte ∷ ptes) = (pte.as_vpage % page_size ≡ 0) × Aligned ptes

pub outside_nothing : (hi : ℕ) (ptes : List PageTableEntry) → outside hi hi ptes ≡ ptes
unfolding outside
outside_nothing hi [] = refl
outside_nothing hi (pte ∷ ptes) = ground (arith, outside_nothing hi ptes)

-- One more page below the range.
without-outside :
    (lo hi : ℕ) (ptes : List PageTableEntry)
    → lo % page_size ≡ 0
    → lo < hi
    → Aligned ptes
    → without lo (outside (lo + page_size) hi ptes) ≡ outside lo hi ptes
unfolding without outside
without-outside lo hi [] at below aligned = refl
without-outside lo hi (pte ∷ ptes) at below (page_start, aligned) =
    let rest = without-outside lo hi ptes at below aligned in
    elim (ℕ_discrete pte.as_vpage lo) [
      | yes here ↦ ground (arith, rest, here, below)
      | no off ↦ elim (dec_lt pte.as_vpage lo) [
        | yes under ↦ ground (arith, rest, under, off)
        | no not_under ↦
            let over : lo + page_size ≤ pte.as_vpage =
              omega (arith, at, page_start, off, not_under) in
            ground (arith, rest, over, off)
      ]
    ]

GaveBack-trans :
    {D : Type 0} {m m1 m2 : Memory D} (ptes mid left : List PageTableEntry)
    → GaveBack m m1 ptes mid
    → GaveBack m1 m2 mid left
    → ((a : ℕ) → Elsewhere a ptes → Elsewhere a mid)
    → GaveBack m m2 ptes left
GaveBack-trans {D} {m} {m1} {m2} ptes mid left first second fewer = record {
  valid = second.valid;
  mapping = second.mapping;
  freed = λ i o. elim (second.freed i o) [
    | inr f ↦ inr f
    | inl o' ↦ elim (first.freed i o') [
      | inl o'' ↦ inl o''
      | inr f ↦
          let same = second.others i o' (ground (arith, f)) in
          inr (ap (λ (p : Page). is_free p.state) same ∙ f)
    ]
  ];
  same_length = second.same_length ∙ first.same_length;
  others = λ i o loose.
      let same = first.others i o loose in
      second.others i (fewer (i * page_size) o) (ap (λ (p : Page). is_fixed p.state) same ∙ loose)
      ∙ same;
  same_spaces = second.same_spaces ∙ first.same_spaces;
  unmapped_now = λ w a. elim (second.unmapped_now w a) [
    | inr u ↦ inr u
    | inl a' ↦ elim (first.unmapped_now w a') [
      | inl a'' ↦ inl a''
      | inr u ↦ inr (second.unmapped_still w u)
    ]
  ];
  unmapped_still = λ w u. second.unmapped_still w (first.unmapped_still w u);
  each = second.each;
}

-- One round, and those that follow.
remove_pages_step :
    {D : Type 0} (kfree : PageTableEntry → Coremap → Coremap) (n i old : ℕ)
    (ptes : List PageTableEntry) (m : Memory D) {ptes1 : List PageTableEntry} {m1 : Memory D}
    {r : Run (Option (List PageTableEntry × Memory D))}
    → old < 2 ^ 31
    → (i + 1) * page_size ≤ old
    → remove_page kfree (old - (i + 1) * page_size) ptes m ≡ ok (some (ptes1, m1))
    → remove_pages kfree n (i + 1) old ptes1 m1 ≡ r
    → remove_pages kfree (suc n) i old ptes m ≡ r
unfolding remove_pages
remove_pages_step kfree n i old ptes m small fits run more =
    let addr : (old + 2 ^ 32 - (i + 1) * page_size) % 2 ^ 32 ≡ old - (i + 1) * page_size =
      omega (arith, small, fits) in
    rw (addr, run) more

-- The loop from round `i` on.
pub remove_pages-GaveBack :
    {D : Type 0} (kfree : PageTableEntry → Coremap → Coremap) (n i old : ℕ)
    (all ptes : List PageTableEntry) (m : Memory D)
    → KfreeKeeps kfree
    → UserEach m.tlb
    → old % page_size ≡ 0
    → old < 2 ^ 31
    → (i + n) * page_size ≤ old
    → Aligned all
    → ptes ≡ outside (old - i * page_size) old all
    → ValidCoremap m.coremap
    → Mapping m.coremap ptes
    → Distinct ptes
    → (m' : Memory D) × (remove_pages kfree n i old ptes m
        ≡ ok (some (outside (old - (i + n) * page_size) old all, m')))
      × GaveBack m m' ptes (outside (old - (i + n) * page_size) old all)
unfolding remove_pages
remove_pages-GaveBack kfree zero i old all ptes m keeps each at small fits aligned is valid mapping
      distinct =
    let final : ptes ≡ outside (old - (i + 0) * page_size) old all =
      is ∙ ap (λ k. outside (old - k * page_size) old all) (omega arith) in
    (
      m,
      ap (λ t. ok (some (t, m))) final,
      subst (λ t. GaveBack m m ptes t) final (nothing_removed m ptes each valid mapping),
    )
remove_pages-GaveBack {D} kfree (suc n) i old all ptes m keeps each at small fits aligned is valid
      mapping distinct =
    let v = old - (i + 1) * page_size in
    let (m1, run, back) =
      remove_page-GaveBack kfree keeps v ptes m (omega (arith, small)) each valid mapping
        distinct in
    let above : old - i * page_size ≡ v + page_size = omega (arith, fits) in
    let left : without v ptes ≡ outside v old all =
      ap (without v) (is ∙ ap (λ lo. outside lo old all) above)
      ∙ without-outside v old all (omega (arith, at, fits)) (omega (arith, fits)) aligned in
    let (m2, run2, back2) =
      remove_pages-GaveBack kfree n (i + 1) old all (without v ptes) m1 keeps back.each at small
        (omega (arith, fits)) aligned left back.valid back.mapping
        (Distinct-without v ptes distinct) in
    let end : i + 1 + n ≡ i + suc n = omega arith in
    (
      m2,
      remove_pages_step kfree n i old ptes m small (omega (arith, fits)) run
          (run2 ∙ ap (λ k. ok (some (outside (old - k * page_size) old all, m2))) end),
      subst (λ k. GaveBack m m2 ptes (outside (old - k * page_size) old all)) end
          (GaveBack-trans ptes (without v ptes) (outside (old - (i + 1 + n) * page_size) old all)
            back back2 (λ a. Elsewhere-without a v ptes)),
    )
