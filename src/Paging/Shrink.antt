-- ===== src/Paging/Shrink.antt =====
-- What taking one page out of a page table does.
use linux_like_os.Coremap.User.{release_physical_page_lem}
use linux_like_os.Prelude.{
  ℕ, ◌*◌, ◌^◌, ◌<◌, ◌≡◌, refl, sym, ap, ◌∙◌, subst, ◌≢◌, ◌⊎◌, inl, inr, true, false, some, List, [],
  ◌∷◌, arith, ℕ_discrete, ◌==◌, if◌then◌else◌, length, length-set, get_or-set, get_or-set_self, ok,
}
use linux_like_os.Coremap.{page_size, Coremap}
use linux_like_os.Coremap.Pages.{Page, is_free, is_used, is_fixed, free_page, no_page, page}
use linux_like_os.AddrSpace.{PageTableEntry}
use linux_like_os.AddrSpace.Destroy.{
  Elsewhere, Mapping, KfreeKeeps, KernelOnly-Mapping, keep-Mapping,
}
use linux_like_os.Paging.{Memory, tlb_invalidate_entry}
use linux_like_os.Paging.Sbrk.{remove_page}
use linux_like_os.Paging.TlbMaps.{Unmapped}
use linux_like_os.Paging.TlbUser.{UserEach, tlb_invalidate_entry-UserEach}
use linux_like_os.Paging.NewPage.{ValidCoremap}

-- The entries but that of a page.
unfoldable pub without : ℕ → List PageTableEntry → List PageTableEntry
without v [] = []
without v (pte ∷ ptes) = if pte.as_vpage == v then without v ptes else pte ∷ without v ptes

abbrev pub Away : ℕ → List PageTableEntry → Type 0
Away v [] = Unit
Away v (pte ∷ ptes) = (pte.as_vpage ≢ v) × Away v ptes

-- No two entries are of the same page.
abbrev pub Distinct : List PageTableEntry → Type 0
Distinct [] = Unit
Distinct (pte ∷ ptes) = Away pte.as_vpage ptes × Distinct ptes

module _ (v : ℕ) (pte : PageTableEntry) (ptes : List PageTableEntry) where
  without_here : pte.as_vpage ≡ v → without v (pte ∷ ptes) ≡ without v ptes
  unfolding without
  without_here h = ground (arith, h)

  without_off : pte.as_vpage ≢ v → without v (pte ∷ ptes) ≡ pte ∷ without v ptes
  unfolding without
  without_off h = ground (arith, h)

  -- A property of what is left, by the first entry.
  without_cases :
      (P : List PageTableEntry → Type 0)
      → (pte.as_vpage ≡ v → P (without v ptes))
      → (pte.as_vpage ≢ v → P (pte ∷ without v ptes))
      → P (without v (pte ∷ ptes))
  without_cases P gone kept = elim (ℕ_discrete pte.as_vpage v) [
    | yes here ↦ subst P (sym (without_here here)) (gone here)
    | no off ↦ subst P (sym (without_off off)) (kept off)
  ]

without-Away : (v : ℕ) (ptes : List PageTableEntry) → Away v ptes → without v ptes ≡ ptes
unfolding without
without-Away v [] away = refl
without-Away v (pte ∷ ptes) (ne, away) = ground (arith, ne, without-Away v ptes away)

Away-without : (w v : ℕ) (ptes : List PageTableEntry) → Away w ptes → Away w (without v ptes)
unfolding without
Away-without w v [] away = tt
Away-without w v (pte ∷ ptes) (ne, away) =
    let rest = Away-without w v ptes away in
    without_cases v pte ptes (Away w) (λ h. rest) (λ h. (ne, rest))

-- An entry is there still if it was of another page.
Away-back : (w v : ℕ) (ptes : List PageTableEntry) → w ≢ v → Away w (without v ptes) → Away w ptes
unfolding without
Away-back w v [] ne away = tt
Away-back w v (pte ∷ ptes) ne away = elim (ℕ_discrete pte.as_vpage v) [
  | yes here ↦ (
    (λ x. ne (sym x ∙ here)),
    Away-back w v ptes ne (subst (Away w) (without_here v pte ptes here) away),
  )
  | no off ↦
      let (apart, rest) = subst (Away w) (without_off v pte ptes off) away in
      (apart, Away-back w v ptes ne rest)
]

pub Distinct-without :
    (v : ℕ) (ptes : List PageTableEntry) → Distinct ptes → Distinct (without v ptes)
unfolding without
Distinct-without v [] d = tt
Distinct-without v (pte ∷ ptes) (away, d) =
    let rest = Distinct-without v ptes d in
    without_cases v pte ptes Distinct (λ h. rest)
      (λ h. (Away-without pte.as_vpage v ptes away, rest))

pub Elsewhere-without :
    (a v : ℕ) (ptes : List PageTableEntry) → Elsewhere a ptes → Elsewhere a (without v ptes)
unfolding without
Elsewhere-without a v [] other = tt
Elsewhere-without a v (pte ∷ ptes) (ne, other) =
    let rest = Elsewhere-without a v ptes other in
    without_cases v pte ptes (Elsewhere a) (λ h. rest) (λ h. (ne, rest))

-- The pages of the entries that left are free and no longer in the TLB, and no other page changed
-- but those of the kernel.
pub record GaveBack {D : Type 0} (m m' : Memory D) (ptes left : List PageTableEntry) : Type 0 where
  pub valid : ValidCoremap m'.coremap
  pub mapping : Mapping m'.coremap left
  pub freed :
      (i : ℕ)
      → Elsewhere (i * page_size) left
      → Elsewhere (i * page_size) ptes ⊎ (is_free (page m'.coremap.pages i).state ≡ true)
  pub same_length : length m'.coremap.pages ≡ length m.coremap.pages
  pub others :
      (i : ℕ)
      → Elsewhere (i * page_size) ptes
      → is_fixed (page m.coremap.pages i).state ≡ false
      → page m'.coremap.pages i ≡ page m.coremap.pages i
  pub same_spaces : m'.spaces ≡ m.spaces
  pub unmapped_now : (w : ℕ) → Away w left → Away w ptes ⊎ Unmapped w m'.tlb
  pub unmapped_still : (w : ℕ) → Unmapped w m.tlb → Unmapped w m'.tlb
  pub each : UserEach m'.tlb

pub nothing_removed :
    {D : Type 0} (m : Memory D) (ptes : List PageTableEntry)
    → UserEach m.tlb
    → ValidCoremap m.coremap
    → Mapping m.coremap ptes
    → GaveBack m m ptes ptes
nothing_removed m ptes each valid mapping = record {
  valid = valid;
  mapping = mapping;
  freed = λ i o. inl o;
  same_length = refl;
  others = λ i o loose. refl;
  same_spaces = refl;
  unmapped_now = λ w a. inl a;
  unmapped_still = λ w u. u;
  each = each;
}

module _ {D : Type 0} (kfree : PageTableEntry → Coremap → Coremap) (keeps : KfreeKeeps kfree)
    (v : ℕ) where
  -- The first entry is that of the page.
  remove_first :
      (pte : PageTableEntry) (ptes : List PageTableEntry) (m : Memory D)
      → v < 2 ^ 31
      → UserEach m.tlb
      → ValidCoremap m.coremap
      → Mapping m.coremap (pte ∷ ptes)
      → Distinct (pte ∷ ptes)
      → pte.as_vpage ≡ v
      → (m' : Memory D) × (remove_page kfree v (pte ∷ ptes) m
          ≡ ok (some (without v (pte ∷ ptes), m')))
        × GaveBack m m' (pte ∷ ptes) (without v (pte ∷ ptes))
  unfolding remove_page
  remove_first pte ptes m user each valid ((b, l, mp, at, lt, busy, one), apart, rest)
        (away, distinct) here =
      let (c1, run1, valid1, pages1, count1) =
        (release_physical_page_lem m.coremap b valid lt).0 busy one in
      let only = keeps pte c1 valid1 in
      let (each', gone, still) = tlb_invalidate_entry-UserEach v m.tlb user each in
      let apart' : Elsewhere (b * page_size) ptes = subst (λ a. Elsewhere a ptes) at apart in
      let m' : Memory D = record m { coremap = kfree pte c1; tlb = tlb_invalidate_entry v m.tlb } in
      let left : without v (pte ∷ ptes) ≡ ptes =
        without_here v pte ptes here ∙ without-Away v ptes (subst (λ w. Away w ptes) here away) in
      let emptied : page c1.pages b ≡ free_page =
        ap (λ ps. page ps b) pages1 ∙ get_or-set_self m.coremap.pages b free_page no_page lt in
      let freed' : page (kfree pte c1).pages b ≡ free_page =
        only.kept b (ap (λ (p : Page). is_fixed p.state) emptied) ∙ emptied in
      let other : (i : ℕ) → b ≢ i → page c1.pages i ≡ page m.coremap.pages i = λ i differ.
        ap (λ ps. page ps i) pages1
        ∙ ground (arith, get_or-set m.coremap.pages b i free_page no_page lt) in
      (
        m',
        rw left (ground (arith, l, here, mp, at, run1)),
        rw left (record {
          valid = only.valid;
          mapping =
              KernelOnly-Mapping c1 (kfree pte c1) ptes only
                (keep-Mapping m.coremap c1 b free_page ptes lt pages1 apart' rest);
          freed = λ i o. elim (ℕ_discrete b i) [
            | yes same ↦ inr (
                subst (λ k. is_free (page (kfree pte c1).pages k).state ≡ true) same
                  (ap (λ (p : Page). is_free p.state) freed'))
            | no differ ↦ inl ((λ x. differ (omega (arith, at, x))), o)
          ];
          same_length =
              only.same_length ∙ ap length pages1 ∙ length-set m.coremap.pages b free_page;
          others = λ i (ne, o) loose.
              let differ : b ≢ i = λ x. ne (omega (arith, at, x)) in
              only.kept i (ap (λ (p : Page). is_fixed p.state) (other i differ) ∙ loose)
              ∙ other i differ;
          same_spaces = refl;
          unmapped_now = λ w off. elim (ℕ_discrete v w) [
            | yes same ↦ inr (subst (λ u. Unmapped u (tlb_invalidate_entry v m.tlb)) same gone)
            | no differ ↦ inl ((λ x. differ (sym here ∙ x)), off)
          ];
          unmapped_still = still;
          each = each';
        }),
      )

  -- The first entry is another's.
  remove_later :
      (pte : PageTableEntry) (ptes : List PageTableEntry) (m m' : Memory D)
      → Mapping m.coremap (pte ∷ ptes)
      → pte.as_vpage ≢ v
      → remove_page kfree v ptes m ≡ ok (some (without v ptes, m'))
      → GaveBack m m' ptes (without v ptes)
      → (remove_page kfree v (pte ∷ ptes) m ≡ ok (some (without v (pte ∷ ptes), m')))
        × GaveBack m m' (pte ∷ ptes) (without v (pte ∷ ptes))
  unfolding remove_page
  remove_later pte ptes m m' ((b, l, mp, at, lt, busy, one), apart, rest) off run back =
      let left = without_off v pte ptes off in
      let same = back.others b (subst (λ a. Elsewhere a ptes) at apart) (ground (arith, busy)) in
      (
        rw left (ground (arith, l, off, run)),
        rw left (record {
          valid = back.valid;
          mapping = (
            (
              b,
              l,
              mp,
              at,
              omega (arith, back.same_length, lt),
              ap (λ (p : Page). is_used p.state) same ∙ busy,
              ap (λ (p : Page). p.chunk_size) same ∙ one,
            ),
            Elsewhere-without pte.as_ppage v ptes apart,
            back.mapping,
          );
          freed = λ i (ne, o). elim (back.freed i o) [ inl o' ↦ inl (ne, o') | inr f ↦ inr f ];
          same_length = back.same_length;
          others = λ i (ne, o). back.others i o;
          same_spaces = back.same_spaces;
          unmapped_now =
              λ w (ne, a). elim (back.unmapped_now w a) [ inl a' ↦ inl (ne, a') | inr u ↦ inr u ];
          unmapped_still = back.unmapped_still;
          each = back.each;
        }),
      )

  -- Removing a page takes its entry out, if there is one, and gives its page back.
  pub remove_page-GaveBack :
      (ptes : List PageTableEntry) (m : Memory D)
      → v < 2 ^ 31
      → UserEach m.tlb
      → ValidCoremap m.coremap
      → Mapping m.coremap ptes
      → Distinct ptes
      → (m' : Memory D) × (remove_page kfree v ptes m ≡ ok (some (without v ptes, m')))
        × GaveBack m m' ptes (without v ptes)
  unfolding remove_page without
  remove_page-GaveBack [] m user each valid mapping distinct =
      (m, refl, nothing_removed m [] each valid mapping)
  remove_page-GaveBack (pte ∷ ptes) m user each valid mapping distinct =
      elim (ℕ_discrete pte.as_vpage v) [
        | yes here ↦ remove_first pte ptes m user each valid mapping distinct here
        | no off ↦
            let (m', run, back) =
              remove_page-GaveBack ptes m user each valid mapping.2 distinct.1 in
            let (run', back') = remove_later pte ptes m m' mapping off run back in (m', run', back')
      ]
