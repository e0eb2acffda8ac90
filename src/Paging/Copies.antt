-- ===== src/Paging/Copies.antt =====
-- What as_copy makes of a page table.
use linux_like_os.Prelude.{
  ℕ, ◌+◌, ◌*◌, ◌/◌, ◌<◌, ◌≡◌, sym, ap, ◌∙◌, subst, ◌≢◌, true, false, List, [], ◌∷◌, ◌++◌, arith,
  ◌==◌, if◌then◌else◌, set, get_or-set,
}
use linux_like_os.Coremap.{page_size, Coremap, user_page}
use linux_like_os.Coremap.Pages.{Page, is_free, is_used, no_page, page}
use linux_like_os.AddrSpace.{PageTableEntry}
use linux_like_os.AddrSpace.Destroy.{HasPage, Elsewhere, Mapping}
use linux_like_os.Paging.{page_bytes, put_page}
use linux_like_os.Paging.NewPage.{free_in_range}

-- Entry by entry the same page of the process and the same bytes, from memory `ram` to `ram'`.
pub data Copies (ram ram' : ℕ → ℕ) : List PageTableEntry → List PageTableEntry → Type 0 where
  no_entry : Copies ram ram' [] []
  one_more :
      {old new : PageTableEntry} {olds news : List PageTableEntry}
      → new.as_vpage ≡ old.as_vpage
      → new.vpage_permission ≡ old.vpage_permission
      → ((i : ℕ) → i < page_size → ram' (new.as_ppage + i) ≡ ram (old.as_ppage + i))
      → Copies ram ram' olds news
      → Copies ram ram' (old ∷ olds) (new ∷ news)

-- Pages that are not free stay as they are, with their bytes.
abbrev pub Kept : (c c' : Coremap) → Type 0
Kept c c' =
    (b : ℕ)
    → is_free (page c.pages b).state ≡ false
    → (page c'.pages b ≡ page c.pages b)
      × ((i : ℕ) → i < page_size → c'.ram (b * page_size + i) ≡ c.ram (b * page_size + i))

pub Kept-trans : (c c1 c2 : Coremap) → Kept c c1 → Kept c1 c2 → Kept c c2
Kept-trans c c1 c2 first second b busy =
    let (same, bytes) = first b busy in
    let (same', bytes') = second b (ap (λ (p : Page). is_free p.state) same ∙ busy) in
    (same' ∙ same, λ i below. bytes' i below ∙ bytes i below)

pub free-Elsewhere :
    (c : Coremap) (b : ℕ) (ptes : List PageTableEntry)
    → is_free (page c.pages b).state ≡ true
    → Mapping c ptes
    → Elsewhere (b * page_size) ptes
free-Elsewhere c b [] free_b mapping = tt
free-Elsewhere c b (pte ∷ ptes) free_b ((k, l, m, at, lt, busy, one), apart, rest) = (
  λ same.
      let here : k ≡ b = omega (arith, at, same) in
      absurd (ground (arith, free_b, subst (λ j. is_used (page c.pages j).state ≡ true) here busy)),
  free-Elsewhere c b ptes free_b rest,
)

Elsewhere-snoc :
    (a : ℕ) (ptes : List PageTableEntry) (new : PageTableEntry)
    → Elsewhere a ptes
    → new.as_ppage ≢ a
    → Elsewhere a (ptes ++ new ∷ [])
Elsewhere-snoc a [] new other ne = (ne, tt)
Elsewhere-snoc a (pte ∷ ptes) new (off, other) ne = (off, Elsewhere-snoc a ptes new other ne)

pub Mapping-snoc :
    (c : Coremap) (ptes : List PageTableEntry) (new : PageTableEntry)
    → Mapping c ptes
    → HasPage c new
    → Elsewhere new.as_ppage ptes
    → Mapping c (ptes ++ new ∷ [])
Mapping-snoc c [] new mapping has other = (has, tt, tt)
Mapping-snoc c (pte ∷ ptes) new (first, apart, rest) has (off, other) = (
  first,
  Elsewhere-snoc pte.as_ppage ptes new apart (λ same. off (sym same)),
  Mapping-snoc c ptes new rest has other,
)

-- The bytes may be read off the memory before.
pub Copies-before :
    (c c' : Coremap) (ram' : ℕ → ℕ) {olds news : List PageTableEntry}
    → Kept c c'
    → Copies c'.ram ram' olds news
    → Mapping c olds
    → Copies c.ram ram' olds news
Copies-before c c' ram' kept no_entry mapping = no_entry
Copies-before c c' ram' kept (one_more v p bytes more) ((b, l, m, at, lt, busy, one), apart, rest) =
    let (same, before) = kept b (ground (arith, busy)) in
    one_more v p
      (λ i below.
        bytes i below
        ∙ ap (λ a. c'.ram (a + i)) at
        ∙ before i below
        ∙ ap (λ a. c.ram (a + i)) (sym at))
      (Copies-before c c' ram' kept more rest)

-- One entry is copied: the coremap after it.
module _ (c c' : Coremap) (newas b : ℕ) (old : PageTableEntry)
    (free_b : is_free (page c.pages b).state ≡ true)
    (taken : c'.pages ≡ set c.pages b (user_page newas old.as_vpage true))
    (zeroed : (a : ℕ) → c'.ram a ≡ (if a / page_size == b then 0 else c.ram a)) where
  abbrev pub after_copy : Coremap
  after_copy = record c' { ram = put_page (b * page_size) (page_bytes old.as_ppage c'.ram) c'.ram }

  pub copy-Kept : Kept c after_copy
  copy-Kept k busy =
      let differ : b ≢ k = λ here.
        ground
          (arith, free_b, subst (λ j. is_free (page c.pages j).state ≡ false) (sym here) busy) in
      let lt = free_in_range c.pages b free_b in
      (
        ap (λ ps. page ps k) taken
            ∙ ground (arith, get_or-set c.pages b k (user_page newas old.as_vpage true) no_page lt),
        λ i below. ground (arith, zeroed (k * page_size + i)),
      )
