-- ===== src/Paging/CopyAll.antt =====
-- as_copy copies every page, or takes back what it copied.
use linux_like_os.Coremap.{page_size, Coremap, user_page}
use linux_like_os.Coremap.Pages.{Page, is_free, is_used, no_page, page}
use linux_like_os.Prelude.{
  ℕ, ◌+◌, ◌-◌, ◌*◌, ◌/◌, ◌<◌, ◌≡◌, refl, sym, ap, ◌∙◌, subst, ◌≢◌, ◌⊎◌, inl, inr, true, List, [],
  ◌∷◌, ◌++◌, arith, ◌==◌, if◌then◌else◌, Bool-cases, Option-cases, length, set, length-set,
  get_or-set_self, Run, ok, enomem, Reply, done, fail,
}
use linux_like_os.Coremap.User.{allocate_user_page-first}
use linux_like_os.AddrSpace.{mapped, PageTableEntry, as_create}
use linux_like_os.AddrSpace.Destroy.{Mapping, KernelOnly, keep-Mapping, as_destroy-Returned}
use linux_like_os.Paging.{Services, Memory}
use linux_like_os.Paging.NewPage.{ValidCoremap, free_in_range}
use linux_like_os.Paging.Copy.{Grants, no_slabs, give_up, copy_page, copy_entries}
use linux_like_os.Paging.Copies.{
  Copies, no_entry, one_more, Kept, Kept-trans, free-Elsewhere, Mapping-snoc, Copies-before,
  after_copy, copy-Kept,
}

abbrev pub GaveUp : {D : Type 0} {A : Type 0} → Run (Reply A × Memory D) → Type 0
GaveUp {D} run = (m' : Memory D) × (run ≡ ok (fail enomem, m')) × ValidCoremap m'.coremap

unchanged : (c : Coremap) → ValidCoremap c → KernelOnly c c
unchanged c valid = record { valid = valid; same_length = refl; kept = λ b loose. refl }

pub give_up-GaveUp :
    {D : Type 0} {A : Type 0} (copied : List PageTableEntry) (m : Memory D)
    → ValidCoremap m.coremap
    → Mapping m.coremap copied
    → GaveUp {A = A} (give_up copied m)
unfolding give_up
give_up-GaveUp copied m valid mapping =
    let (c, run, back) =
      as_destroy-Returned no_slabs (record as_create { page_table = copied }) m.coremap m.swap
        (λ x c ok'. unchanged c ok') (λ x c ok'. unchanged c ok') (λ x c ok'. unchanged c ok') valid
        mapping in
    (record m { coremap = c }, rw run refl, back.0)

-- All entries of `olds` were copied, behind those of `copied`.
abbrev pub AllCopied :
    {D : Type 0}
    → (olds copied : List PageTableEntry) → Memory D
    → Run (Reply (List PageTableEntry) × Memory D)
    → Type 0
AllCopied {D} olds copied m run =
    (news : List PageTableEntry) × (m' : Memory D) × (run ≡ ok (done (copied ++ news), m'))
    × ValidCoremap m'.coremap
    × Mapping m'.coremap (copied ++ news)
    × Copies m.coremap.ram m'.coremap.ram olds news
    × Kept m.coremap m'.coremap

append-snoc : (x : PageTableEntry) (us vs : List PageTableEntry) → us ++ x ∷ [] ++ vs ≡ us ++ x ∷ vs
append-snoc x [] vs = refl
append-snoc x (u ∷ us) vs = ap (λ r. u ∷ r) (append-snoc x us vs)

nil_right : (xs : List PageTableEntry) → xs ++ [] ≡ xs
nil_right [] = refl
nil_right (x ∷ xs) = ap (λ r. x ∷ r) (nil_right xs)

-- One entry was copied to page `b`, which was free, and then the others.
module _ {D : Type 0} (m : Memory D) (newas b : ℕ) (c' : Coremap) (junk old : PageTableEntry)
    (olds copied : List PageTableEntry) (free_b : is_free (page m.coremap.pages b).state ≡ true)
    (taken : c'.pages ≡ set m.coremap.pages b (user_page newas old.as_vpage true))
    (zeroed : (a : ℕ) → c'.ram a ≡ (if a / page_size == b then 0 else m.coremap.ram a))
    (mapping : Mapping m.coremap (old ∷ olds)) where
  abbrev new_copy : PageTableEntry
  new_copy = record junk {
    live = true;
    as_vpage = old.as_vpage;
    as_ppage = b * page_size;
    vpage_permission = old.vpage_permission;
    state = mapped;
  }

  abbrev one_copied : Memory D
  one_copied = record m { coremap = after_copy m.coremap c' newas b old free_b taken zeroed }

  page_here : page c'.pages b ≡ user_page newas old.as_vpage true
  page_here =
      ap (λ ps. page ps b) taken
      ∙ get_or-set_self m.coremap.pages b (user_page newas old.as_vpage true) no_page
          (free_in_range m.coremap.pages b free_b)

  others_kept :
      (ptes : List PageTableEntry) → Mapping m.coremap ptes → Mapping one_copied.coremap ptes
  others_kept ptes pages =
      keep-Mapping m.coremap one_copied.coremap b (user_page newas old.as_vpage true) ptes
        (free_in_range m.coremap.pages b free_b) taken
        (free-Elsewhere m.coremap b ptes free_b pages) pages

  copied_kept : Mapping m.coremap copied → Mapping one_copied.coremap (copied ++ new_copy ∷ [])
  copied_kept pages =
      Mapping-snoc one_copied.coremap copied new_copy (others_kept copied pages)
        (
          b,
          refl,
          refl,
          refl,
          omega (
            arith,
            ap length taken,
            length-set m.coremap.pages b (user_page newas old.as_vpage true),
            free_in_range m.coremap.pages b free_b,
          ),
          ap (λ (p : Page). is_used p.state) page_here,
          ap (λ (p : Page). p.chunk_size) page_here,
        )
        (free-Elsewhere m.coremap b copied free_b pages)

  old_bytes : (i : ℕ) → i < page_size → c'.ram (old.as_ppage + i) ≡ m.coremap.ram (old.as_ppage + i)
  old_bytes i below =
      let (k, l, mp, at, lt, busy, one) = mapping.0 in
      let differ : k ≢ b = λ here.
        ground
          (arith, free_b, subst (λ j. is_used (page m.coremap.pages j).state ≡ true) here busy) in
      ground (arith, zeroed (old.as_ppage + i), at)

  rest_copied :
      (run : Run (Reply (List PageTableEntry) × Memory D))
      → AllCopied olds (copied ++ new_copy ∷ []) one_copied run
      → AllCopied (old ∷ olds) copied m run
  rest_copied run (news, m', runs, valid, pages, copies, kept) =
      let kept0 = copy-Kept m.coremap c' newas b old free_b taken zeroed in
      let same = append-snoc new_copy copied news in
      let (still, bytes) = kept b (ap (λ (p : Page). is_free p.state) page_here) in
      (
        new_copy ∷ news,
        m',
        runs ∙ ap (λ t. ok (done t, m')) same,
        valid,
        subst (λ t. Mapping m'.coremap t) same pages,
        one_more refl refl
            (λ i below.
              let here : b * page_size + i - b * page_size ≡ i = omega arith in
              let put : one_copied.coremap.ram (b * page_size + i) ≡ c'.ram (old.as_ppage + i) =
                ground (arith, here) in
              bytes i below ∙ put ∙ old_bytes i below)
            (Copies-before m.coremap one_copied.coremap m'.coremap.ram kept0 copies mapping.2),
        Kept-trans m.coremap one_copied.coremap m'.coremap kept0 kept,
      )

pub copy_entries-AllCopied :
    {D : Type 0} (vn : Services D) (g : Grants) (newas i : ℕ) (olds copied : List PageTableEntry)
    (m : Memory D)
    → ValidCoremap m.coremap
    → Mapping m.coremap olds
    → Mapping m.coremap copied
    → GaveUp (copy_entries vn g newas i olds copied m)
      ⊎ AllCopied olds copied m (copy_entries vn g newas i olds copied m)
unfolding copy_entries copy_page
copy_entries-AllCopied vn g newas i [] copied m valid old_pages new_pages = inr (
  [],
  m,
  ap (λ t. ok (done t, m)) (sym (nil_right copied)),
  valid,
  subst (λ t. Mapping m.coremap t) (sym (nil_right copied)) new_pages,
  no_entry,
  λ b busy. (refl, λ k below. refl),
)
copy_entries-AllCopied {D} vn g newas i (old ∷ olds) copied m valid old_pages new_pages =
    let (b0, l, mp, at, lt, busy, one) = old_pages.0 in
    let stopped = λ (stop : copy_entries vn g newas i (old ∷ olds) copied m ≡ give_up copied m).
      subst (λ r. GaveUp r) (sym stop) (give_up-GaveUp copied m valid new_pages) in
    elim (Option-cases (g.entry i)) [
      | inl refused ↦ inl (stopped (ground (arith, refused)))
      | inr (junk, granted) ↦ elim (Bool-cases (g.entry_lock i)) [
        | inr refused ↦ inl (stopped (ground (arith, granted, refused)))
        | inl locked ↦ elim (allocate_user_page-first m.coremap newas old.as_vpage true valid) [
          | inl (run, all) ↦ inl (stopped (ground (arith, granted, locked, l, run)))
          | inr (b, c', run, valid', lo', free_b, before, pages', ram') ↦
              let m2 = one_copied m newas b c' junk old olds copied free_b pages' ram' old_pages in
              let new = new_copy m newas b c' junk old olds copied free_b pages' ram' old_pages in
              let copied_page : copy_page vn (b * page_size) old (record m { coremap = c' })
                  ≡ ok m2 =
                ground (arith, mp) in
              let goes : copy_entries vn g newas i (old ∷ olds) copied m
                  ≡ copy_entries vn g newas (i + 1) olds (copied ++ new ∷ []) m2 =
                ground (arith, granted, locked, l, run, copied_page, lo', valid.above_zero) in
              let valid2 : ValidCoremap m2.coremap = record {
                covers = valid'.covers;
                addressable = valid'.addressable;
                above_zero = valid'.above_zero;
                inside = valid'.inside;
                blocks = valid'.blocks;
                accounted = valid'.accounted;
              } in
              elim (copy_entries-AllCopied vn g newas (i + 1) olds (copied ++ new ∷ []) m2 valid2
                (others_kept m newas b c' junk old olds copied free_b pages' ram' old_pages olds
                  old_pages.2)
                (copied_kept m newas b c' junk old olds copied free_b pages' ram' old_pages
                  new_pages)) [
                    | inl gave ↦ inl (subst (λ r. GaveUp r) (sym goes) gave)
                    | inr all ↦ inr (
                        subst (λ r. AllCopied (old ∷ olds) copied m r) (sym goes)
                          (rest_copied m newas b c' junk old olds copied free_b pages' ram'
                            old_pages (copy_entries vn g newas (i + 1) olds (copied ++ new ∷ []) m2)
                            all))
                  ]
        ]
      ]
    ]
