-- ===== src/Paging/Forked.antt =====
-- The address space that as_copy makes.
use linux_like_os.Prelude.{
  ℕ, ◌≡◌, refl, ◌⊎◌, inl, inr, Bool, [], arith, Bool-cases, ok, enomem, done, fail,
}
use linux_like_os.AddrSpace.{Addrspace}
use linux_like_os.AddrSpace.Destroy.{Mapping}
use linux_like_os.Paging.{Services, Memory}
use linux_like_os.Paging.NewPage.{ValidCoremap}
use linux_like_os.Paging.Copy.{Grants, copy_regions, as_copy}
use linux_like_os.Paging.Copies.{Copies, Kept}
use linux_like_os.Paging.CopyAll.{give_up-GaveUp, copy_entries-AllCopied}

-- `new` has the regions, the heap and the pages of `old`, its pages are its own, and no page that was
-- in use changed.
abbrev pub IsCopy : {D : Type 0} → (old new : Addrspace) → (m m' : Memory D) → Type 0
IsCopy old new m m' =
    (new.regions ≡ old.regions)
    × (new.heap_start ≡ old.heap_start)
    × (new.heap_end ≡ old.heap_end)
    × Mapping m'.coremap new.page_table
    × Copies m.coremap.ram m'.coremap.ram old.page_table new.page_table
    × Kept m.coremap m'.coremap

-- as_copy of an address space whose entries are mapped to used pages of their own, in a valid
-- coremap, never stops the kernel and keeps the coremap valid. It gives ENOMEM, or a copy: the same
-- regions and heap, and for each entry of the old page table, in order, an entry of the same page
-- and permission with a page of memory of its own that holds the same bytes; no page that was in use
-- before, so none of the old address space, has changed.
pub as_copy-IsCopy :
    {D : Type 0} (vn : Services D) (g : Grants) (got_as : Bool) (newas : ℕ) (old : Addrspace)
    (m : Memory D)
    → ValidCoremap m.coremap
    → Mapping m.coremap old.page_table
    → (m' : Memory D) × ValidCoremap m'.coremap
      × ((as_copy vn g got_as newas old m ≡ ok (fail enomem, m'))
          ⊎ ((new : Addrspace) × (as_copy vn g got_as newas old m ≡ ok (done new, m'))
              × IsCopy old new m m'))
unfolding as_copy
as_copy-IsCopy {D} vn g got_as newas old m valid mapping = elim (Bool-cases got_as) [
  | inr refused ↦ (m, valid, inl (ground (arith, refused)))
  | inl granted ↦ elim (copy_entries-AllCopied vn g newas 0 old.page_table [] m valid mapping tt) [
    | inl (m', run, valid') ↦ (m', valid', inl (ground (arith, granted, run)))
    | inr (news, m', run, valid', pages, copies, kept) ↦
        elim (Bool-cases (copy_regions g 0 old.regions)) [
          | inl all ↦ (
            m',
            valid',
            inr (
              record {
                regions = old.regions;
                page_table = news;
                heap_start = old.heap_start;
                heap_end = old.heap_end;
              },
              ground (arith, granted, run, all),
              (refl, refl, refl, pages, copies, kept),
            ),
          )
          | inr short ↦
              let (m2, gave, valid2) = give_up-GaveUp {A = Addrspace} news m' valid' pages in
              (m2, valid2, inl (ground (arith, granted, run, short, gave)))
        ]
  ]
]
