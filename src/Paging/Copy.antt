-- ===== src/Paging/Copy.antt =====
-- as_copy of kern/vm/addrspace.c.
use linux_like_os.Prelude.{
  ℕ, ◌+◌, Bool, true, false, not, ◌&&◌, Option, none, some, List, [], ◌∷◌, ◌++◌, ◌==◌,
  if◌then◌else◌, Run, ok, panic, ◌>>=◌, ◌>>◌, kassert, enomem, Reply, done, fail,
}
use linux_like_os.Coremap.{allocate_user_page}
use linux_like_os.AddrSpace.{
  mapped, is_swapped, PageTableEntry, Region, Addrspace, as_create, Kfree, as_destroy,
}
use linux_like_os.Paging.{Services, Memory, page_bytes, put_page, read_swap_disk}

-- What kmalloc gives for the entries and the regions of the new address space, by their places; a
-- new entry holds what kmalloc returned.
pub record Grants : Type 0 where
  pub entry : ℕ → Option PageTableEntry
  pub entry_lock : ℕ → Bool
  pub region : ℕ → Bool

-- as_copy is modelled without the pages that kmalloc takes for itself, and without their return.
abbrev pub no_slabs : Kfree
no_slabs = record { entry = λ pte c. c; region = λ r c. c; space = λ as_ c. c }

-- The copy fails: as_destroy takes back what there is.
unfoldable pub give_up :
    {D : Type 0} {A : Type 0} → List PageTableEntry → Memory D → Run (Reply A × Memory D)
give_up copied m = do
  (c, swap) ← as_destroy no_slabs (record as_create { page_table = copied }) m.coremap m.swap
  ok (fail enomem, record m { coremap = c; swap = swap })

-- The bytes of a page for the new one at `new_ppage`: from the swap disk, or from memory.
unfoldable pub copy_page :
    {D : Type 0} → Services D → (new_ppage : ℕ) → PageTableEntry → Memory D → Run (Memory D)
copy_page vn new_ppage old_pte m =
    if is_swapped old_pte.state
    then (do
      (result, m') ← read_swap_disk vn new_ppage old_pte.diskpage_location false m
      elim result [ fail e ↦ panic | done u ↦ ok m' ])
    else ok (record m {
      coremap = record (m.coremap) {
        ram = put_page new_ppage (page_bytes old_pte.as_ppage m.coremap.ram) m.coremap.ram;
      };
    })

-- The loop over the page table of the old address space, at place `i`.
unfoldable pub copy_entries :
    {D : Type 0}
    → Services D
    → Grants
    → (newas i : ℕ) → (olds copied : List PageTableEntry) → Memory D
    → Run (Reply (List PageTableEntry) × Memory D)
unfolding give_up copy_page
copy_entries vn g newas i [] copied m = ok (done copied, m)
copy_entries vn g newas i (old_pte ∷ olds) copied m = elim (g.entry i) [
  | none ↦ give_up copied m
  | some junk ↦ elim (g.entry_lock i) [
    | false ↦ give_up copied m
    | true ↦ do
      kassert old_pte.live
      (new_ppage, c) ← allocate_user_page 1 newas old_pte.as_vpage true m.coremap
      let m1 : Memory _ = record m { coremap = c }
      elim (new_ppage == 0) [
        | true ↦ give_up copied m1
        | false ↦ do
          m2 ← copy_page vn new_ppage old_pte m1
          let new_pte : PageTableEntry = record junk {
            live = true;
            as_vpage = old_pte.as_vpage;
            as_ppage = new_ppage;
            vpage_permission = old_pte.vpage_permission;
            state = mapped;
          }
          copy_entries vn g newas (i + 1) olds (copied ++ new_pte ∷ []) m2
      ]
  ]
]

-- The loop over the regions: true if kmalloc gives memory for all of them.
unfoldable pub copy_regions : Grants → (i : ℕ) → List Region → Bool
copy_regions g i [] = true
copy_regions g i (r ∷ rs) = g.region i && copy_regions g (i + 1) rs

-- `got_as` is whether as_create gets memory; `newas` is the address of the new address space.
unfoldable pub as_copy :
    {D : Type 0}
    → Services D
    → Grants
    → (got_as : Bool) → (newas : ℕ) → Addrspace
    → Memory D
    → Run (Reply Addrspace × Memory D)
unfolding copy_entries copy_regions give_up
as_copy vn g got_as newas old m = if not got_as then ok (fail enomem, m) else (do
  (result, m1) ← copy_entries vn g newas 0 old.page_table [] m
  elim result [
    | fail e ↦ ok (fail e, m1)
    | done copied ↦
        if copy_regions g 0 old.regions
        then ok (
          done (record {
            regions = old.regions;
            page_table = copied;
            heap_start = old.heap_start;
            heap_end = old.heap_end;
          }),
          m1,
        )
        else give_up copied m1
  ])
