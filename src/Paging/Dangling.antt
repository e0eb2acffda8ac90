-- ===== src/Paging/Dangling.antt =====
-- vm_fault when no page of memory is free.
use linux_like_os.Prelude.{
  ℕ, ◌/◌, ◌≤◌, ◌<◌, ◌≡◌, refl, inl, inr, Bool, true, false, Option, some, List, [], ◌∷◌, ◌++◌,
  arith, ok, panic, enomem, fail,
}
use linux_like_os.Coremap.{page_size}
use linux_like_os.Coremap.Pages.{is_free, page}
use linux_like_os.Coremap.User.{allocate_user_page-first}
use linux_like_os.AddrSpace.{unmapped, PageTableEntry, Addrspace, page_frame}
use linux_like_os.Paging.{Services, Memory}
use linux_like_os.Paging.Faults.{find_entry, valid_address, put_table, new_page, vm_fault}
use linux_like_os.Paging.NewPage.{ValidCoremap, Lacks, find_entry-Lacks, free_in_range}

-- A freed entry at the end stops the walk that reaches it.
find_entry-freed :
    (vpage : ℕ) (ptes : List PageTableEntry) (freed : PageTableEntry)
    → Lacks vpage ptes
    → freed.live ≡ false
    → find_entry vpage (ptes ++ freed ∷ []) ≡ panic
unfolding find_entry
find_entry-freed vpage [] freed lacks dead = ground (arith, dead)
find_entry-freed vpage (pte ∷ ptes) freed (alive, ne, lacks) dead =
    ground (arith, alive, ne, find_entry-freed vpage ptes freed lacks dead)

-- A first touch when kmalloc and lock_create leave no page of memory free: vm_fault returns ENOMEM, but the page table keeps
-- the entry that it has freed, so that the next fault of the same page, whatever kmalloc gives
-- then, reads freed memory.
pub vm_fault-dangling :
    {D : Type 0} (vn : Services D) (m : Memory D) (owner addr random random' : ℕ)
    (space : Addrspace) (junk : PageTableEntry) (got_pte : Option PageTableEntry) (got_lock : Bool)
    → ValidCoremap (vn.kmalloc_entry m.coremap)
    → m.spaces owner ≡ some space
    → valid_address (page_frame addr) space ≡ true
    → Lacks (page_frame addr) space.page_table
    → ((j : ℕ)
        → (vn.kmalloc_entry m.coremap).memory_start / page_size ≤ j
        → j < (vn.kmalloc_entry m.coremap).memory_end / page_size
        → is_free (page (vn.kmalloc_entry m.coremap).pages j).state ≡ false)
    → (m' : Memory D) × (vm_fault vn (some owner) addr random (some junk) true m
        ≡ ok (fail enomem, m'))
      × (vm_fault vn (some owner) addr random' got_pte got_lock m' ≡ panic)
unfolding vm_fault new_page valid_address
vm_fault-dangling {D} vn m owner addr random random' space junk got_pte got_lock valid is_space
      inside lacks full =
    let vpage = page_frame addr in
    let missing = find_entry-Lacks vpage space.page_table lacks in
    let freed : PageTableEntry = record junk { live = false; as_vpage = vpage; state = unmapped } in
    let c0 = vn.kmalloc_entry m.coremap in
    let m1 : Memory D = record m { coremap = vn.kfree_entry c0 } in
    let m' = put_table owner space (space.page_table ++ freed ∷ []) m1 in
    let stops = find_entry-freed vpage space.page_table freed lacks refl in
    elim (allocate_user_page-first c0 owner vpage false valid) [
      | inr (b, c', run, valid', lo', free_b, before, pages', ram') ↦
          let lt = free_in_range c0.pages b free_b in
          absurd (ground (arith, full b lo' (omega (arith, valid.covers, lt)), free_b))
      | inl (run, all) ↦
          let made : new_page vn owner vpage space (some junk) true m ≡ ok (fail enomem, m') =
            ground (arith, run) in
          (m', ground (arith, is_space, inside, missing, made), ground (arith, inside, stops))
    ]
