-- ===== src/Paging.antt =====
-- kern/vm/vm.c: page faults, eviction and the swap disk, on the page tables of AddrSpace and the
-- coremap. The lock of a page table entry is held from the start to the end of each step.
pub mod Faults
pub mod Swap
pub mod NewPage
pub mod Dangling
pub mod Walk
pub mod TlbMaps
pub mod TlbUser
pub mod Evict
pub mod SwapIn
pub mod Sbrk
pub mod Heap
pub mod Shrink
pub mod Copy
pub mod Copies
pub mod CopyAll
pub mod Forked
pub mod Range
pub mod Shrinking
pub mod Tenant
pub mod Return
mod Tests
use linux_like_os.Prelude.{
  ℕ, ◌+◌, ◌-◌, ◌*◌, ◌%◌, ◌^◌, Bool, true, false, ◌&&◌, Option, none, some, List, [], ◌∷◌, ltb, leb,
  ◌==◌, if◌then◌else◌, set, Run, ok, ◌>>=◌, einval, Reply, done, fail,
}
use linux_like_os.Bitmap.{Bitmap, bitmap_alloc, bitmap_unmark, bitmap_isset}
use linux_like_os.Coremap.{page_size, Coremap}
use linux_like_os.Coremap.Pages.{page}
use linux_like_os.AddrSpace.{Addrspace}

-- The vnode of the swap disk: what VOP_READ leaves in a page, given what was there, and what
-- VOP_WRITE of a page makes of the disk. An offset is that of a page in bytes. And kmalloc: what
-- becomes of the coremap when a page table entry and its lock are allocated or freed, where
-- kmalloc may take pages for itself and kfree may give them back.
pub record Services (D : Type 0) : Type 0 where
  pub vop_read : (offset : ℕ) → (page : ℕ → ℕ) → D → Reply (Unit {0}) × (ℕ → ℕ)
  pub vop_write : (offset : ℕ) → (page : ℕ → ℕ) → D → Reply (Unit {0}) × D
  pub kmalloc_entry : Coremap → Coremap
  pub kfree_entry : Coremap → Coremap

-- A slot of the TLB, by the fields of its two registers.
pub record TlbEntry : Type 0 where
  pub vpage : ℕ
  pub ppage : ℕ
  pub dirty : Bool
  pub valid : Bool

-- The address spaces by address, the coremap, `swap.bitmap`, the swap disk and the TLB.
pub record Memory (D : Type 0) : Type 0 where
  pub spaces : ℕ → Option Addrspace
  pub coremap : Coremap
  pub swap : Bitmap
  pub disk : D
  pub tlb : List TlbEntry

-- The bytes of a page, and physical memory with one page written.
abbrev pub page_bytes : (paddr : ℕ) → (ℕ → ℕ) → ℕ → ℕ
page_bytes paddr ram i = ram (paddr + i)

abbrev pub put_page : (paddr : ℕ) → (ℕ → ℕ) → (ℕ → ℕ) → ℕ → ℕ
put_page paddr bytes ram a =
    if leb paddr a && ltb a (paddr + page_size) then bytes (a - paddr) else ram a

unfoldable pub read_swap_disk :
    {D : Type 0}
    → Services D
    → (page_paddr disk_index : ℕ) → (unmark : Bool) → Memory D
    → Run (Reply (Unit {0}) × Memory D)
read_swap_disk vn page_paddr disk_index unmark m = do
  marked ← bitmap_isset m.swap disk_index
  if marked == 0 then ok (fail einval, m) else (do
    let (result, bytes) =
        vn.vop_read (disk_index * page_size % 2 ^ 32) (page_bytes page_paddr m.coremap.ram) m.disk
    let c : Coremap = record (m.coremap) { ram = put_page page_paddr bytes m.coremap.ram }
    elim result [
      | fail e ↦ ok (fail e, record m { coremap = c })
      | done u ↦ do
        swap ← if unmark then bitmap_unmark m.swap disk_index else ok m.swap
        ok (done tt, record m { coremap = c; swap = swap })
    ])

-- The result is `*disk_index`.
unfoldable pub write_swap_disk :
    {D : Type 0} → Services D → (page_paddr : ℕ) → Memory D → Run (Reply ℕ × Memory D)
write_swap_disk vn page_paddr m = do
  (allocation_result, swap) ← bitmap_alloc m.swap
  elim allocation_result [
    | fail e ↦ ok (fail e, record m { swap = swap })
    | done free_index ↦
        let (result, disk) =
          vn.vop_write (free_index * page_size % 2 ^ 32) (page_bytes page_paddr m.coremap.ram)
            m.disk in
        let m' : Memory _ = record m { swap = swap; disk = disk } in
        elim result [ fail e ↦ ok (fail e, m') | done u ↦ ok (done free_index, m') ]
  ]

-- `TLBHI_INVALID` and `TLBLO_INVALID` at slot `i`.
abbrev pub invalid_entry : ℕ → TlbEntry
invalid_entry i = record {
  vpage = (0x80000 + i) * page_size;
  ppage = 0;
  dirty = false;
  valid = false;
}

-- The slot that tlb_probe finds is written, from slot `i` on.
unfoldable pub tlb_invalidate_from : (i remove_vaddr : ℕ) → List TlbEntry → List TlbEntry
tlb_invalidate_from i remove_vaddr [] = []
tlb_invalidate_from i remove_vaddr (e ∷ es) =
    let rest = tlb_invalidate_from (i + 1) remove_vaddr es in
    if e.vpage == remove_vaddr then invalid_entry i ∷ es else e ∷ rest

unfoldable pub tlb_invalidate_entry : (remove_vaddr : ℕ) → List TlbEntry → List TlbEntry
unfolding tlb_invalidate_from
tlb_invalidate_entry remove_vaddr tlb = tlb_invalidate_from 0 remove_vaddr tlb

-- The end of vm_fault: the first slot that is not valid is written, else the slot that tlb_random
-- takes. `none` says that every slot is valid.
unfoldable pub tlb_first : TlbEntry → List TlbEntry → Option (List TlbEntry)
tlb_first e [] = none
tlb_first e (old ∷ es) =
    let rest = tlb_first e es in
    if old.valid then elim rest [ none ↦ none | some es' ↦ some (old ∷ es') ] else some (e ∷ es)

unfoldable pub tlb_insert : (faultaddress physical_page random : ℕ) → List TlbEntry → List TlbEntry
unfolding tlb_first
tlb_insert faultaddress physical_page random tlb =
    let e : TlbEntry = record {
      vpage = faultaddress;
      ppage = physical_page;
      dirty = true;
      valid = true;
    } in
    elim (tlb_first e tlb) [ none ↦ set tlb random e | some tlb' ↦ tlb' ]
