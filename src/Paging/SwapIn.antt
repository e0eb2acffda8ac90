-- ===== src/Paging/SwapIn.antt =====
-- vm_fault at a page that is on the swap disk.
use linux_like_os.Prelude.{
  ℕ, ◌+◌, ◌-◌, ◌*◌, ◌/◌, ◌≤◌, ◌<◌, ◌≡◌, ap, ◌∙◌, inl, inr, Bool, true, false, not, ◌&&◌, Option,
  some, arith, ◌==◌, length, set, length-set, get_or-set_self, ok, done,
}
use linux_like_os.Bitmap.{Bitmap}
use linux_like_os.Bitmap.Valid.{bit}
use linux_like_os.Coremap.{page_size, Coremap, user_page, allocate_user_page}
use linux_like_os.Coremap.Pages.{Page, is_free, no_page, page}
use linux_like_os.Coremap.User.{allocate_user_page-first}
use linux_like_os.AddrSpace.{mapped, swapped, PageTableEntry, Addrspace, page_frame}
use linux_like_os.Paging.{Services, Memory, page_bytes, put_page, tlb_insert}
use linux_like_os.Paging.Faults.{find_entry, valid_address, put_table, present_page, vm_fault}
use linux_like_os.Paging.Swap.{disk_offset, ValidSwap, read_swap_disk_lem}
use linux_like_os.Paging.TlbMaps.{Unmapped, OnlyMaps, tlb_insert-OnlyMaps}
use linux_like_os.Paging.NewPage.{
  ValidCoremap, Maps, tlb_insert-Maps, install-referenced, free_in_range,
}

-- Entry `k` of an address space is that of page `vaddr`, which is on the swap disk and can be read.
pub record OnDisk {D : Type 0} (vn : Services D) (m : Memory D) (owner vaddr : ℕ)
    (space : Addrspace) (k : ℕ) (pte : PageTableEntry) : Type 0 where
  pub is_space : m.spaces owner ≡ some space
  pub entry : find_entry vaddr space.page_table ≡ ok (some (k, pte))
  pub is_swapped : pte.state ≡ swapped
  pub in_space : valid_address vaddr space ≡ true
  pub valid : ValidSwap m.swap
  pub inside : pte.diskpage_location < m.swap.nbits
  pub in_use : bit m.swap pte.diskpage_location ≡ true
  pub reads :
      (page : ℕ → ℕ) → (vn.vop_read (disk_offset pte.diskpage_location) page m.disk).0 ≡ done tt

-- The memory after the page was read into the page of memory `b` of coremap `c`.
abbrev pub swapped_in :
    {D : Type 0} (vn : Services D) (owner b : ℕ) (c : Coremap) (space : Addrspace) (k : ℕ)
    (pte : PageTableEntry) (swap' : Bitmap)
    → Memory D
    → Memory D
swapped_in vn owner b c space k pte swap' m =
    let o = disk_offset pte.diskpage_location in
    let bytes = (vn.vop_read o (page_bytes (b * page_size) c.ram) m.disk).1 in
    put_table owner space
      (set space.page_table k (record pte { as_ppage = b * page_size; state = mapped }))
      (record m { coremap = record c { ram = put_page (b * page_size) bytes c.ram }; swap = swap' })

pub present_page-swapped :
    {D : Type 0} (vn : Services D) (m : Memory D) (owner vaddr b : ℕ) (c : Coremap)
    (space : Addrspace) (k : ℕ) (pte : PageTableEntry)
    → OnDisk vn m owner vaddr space k pte
    → 0 < b
    → allocate_user_page 1 owner vaddr false m.coremap ≡ ok (b * page_size, c)
    → (swap' : Bitmap) × (present_page vn owner vaddr space k pte m
        ≡ ok (done (b * page_size), swapped_in vn owner b c space k pte swap' m))
      × ValidSwap swap'
      × ((j : ℕ) → bit swap' j ≡ (not (pte.diskpage_location == j) && bit m.swap j))
unfolding present_page
present_page-swapped vn m owner vaddr b c space k pte on_disk pos_b run =
    let (swap', read, valid', same, bits) =
      read_swap_disk_lem vn (record m { coremap = c }) (b * page_size) pte.diskpage_location
        on_disk.valid on_disk.inside on_disk.in_use
        (on_disk.reads (page_bytes (b * page_size) c.ram)) in
    (swap', ground (arith, on_disk.is_swapped, run, read, pos_b), valid', bits)

-- A fault at a page that is on the swap disk: with a free page of memory, vm_fault returns 0 without
-- asking kmalloc. It takes a free page for the address space and puts into it what the disk holds
-- for the entry, maps the entry and the TLB to it, and gives the place on the disk back and no
-- other; the coremap stays valid.
pub vm_fault-swapped :
    {D : Type 0} (vn : Services D) (m : Memory D) (owner addr random j : ℕ) (space : Addrspace)
    (k : ℕ) (pte : PageTableEntry) (got_pte : Option PageTableEntry) (got_lock : Bool)
    → ValidCoremap m.coremap
    → OnDisk vn m owner (page_frame addr) space k pte
    → random < length m.tlb
    → m.coremap.memory_start / page_size ≤ j
    → j < m.coremap.memory_end / page_size
    → is_free (page m.coremap.pages j).state ≡ true
    → (b : ℕ) × (before : ℕ → ℕ) × (m' : Memory D) × (vm_fault vn
          (some owner)
          addr
          random
          got_pte
          got_lock
          m
        ≡ ok (done tt, m'))
      × (is_free (page m.coremap.pages b).state ≡ true)
      × ValidCoremap m'.coremap
      × (m'.coremap.pages ≡ set m.coremap.pages b (user_page owner (page_frame addr) false))
      × ((i : ℕ)
          → i < page_size
          → m'.coremap.ram (b * page_size + i)
            ≡ (vn.vop_read (disk_offset pte.diskpage_location) before m.disk).1 i)
      × Maps (page_frame addr) (b * page_size) m'.tlb
      × (Unmapped (page_frame addr) m.tlb → OnlyMaps (page_frame addr) (b * page_size) m'.tlb)
      × (m'.spaces owner
          ≡ some (record space {
            page_table =
                set space.page_table k (record pte { as_ppage = b * page_size; state = mapped });
          }))
      × ((i : ℕ) → bit m'.swap i ≡ (not (pte.diskpage_location == i) && bit m.swap i))
unfolding vm_fault
vm_fault-swapped {D} vn m owner addr random j space k pte got_pte got_lock valid on_disk slot lo hi
      free_j =
    let vpage = page_frame addr in
    elim (allocate_user_page-first m.coremap owner vpage false valid) [
      | inl (run, all) ↦ absurd (ground (arith, all j lo hi, free_j))
      | inr (b, c', run, valid', lo', free_b, before, pages', ram') ↦
          let ppage = b * page_size in
          let lt = free_in_range m.coremap.pages b free_b in
          let new = user_page owner vpage false in
          let here : page c'.pages b ≡ new =
            ap (λ ps. page ps b) pages' ∙ get_or-set_self m.coremap.pages b new no_page lt in
          let (swap', present, valid_swap, bits) =
            present_page-swapped vn m owner vpage b c' space k pte on_disk
              (omega (arith, lo', valid.above_zero)) run in
          let m2 = swapped_in vn owner b c' space k pte swap' m in
          let installed =
            install-referenced m2 random vpage b
              (omega (arith, ap length pages', length-set m.coremap.pages b new, lt))
              (ap (λ (p : Page). p.ref_bit) here) in
          (
            b,
            page_bytes ppage c'.ram,
            record m2 { tlb = tlb_insert vpage ppage random m.tlb },
            ground (arith, on_disk.is_space, on_disk.in_space, on_disk.entry, present, installed),
            free_b,
            record {
              covers = valid'.covers;
              addressable = valid'.addressable;
              above_zero = valid'.above_zero;
              inside = valid'.inside;
              blocks = valid'.blocks;
              accounted = valid'.accounted;
            },
            pages',
            λ i below. let at : ppage + i - ppage ≡ i = omega arith in ground (arith, at),
            tlb_insert-Maps vpage ppage random m.tlb slot,
            λ bare. tlb_insert-OnlyMaps vpage ppage random m.tlb bare,
            ground arith,
            bits,
          )
    ]
