-- ===== src/Paging/Evict.antt =====
-- evict_page, and the fault that brings the page back.
use linux_like_os.Prelude.{ℕ, ◌<◌, ◌≡◌, true, false, ◌||◌, some, arith, ◌==◌, set, ok}
use linux_like_os.Bitmap.{Bitmap}
use linux_like_os.Bitmap.Valid.{bit}
use linux_like_os.AddrSpace.{mapped, swapped, PageTableEntry, Addrspace, page_frame}
use linux_like_os.Paging.{Services, Memory, page_bytes, tlb_invalidate_entry}
use linux_like_os.Paging.Faults.{find_entry, valid_address, put_table, swap_out}
use linux_like_os.Paging.Swap.{disk_offset, ValidSwap, HasRoom, write_swap_disk_lem}

-- Entry `k` of an address space maps page `vaddr` to the page of memory at `paddr`.
pub record Resident {D : Type 0} (m : Memory D) (owner vaddr paddr : ℕ) (space : Addrspace) (k : ℕ)
    (pte : PageTableEntry) : Type 0 where
  pub is_space : m.spaces owner ≡ some space
  pub entry : find_entry vaddr space.page_table ≡ ok (some (k, pte))
  pub at_page : pte.as_ppage ≡ paddr
  pub is_mapped : pte.state ≡ mapped
  pub aligned : page_frame vaddr ≡ vaddr
  pub in_space : valid_address vaddr space ≡ true

-- The memory after the page went to the swap disk.
abbrev pub swapped_out :
    {D : Type 0} (vn : Services D) (owner vaddr paddr : ℕ) (space : Addrspace) (k : ℕ)
    (pte : PageTableEntry) (index : ℕ) (swap' : Bitmap)
    → Memory D
    → Memory D
swapped_out vn owner vaddr paddr space k pte index swap' m =
    put_table owner space
      (set space.page_table k (record pte { diskpage_location = index; state = swapped }))
      (record m {
        tlb = tlb_invalidate_entry vaddr m.tlb;
        swap = swap';
        disk = (vn.vop_write (disk_offset index) (page_bytes paddr m.coremap.ram) m.disk).1;
      })

pub swap_out_lem :
    {D : Type 0} (vn : Services D) (m : Memory D) (owner vaddr paddr i : ℕ) (space : Addrspace)
    (k : ℕ) (pte : PageTableEntry)
    → Resident m owner vaddr paddr space k pte
    → HasRoom vn m i
    → (index : ℕ) × (swap' : Bitmap) × (swap_out vn owner vaddr paddr m
        ≡ ok (swapped_out vn owner vaddr paddr space k pte index swap' m))
      × (index < m.swap.nbits)
      × (bit m.swap index ≡ false)
      × ValidSwap swap'
      × (swap'.nbits ≡ m.swap.nbits)
      × ((j : ℕ) → bit swap' j ≡ (index == j || bit m.swap j))
unfolding swap_out
swap_out_lem vn m owner vaddr paddr i space k pte res room =
    let m1 : Memory _ = record m { tlb = tlb_invalidate_entry vaddr m.tlb } in
    let room' : HasRoom vn m1 i = record {
      valid = room.valid;
      small = room.small;
      inside = room.inside;
      clear = room.clear;
      works = room.works;
    } in
    let (index, swap', run, lt, clear, valid, same, bits) =
      write_swap_disk_lem vn m1 paddr i room' in
    (
      index,
      swap',
      ground (arith, res.is_space, res.entry, res.at_page, res.is_mapped, run),
      lt,
      clear,
      valid,
      same,
      bits,
    )
