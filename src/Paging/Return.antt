-- ===== src/Paging/Return.antt =====
-- A page that evict_page takes away comes back with the next fault.
use linux_like_os.Coremap.Victim.{Picked-IsValid}
use linux_like_os.Paging.TlbMaps.{OneEach, Unmapped, OnlyMaps, tlb_invalidate_entry-Unmapped}
use linux_like_os.Paging.NewPage.{ValidCoremap, Maps}
use linux_like_os.Prelude.{
  ℕ, ◌+◌, ◌*◌, ◌/◌, ◌≤◌, ◌<◌, ◌≡◌, refl, sym, ap, ◌∙◌, subst, Bool, true, false, ◌||◌, Option, some,
  arith, ◌==◌, length, set, ok, done,
}
use linux_like_os.Bitmap.{Bitmap}
use linux_like_os.Bitmap.Valid.{bit}
use linux_like_os.Coremap.{page_size, Coremap}
use linux_like_os.Coremap.Pages.{Page, is_free, is_used, is_evicting, page}
use linux_like_os.Coremap.Clock.{Picked, pick_victim-Picked}
use linux_like_os.AddrSpace.{mapped, swapped, PageTableEntry, Addrspace, page_frame}
use linux_like_os.Paging.{Services, Memory, page_bytes, tlb_invalidate_entry}
use linux_like_os.Paging.Faults.{find_entry, vm_fault, evict_page}
use linux_like_os.Paging.Swap.{IsDisk, disk_offset, ValidSwap, HasRoom}
use linux_like_os.Paging.Walk.{find_entry_lem, length-tlb_invalidate_entry}
use linux_like_os.Paging.Evict.{swap_out_lem}
use linux_like_os.Paging.SwapIn.{OnDisk, vm_fault-swapped}
use linux_like_os.Paging.Tenant.{
  Tenant, vaddr, Resident-still, room_still, evicted, evict_page_run, on_disk, free_still,
}

module _ {D : Type 0} (vn : Services D) (m : Memory D) (i b owner : ℕ) (c : Coremap)
    (room : HasRoom vn m i) (tenant : Tenant m b owner) (picked : Picked m.coremap b c) where
  comes_back :
      (index : ℕ) (swap' : Bitmap) (j random : ℕ) (got_pte : Option PageTableEntry)
      (got_lock : Bool)
      → IsDisk vn
      → ValidCoremap m.coremap
      → index < m.swap.nbits
      → bit m.swap index ≡ false
      → ValidSwap swap'
      → swap'.nbits ≡ m.swap.nbits
      → ((k : ℕ) → bit swap' k ≡ (index == k || bit m.swap k))
      → m.coremap.memory_start / page_size ≤ j
      → j < m.coremap.memory_end / page_size
      → is_free (page m.coremap.pages j).state ≡ true
      → random < length m.tlb
      → OneEach m.tlb
      → (b' : ℕ) × (m2 : Memory D) × (vm_fault vn
            (some owner)
            (vaddr vn m i b owner c room tenant picked)
            random
            got_pte
            got_lock
            (evicted vn m i b owner c room tenant picked index swap')
          ≡ ok (done tt, m2))
        × ((a : ℕ)
            → a < page_size
            → m2.coremap.ram (b' * page_size + a) ≡ m.coremap.ram (b * page_size + a))
        × ((space : Addrspace) × (k : ℕ) × (pte : PageTableEntry) × (m2.spaces owner ≡ some space)
            × (find_entry (vaddr vn m i b owner c room tenant picked) space.page_table
                ≡ ok (some (k, pte)))
            × (pte.as_ppage ≡ b' * page_size)
            × (pte.state ≡ mapped))
        × Maps (vaddr vn m i b owner c room tenant picked) (b' * page_size) m2.tlb
        × OnlyMaps (vaddr vn m i b owner c room tenant picked) (b' * page_size) m2.tlb
        × ((k : ℕ) → bit m2.swap k ≡ bit m.swap k)
  comes_back index swap' j random got_pte got_lock is_disk valid lt clear valid' same bits lo hi
        free_j slot one_each =
      let in_use : bit swap' index ≡ true = ground (arith, bits index) in
      let pte1 : PageTableEntry = record (tenant.pte) {
        diskpage_location = index;
        state = swapped;
      } in
      let space1 : Addrspace = record (tenant.space) {
        page_table = set tenant.space.page_table tenant.index pte1;
      } in
      let back =
        on_disk vn m i b owner c room tenant picked index swap' is_disk lt valid' same in_use in
      let aligned = tenant.resident.aligned in
      let back' : OnDisk vn (evicted vn m i b owner c room tenant picked index swap') owner
          (page_frame (vaddr vn m i b owner c room tenant picked)) space1 tenant.index pte1 =
        subst
          (λ v.
            OnDisk vn (evicted vn m i b owner c room tenant picked index swap') owner v space1
              tenant.index pte1)
          (sym aligned) back in
      let (lo', hi', free', ram_same) =
        free_still vn m i b owner c room tenant picked j lo hi free_j in
      let (b', before, m2, run, free_b, valid2, pages2, bytes, maps, only, table, bits2) =
        vm_fault-swapped vn (evicted vn m i b owner c room tenant picked index swap') owner
          (vaddr vn m i b owner c room tenant picked) random j space1 tenant.index pte1 got_pte
          got_lock (Picked-IsValid picked valid) back'
          (omega (
            arith,
            length-tlb_invalidate_entry (vaddr vn m i b owner c room tenant picked) m.tlb,
            slot,
          ))
          lo' hi' free' in
      let gone =
        tlb_invalidate_entry-Unmapped (vaddr vn m i b owner c room tenant picked) m.tlb one_each in
      let bare =
        subst
          (λ v. Unmapped v (tlb_invalidate_entry (vaddr vn m i b owner c room tenant picked) m.tlb))
          (sym aligned) gone in
      let pte2 : PageTableEntry = record pte1 { as_ppage = b' * page_size; state = mapped } in
      let (live, at, same_entry) =
        find_entry_lem (vaddr vn m i b owner c room tenant picked) tenant.index space1.page_table
          pte1 (record pte1 { live = true; as_vpage = (vaddr vn m i b owner c room tenant picked) })
          back.entry refl refl in
      let (live', at', found) =
        find_entry_lem (vaddr vn m i b owner c room tenant picked) tenant.index space1.page_table
          pte1 pte2 back.entry live at in
      let o = disk_offset index in
      let sent = page_bytes (b * page_size) c.ram in
      let (reads, kept) = is_disk.written o sent before m.disk (room.works o sent) in
      (
        b',
        m2,
        run,
        λ a below. bytes a below ∙ kept a below ∙ ram_same (b * page_size + a),
        (
          record space1 { page_table = set space1.page_table tenant.index pte2 },
          tenant.index,
          pte2,
          table,
          found,
          refl,
          refl,
        ),
        subst (λ v. Maps v (b' * page_size) m2.tlb) aligned maps,
        subst (λ v. OnlyMaps v (b' * page_size) m2.tlb) aligned (only bare),
        λ k. ground (arith, bits2 k, bits k, clear),
      )

-- A page that goes to the swap disk comes back with the next fault, its bytes intact. In a valid
-- coremap with a used page and a free one, where each used page belongs to the address space whose
-- page table maps it, the clock hand lies in the coremap, no two slots of the TLB have the same page
-- number, the slot that tlb_random would take is one of the TLB, and the swap disk has room, takes writes
-- and gives back what was written, evict_page returns a page that was used, which
-- the TLB no longer maps; then
-- vm_fault of the owner at the page's address returns 0, the bytes of the evicted page stand in the
-- page that it takes, the entry of the owner and the TLB map the address to it, the
-- TLB to nothing else, and the bitmap of
-- the swap disk is as before the eviction.
pub evict_page-vm_fault :
    {D : Type 0} (vn : Services D) (m : Memory D) (u j i random : ℕ)
    (got_pte : Option PageTableEntry) (got_lock : Bool)
    → IsDisk vn
    → ValidCoremap m.coremap
    → HasRoom vn m i
    → ((b : ℕ) → is_used (page m.coremap.pages b).state ≡ true → (owner : ℕ) × Tenant m b owner)
    → m.coremap.eviction_pointer < m.coremap.memory_end / page_size
    → u < m.coremap.memory_end / page_size
    → is_used (page m.coremap.pages u).state ≡ true
    → m.coremap.memory_start / page_size ≤ j
    → j < m.coremap.memory_end / page_size
    → is_free (page m.coremap.pages j).state ≡ true
    → random < length m.tlb
    → OneEach m.tlb
    → (b : ℕ) × (owner : ℕ) × (vaddr : ℕ) × (m1 : Memory D) × (b' : ℕ) × (m2 : Memory D)
      × (evict_page vn m ≡ ok (some (b * page_size, m1)))
      × (is_used (page m.coremap.pages b).state ≡ true)
      × (is_evicting (page m1.coremap.pages b).state ≡ true)
      × ((page m.coremap.pages b).owner_addrspace ≡ some owner)
      × ((page m.coremap.pages b).owner_vaddr ≡ vaddr)
      × Unmapped vaddr m1.tlb
      × (vm_fault vn (some owner) vaddr random got_pte got_lock m1 ≡ ok (done tt, m2))
      × ((a : ℕ)
          → a < page_size
          → m2.coremap.ram (b' * page_size + a) ≡ m.coremap.ram (b * page_size + a))
      × ((space : Addrspace) × (k : ℕ) × (pte : PageTableEntry) × (m2.spaces owner ≡ some space)
          × (find_entry vaddr space.page_table ≡ ok (some (k, pte)))
          × (pte.as_ppage ≡ b' * page_size)
          × (pte.state ≡ mapped))
      × Maps vaddr (b' * page_size) m2.tlb
      × OnlyMaps vaddr (b' * page_size) m2.tlb
      × ((k : ℕ) → bit m2.swap k ≡ bit m.swap k)
evict_page-vm_fault {D} vn m u j i random got_pte got_lock is_disk valid room tenants hand hu busy
      lo hi free_j slot one_each =
    let (b, c, run, picked) = pick_victim-Picked m.coremap u valid hand hu busy in
    let (owner, tenant) = tenants b picked.was_used in
    let v = vaddr vn m i b owner c room tenant picked in
    let (index, swap', out, lt, clear, valid', same, bits) =
      swap_out_lem vn (record m { coremap = c }) owner v (b * page_size) i tenant.space tenant.index
        tenant.pte (Resident-still vn m i b owner c room tenant picked)
        (room_still vn m i b owner c room tenant picked) in
    let m1 = evicted vn m i b owner c room tenant picked index swap' in
    let (b', m2, fault, bytes, entry, maps, only, bits2) =
      comes_back vn m i b owner c room tenant picked index swap' j random got_pte got_lock is_disk
        valid lt clear valid' same bits lo hi free_j slot one_each in
    (
      b,
      owner,
      v,
      m1,
      b',
      m2,
      evict_page_run vn m i b owner c room tenant picked index swap' run out,
      picked.was_used,
      ap (λ (p : Page). is_evicting p.state) picked.victim,
      tenant.owned,
      refl,
      tlb_invalidate_entry-Unmapped v m.tlb one_each,
      fault,
      bytes,
      entry,
      maps,
      only,
      bits2,
    )
