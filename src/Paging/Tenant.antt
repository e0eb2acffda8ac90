-- ===== src/Paging/Tenant.antt =====
-- What evict_page leaves for the next fault of the page.
use linux_like_os.Coremap.Victim.{Picked-alike}
use linux_like_os.Prelude.{
  ℕ, ◌*◌, ◌/◌, ◌≤◌, ◌<◌, ◌≡◌, refl, ap, ◌∙◌, true, some, arith, set, get_elem?-some, ok, fetch,
}
use linux_like_os.Bitmap.{Bitmap}
use linux_like_os.Bitmap.Valid.{bit}
use linux_like_os.Coremap.{page_size, Coremap, pick_victim}
use linux_like_os.Coremap.Pages.{Page, is_free, no_page, page}
use linux_like_os.Coremap.Clock.{Picked}
use linux_like_os.AddrSpace.{swapped, PageTableEntry, Addrspace}
use linux_like_os.Paging.{Services, Memory, page_bytes}
use linux_like_os.Paging.Faults.{valid_address, swap_out, evict_page}
use linux_like_os.Paging.Swap.{IsDisk, disk_offset, ValidSwap, HasRoom}
use linux_like_os.Paging.Walk.{find_entry_lem}
use linux_like_os.Paging.Evict.{Resident, swapped_out}
use linux_like_os.Paging.SwapIn.{OnDisk}

-- Page `b` of memory belongs to the address space that the coremap names, whose page table maps it.
pub record Tenant {D : Type 0} (m : Memory D) (b owner : ℕ) : Type 0 where
  pub owned : (page m.coremap.pages b).owner_addrspace ≡ some owner
  pub space : Addrspace
  pub index : ℕ
  pub pte : PageTableEntry
  pub resident :
      Resident m owner (page m.coremap.pages b).owner_vaddr (b * page_size) space index pte

module _ {D : Type 0} (vn : Services D) (m : Memory D) (i b owner : ℕ) (c : Coremap)
    (room : HasRoom vn m i) (tenant : Tenant m b owner) (picked : Picked m.coremap b c) where
  abbrev pub vaddr : ℕ
  vaddr = (page m.coremap.pages b).owner_vaddr

  abbrev pub evicting : Memory D
  evicting = record m { coremap = c }

  pub Resident-still :
      Resident evicting owner vaddr (b * page_size) tenant.space tenant.index tenant.pte
  Resident-still = record {
    is_space = tenant.resident.is_space;
    entry = tenant.resident.entry;
    at_page = tenant.resident.at_page;
    is_mapped = tenant.resident.is_mapped;
    aligned = tenant.resident.aligned;
    in_space = tenant.resident.in_space;
  }

  pub room_still : HasRoom vn evicting i
  room_still = record {
    valid = room.valid;
    small = room.small;
    inside = room.inside;
    clear = room.clear;
    works = room.works;
  }

  -- The memory behind evict_page, given the place on the swap disk.
  abbrev pub evicted : (index : ℕ) → Bitmap → Memory D
  evicted index swap' =
      swapped_out vn owner vaddr (b * page_size) tenant.space tenant.index tenant.pte index swap'
        evicting

  pub evict_page_run :
      (index : ℕ) (swap' : Bitmap)
      → pick_victim m.coremap ≡ ok (some (b, c))
      → swap_out vn owner vaddr (b * page_size) evicting ≡ ok (evicted index swap')
      → evict_page vn m ≡ ok (some (b * page_size, evicted index swap'))
  unfolding evict_page
  evict_page_run index swap' run out =
      let there =
        get_elem?-some c.pages b no_page (omega (arith, picked.inside, picked.same_length)) in
      let fetched : fetch c.pages b ≡ ok (page c.pages b) = ground (arith, there) in
      let owned : (page c.pages b).owner_addrspace ≡ some owner =
        ap (λ (p : Page). p.owner_addrspace) picked.victim ∙ tenant.owned in
      let at : (page c.pages b).owner_vaddr ≡ vaddr =
        ap (λ (p : Page). p.owner_vaddr) picked.victim in
      ground (arith, run, fetched, owned, at, out)

  pub on_disk :
      (index : ℕ) (swap' : Bitmap)
      → IsDisk vn
      → index < m.swap.nbits
      → ValidSwap swap'
      → swap'.nbits ≡ m.swap.nbits
      → bit swap' index ≡ true
      → OnDisk vn
          (evicted index swap')
          owner
          vaddr
          (record (tenant.space) {
            page_table =
                set tenant.space.page_table tenant.index
                  (record (tenant.pte) { diskpage_location = index; state = swapped });
          })
          tenant.index
          (record (tenant.pte) { diskpage_location = index; state = swapped })
  unfolding valid_address
  on_disk index swap' is_disk lt valid same in_use =
      let new : PageTableEntry = record (tenant.pte) {
        diskpage_location = index;
        state = swapped;
      } in
      let (live, at, same_entry) =
        find_entry_lem vaddr tenant.index tenant.space.page_table tenant.pte
          (record (tenant.pte) { live = true; as_vpage = vaddr }) tenant.resident.entry refl refl in
      let (live', at', found) =
        find_entry_lem vaddr tenant.index tenant.space.page_table tenant.pte new
          tenant.resident.entry live at in
      record {
        is_space = ground arith;
        entry = found;
        is_swapped = refl;
        in_space = tenant.resident.in_space;
        valid = valid;
        inside = omega (arith, lt, same);
        in_use = in_use;
        reads = λ page.
            (is_disk.written (disk_offset index) (page_bytes (b * page_size) c.ram) page m.disk
              (room.works (disk_offset index) (page_bytes (b * page_size) c.ram))).0;
      }

  -- What the fault needs of the coremap in which the page is being evicted.
  pub free_still :
      (j : ℕ)
      → m.coremap.memory_start / page_size ≤ j
      → j < m.coremap.memory_end / page_size
      → is_free (page m.coremap.pages j).state ≡ true
      → (c.memory_start / page_size ≤ j)
        × (j < c.memory_end / page_size)
        × (is_free (page c.pages j).state ≡ true)
        × ((a : ℕ) → c.ram a ≡ m.coremap.ram a)
  free_still j lo hi free_j =
      let start_same = ap (λ (d : Coremap). d.memory_start) picked.rest in
      let end_same = ap (λ (d : Coremap). d.memory_end) picked.rest in
      let ram_same = ap (λ (d : Coremap). d.ram) picked.rest in
      (
        omega (arith, start_same, lo),
        omega (arith, end_same, hi),
        (Picked-alike picked j).0 ∙ free_j,
        λ a. ap (λ r. r a) ram_same,
      )
