-- ===== src/Paging/Tests.antt =====
-- The theorems on paging at a coremap of six pages and a swap disk of eight.
use linux_like_os.Prelude.Int.{pos, negsuc, ◌+ℤ◌}
use linux_like_os.Bitmap.Valid.{bit}
use linux_like_os.Coremap.Valid.{nonfree}
use linux_like_os.Coremap.Blocks.{empty-IsBlock, Blocks}
use linux_like_os.Paging.TlbMaps.{Unmapped, OnlyMaps}
use linux_like_os.Paging.NewPage.{ValidCoremap, Maps, new_entry, vm_fault-new}
use std.Path.{fun_ext}
use linux_like_os.Prelude.{
  ℕ, zero, suc, ◌+◌, ◌-◌, ◌*◌, ◌≤◌, ◌<◌, ◌≡◌, refl, ap, ◌≢◌, ◌⊎◌, inr, Bool, true, false, ◌&&◌,
  none, some, List, [], ◌∷◌, arith, ltb, leb, ◌==◌, if◌then◌else◌, get_or, set, Run, ok, panic,
  enomem, Reply, done, fail,
}
use linux_like_os.Bitmap.{Bitmap}
use linux_like_os.Coremap.{page_size, Coremap, take_free, user_page, allocate_user_page}
use linux_like_os.Coremap.Pages.{Page, is_free, is_used, is_evicting, no_page, page}
use linux_like_os.Coremap.Tests.{six, single-IsBlock, six-IsValid}
use linux_like_os.AddrSpace.{mapped, PageTableEntry, Region, Addrspace}
use linux_like_os.Paging.{
  Services, TlbEntry, Memory, read_swap_disk, write_swap_disk, invalid_entry,
}
use linux_like_os.Paging.Faults.{find_entry, valid_address, vm_fault, evict_page}
use linux_like_os.Paging.Swap.{
  IsDisk, disk_offset, ValidSwap, HasRoom, write_swap_disk-read_swap_disk,
}
use linux_like_os.Paging.Sbrk.{with_heap, sys_sbrk}
use linux_like_os.Paging.Shrink.{GaveBack}
use linux_like_os.Paging.Range.{outside}
use linux_like_os.Paging.Shrink.{GaveBack}
use linux_like_os.Paging.Shrinking.{sys_sbrk-shrinks}
use linux_like_os.Paging.Copy.{Grants, copy_page, copy_entries, copy_regions, as_copy}
use linux_like_os.Paging.Forked.{IsCopy, as_copy-IsCopy}
use linux_like_os.Paging.Dangling.{vm_fault-dangling}
use linux_like_os.Paging.Return.{evict_page-vm_fault}
use linux_like_os.Paging.Tenant.{Tenant}

-- A disk that keeps its bytes by offset.
abbrev byte_disk : Services (ℕ → ℕ)
byte_disk = record {
  vop_read = λ o page d. (done tt, λ i. if ltb i page_size then d (o + i) else page i);
  vop_write =
      λ o bytes d. (done tt, λ a. if leb o a && ltb a (o + page_size) then bytes (a - o) else d a);
  kmalloc_entry = λ c. c;
  kfree_entry = λ c. c;
}

byte_disk-IsDisk : IsDisk byte_disk
byte_disk-IsDisk = record {
  written = λ o bytes page d h.
      (refl, λ i below. let here : o + i - o ≡ i = omega arith in ground (arith, here));
  apart = λ o o' bytes page d away.
      ap (λ (f : ℕ → ℕ). (done tt, f)) (fun_ext (λ i. ground (arith, away)));
}

abbrev swap_map : Bitmap
swap_map = record { nbits = 8; v = 0 ∷ [] }

-- The entry of page 5 of the coremap `six`.
abbrev entry : PageTableEntry
entry = record {
  live = true;
  as_vpage = 4096;
  as_ppage = 20480;
  vpage_permission = 0;
  state = mapped;
  diskpage_location = 0;
}

abbrev data_region : Region
data_region = record {
  start = 4096;
  size = 8192;
  npages = 2;
  read = true;
  write = true;
  execute = false;
}

abbrev space : Addrspace
space = record {
  regions = data_region ∷ [];
  page_table = entry ∷ [];
  heap_start = 12288;
  heap_end = 12288;
}

abbrev idle_tlb : List TlbEntry
idle_tlb = invalid_entry 0 ∷ invalid_entry 1 ∷ []

abbrev memory : Memory (ℕ → ℕ)
memory = record {
  spaces = λ a. if a == 70 then some space else none;
  coremap = six;
  swap = swap_map;
  disk = λ a. 0;
  tlb = idle_tlb;
}

memory-HasRoom : HasRoom byte_disk memory 0
memory-HasRoom = record {
  valid = record {
    small = omega arith;
    words = refl;
    bytes = λ ix. elim ix as (λ k. get_or (0 ∷ []) k 0 < 256) [
      | zero ↦ omega arith
      | suc k ↦ omega arith
    ];
    leftover = λ i lo hi. absurd (omega (arith, lo, hi));
  };
  small = omega arith;
  inside = omega arith;
  clear = refl;
  works = λ o bytes. refl;
}

memory-Tenant :
    (b : ℕ) → is_used (page six.pages b).state ≡ true → (owner : ℕ) × Tenant memory b owner
unfolding find_entry valid_address
memory-Tenant zero h = absurd (ground (arith, h))
memory-Tenant (suc zero) h = absurd (ground (arith, h))
memory-Tenant (suc (suc zero)) h = absurd (ground (arith, h))
memory-Tenant (suc (suc (suc zero))) h = absurd (ground (arith, h))
memory-Tenant (suc (suc (suc (suc zero)))) h = absurd (ground (arith, h))
memory-Tenant (suc (suc (suc (suc (suc zero))))) h = (
  70,
  record {
    owned = refl;
    space = space;
    index = 0;
    pte = entry;
    resident = record {
      is_space = refl;
      entry = refl;
      at_page = refl;
      is_mapped = refl;
      aligned = refl;
      in_space = refl;
    };
  },
)
memory-Tenant (suc (suc (suc (suc (suc (suc b)))))) h = absurd (ground (arith, h))

write_swap_disk-read_swap_disk_example :
    (index : ℕ) × (m1 : Memory (ℕ → ℕ)) × (m2 : Memory (ℕ → ℕ)) × (write_swap_disk byte_disk 20480
        memory
      ≡ ok (done index, m1))
    × (index < 8)
    × (bit swap_map index ≡ false)
    × (bit m1.swap index ≡ true)
    × ((other : ℕ) (page : ℕ → ℕ)
        → other < 8
        → other ≢ index
        → byte_disk.vop_read (disk_offset other) page m1.disk
          ≡ byte_disk.vop_read (disk_offset other) page (λ a. 0))
    × (read_swap_disk byte_disk 8192 index true (record m1 { coremap = six }) ≡ ok (done tt, m2))
    × ((i : ℕ) → i < page_size → m2.coremap.ram (8192 + i) ≡ six.ram (20480 + i))
    × ((a : ℕ) → (a < 8192) ⊎ (8192 + page_size ≤ a) → m2.coremap.ram a ≡ six.ram a)
    × ValidSwap m2.swap
    × ((j : ℕ) → bit m2.swap j ≡ bit swap_map j)
write_swap_disk-read_swap_disk_example =
    write_swap_disk-read_swap_disk byte_disk memory six 20480 8192 0 byte_disk-IsDisk memory-HasRoom

vm_fault-new_example :
    (b : ℕ) × (m' : Memory (ℕ → ℕ)) × (vm_fault byte_disk (some 70) 8200 1 (some entry) true memory
      ≡ ok (done tt, m'))
    × (is_free (page six.pages b).state ≡ true)
    × ValidCoremap m'.coremap
    × (m'.coremap.pages ≡ set six.pages b (user_page 70 8192 false))
    × ((i : ℕ) → i < page_size → m'.coremap.ram (b * page_size + i) ≡ 0)
    × Maps 8192 (b * page_size) m'.tlb
    × (m'.spaces 70
        ≡ some (record space { page_table = entry ∷ new_entry entry 8192 (b * page_size) ∷ [] }))
    × ((other : ℕ) → other ≢ 70 → m'.spaces other ≡ memory.spaces other)
vm_fault-new_example =
    vm_fault-new byte_disk memory 70 8200 1 3 space entry six-IsValid refl
      (inr (inr (0, data_region, refl, omega arith, omega arith, omega arith)))
      (refl, (λ h. absurd (omega (arith, h))), tt) (omega arith) (omega arith) (omega arith) refl

evict_page-vm_fault_example :
    (b : ℕ) × (owner : ℕ) × (vaddr : ℕ) × (m1 : Memory (ℕ → ℕ)) × (b' : ℕ) × (m2 : Memory (ℕ → ℕ))
    × (evict_page byte_disk memory ≡ ok (some (b * page_size, m1)))
    × (is_used (page six.pages b).state ≡ true)
    × (is_evicting (page m1.coremap.pages b).state ≡ true)
    × ((page six.pages b).owner_addrspace ≡ some owner)
    × ((page six.pages b).owner_vaddr ≡ vaddr)
    × Unmapped vaddr m1.tlb
    × (vm_fault byte_disk (some owner) vaddr 1 none false m1 ≡ ok (done tt, m2))
    × ((a : ℕ) → a < page_size → m2.coremap.ram (b' * page_size + a) ≡ six.ram (b * page_size + a))
    × ((after : Addrspace) × (k : ℕ) × (pte : PageTableEntry) × (m2.spaces owner ≡ some after)
        × (find_entry vaddr after.page_table ≡ ok (some (k, pte)))
        × (pte.as_ppage ≡ b' * page_size)
        × (pte.state ≡ mapped))
    × Maps vaddr (b' * page_size) m2.tlb
    × OnlyMaps vaddr (b' * page_size) m2.tlb
    × ((k : ℕ) → bit m2.swap k ≡ bit swap_map k)
evict_page-vm_fault_example =
    evict_page-vm_fault byte_disk memory 5 3 0 1 none false byte_disk-IsDisk six-IsValid
      memory-HasRoom memory-Tenant (omega arith) (omega arith) refl (omega arith) (omega arith) refl
      (omega arith) ((λ x. ground (arith, x), tt), (tt, tt))

-- Two pages below `memory_start` and one in use.
abbrev full_pages : List Page
full_pages = no_page ∷ no_page ∷ user_page 70 4096 false ∷ []

abbrev full : Coremap
full = record {
  memory_start = 8192;
  memory_end = 12288;
  pages = full_pages;
  allocated = pos 1;
  eviction_pointer = 2;
  ram = λ a. 1;
}

full-Blocks : Blocks full_pages
full-Blocks zero h = empty-IsBlock full_pages 0 h
full-Blocks (suc zero) h = empty-IsBlock full_pages 1 h
full-Blocks (suc (suc zero)) h = single-IsBlock full_pages 2 h refl
full-Blocks (suc (suc (suc b))) h = absurd (omega (arith, h))

full-ValidCoremap : ValidCoremap full
unfolding nonfree ◌+ℤ◌
full-ValidCoremap = record {
  covers = refl;
  addressable = omega arith;
  above_zero = omega arith;
  inside = omega arith;
  blocks = full-Blocks;
  accounted = refl;
}

all_full : (j : ℕ) → 2 ≤ j → j < 3 → is_free (page full_pages j).state ≡ false
all_full j lo hi = let here : j ≡ 2 = omega arith in rw here refl

vm_fault-dangling_example :
    (m' : Memory (ℕ → ℕ)) × (vm_fault byte_disk
        (some 70)
        8200
        1
        (some entry)
        true
        (record memory { coremap = full })
      ≡ ok (fail enomem, m'))
    × (vm_fault byte_disk (some 70) 8200 0 (some entry) true m' ≡ panic)
unfolding valid_address
vm_fault-dangling_example =
    vm_fault-dangling byte_disk (record memory { coremap = full }) 70 8200 1 0 space entry
      (some entry) true full-ValidCoremap refl refl (refl, (λ h. absurd (omega (arith, h))), tt)
      all_full

-- The page of the entry lies in the heap.
abbrev heap_space : Addrspace
heap_space = record space { heap_start = 4096 }

abbrev heap_memory : Memory (ℕ → ℕ)
heap_memory = record memory { spaces = λ a. if a == 70 then some heap_space else none }

sys_sbrk-shrinks_example :
    (m' : Memory (ℕ → ℕ)) × (sys_sbrk (λ pte c. c) 70 (negsuc 8191) heap_memory
      ≡ ok (
          some
            (done 12288, with_heap 70 (record heap_space { page_table = []; heap_end = 4096 }) m')))
    × GaveBack heap_memory m' (entry ∷ []) []
unfolding outside
sys_sbrk-shrinks_example =
    sys_sbrk-shrinks (λ pte c. c) heap_memory 70 2 heap_space
      (λ pte c valid. record { valid = valid; same_length = refl; kept = λ b loose. refl })
      ((λ user. absurd (omega (arith, user))), ((λ user. tt), tt)) refl (omega arith) (omega arith)
      (omega arith) refl six-IsValid ((5, refl, refl, refl, omega arith, refl, refl), tt, tt)
      (tt, tt) (refl, tt)

abbrev all_granted : Grants
all_granted = record { entry = λ i. some entry; entry_lock = λ i. true; region = λ i. true }

as_copy-IsCopy_example :
    (m' : Memory (ℕ → ℕ)) × ValidCoremap m'.coremap
    × ((as_copy byte_disk all_granted true 71 space memory ≡ ok (fail enomem, m'))
        ⊎ ((new : Addrspace) × (as_copy byte_disk all_granted true 71 space memory
              ≡ ok (done new, m'))
            × IsCopy space new memory m'))
as_copy-IsCopy_example =
    as_copy-IsCopy byte_disk all_granted true 71 space memory six-IsValid
      ((5, refl, refl, refl, omega arith, refl, refl), tt, tt)

-- The page of the entry is copied to page 2.
abbrev copied_to_two : Run (Reply Addrspace × Memory (ℕ → ℕ)) → Bool
copied_to_two panic = false
copied_to_two (ok (fail e, m)) = false
copied_to_two (ok (done new, m)) = elim (new.page_table) [
  | [] ↦ false
  | pte ∷ ptes ↦ pte.as_vpage == 4096 && pte.as_ppage == 8192
]

copied_at_two : copied_to_two (as_copy byte_disk all_granted true 71 space memory) ≡ true
unfolding as_copy copy_entries copy_regions copy_page allocate_user_page take_free
copied_at_two = refl
