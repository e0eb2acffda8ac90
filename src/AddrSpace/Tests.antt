-- ===== src/AddrSpace/Tests.antt =====
-- The theorems of the address space at two regions and at one mapped page.
use linux_like_os.Coremap.Valid.{IsValid}
use linux_like_os.Coremap.Tests.{six, six-IsValid}
use linux_like_os.AddrSpace.Destroy.{KernelOnly, Returned, as_destroy-Returned}
use linux_like_os.Prelude.{ℕ, zero, suc, ◌%◌, ◌≤◌, ◌<◌, ◌≡◌, refl, true, false, [], ◌∷◌, arith, ok}
use linux_like_os.Bitmap.{Bitmap}
use linux_like_os.Coremap.{page_size, Coremap}
use linux_like_os.AddrSpace.Regions.{region, region_end, EndInside, as_prepare_load_lem}
use linux_like_os.AddrSpace.{
  mapped, PageTableEntry, Region, Addrspace, as_prepare_load, Kfree, as_destroy,
}

abbrev text : Region
text = record {
  start = 4194304;
  size = 8192;
  npages = 2;
  read = true;
  write = false;
  execute = true;
}

-- The entry of page 5 of the coremap `six`.
abbrev entry : PageTableEntry
entry = record {
  live = true;
  as_vpage = 4194304;
  as_ppage = 20480;
  vpage_permission = 0;
  state = mapped;
  diskpage_location = 0;
}

abbrev one_region : Addrspace
one_region = record { regions = text ∷ []; page_table = entry ∷ []; heap_start = 0; heap_end = 0 }

text-EndInside : EndInside (text ∷ [])
text-EndInside zero lt = omega arith
text-EndInside (suc k) lt = absurd (omega arith)

as_prepare_load_lem_example :
    (heap : ℕ) × (as_prepare_load one_region
      ≡ ok (record one_region { heap_start = heap; heap_end = heap }))
    × (heap % page_size ≡ 0)
    × ((k : ℕ) → k < 1 → region_end (region (text ∷ []) k) ≤ heap)
    × ((a : ℕ)
        → a % page_size ≡ 0
        → ((k : ℕ) → k < 1 → region_end (region (text ∷ []) k) ≤ a)
        → heap ≤ a)
as_prepare_load_lem_example = as_prepare_load_lem one_region text-EndInside

abbrev swap_map : Bitmap
swap_map = record { nbits = 8; v = 0 ∷ [] }

abbrev no_slabs : Kfree
no_slabs = record { entry = λ pte c. c; region = λ r c. c; space = λ as_ c. c }

unchanged : (c : Coremap) → IsValid c → KernelOnly c c
unchanged c valid = record { valid = valid; same_length = refl; kept = λ b loose. refl }

as_destroy-Returned_example :
    (c' : Coremap) × (as_destroy no_slabs one_region six swap_map ≡ ok (c', swap_map))
    × Returned (entry ∷ []) six c'
as_destroy-Returned_example =
    as_destroy-Returned no_slabs one_region six swap_map (λ x c h. unchanged c h)
      (λ x c h. unchanged c h) (λ x c h. unchanged c h) six-IsValid
      ((5, refl, refl, refl, omega arith, refl, refl), tt, tt)
