-- ===== src/Paging/Faults.antt =====
-- vm_fault and evict_page of kern/vm/vm.c.
use linux_like_os.Prelude.{
  ℕ, ◌+◌, ◌-◌, ◌*◌, ◌/◌, ◌%◌, ◌^◌, Bool, true, false, not, ◌&&◌, ◌||◌, Option, none, some, List, [],
  ◌∷◌, ◌++◌, ltb, leb, ◌==◌, if◌then◌else◌, set, Run, ok, panic, ◌>>=◌, ◌>>◌, kassert, fetch,
  enomem, efault, Reply, done, fail,
}
use linux_like_os.Coremap.{page_size, Coremap, allocate_user_page, pick_victim}
use linux_like_os.Coremap.Pages.{Page}
use linux_like_os.AddrSpace.{
  mapped, unmapped, swapped, PageTableEntry, Region, Addrspace, page_frame,
}
use linux_like_os.Paging.{
  Services, Memory, read_swap_disk, write_swap_disk, tlb_invalidate_entry, tlb_insert,
}

-- The walk along a page table to the entry of a page: its index and the entry.
unfoldable pub find_entry : ℕ → List PageTableEntry → Run (Option (ℕ × PageTableEntry))
find_entry vpage [] = ok none
find_entry vpage (pte ∷ ptes) =
    let rest = find_entry vpage ptes in
    (do
      kassert pte.live
      if pte.as_vpage == vpage then ok (some (0, pte)) else (do
        found ← rest
        ok (elim found [ none ↦ none | some (k, other) ↦ some (k + 1, other) ])))

-- `USERSTACK - VM_STACKPAGES * PAGE_SIZE`
abbrev pub stackbase : ℕ
stackbase = 2 ^ 31 - 128 * page_size

abbrev pub in_region : ℕ → List Region → Bool
in_region a [] = false
in_region a (r ∷ rs) = leb r.start a && ltb a ((r.start + r.size) % 2 ^ 32) || in_region a rs

-- The stack, the heap and the regions.
unfoldable pub valid_address : ℕ → Addrspace → Bool
valid_address a as_ =
    leb stackbase a && ltb a (2 ^ 31)
    || leb as_.heap_start a && ltb a as_.heap_end
    || in_region a as_.regions

-- Address space `owner` with its page table written.
abbrev pub put_table :
    {D : Type 0} → (owner : ℕ) → Addrspace → List PageTableEntry → Memory D → Memory D
put_table owner space ptes m = record m {
  spaces = λ a. if a == owner then some (record space { page_table = ptes }) else m.spaces a;
}

-- An entry was found: the page, which is read from the swap disk first if it is there. The page of an
-- entry that is UNMAPPED is 0.
unfoldable pub present_page :
    {D : Type 0}
    → Services D
    → (owner faultaddress : ℕ) → Addrspace
    → (k : ℕ) → PageTableEntry
    → Memory D
    → Run (Reply ℕ × Memory D)
present_page vn owner faultaddress space k pte m = elim (pte.state) [
  | unmapped ↦ ok (done 0, m)
  | mapped ↦ ok (done pte.as_ppage, m)
  | swapped ↦ do
    (physical_page, c) ← allocate_user_page 1 owner faultaddress false m.coremap
    let m1 : Memory _ = record m { coremap = c }
    if physical_page == 0 then ok (fail enomem, m1) else (do
      (result, m2) ← read_swap_disk vn physical_page pte.diskpage_location true m1
      let pte' : PageTableEntry = record pte { as_ppage = physical_page; state = mapped }
      elim result [
        | fail e ↦ panic
        | done u ↦ ok (done physical_page, put_table owner space (set space.page_table k pte') m2)
      ])
]

-- No entry was found: a new one is linked to the page table before its page is allocated, and stays
-- there when it is freed because there is no page. `junk` is what kmalloc returned, unless it failed.
unfoldable pub new_page :
    {D : Type 0}
    → Services D
    → (owner faultaddress : ℕ) → Addrspace
    → (got_pte : Option PageTableEntry) → (got_lock : Bool) → Memory D
    → Run (Reply ℕ × Memory D)
new_page vn owner faultaddress space none got_lock m = ok (fail enomem, m)
new_page vn owner faultaddress space (some junk) false m =
    ok (fail enomem, record m { coremap = vn.kfree_entry (vn.kmalloc_entry m.coremap) })
new_page vn owner faultaddress space (some junk) true m = do
  let pte : PageTableEntry = record junk { live = true; as_vpage = faultaddress; state = unmapped }
  (physical_page, c) ← allocate_user_page 1 owner faultaddress false (vn.kmalloc_entry m.coremap)
  let linked = λ (c' : Coremap) (new : PageTableEntry).
      put_table owner space (space.page_table ++ new ∷ []) (record m { coremap = c' })
  ok (
      if physical_page == 0
      then (fail enomem, linked (vn.kfree_entry c) (record pte { live = false }))
      else (done physical_page, linked c (record pte { as_ppage = physical_page; state = mapped })))

abbrev pub referenced : Page → Page
referenced p = record p { ref_bit = true }

-- The mapping enters the TLB, and the page counts as referenced.
unfoldable pub install :
    {D : Type 0} → (random faultaddress physical_page : ℕ) → Memory D → Run (Memory D)
install random faultaddress physical_page m = do
  p ← fetch m.coremap.pages (physical_page / page_size)
  let ps : List Page = set m.coremap.pages (physical_page / page_size) (referenced p)
  ok (record m {
    tlb = tlb_insert faultaddress physical_page random m.tlb;
    coremap = record (m.coremap) { pages = ps };
  })

-- `owner` is what proc_getas returns, and `random` the slot that tlb_random takes.
unfoldable pub vm_fault :
    {D : Type 0}
    → Services D
    → (owner : Option ℕ) → (faultaddress random : ℕ) → (got_pte : Option PageTableEntry)
    → (got_lock : Bool) → Memory D
    → Run (Reply (Unit {0}) × Memory D)
unfolding find_entry present_page new_page install
vm_fault vn none faultaddress random got_pte got_lock m = ok (fail efault, m)
vm_fault vn (some owner) faultaddress random got_pte got_lock m = elim (m.spaces owner) [
  | none ↦ panic
  | some space ↦
      let vpage = page_frame faultaddress in
      if not (valid_address vpage space) then ok (fail efault, m) else (do
        found ← find_entry vpage space.page_table
        (result, m') ← elim found [
          | some (k, pte) ↦ present_page vn owner vpage space k pte m
          | none ↦ new_page vn owner vpage space got_pte got_lock m
        ]
        elim result [
          | fail e ↦ ok (fail e, m')
          | done physical_page ↦ do m'' ← install random vpage physical_page m'; ok (done tt, m'')
        ])
]

-- The page of the entry goes to the swap disk, which must have room.
unfoldable pub swap_out :
    {D : Type 0} → Services D → (owner evicted_vaddr evicted_paddr : ℕ) → Memory D → Run (Memory D)
unfolding find_entry
swap_out vn owner evicted_vaddr evicted_paddr m = elim (m.spaces owner) [
  | none ↦ panic
  | some space ↦ do
    found ← find_entry evicted_vaddr space.page_table
    elim found [
      | none ↦ panic
      | some (k, pte) ↦ do
        kassert (pte.as_ppage == evicted_paddr)
        elim (pte.state) [
          | unmapped ↦ panic
          | swapped ↦ panic
          | mapped ↦ do
            let m1 : Memory _ = record m { tlb = tlb_invalidate_entry evicted_vaddr m.tlb }
            (error, m2) ← write_swap_disk vn evicted_paddr m1
            elim error [
              | fail e ↦ panic
              | done disk_block_index ↦
                  let pte' : PageTableEntry = record pte {
                    diskpage_location = disk_block_index;
                    state = swapped;
                  } in
                  ok (put_table owner space (set space.page_table k pte') m2)
            ]
        ]
    ]
]

-- The address of the page; `none` means that the fuel of the clock ran out.
unfoldable pub evict_page : {D : Type 0} → Services D → Memory D → Run (Option (ℕ × Memory D))
unfolding swap_out
evict_page vn m = do
  picked ← pick_victim m.coremap
  elim picked [
    | none ↦ ok none
    | some (i, c) ↦ do
      p ← fetch c.pages i
      elim (p.owner_addrspace) [
        | none ↦ panic
        | some owner ↦ do
          m' ← swap_out vn owner p.owner_vaddr (i * page_size) (record m { coremap = c })
          ok (some (i * page_size, m'))
      ]
  ]
