-- ===== src/Paging/Sbrk.antt =====
-- sys_sbrk of kern/syscall/proc_syscalls.c.
use linux_like_os.Prelude.{
  ℕ, zero, suc, ◌+◌, ◌-◌, ◌*◌, ◌/◌, ◌%◌, ◌^◌, Bool, not, ◌&&◌, ◌||◌, Option, none, some, List, [],
  ◌∷◌, ltb, leb, ◌==◌, if◌then◌else◌, Run, ok, panic, ◌>>=◌, ◌>>◌, kassert, enomem, einval, Reply,
  done, fail,
}
use linux_like_os.Prelude.Int.{ℤ, pos, negsuc, pos_part, neg_part, ◌+ℤ◌, ltb_ℤ}
use linux_like_os.Coremap.{page_size, Coremap, release_physical_page}
use linux_like_os.AddrSpace.{is_swapped, PageTableEntry, Addrspace, unmark_swap_bitmap}
use linux_like_os.Paging.{Memory, tlb_invalidate_entry}
use linux_like_os.Paging.Faults.{stackbase}

-- The pages of a range of the heap leave the page table. `none` means that the loop goes round again
-- because the page is being evicted: it waits for the end of the eviction. `kfree` is what becomes of
-- the coremap when an entry and its lock are freed.
unfoldable pub remove_page :
    {D : Type 0}
    → (kfree : PageTableEntry → Coremap → Coremap) → (remove_vaddr : ℕ) → List PageTableEntry
    → Memory D
    → Run (Option (List PageTableEntry × Memory D))
remove_page kfree remove_vaddr [] m = ok (some ([], m))
remove_page kfree remove_vaddr (pte ∷ ptes) m =
    let rest = remove_page kfree remove_vaddr ptes m in
    (do
      kassert pte.live
      if pte.as_vpage == remove_vaddr
          then (if is_swapped pte.state
              then (do
                swap ← unmark_swap_bitmap pte.diskpage_location m.swap
                ok (some (ptes, record m { coremap = kfree pte m.coremap; swap = swap })))
              else (do
                (err, c) ← release_physical_page pte.as_ppage m.coremap
                let m' : Memory _ = record m {
                  coremap = kfree pte c;
                  tlb = tlb_invalidate_entry remove_vaddr m.tlb;
                }
                ok (if err == 0 then some (ptes, m') else none)))
          else (do
            r ← rest
            ok (elim r [ none ↦ none | some (ptes', m') ↦ some (pte ∷ ptes', m') ])))

-- for (i = 0; i < -num_pages; i++), with the rounds left
unfoldable pub remove_pages :
    {D : Type 0}
    → (kfree : PageTableEntry → Coremap → Coremap) → (rounds i old_heap_end : ℕ)
    → List PageTableEntry
    → Memory D
    → Run (Option (List PageTableEntry × Memory D))
unfolding remove_page
remove_pages kfree zero i old_heap_end ptes m = ok (some (ptes, m))
remove_pages kfree (suc n) i old_heap_end ptes m = do
  removed ← remove_page kfree ((old_heap_end + 2 ^ 32 - (i + 1) * page_size) % 2 ^ 32) ptes m
  elim removed [
    | none ↦ ok none
    | some (ptes', m') ↦ remove_pages kfree n (i + 1) old_heap_end ptes' m'
  ]

-- `(long)` of an address, and what a long can hold: an overflow is undefined.
abbrev pub as_long : ℕ → ℤ
as_long a = if ltb a (2 ^ 31) then pos a else negsuc (2 ^ 32 - 1 - a)

abbrev pub is_long : ℤ → Bool
is_long a = ltb (pos_part a) (2 ^ 31) && leb (neg_part a) (2 ^ 31)

-- `(vaddr_t)` of a long
abbrev pub as_vaddr : ℤ → ℕ
as_vaddr a = (pos_part a + 2 ^ 32 - neg_part a) % 2 ^ 32

abbrev pub with_heap : {D : Type 0} → (owner : ℕ) → Addrspace → Memory D → Memory D
with_heap owner space m = record m { spaces = λ a. if a == owner then some space else m.spaces a }

-- The part behind the checks: `num_pages` is the increment in pages, not 0.
unfoldable pub move_heap_end :
    {D : Type 0}
    → (kfree : PageTableEntry → Coremap → Coremap) → (owner : ℕ) → (increment new_heap_end : ℤ)
    → Addrspace
    → Memory D
    → Run (Option (Reply ℕ × Memory D))
unfolding remove_pages
move_heap_end kfree owner (pos n) new_heap_end space m = ok (
    some
      (done space.heap_end, with_heap owner (record space { heap_end = as_vaddr new_heap_end }) m))
move_heap_end kfree owner (negsuc n) new_heap_end space m = do
  removed ← remove_pages kfree ((n + 1) / page_size) 0 space.heap_end space.page_table m
  ok (elim removed [
    | none ↦ none
    | some (ptes, m') ↦ some (
      done space.heap_end,
      with_heap owner (record space { page_table = ptes; heap_end = as_vaddr new_heap_end }) m',
    )
  ])

-- `owner` is what proc_getas returns.
unfoldable pub sys_sbrk :
    {D : Type 0}
    → (kfree : PageTableEntry → Coremap → Coremap) → (owner : ℕ) → (increment : ℤ) → Memory D
    → Run (Option (Reply ℕ × Memory D))
unfolding ◌+ℤ◌ move_heap_end
sys_sbrk kfree owner increment m = elim (m.spaces owner) [
  | none ↦ panic
  | some space ↦
      let old_heap_end = as_long space.heap_end in
      let grows = ltb_ℤ (pos 0) increment in
      let shrinks = ltb_ℤ increment (pos 0) in
      if not grows && not shrinks then ok (some (done space.heap_end, m)) else (do
        let new_heap_end = old_heap_end +ℤ increment
        kassert (is_long new_heap_end)
        if grows && ltb_ℤ new_heap_end old_heap_end
              || shrinks && ltb_ℤ new_heap_end (as_long space.heap_start)
            then ok (some (fail (if grows then enomem else einval), m))
            else if grows && not (ltb_ℤ new_heap_end (pos stackbase))
            then ok (some (fail enomem, m))
            else if not ((pos_part increment + neg_part increment) % page_size == 0)
            then ok (some (fail einval, m))
            else if (pos_part increment + neg_part increment) / page_size == 0
            then ok (some (done space.heap_end, m))
            else move_heap_end kfree owner increment new_heap_end space m)
]
