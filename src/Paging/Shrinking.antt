-- ===== src/Paging/Shrinking.antt =====
-- sys_sbrk of a negative increment.
use linux_like_os.Prelude.{
  ℕ, ◌+◌, ◌-◌, ◌*◌, ◌/◌, ◌%◌, ◌^◌, ◌≤◌, ◌<◌, ◌≡◌, refl, sym, ap, ◌∙◌, subst, Option, some, List,
  arith, Run, ok, Reply, done,
}
use linux_like_os.Prelude.Int.{pos, negsuc, ◌+ℤ◌}
use linux_like_os.Coremap.{page_size, Coremap}
use linux_like_os.AddrSpace.{PageTableEntry, Addrspace}
use linux_like_os.AddrSpace.Destroy.{Mapping, KfreeKeeps}
use linux_like_os.Paging.{Memory}
use linux_like_os.Paging.Sbrk.{remove_pages, with_heap, move_heap_end, sys_sbrk}
use linux_like_os.Paging.NewPage.{ValidCoremap}
use linux_like_os.Paging.TlbUser.{UserEach}
use linux_like_os.Paging.Shrink.{Distinct, GaveBack}
use linux_like_os.Paging.Range.{outside, Aligned, outside_nothing, remove_pages-GaveBack}

module _ {D : Type 0} (kfree : PageTableEntry → Coremap → Coremap) (m : Memory D) (owner k : ℕ)
    (space : Addrspace) where
  -- What is left of the page table, and the end of the heap.
  abbrev left_over : List PageTableEntry
  left_over = outside (space.heap_end - k * page_size) space.heap_end space.page_table

  abbrev shrunk : Addrspace
  shrunk = record space { page_table = left_over; heap_end = space.heap_end - k * page_size }

  all_rounds :
      KfreeKeeps kfree
      → UserEach m.tlb
      → space.heap_end % page_size ≡ 0
      → space.heap_end < 2 ^ 31
      → k * page_size ≤ space.heap_end
      → Aligned space.page_table
      → ValidCoremap m.coremap
      → Mapping m.coremap space.page_table
      → Distinct space.page_table
      → (m' : Memory D) × (remove_pages kfree k 0 space.heap_end space.page_table m
          ≡ ok (some (left_over, m')))
        × GaveBack m m' space.page_table left_over
  all_rounds keeps each at small fits aligned valid mapping distinct =
      let old = space.heap_end in
      let table = space.page_table in
      let from_end : old - 0 * page_size ≡ old = omega arith in
      let whole : table ≡ outside (old - 0 * page_size) old table =
        sym (ap (λ lo. outside lo old table) from_end ∙ outside_nothing old table) in
      let end : 0 + k ≡ k = omega arith in
      subst
        (λ n.
          (m' : Memory D) × (remove_pages kfree k 0 old table m
            ≡ ok (some (outside (old - n * page_size) old table, m')))
          × GaveBack m m' table (outside (old - n * page_size) old table))
        end
        (remove_pages-GaveBack kfree k 0 old table table m keeps each at small (omega (arith, fits))
          aligned whole valid mapping distinct)

  -- What sys_sbrk does behind its checks.
  moved :
      {m' : Memory D}
      → 0 < k
      → space.heap_end < 2 ^ 31
      → remove_pages kfree k 0 space.heap_end space.page_table m ≡ ok (some (left_over, m'))
      → move_heap_end kfree owner
          (negsuc (k * page_size - 1))
          (pos (space.heap_end - k * page_size))
          space
          m
        ≡ ok (some (done space.heap_end, with_heap owner shrunk m'))
  unfolding move_heap_end
  moved some_pages small run =
      let rounds : (k * page_size - 1 + 1) / page_size ≡ k = omega (arith, some_pages) in
      let vaddr : (space.heap_end - k * page_size + 2 ^ 32 - 0) % 2 ^ 32
          ≡ space.heap_end - k * page_size =
        omega (arith, small) in
      rw (rounds, run, vaddr) refl

  -- The checks of sys_sbrk pass.
  checked :
      {r : Run (Option (Reply ℕ × Memory D))}
      → m.spaces owner ≡ some space
      → 0 < k
      → space.heap_start + k * page_size ≤ space.heap_end
      → space.heap_end < 2 ^ 31
      → move_heap_end kfree owner
          (negsuc (k * page_size - 1))
          (pos (space.heap_end - k * page_size))
          space
          m
        ≡ r
      → sys_sbrk kfree owner (negsuc (k * page_size - 1)) m ≡ r
  unfolding sys_sbrk ◌+ℤ◌
  checked is_space some_pages fits small moving = ground (arith, is_space, moving)

-- sys_sbrk of a negative number of pages, down to no less than the start of the heap, of an address
-- space whose entries are of different pages and mapped to pages of their own in a valid coremap,
-- where no two slots of the TLB have the same page of user space, and kfree changes no page but fixed
-- ones: it returns the old end of the heap, which moves down by the increment; exactly the entries
-- of the pages between the new end and the old one leave the page table, each page of memory that
-- had one of them is free, and the TLB maps none of their addresses; the other entries keep their
-- pages, every page of memory of no entry that is not fixed is as it was, and the coremap is valid.
pub sys_sbrk-shrinks :
    {D : Type 0} (kfree : PageTableEntry → Coremap → Coremap) (m : Memory D) (owner k : ℕ)
    (space : Addrspace)
    → KfreeKeeps kfree
    → UserEach m.tlb
    → m.spaces owner ≡ some space
    → 0 < k
    → space.heap_start + k * page_size ≤ space.heap_end
    → space.heap_end < 2 ^ 31
    → space.heap_end % page_size ≡ 0
    → ValidCoremap m.coremap
    → Mapping m.coremap space.page_table
    → Distinct space.page_table
    → Aligned space.page_table
    → (m' : Memory D) × (sys_sbrk kfree owner (negsuc (k * page_size - 1)) m
        ≡ ok (
            some (
              done space.heap_end,
              with_heap owner
                  (record space {
                    page_table =
                        outside (space.heap_end - k * page_size) space.heap_end space.page_table;
                    heap_end = space.heap_end - k * page_size;
                  })
                  m',
            )))
      × GaveBack m m' space.page_table
          (outside (space.heap_end - k * page_size) space.heap_end space.page_table)
sys_sbrk-shrinks kfree m owner k space keeps each is_space some_pages fits small at valid mapping
      distinct aligned =
    let (m', run, back) =
      all_rounds kfree m owner k space keeps each at small (omega (arith, fits)) aligned valid
        mapping distinct in
    (
      m',
      checked kfree m owner k space is_space some_pages fits small
          (moved kfree m owner k space some_pages small run),
      back,
    )
