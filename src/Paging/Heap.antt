-- ===== src/Paging/Heap.antt =====
-- sys_sbrk: how the heap grows and shrinks.
use linux_like_os.Prelude.{
  ℕ, ◌+◌, ◌%◌, ◌^◌, ◌<◌, ◌≡◌, not, some, arith, leb, ◌==◌, if◌then◌else◌, ok, enomem, einval, done,
  fail,
}
use linux_like_os.Prelude.Int.{pos, ◌+ℤ◌}
use linux_like_os.Coremap.{page_size, Coremap}
use linux_like_os.AddrSpace.{PageTableEntry, Addrspace}
use linux_like_os.Paging.{Memory}
use linux_like_os.Paging.Faults.{stackbase}
use linux_like_os.Paging.Sbrk.{with_heap, move_heap_end, sys_sbrk}

-- sys_sbrk of a positive increment that does not leave the positive longs: ENOMEM if the heap would
-- reach the stack, EINVAL if the increment is not a number of pages, and nothing changes; else it
-- returns the old end of the heap, and only this end moves, up by the increment.
sys_sbrk-grows :
    {D : Type 0} (kfree : PageTableEntry → Coremap → Coremap) (m : Memory D) (owner n : ℕ)
    (space : Addrspace)
    → m.spaces owner ≡ some space
    → 0 < n
    → space.heap_end + n < 2 ^ 31
    → sys_sbrk kfree owner (pos n) m
      ≡ ok (
          some (
            if leb stackbase (space.heap_end + n)
            then (fail enomem, m)
            else if not (n % page_size == 0)
            then (fail einval, m)
            else (
              done space.heap_end,
              with_heap owner (record space { heap_end = space.heap_end + n }) m,
            )))
unfolding sys_sbrk move_heap_end ◌+ℤ◌
sys_sbrk-grows kfree m owner n space is_space some_more small = ground (arith, is_space)
