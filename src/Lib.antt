-- ===== src/Lib.antt =====
-- The kernel of Linux_Like_OS: processes, open files and memory, with the containers they stand on.
--
-- The model follows the C files of the kernel. A structure is a record, an operation a function on
-- it that returns the new state, and an error code a value of `Reply`. A failed KASSERT, a panic(),
-- an access outside an array and a use of freed memory all end the run in `panic` (Prelude/Outcome).
--
-- - Bitmap: kern/lib/bitmap.c, an array of bits in bytes.
-- - FileTable: kern/syscall/file_syscalls.c (sys_open, sys_read, sys_write, sys_close, sys_lseek,
--   sys_dup2) and the loops over a file table in kern/proc/proc.c (proc_create_fork, proc_destroy).
--   The handlers live in a heap that file tables point into; what the calls ask of the VFS is the
--   record `Vfs`, and the tables of the other processes are a parameter of the invariant.
-- - Coremap: the page allocator of kern/vm/vm.c, from coremap_bootstrap to the clock of evict_page.
-- - PidTable: the table of process ids in kern/include/proc_table.h and kern/proc/proc.c
--   (proc_table_bootstrap, proc_table_add, proc_create_fork, clear_pid, get_pid) and the system calls
--   fork, exit and waitpid of kern/syscall/proc_syscalls.c. Processes live in a heap; waitpid reads a
--   list of states, one for each time that it has the lock; the exit returns the threads that its
--   broadcast wakes, and a sleeper sees the table only if it is one of them. as_copy and thread_fork
--   enter as results.
-- - AddrSpace: kern/vm/addrspace.c, the regions of a process (as_define_region, as_prepare_load) and
--   the return of its pages to the coremap and to the swap bitmap (as_destroy).
-- - Synch: kern/thread/synch.c, locks (lock_acquire, lock_release, lock_do_i_hold), condition
--   variables (cv_wait, cv_signal, cv_broadcast) and semaphores (P, V). What runs under a spinlock is
--   one function; Synch/System and Synch/Semaphores are the step relations of threads that call them
--   in any order. A wait channel is the list of its sleepers.
-- - ThreadList: kern/thread/threadlist.c, the doubly linked lists of threads, with a sequence of
--   threads as their specification (ThreadList/Promise).
-- - Paging: vm_fault, evict_page and the swap disk of kern/vm/vm.c, sys_sbrk of
--   kern/syscall/proc_syscalls.c and as_copy of kern/vm/addrspace.c, on page tables and the coremap. The
--   device of the swap disk is the record `Services`, of which the theorems suppose that a page reads
--   as it was last written (`IsDisk`); the TLB is a list of slots, and the slot that tlb_random takes
--   and what kmalloc returns are arguments. What kmalloc and kfree do to the coremap is a parameter of
--   vm_fault (`Services`), sys_sbrk and as_destroy (`Kfree`), and what a theorem supposes of it stands
--   in its conditions; as_copy is modelled without it. A page table entry has a mark `live` for freed
--   ones.
-- - Array: kern/lib/array.c and the operations in kern/include/array.h. Its doubling runs on fuel of
--   two more than the size that is asked, which is proved to be enough up to 2^29 elements.
-- - UserCopy: kern/vm/copyinout.c (copycheck, copyin, copyout, copyinstr). User memory is a function
--   from addresses that gives no byte where an access faults.
-- - Time: kern/lib/time.c, timespec_add and timespec_sub.
--
-- Loops recur on the rounds they have left. The clock of evict_page runs on fuel of two turns and one
-- step, which is proved to be enough wherever some page can be evicted.
--
-- Outside Synch, locks that an operation takes and releases inside are not part of the states: each
-- operation is one step. Not modelled: the file systems below the system calls (kern/vfs, kern/fs) and
-- kmalloc, of which the modelled code sees results and what they make of the coremap; and drivers,
-- the scheduler and the boot code, which work on the machine.
pub mod Prelude
pub mod Bitmap
pub mod FileTable
pub mod Coremap
pub mod PidTable
pub mod AddrSpace
pub mod Array
pub mod UserCopy
pub mod Time
pub mod Synch
pub mod ThreadList
pub mod Paging
