-- ===== src/PidTable/Slots.antt =====
-- The state of the process table, and the helpers of kern/proc/proc.c that write one entry.
use linux_like_os.Prelude.{
  ℕ, zero, suc, ◌+◌, Bool, not, ◌&&◌, Option, none, some, List, [], leb, ◌==◌, if◌then◌else◌,
  get_elem?, Run, ok, panic, ◌>>=◌, ◌>>◌, kassert, fetch, store,
}
use linux_like_os.Prelude.Int.{ℤ, pos, pos_part, neg_part, ◌+ℤ◌, ◌-ℤ◌}

-- `struct proc`, as far as the table reads it.
pub record Proc : Type 0 where
  pub pid : ℕ
  pub children : List ℕ

-- `struct proc_table`, with the processes by address and the address of the kernel's own.
pub record Procs : Type 0 where
  pub proc : List (Option ℕ)
  pub status : List ℕ
  pub waitcode : List ℤ
  pub pid_available : ℤ
  pub pid_next : ℕ
  pub heap : ℕ → Option Proc
  pub kproc : ℕ

-- The constants of proc_table.h and limits.h. The arrays have 33 entries.
abbrev pub ready : ℕ
ready = 0

abbrev pub running : ℕ
running = 1

abbrev pub zombie : ℕ
zombie = 2

abbrev pub orphan : ℕ
orphan = 3

abbrev pub pid_min : ℕ
pid_min = 2

abbrev pub pid_max : ℕ
pid_max = 32767

abbrev pub table_size : ℕ
table_size = 33

abbrev pub write : (ℕ → Option Proc) → ℕ → Option Proc → ℕ → Option Proc
write heap p v q = if p == q then v else heap q

-- The process at an address: a freed one is undefined behaviour.
abbrev pub deref : (ℕ → Option Proc) → ℕ → Run Proc
deref heap p = elim (heap p) [ none ↦ panic | some a ↦ ok a ]

abbrev pub eqb_ℤ : ℤ → ℤ → Bool
eqb_ℤ a b = pos_part a + neg_part b == pos_part b + neg_part a

-- What proc_create returns.
abbrev pub new_proc : Proc
new_proc = record { pid = 1; children = [] }

unfoldable pub clear_pid : ℕ → Procs → Run Procs
unfolding ◌+ℤ◌
clear_pid pid s = do
  kassert (leb pid_min pid && leb pid pid_max)
  procs ← store s.proc pid none
  st ← store s.status pid ready
  codes ← store s.waitcode pid (pos 0)
  ok (record s {
    proc = procs;
    status = st;
    waitcode = codes;
    pid_available = s.pid_available +ℤ pos 1;
  })

unfoldable pub add_pid : (pid proc : ℕ) → Procs → Run Procs
unfolding ◌-ℤ◌
add_pid pid proc s = do
  procs ← store s.proc pid (some proc)
  st ← store s.status pid running
  codes ← store s.waitcode pid (pos 0)
  ok (record s {
    proc = procs;
    status = st;
    waitcode = codes;
    pid_available = s.pid_available -ℤ pos 1;
  })

unfoldable pub proc_table_freepid : ℕ → Procs → Run Procs
proc_table_freepid pid s = clear_pid pid s

unfoldable pub get_pid : ℕ → Procs → Run (Option ℕ)
get_pid pid s = do kassert (leb pid_min pid && leb pid pid_max); fetch s.proc pid

-- The part of proc_destroy that this state sees: the process is freed.
unfoldable pub proc_destroy : ℕ → Procs → Run Procs
proc_destroy proc s = do
  kassert (not (proc == s.kproc))
  p ← deref s.heap proc
  ok (record s { heap = write s.heap proc none })

-- The search of proc_table_add for the next free pid from `i` on, with the rounds left.
unfoldable pub next_ready : (rounds i : ℕ) → (status : List ℕ) → Run (Option ℕ)
next_ready zero i st = ok none
next_ready (suc n) i st = elim (get_elem? st i) [
  | none ↦ panic
  | some v ↦ let rest = next_ready n (i + 1) st in if v == ready then ok (some i) else rest
]

-- for (i = PID_MIN; i < 32; i++) clear_pid(i), with the rounds left
unfoldable pub clear_loop : (rounds i : ℕ) → Procs → Run Procs
clear_loop zero i s = ok s
clear_loop (suc n) i s = do s' ← clear_pid i s; clear_loop n (i + 1) s'

-- The kernel's own process has pid 1; `junk` is what the memory of the table held before.
unfoldable pub proc_table_bootstrap : (kproc : ℕ) → (junk : Procs) → Run Procs
unfolding clear_loop add_pid
proc_table_bootstrap kproc junk = do
  s ← add_pid 1 kproc (record junk { pid_available = pos 1; pid_next = pid_min; kproc = kproc })
  clear_loop 30 pid_min s
