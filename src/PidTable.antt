-- ===== src/PidTable.antt =====
-- The table of process ids: kern/include/proc_table.h, the table's part of kern/proc/proc.c, and
-- fork, exit and waitpid of kern/syscall/proc_syscalls.c. The lock of the table is held from the
-- start to the end of each operation.
pub mod Slots
pub mod Ready
pub mod Valid
pub mod Bootstrap
pub mod Add
pub mod Family
pub mod Children
pub mod Exit
pub mod Failed
mod Tests
use linux_like_os.Prelude.{
  ℕ, zero, suc, ◌+◌, ◌-◌, Bool, true, false, not, ◌||◌, Option, none, some, List, [], ◌∷◌, ◌++◌,
  ltb, ◌==◌, if◌then◌else◌, length, set, Run, ok, panic, ◌>>=◌, fetch, store, enomem, einval, esrch,
  echild, enproc, Reply, done, fail,
}
use linux_like_os.Prelude.Int.{ℤ, pos, pos_part, ltb_ℤ}
use linux_like_os.Synch.{wchan_wakeall, v}
use linux_like_os.PidTable.Slots.{
  Proc, Procs, ready, running, zombie, orphan, pid_min, pid_max, write, deref, eqb_ℤ, new_proc,
  clear_pid, add_pid, proc_table_freepid, proc_destroy, next_ready,
}

-- `*retval` is the pid of the new process in each call of proc_table_add. `grown` says whether
-- array_add finds memory; its error is ignored.
unfoldable pub proc_table_add : (proc cur : ℕ) → (grown : Bool) → Procs → Run (Reply ℕ × Procs)
unfolding next_ready add_pid
proc_table_add proc cur grown s = if ltb_ℤ s.pid_available (pos 1) then ok (fail enproc, s) else do
  parent ← deref s.heap cur
  let grown_parent : Proc = record parent { children = parent.children ++ proc ∷ [] }
  let heap1 = if grown then write s.heap cur (some grown_parent) else s.heap
  child ← deref heap1 proc
  let next = s.pid_next
  let heap2 = write heap1 proc (some (record child { pid = next }))
  s' ← add_pid next proc (record s { heap = heap2 })
  if ltb_ℤ (pos 0) s'.pid_available
      then (do
        found ← next_ready (pid_max - next) next s'.status
        ok (done next, record s' { pid_next = elim found [ none ↦ s'.pid_next | some i ↦ i ] }))
      else ok (done next, record s' { pid_next = pid_max + 1 })

-- `fresh` is the process that proc_create allocates, `copied` the result of as_copy.
unfoldable pub proc_create_fork :
    (cur : ℕ)
    → (fresh : Option ℕ) → (grown : Bool) → (copied : Reply (Unit {0})) → Procs
    → Run (Reply ℕ × Procs)
unfolding proc_table_add
proc_create_fork cur fresh grown copied s = elim fresh [
  | none ↦ ok (fail enomem, s)
  | some proc ↦ do
    (r, s') ← proc_table_add proc cur grown (record s { heap = write s.heap proc (some new_proc) })
    elim r [
      | fail e ↦ do s'' ← proc_destroy proc s'; ok (fail e, s'')
      | done pid ↦ elim copied [
        | fail e ↦ do s'' ← proc_destroy proc s'; ok (fail e, s'')
        | done u ↦ ok (done proc, s')
      ]
    ]
]

-- `got_tf` says whether the trapframe is allocated, `started` is the result of thread_fork.
unfoldable pub sys_fork :
    (cur : ℕ)
    → (fresh : Option ℕ) → (grown : Bool) → (copied : Reply (Unit {0})) → (got_tf : Bool)
    → (started : Reply (Unit {0})) → Procs
    → Run (Reply ℕ × Procs)
unfolding proc_create_fork
sys_fork cur fresh grown copied got_tf started s = do
  (r, s') ← proc_create_fork cur fresh grown copied s
  elim r [
    | fail e ↦ ok (fail e, s')
    | done proc ↦
        if got_tf
        then (do
          child ← deref s'.heap proc
          elim started [
            | done u ↦ ok (done child.pid, s')
            | fail e ↦ do
              s2 ← proc_destroy proc s'
              s3 ← proc_table_freepid child.pid s2
              ok (fail e, s3)
          ])
        else ok (fail enomem, s')
  ]

-- The body of the loop of proc_table_update_children.
unfoldable pub update_child : ℕ → Procs → Run Procs
update_child c s = do
  child ← deref s.heap c
  st ← fetch s.status child.pid
  if st == running
      then ok (record s { status = set s.status child.pid orphan })
      else if st == zombie
      then (do
        let next = if ltb child.pid s.pid_next then child.pid else s.pid_next
        s' ← proc_destroy c (record s { pid_next = next })
        clear_pid child.pid s')
      else panic

-- for (i = rounds - 1; i >= 0; i--)
unfoldable pub update_loop : (rounds : ℕ) → List ℕ → Procs → Run Procs
update_loop zero children s = ok s
update_loop (suc i) children s = do
  c ← fetch children i
  s' ← update_child c s
  update_loop i children s'

unfoldable pub proc_table_update_children : ℕ → Procs → Run Procs
unfolding update_loop
proc_table_update_children proc s = do
  p ← deref s.heap proc
  update_loop (length p.children) p.children s

-- sys__exit from the update of the children on.
unfoldable pub leave : (proc : ℕ) → (waitcode : ℤ) → Procs → Run Procs
leave proc waitcode s = do
  p ← deref s.heap proc
  st ← fetch s.status p.pid
  if st == running
      then (do
        codes ← store s.waitcode p.pid waitcode
        ok (record s { status = set s.status p.pid zombie; waitcode = codes }))
      else if st == orphan
      then (do s' ← proc_destroy proc s; clear_pid p.pid s')
      else panic

-- Up to the call of thread_exit. `asleep` is the channel of `processes->cv`; the result has the
-- threads that cv_broadcast wakes.
unfoldable pub sys__exit :
    (cur : ℕ) → (waitcode : ℤ) → (asleep : List ℕ) → Procs → Run (List ℕ × Procs)
sys__exit cur waitcode asleep s = do
  s' ← proc_table_update_children cur s
  s'' ← leave cur waitcode s'
  let (woken, empty) = wchan_wakeall asleep
  ok (woken, s'')

-- The loop of sys_waitpid. It reads the table whenever it has the lock; `views` are these states in
-- order, and `none` says that it still waits after them.
unfoldable pub wait_loop : (pid : ℕ) → (views : List Procs) → Run (Option ℤ)
wait_loop pid [] = ok none
wait_loop pid (v ∷ views) =
    let rest = wait_loop pid views in
    do
      st ← fetch v.status pid
      if st == zombie then (do code ← fetch v.waitcode pid; ok (some code)) else rest

abbrev pub is_member : ℕ → List ℕ → Bool
is_member p [] = false
is_member p (q ∷ qs) = let rest = is_member p qs in if p == q then true else rest

-- What a thread that sleeps on `processes->cv` sees of an operation that wakes `woken` and leaves
-- the table `s`: the table if it is woken, and nothing if it sleeps on.
abbrev pub seen_by : (thread : ℕ) → (woken : List ℕ) → Procs → List Procs
seen_by thread woken s = if is_member thread woken then s ∷ [] else []

-- `proc == array_get(children, i)` for some i.
abbrev pub is_child : Option ℕ → List ℕ → Bool
is_child none qs = false
is_child (some p) qs = is_member p qs

-- The tests before the lock is taken, in state `s`.
unfoldable pub wait_check : (cur : ℕ) → (pid : ℤ) → (options : ℤ) → Procs → Run (Reply ℕ)
wait_check cur pid options s =
    if ltb_ℤ pid (pos pid_min) || ltb_ℤ (pos pid_max) pid then ok (fail esrch) else do
      let i = pos_part pid
      st ← fetch s.status i
      if st == ready
          then ok (fail esrch)
          else if not (eqb_ℤ options (pos 0))
          then ok (fail einval)
          else (do
            child ← fetch s.proc i
            me ← deref s.heap cur
            if is_child child me.children then ok (done i) else ok (fail echild))

-- The value is what `retval` receives: nothing if it is NULL. `copyout` is the copy to a `retval`
-- that is not NULL.
unfoldable pub sys_waitpid :
    (cur : ℕ)
    → (pid options : ℤ) → (copyout : Option (ℤ → Reply (Unit {0}))) → Procs
    → (views : List Procs) → Run (Option (Reply (Option ℤ)))
unfolding wait_check wait_loop
sys_waitpid cur pid options copyout s views = do
  checked ← wait_check cur pid options s
  elim checked [
    | fail e ↦ ok (some (fail e))
    | done i ↦ do
      waited ← wait_loop i views
      ok (elim waited [
        | none ↦ none
        | some code ↦ some (elim copyout [
          | none ↦ done none
          | some copy ↦ elim (copy code) [ fail e ↦ fail e | done u ↦ done (some code) ]
        ])
      ])
  ]
