-- ===== src/PidTable/Failed.antt =====
-- What goes wrong around forks that fail and orphans that exit.
use linux_like_os.Prelude.{
  ℕ, suc, ◌+◌, ◌≤◌, ◌<◌, ◌≡◌, refl, sym, ap, ◌∙◌, subst, ◌≢◌, inl, inr, Bool, true, false, Option,
  none, some, List, [], ◌∷◌, ◌++◌, arith, length, get_elem?, length-append, get_elem?-some,
  get_elem?-none, ok, panic, Errno, Reply, done, fail,
}
use linux_like_os.Prelude.Int.{ℤ, pos, ◌+ℤ◌, ltb_ℤ}
use linux_like_os.PidTable.Slots.{
  Proc, Procs, ready, running, orphan, pid_min, pid_max, table_size, write, new_proc, add_pid,
  proc_destroy,
}
use linux_like_os.PidTable.Ready.{status_of, ready_count-set}
use linux_like_os.PidTable.Valid.{
  free_pids, AreArrays, IsValid, is_full, cleared, clear_pid_lem, set-AreArrays,
}
use linux_like_os.PidTable.Family.{Entry}
use linux_like_os.PidTable.Add.{with_child, proc_table_add_lem}
use linux_like_os.PidTable.{
  proc_table_add, proc_create_fork, update_child, update_loop, proc_table_update_children, leave,
  sys__exit, wait_check, sys_waitpid,
}

get_elem?-last : (xs : List ℕ) (a : ℕ) → get_elem? (xs ++ a ∷ []) (length xs) ≡ some a
get_elem?-last [] a = refl
get_elem?-last (x ∷ xs) a = get_elem?-last xs a

-- The parent of a freed child cannot exit.
update_freed :
    (cs : List ℕ) (proc : ℕ) (s : Procs)
    → s.heap proc ≡ none
    → update_loop (suc (length cs)) (cs ++ proc ∷ []) s ≡ panic
unfolding update_loop update_child
update_freed cs proc s freed = ground (arith, get_elem?-last cs proc)

length-last : (cs : List ℕ) (a : ℕ) → length (cs ++ a ∷ []) ≡ suc (length cs)
length-last cs a = omega (arith, length-append cs (a ∷ []))

exit_freed :
    (s : Procs) (cur proc : ℕ) (parent : Proc) (code : ℤ) (asleep : List ℕ)
    → s.heap cur ≡ some (with_child true proc parent)
    → s.heap proc ≡ none
    → sys__exit cur code asleep s ≡ panic
unfolding sys__exit proc_table_update_children
exit_freed s cur proc parent code asleep at_cur freed =
    let cs = parent.children in
    let stops : update_loop (length (cs ++ proc ∷ [])) (cs ++ proc ∷ []) s ≡ panic =
      subst (λ n. update_loop n (cs ++ proc ∷ []) s ≡ panic) (sym (length-last cs proc))
        (update_freed cs proc s freed) in
    ground (arith, stops)

destroy_lem :
    (proc : ℕ) (s : Procs) {p : Proc}
    → proc ≢ s.kproc
    → s.heap proc ≡ some p
    → proc_destroy proc s ≡ ok (record s { heap = write s.heap proc none })
unfolding proc_destroy
destroy_lem proc s ne here = ground arith

fork_fails :
    (s : Procs) (cur proc : ℕ) (e : Errno) {pid : ℕ} {s' s'' : Procs}
    → proc_table_add proc cur true (record s { heap = write s.heap proc (some new_proc) })
      ≡ ok (done pid, s')
    → proc_destroy proc s' ≡ ok s''
    → proc_create_fork cur (some proc) true (fail e) s ≡ ok (fail e, s'')
unfolding proc_create_fork
fork_fails s cur proc e run destroyed = rw (run, destroyed)

-- When as_copy fails, the fork gives its error, but the pid stays taken by a process that runs
-- nowhere, and the process stays among the children of its parent although it has been freed: the
-- exit of the parent then uses freed memory.
pub proc_create_fork-dangling :
    (s : Procs) (cur proc : ℕ) (parent : Proc) (e : Errno) (code : ℤ) (asleep : List ℕ)
    → IsValid s
    → 0 < free_pids s.status
    → s.heap cur ≡ some parent
    → s.heap proc ≡ none
    → proc ≢ s.kproc
    → (s' : Procs) × (proc_create_fork cur (some proc) true (fail e) s ≡ ok (fail e, s'))
      × (status_of s'.status s.pid_next ≡ running)
      × (sys__exit cur code asleep s' ≡ panic)
proc_create_fork-dangling s cur proc parent e code asleep valid some_free at_cur at_proc not_kproc =
    let start : Procs = record s { heap = write s.heap proc (some new_proc) } in
    let apart : cur ≢ proc = λ x. ground (arith, at_cur, at_proc, ap s.heap x) in
    let valid1 : IsValid start = record {
      arrays = valid.arrays;
      count = valid.count;
      next = valid.next;
    } in
    elim (proc_table_add_lem start proc cur true parent new_proc valid1 (ground arith)
      (ground arith) apart) [
        | inl (full, run) ↦ absurd (omega arith)
        | inr (s', run, valid', (was, now, found, others, at_cur', at_proc', k_same)) ↦ (
          record s' { heap = write s'.heap proc none },
          fork_fails s cur proc e run (destroy_lem proc s' (λ x. not_kproc (x ∙ k_same)) at_proc'),
          now,
          exit_freed (record s' { heap = write s'.heap proc none }) cur proc parent code asleep
              (ground (arith, at_cur')) (ground arith),
        )
      ]

exit_orphan :
    (s : Procs) (cur : ℕ) (me : Proc) (code : ℤ) (asleep : List ℕ)
    → IsValid s
    → Entry s cur me
    → me.children ≡ []
    → status_of s.status me.pid ≡ orphan
    → cur ≢ s.kproc
    → sys__exit cur code asleep s
      ≡ ok (asleep, cleared me.pid (record s { heap = write s.heap cur none }))
unfolding sys__exit proc_table_update_children update_loop leave
exit_orphan s cur me code asleep valid (h, lo, hi, e) childless st not_kproc =
    let (a, b, w) = valid.arrays in
    let reset =
      clear_pid_lem me.pid (record s { heap = write s.heap cur none }) valid.arrays lo
        (omega arith) in
    let kids : update_loop (length me.children) me.children s ≡ ok s =
      subst (λ cs. update_loop (length cs) cs s ≡ ok s) (sym childless) refl in
    ground (
      arith,
      h,
      st,
      reset,
      kids,
      destroy_lem cur s not_kproc h,
      get_elem?-some s.status me.pid running (omega arith),
    )

one_more :
    (s : Procs)
    → IsValid s
    → free_pids s.status ≡ 0
    → ltb_ℤ (s.pid_available +ℤ pos 1) (pos 1) ≡ false
unfolding ◌+ℤ◌
one_more s valid full = ground (arith, valid.count)

add_outside :
    (s : Procs) (proc other : ℕ) (grown : Bool) (parent child : Proc)
    → AreArrays s
    → ltb_ℤ s.pid_available (pos 1) ≡ false
    → s.pid_next ≡ pid_max + 1
    → s.heap other ≡ some parent
    → s.heap proc ≡ some child
    → proc_table_add proc other grown s ≡ panic
unfolding proc_table_add add_pid
add_outside s proc other grown parent child (a, b, w) some_free next at_other at_proc =
    ground (arith, get_elem?-none s.proc s.pid_next (omega arith))

-- In a consistent and full table an orphan without children exits. Its pid is free then, but
-- `pid_next` still says that the table is full, and the next process that is entered is written
-- outside the arrays.
pub sys__exit-orphan_overflow :
    (s : Procs) (cur : ℕ) (me : Proc) (code : ℤ) (asleep : List ℕ) (proc other : ℕ) (grown : Bool)
    (parent child : Proc)
    → IsValid s
    → free_pids s.status ≡ 0
    → Entry s cur me
    → me.children ≡ []
    → status_of s.status me.pid ≡ orphan
    → cur ≢ s.kproc
    → s.heap other ≡ some parent
    → s.heap proc ≡ some child
    → cur ≢ other
    → cur ≢ proc
    → (s' : Procs) × (sys__exit cur code asleep s ≡ ok (asleep, s'))
      × (0 < free_pids s'.status)
      × (proc_table_add proc other grown s' ≡ panic)
sys__exit-orphan_overflow s cur me code asleep proc other grown parent child valid full entry
      childless st not_kproc at_other at_proc apart apart' =
    let (h, lo, hi, e) = entry in
    let (a, b, w) = valid.arrays in
    let s1 : Procs = record s { heap = write s.heap cur none } in
    let more = ready_count-set s.status me.pid ready (omega arith) 30 pid_min lo (omega arith) in
    let next = is_full s valid full in
    (
      cleared me.pid s1,
      exit_orphan s cur me code asleep valid entry childless st not_kproc,
      ground (arith, more, full, st),
      add_outside (cleared me.pid s1) proc other grown parent child
          (set-AreArrays s me.pid none ready (pos 0) valid.arrays) (one_more s valid full) next
          (ground arith) (ground arith),
    )

-- sys_waitpid compares the pid with PID_MAX and not with the size of the table: a pid from 33 on
-- makes the kernel read outside the arrays.
sys_waitpid-out_of_range :
    (cur pid : ℕ) (options : ℤ) (copyout : Option (ℤ → Reply (Unit {0}))) (s : Procs)
    (views : List Procs)
    → IsValid s
    → table_size ≤ pid
    → pid ≤ pid_max
    → sys_waitpid cur (pos pid) options copyout s views ≡ panic
unfolding sys_waitpid wait_check
sys_waitpid-out_of_range cur pid options copyout s views valid lo hi =
    let (a, b, w) = valid.arrays in ground (arith, get_elem?-none s.status pid (omega arith))
