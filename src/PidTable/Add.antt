-- ===== src/PidTable/Add.antt =====
-- Entering a process into the table: proc_table_add.
use linux_like_os.PidTable.{proc_table_add}
use linux_like_os.Prelude.Int.{pos, ◌-ℤ◌}
use linux_like_os.Prelude.{
  ℕ, ◌+◌, ◌-◌, ◌<◌, ◌≡◌, refl, ◌≢◌, ◌⊎◌, inl, inr, Bool, Option, some, [], ◌∷◌, ◌++◌, arith, dec_lt,
  ℕ_discrete, if◌then◌else◌, set, length-set, get_elem?-set, get_or-set, get_or-set_self, ok,
  enproc, done, fail,
}
use linux_like_os.PidTable.Slots.{
  Proc, Procs, ready, running, pid_min, pid_max, write, add_pid, get_pid, next_ready,
}
use linux_like_os.PidTable.Ready.{
  status_of, ready_count-set, ready_count-pos, find_ready, next_ready_lem,
}
use linux_like_os.PidTable.Valid.{
  free_pids, IsNext, IsValid, has_free, added, add_pid_lem, set-AreArrays,
}

-- The processes after array_add and the write of the new pid.
abbrev linked : (proc cur : ℕ) → Bool → (parent child : Proc) → Procs → ℕ → Option Proc
linked proc cur grown parent child s =
    let grown_parent : Proc = record parent { children = parent.children ++ proc ∷ [] } in
    let heap1 = if grown then write s.heap cur (some grown_parent) else s.heap in
    write heap1 proc (some (record child { pid = s.pid_next }))

-- The state before the search for the next free pid.
abbrev entered : (proc cur : ℕ) → Bool → (parent child : Proc) → Procs → Procs
entered proc cur grown parent child s =
    added s.pid_next proc (record s { heap = linked proc cur grown parent child s })

-- `pid_next` after the search, when a free pid is left and when none is.
module _ (s : Procs) (valid : IsValid s) (some_free : 0 < free_pids s.status) where
  left_over : free_pids (set s.status s.pid_next running) + 1 ≡ free_pids s.status
  left_over =
      let (lo, hi, free') = has_free s valid some_free in
      let (a, b, c) = valid.arrays in
      ground (
        arith,
        ready_count-set s.status s.pid_next running (omega arith) 30 pid_min lo (omega arith),
      )

  -- A free pid after the step was free before.
  was_ready :
      (j : ℕ)
      → status_of (set s.status s.pid_next running) j ≡ ready
      → (j ≢ s.pid_next) × (status_of s.status j ≡ ready)
  was_ready j h =
      let (lo, hi, free') = has_free s valid some_free in
      let (a, b, c) = valid.arrays in
      ground (arith, h, get_or-set s.status s.pid_next j running running (omega arith))

  search :
      0 < free_pids (set s.status s.pid_next running)
      → (k : ℕ) × (next_ready (pid_max - s.pid_next) s.pid_next (set s.status s.pid_next running)
          ≡ ok (some k))
        × IsNext k (set s.status s.pid_next running)
  search more =
      let (lo, hi, free') = has_free s valid some_free in
      let (a, b, c) = valid.arrays in
      let st' = set s.status s.pid_next running in
      let (j, lo', hi', found) = find_ready st' 30 pid_min more in
      let (ne, old) = was_ready j found in
      let above = valid.next.1 j lo' hi' old in
      let len = length-set s.status s.pid_next running in
      let (k, run, kl, kh, ready_k, before) =
        next_ready_lem st' (pid_max - s.pid_next) s.pid_next j above (omega arith) (omega arith)
          found in
      (
        k,
        run,
        (
          inl (omega arith, omega arith, ready_k),
          λ m lm hm free_m. elim (dec_lt m k) [
            | yes lt ↦
                let (ne', old') = was_ready m free_m in
                absurd (before m (valid.next.1 m lm hm old') lt free_m)
            | no ge ↦ omega arith
          ],
        ),
      )

  none_left :
      free_pids (set s.status s.pid_next running) ≡ 0
      → IsNext (pid_max + 1) (set s.status s.pid_next running)
  none_left zero_left = (
    inr refl,
    λ j lo hi h. absurd (
        omega (
          arith,
          ready_count-pos (set s.status s.pid_next running) 30 pid_min j lo (omega arith) h,
        )),
  )

-- The parent of a new process: array_add appends to its children if it can.
abbrev pub with_child : Bool → ℕ → Proc → Proc
with_child grown proc parent =
    if grown then record parent { children = parent.children ++ proc ∷ [] } else parent

-- What the step does to the table and the two processes.
abbrev pub Entered : (proc cur : ℕ) → Bool → (parent child : Proc) → (s s' : Procs) → Type 0
Entered proc cur grown parent child s s' =
    (status_of s.status s.pid_next ≡ ready)
    × (status_of s'.status s.pid_next ≡ running)
    × (get_pid s.pid_next s' ≡ ok (some proc))
    × ((q : ℕ) → q ≢ s.pid_next → status_of s'.status q ≡ status_of s.status q)
    × (s'.heap cur ≡ some (with_child grown proc parent))
    × (s'.heap proc ≡ some (record child { pid = s.pid_next }))
    × (s'.kproc ≡ s.kproc)

module _ (s : Procs) (valid : IsValid s) (proc cur : ℕ) (grown : Bool) (parent child : Proc)
    (at_cur : s.heap cur ≡ some parent) (at_proc : s.heap proc ≡ some child) (apart : cur ≢ proc)
    (some_free : 0 < free_pids s.status) where
  to_search :
      add_pid s.pid_next proc (record s { heap = linked proc cur grown parent child s })
      ≡ ok (entered proc cur grown parent child s)
  to_search =
      let (lo, hi, free') = has_free s valid some_free in
      add_pid_lem s.pid_next proc (record s { heap = linked proc cur grown parent child s })
        (valid.arrays) (omega arith)

  entered-Entered :
      (next : ℕ)
      → Entered proc cur grown parent child s
          (record (entered proc cur grown parent child s) { pid_next = next })
  unfolding get_pid
  entered-Entered next =
      let (lo, hi, free') = has_free s valid some_free in
      let (a, b, c) = valid.arrays in
      (
        free',
        get_or-set_self s.status s.pid_next running running (omega arith),
        ground (arith, get_elem?-set s.proc s.pid_next s.pid_next (some proc) (omega arith)),
        λ q ne. ground (arith, get_or-set s.status s.pid_next q running running (omega arith)),
        ground (arith, at_cur),
        ground arith,
        refl,
      )

  entered-IsValid :
      (next : ℕ)
      → IsNext next (set s.status s.pid_next running)
      → IsValid (record (entered proc cur grown parent child s) { pid_next = next })
  unfolding ◌-ℤ◌
  entered-IsValid next is_next = record {
    arrays = set-AreArrays s s.pid_next (some proc) running (pos 0) valid.arrays;
    count = ground (arith, left_over s valid some_free, valid.count);
    next = is_next;
  }

  -- The new count of free pids, and the two ways in which the step ends.
  count_after : s.pid_available -ℤ pos 1 ≡ pos (free_pids (set s.status s.pid_next running))
  unfolding ◌-ℤ◌
  count_after = ground (arith, left_over s valid some_free, valid.count)

  add_found :
      (k : ℕ)
      → 0 < free_pids (set s.status s.pid_next running)
      → next_ready (pid_max - s.pid_next) s.pid_next (set s.status s.pid_next running) ≡ ok (some k)
      → proc_table_add proc cur grown s
        ≡ ok (done s.pid_next, record (entered proc cur grown parent child s) { pid_next = k })
  unfolding proc_table_add
  add_found k more run = ground (arith, to_search, count_after, valid.count)

  add_full :
      free_pids (set s.status s.pid_next running) ≡ 0
      → proc_table_add proc cur grown s
        ≡ ok (
          done s.pid_next,
          record (entered proc cur grown parent child s) { pid_next = pid_max + 1 },
        )
  unfolding proc_table_add
  add_full full = ground (arith, to_search, count_after, valid.count)

  add_lem :
      (s' : Procs) × (proc_table_add proc cur grown s ≡ ok (done s.pid_next, s'))
      × IsValid s'
      × Entered proc cur grown parent child s s'
  add_lem = elim (ℕ_discrete (free_pids (set s.status s.pid_next running)) 0) [
    | yes full ↦ (
      record (entered proc cur grown parent child s) { pid_next = pid_max + 1 },
      add_full full,
      entered-IsValid (pid_max + 1) (none_left s valid some_free full),
      entered-Entered (pid_max + 1),
    )
    | no more ↦
        let (k, run, is_next) = search s valid some_free (omega arith) in
        (
          record (entered proc cur grown parent child s) { pid_next = k },
          add_found k (omega arith) run,
          entered-IsValid k is_next,
          entered-Entered k,
        )
  ]

-- From a consistent table, proc_table_add refuses with ENPROC and changes nothing when no pid is
-- free. Otherwise it succeeds: the process gets `pid_next`, which was free and is running
-- afterwards, get_pid finds the process there, no other pid changes its status, the process joins
-- the children of the current one if their array can grow, and the table is consistent again. The current process and the new one are two processes that exist.
pub proc_table_add_lem :
    (s : Procs) (proc cur : ℕ) (grown : Bool) (parent child : Proc)
    → IsValid s
    → s.heap cur ≡ some parent
    → s.heap proc ≡ some child
    → cur ≢ proc
    → ((free_pids s.status ≡ 0) × (proc_table_add proc cur grown s ≡ ok (fail enproc, s)))
      ⊎ ((s' : Procs) × (proc_table_add proc cur grown s ≡ ok (done s.pid_next, s'))
          × IsValid s'
          × Entered proc cur grown parent child s s')
unfolding proc_table_add
proc_table_add_lem s proc cur grown parent child valid at_cur at_proc apart =
    elim (ℕ_discrete (free_pids s.status) 0) [
      | yes full ↦ inl (full, ground (arith, valid.count, full))
      | no more ↦
          inr (add_lem s valid proc cur grown parent child at_cur at_proc apart (omega arith))
    ]
