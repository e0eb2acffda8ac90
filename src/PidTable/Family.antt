-- ===== src/PidTable/Family.antt =====
-- The children of an exiting process: proc_table_update_children.
use linux_like_os.PidTable.{update_child}
use linux_like_os.Prelude.{
  ℕ, ◌≤◌, ◌<◌, ◌≡◌, refl, ap, ◌∙◌, ◌≢◌, ◌⊎◌, inl, inr, Option, none, some, arith, dec_lt,
  ℕ_discrete, ltb, ◌==◌, if◌then◌else◌, get_or, set, length-set, get_or-set, get_elem?-some,
  get_or-set_self, ok,
}
use linux_like_os.Prelude.Int.{pos, ◌+ℤ◌}
use linux_like_os.PidTable.Slots.{
  Proc, Procs, ready, running, zombie, orphan, pid_min, write, proc_destroy,
}
use linux_like_os.PidTable.Ready.{status_of, ready_count-set}
use linux_like_os.PidTable.Valid.{IsValid, cleared, clear_pid_lem, set-AreArrays}

abbrev pub proc_of : Procs → ℕ → Option ℕ
proc_of s pid = get_or s.proc pid none

-- A process with an entry in the table.
abbrev pub Entry : Procs → (address : ℕ) → Proc → Type 0
Entry s c p = (s.heap c ≡ some p) × (pid_min ≤ p.pid) × (p.pid < 32) × (proc_of s p.pid ≡ some c)

-- One that its parent may meet: it runs, or it has exited.
abbrev pub IsChild : Procs → (address : ℕ) → Proc → Type 0
IsChild s c p =
    Entry s c p
    × (c ≢ s.kproc)
    × ((status_of s.status p.pid ≡ running) ⊎ (status_of s.status p.pid ≡ zombie))

-- The status of a child once its parent has exited.
abbrev pub bereaved : ℕ → ℕ
bereaved v = if v == running then orphan else ready

-- One child `c` is updated: its own status, and what stays.
abbrev pub Updated : (c : ℕ) → (pid : ℕ) → (s s' : Procs) → Type 0
Updated c pid s s' =
    (status_of s'.status pid ≡ bereaved (status_of s.status pid))
    × ((q : ℕ) → q ≢ pid → status_of s'.status q ≡ status_of s.status q)
    × ((q : ℕ) → q ≢ pid → proc_of s' q ≡ proc_of s q)
    × ((p : ℕ) → p ≢ c → s'.heap p ≡ s.heap p)
    × ((proc_of s' pid ≡ some c) ⊎ (proc_of s' pid ≡ none))
    × (s'.kproc ≡ s.kproc)

-- An entry that is cleared when `pid_next` is lowered to it.
abbrev pub reaped : Procs → (c : ℕ) → Proc → Procs
reaped s c child = cleared child.pid (record s {
  pid_next = if ltb child.pid s.pid_next then child.pid else s.pid_next;
  heap = write s.heap c none;
})

module _ (s : Procs) (valid : IsValid s) (c : ℕ) (child : Proc) (entry : Entry s c child) where
  -- A running child becomes an orphan.
  orphaned-IsValid :
      status_of s.status child.pid ≡ running
      → IsValid (record s { status = set s.status child.pid orphan })
  orphaned-IsValid runs =
      let (a, b, w) = valid.arrays in
      let (h, lo, hi, e) = entry in
      let same =
        ready_count-set s.status child.pid orphan (omega arith) 30 pid_min lo (omega arith) in
      let st' = set s.status child.pid orphan in
      let old : (j : ℕ) → status_of st' j ≡ ready → status_of s.status j ≡ ready =
        λ j r. ground (arith, r, get_or-set s.status child.pid j orphan running (omega arith)) in
      let new : (j : ℕ) → status_of s.status j ≡ ready → status_of st' j ≡ ready = λ j r.
        elim (ℕ_discrete child.pid j) [
          | yes same ↦ ground (arith, r, runs, ap (status_of s.status) same)
          | no ne ↦ ground (arith, r, get_or-set s.status child.pid j orphan running (omega arith))
        ] in
      record {
        arrays = (a, length-set s.status child.pid orphan ∙ b, w);
        count = ground (arith, same, valid.count, runs);
        next = (
          elim (valid.next.0) [
            | inl (x, y, r) ↦ inl (x, y, new s.pid_next r)
            | inr full ↦ inr full
          ],
          λ j x y r. valid.next.1 j x y (old j r),
        );
      }

  reaped-IsValid : status_of s.status child.pid ≢ ready → IsValid (reaped s c child)
  unfolding ◌+ℤ◌
  reaped-IsValid taken =
      let (a, b, w) = valid.arrays in
      let (h, lo, hi, e) = entry in
      let more =
        ready_count-set s.status child.pid ready (omega arith) 30 pid_min lo (omega arith) in
      let at : (j : ℕ)
          → status_of (set s.status child.pid ready) j
            ≡ (if child.pid == j then ready else status_of s.status j) =
        λ j. get_or-set s.status child.pid j ready running (omega arith) in
      record {
        arrays = set-AreArrays s child.pid none ready (pos 0) valid.arrays;
        count = ground (arith, more, valid.count);
        next = (
          elim (dec_lt child.pid s.pid_next) [
            | yes lt ↦ inl (ground arith, ground arith, ground (arith, at child.pid))
            | no ge ↦ elim (valid.next.0) [
              | inl (x, y, r) ↦ inl (ground arith, ground arith, ground (arith, at s.pid_next))
              | inr full ↦ absurd (omega arith)
            ]
          ],
          λ j x y r. elim (ℕ_discrete child.pid j) [
            | yes same ↦ ground (arith, same)
            | no ne ↦ ground (arith, at j, valid.next.1 j x y)
          ],
        );
      }

  update_running :
      status_of s.status child.pid ≡ running
      → update_child c s ≡ ok (record s { status = set s.status child.pid orphan })
  unfolding update_child
  update_running runs =
      let (a, b, w) = valid.arrays in
      let (h, lo, hi, e) = entry in
      ground (arith, h, runs, get_elem?-some s.status child.pid running (omega arith))

  update_zombie :
      c ≢ s.kproc → status_of s.status child.pid ≡ zombie → update_child c s ≡ ok (reaped s c child)
  unfolding update_child proc_destroy
  update_zombie not_kproc exited =
      let (a, b, w) = valid.arrays in
      let (h, lo, hi, e) = entry in
      let lowered : Procs = record s {
        pid_next = if ltb child.pid s.pid_next then child.pid else s.pid_next;
        heap = write s.heap c none;
      } in
      ground (
        arith,
        h,
        exited,
        get_elem?-some s.status child.pid running (omega arith),
        clear_pid_lem child.pid lowered valid.arrays lo (omega arith),
      )

  running-Updated :
      status_of s.status child.pid ≡ running
      → Updated c child.pid s (record s { status = set s.status child.pid orphan })
  running-Updated runs =
      let (a, b, w) = valid.arrays in
      let (h, lo, hi, e) = entry in
      (
        ground (arith, runs, get_or-set_self s.status child.pid orphan running (omega arith)),
        λ q ne. ground (arith, get_or-set s.status child.pid q orphan running (omega arith)),
        λ q ne. refl,
        λ p ne. refl,
        inl e,
        refl,
      )

  reaped-Updated : status_of s.status child.pid ≡ zombie → Updated c child.pid s (reaped s c child)
  reaped-Updated exited =
      let (a, b, w) = valid.arrays in
      let (h, lo, hi, e) = entry in
      (
        ground (arith, exited, get_or-set_self s.status child.pid ready running (omega arith)),
        λ q ne. ground (arith, get_or-set s.status child.pid q ready running (omega arith)),
        λ q ne. ground (arith, get_or-set s.proc child.pid q none none (omega arith)),
        λ p ne. ground arith,
        inr (get_or-set_self s.proc child.pid none none (omega arith)),
        refl,
      )

pub update_child_lem :
    (s : Procs) (c : ℕ) (child : Proc)
    → IsValid s
    → IsChild s c child
    → (s' : Procs) × (update_child c s ≡ ok s') × IsValid s' × Updated c child.pid s s'
update_child_lem s c child valid (entry, not_kproc, inl runs) = (
  record s { status = set s.status child.pid orphan },
  update_running s valid c child entry runs,
  orphaned-IsValid s valid c child entry runs,
  running-Updated s valid c child entry runs,
)
update_child_lem s c child valid (entry, not_kproc, inr exited) = (
  reaped s c child,
  update_zombie s valid c child entry not_kproc exited,
  reaped-IsValid s valid c child entry (λ r. ground (arith, r, exited)),
  reaped-Updated s valid c child entry exited,
)
