-- ===== src/PidTable/Bootstrap.antt =====
-- The table at boot: proc_table_bootstrap.
use linux_like_os.Prelude.{
  ℕ, zero, suc, ◌+◌, ◌≤◌, ◌<◌, ◌≡◌, refl, ◌∙◌, ◌⊎◌, inl, none, some, List, arith, ℕ_discrete, ◌==◌,
  if◌then◌else◌, get_or-set, get_or-set_self, ok,
}
use linux_like_os.Prelude.Int.{pos, ◌+ℤ◌, ◌-ℤ◌, eq_of_parts, int_laws}
use linux_like_os.PidTable.Slots.{
  Procs, ready, running, pid_min, table_size, clear_loop, proc_table_bootstrap,
}
use linux_like_os.PidTable.Ready.{status_of, ready_count}
use linux_like_os.PidTable.Family.{proc_of}
use linux_like_os.PidTable.Valid.{
  free_pids, AreArrays, IsValid, cleared, clear_pid_lem, added, add_pid_lem, set-AreArrays,
}

-- The pids from `i` on are cleared, and no other.
abbrev Wiped : (n i : ℕ) → (s s' : Procs) → Type 0
Wiped n i s s' =
    AreArrays s'
    × (s'.pid_available ≡ s.pid_available +ℤ pos n)
    × (s'.pid_next ≡ s.pid_next)
    × ((j : ℕ) → i ≤ j → j < i + n → status_of s'.status j ≡ ready)
    × ((j : ℕ) → (j < i) ⊎ (i + n ≤ j) → status_of s'.status j ≡ status_of s.status j)
    × ((j : ℕ) → i ≤ j → j < i + n → proc_of s' j ≡ none)
    × ((j : ℕ) → (j < i) ⊎ (i + n ≤ j) → proc_of s' j ≡ proc_of s j)

clear_loop_lem :
    (n i : ℕ) (s : Procs)
    → AreArrays s
    → pid_min ≤ i
    → i + n ≤ table_size
    → (s' : Procs) × (clear_loop n i s ≡ ok s') × Wiped n i s s'
unfolding clear_loop
clear_loop_lem zero i s arrays lo hi = (
  s,
  refl,
  (
    arrays,
    eq_of_parts (s.pid_available) (s.pid_available +ℤ pos 0) (omega int_laws),
    refl,
    (λ j a b. absurd (omega arith)),
    (λ j o. refl),
    (λ j a b. absurd (omega arith)),
    (λ j o. refl),
  ),
)
clear_loop_lem (suc n) i s arrays lo hi =
    let s1 = cleared i s in
    let (s', run, (arrays', count, next, inner, outer, inner_proc, outer_proc)) =
      clear_loop_lem n (i + 1) s1 (set-AreArrays s i none ready (pos 0) arrays) (omega arith)
        (omega arith) in
    let (a, b, w) = arrays in
    let at : (j : ℕ) → status_of s1.status j ≡ (if i == j then ready else status_of s.status j) =
      λ j. get_or-set s.status i j ready running (omega arith) in
    let at_proc : (j : ℕ) → proc_of s1 j ≡ (if i == j then none else proc_of s j) =
      λ j. get_or-set s.proc i j none none (omega arith) in
    (
      s',
      ground (arith, clear_pid_lem i s arrays lo (omega arith), run),
      (
        arrays',
        count
            ∙ eq_of_parts (s.pid_available +ℤ pos 1 +ℤ pos n) (s.pid_available +ℤ pos (suc n))
                (omega int_laws),
        next,
        λ j x y. elim (ℕ_discrete i j) [
          | yes here ↦ ground (arith, outer j (inl (omega arith)), at j)
          | no ne ↦ inner j (omega arith) (omega arith)
        ],
        λ j o. ground (arith, outer j (omega arith), at j),
        λ j x y. elim (ℕ_discrete i j) [
          | yes here ↦ ground (arith, outer_proc j (inl (omega arith)), at_proc j)
          | no ne ↦ inner_proc j (omega arith) (omega arith)
        ],
        λ j o. ground (arith, outer_proc j (omega arith), at_proc j),
      ),
    )

all_ready :
    (st : List ℕ) (n i : ℕ)
    → ((j : ℕ) → i ≤ j → j < i + n → status_of st j ≡ ready)
    → ready_count n i st ≡ n
unfolding ready_count
all_ready st zero i h = refl
all_ready st (suc n) i h = ground (
  arith,
  h i (omega arith) (omega arith),
  all_ready st n (i + 1) (λ j a b. h j (omega arith) (omega arith)),
)

-- Whatever the memory of the table held, proc_table_bootstrap succeeds with a consistent table: the
-- entry of pid 1 is the kernel's process, which runs, the pids 2 to 31 are free and have no
-- process, and 2 is the next pid.
pub proc_table_bootstrap-IsValid :
    (kproc : ℕ) (junk : Procs)
    → AreArrays junk
    → (s : Procs) × (proc_table_bootstrap kproc junk ≡ ok s)
      × IsValid s
      × (free_pids s.status ≡ 30)
      × (s.pid_next ≡ pid_min)
      × (status_of s.status 1 ≡ running)
      × (proc_of s 1 ≡ some kproc)
      × ((j : ℕ) → pid_min ≤ j → j < 32 → (status_of s.status j ≡ ready) × (proc_of s j ≡ none))
unfolding proc_table_bootstrap ◌+ℤ◌ ◌-ℤ◌
proc_table_bootstrap-IsValid kproc junk arrays =
    let start : Procs = record junk { pid_available = pos 1; pid_next = pid_min; kproc = kproc } in
    let s1 = added 1 kproc start in
    let (a, b, w) = arrays in
    let (s, run, (arrays', count, next, inner, outer, inner_proc, outer_proc)) =
      clear_loop_lem 30 pid_min s1 (set-AreArrays start 1 (some kproc) running (pos 0) arrays)
        (omega arith) (omega arith) in
    let free' = all_ready s.status 30 pid_min inner in
    (
      s,
      ground (arith, add_pid_lem 1 kproc start arrays (omega arith), run),
      record {
        arrays = arrays';
        count = ground (arith, count, free');
        next = (
          inl (omega arith, omega arith, inner s.pid_next (omega arith) (omega arith)),
          λ j lo hi r. omega arith,
        );
      },
      free',
      next,
      ground (
        arith,
        outer 1 (inl (omega arith)),
        get_or-set_self junk.status 1 running running (omega arith),
      ),
      outer_proc 1 (inl (omega arith))
          ∙ get_or-set_self junk.proc 1 (some kproc) none (omega arith),
      λ j lo hi. (inner j lo (omega arith), inner_proc j lo (omega arith)),
    )
