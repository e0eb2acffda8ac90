-- ===== src/PidTable/Tests.antt =====
-- Runs of the process table, and the theorems at concrete processes.
use linux_like_os.PidTable.Add.{Entered, proc_table_add_lem}
use linux_like_os.PidTable.Failed.{proc_create_fork-dangling, sys__exit-orphan_overflow}
use linux_like_os.PidTable.Bootstrap.{proc_table_bootstrap-IsValid}
use linux_like_os.PidTable.{proc_table_add, proc_create_fork, sys__exit, wait_check, sys_waitpid}
use linux_like_os.Prelude.{
  ℕ, ◌+◌, ◌≤◌, ◌<◌, ◌≡◌, refl, ◌⊎◌, inl, inr, Bool, true, not, ◌&&◌, ◌||◌, Option, none, some, List,
  [], ◌∷◌, ◌++◌, arith, leb, ◌==◌, if◌then◌else◌, replicate, ok, panic, ◌>>=◌, enomem, esrch,
  enproc, done, fail,
}
use linux_like_os.Prelude.Int.{pos, ◌-ℤ◌}
use linux_like_os.Prelude.Below.{all_below, all_below_sound}
use linux_like_os.PidTable.Slots.{
  Proc, Procs, ready, running, pid_min, pid_max, new_proc, add_pid, get_pid, next_ready,
  proc_table_bootstrap,
}
use linux_like_os.PidTable.Ready.{status_of, ready_count}
use linux_like_os.PidTable.Valid.{free_pids, IsValid}
use linux_like_os.PidTable.Family.{proc_of}

-- The parent at address 200 with pid 2, and its child at address 300 with pid 3.
abbrev mother : Proc
mother = record { pid = 2; children = 300 ∷ [] }

abbrev daughter : Proc
daughter = record { pid = 3; children = [] }

abbrev two_procs : ℕ → Option Proc
two_procs p =
    if p == 200
    then some mother
    else if p == 300
    then some daughter
    else if p == 400
    then some new_proc
    else none

abbrev entries : List (Option ℕ)
entries = none ∷ some 100 ∷ some 200 ∷ some 300 ∷ replicate 29 none

abbrev with_status : (rest : List ℕ) → (available next : ℕ) → Procs
with_status st available next = record {
  proc = entries;
  status = st;
  waitcode = replicate 33 (pos 0);
  pid_available = pos available;
  pid_next = next;
  heap = two_procs;
  kproc = 100;
}

abbrev both_run : Procs
both_run = with_status (1 ∷ 1 ∷ 1 ∷ 1 ∷ replicate 28 0 ++ 1 ∷ []) 28 4

-- A full table in which pid 3 is an orphan.
abbrev all_taken : Procs
all_taken = with_status (1 ∷ 1 ∷ 1 ∷ 3 ∷ replicate 29 1) 0 (pid_max + 1)

-- No free pid from 2 on is below `next`.
abbrev none_before : ℕ → List ℕ → ℕ → Bool
none_before next st j = not (leb pid_min j && status_of st j == ready) || leb next j

least :
    (next : ℕ) (st : List ℕ)
    → all_below 32 (none_before next st) ≡ true
    → (j : ℕ) → pid_min ≤ j
    → j < 32
    → status_of st j ≡ ready
    → next ≤ j
least next st whole j lo hi r = ground (arith, all_below_sound 32 (none_before next st) j whole hi)

both_run-IsValid : IsValid both_run
unfolding ready_count all_below
both_run-IsValid = record {
  arrays = (refl, refl, refl);
  count = refl;
  next = (inl (omega arith, omega arith, refl), least 4 both_run.status refl);
}

all_taken-IsValid : IsValid all_taken
unfolding ready_count all_below
all_taken-IsValid = record {
  arrays = (refl, refl, refl);
  count = refl;
  next = (inr refl, least (pid_max + 1) all_taken.status refl);
}

abbrev junk : Procs
junk = with_status (replicate 33 9) 7 0

proc_table_bootstrap-IsValid_example :
    (s : Procs) × (proc_table_bootstrap 100 junk ≡ ok s)
    × IsValid s
    × (free_pids s.status ≡ 30)
    × (s.pid_next ≡ pid_min)
    × (status_of s.status 1 ≡ running)
    × (proc_of s 1 ≡ some 100)
    × ((j : ℕ) → pid_min ≤ j → j < 32 → (status_of s.status j ≡ ready) × (proc_of s j ≡ none))
proc_table_bootstrap-IsValid_example = proc_table_bootstrap-IsValid 100 junk (refl, refl, refl)

proc_table_add_lem_example :
    ((free_pids both_run.status ≡ 0)
      × (proc_table_add 400 200 true both_run ≡ ok (fail enproc, both_run)))
    ⊎ ((s' : Procs) × (proc_table_add 400 200 true both_run ≡ ok (done 4, s'))
        × IsValid s'
        × Entered 400 200 true mother new_proc both_run s')
proc_table_add_lem_example =
    proc_table_add_lem both_run 400 200 true mother new_proc both_run-IsValid refl refl
      (λ x. ground (arith, x))

some_left : 0 < free_pids both_run.status
unfolding ready_count
some_left = omega arith

none_left : free_pids all_taken.status ≡ 0
unfolding ready_count
none_left = refl

proc_create_fork-dangling_example :
    (s' : Procs) × (proc_create_fork 200 (some 500) true (fail enomem) both_run
      ≡ ok (fail enomem, s'))
    × (status_of s'.status 4 ≡ running)
    × (sys__exit 200 (pos 0) (7 ∷ []) s' ≡ panic)
proc_create_fork-dangling_example =
    proc_create_fork-dangling both_run 200 500 mother enomem (pos 0) (7 ∷ []) both_run-IsValid
      some_left refl refl (λ x. ground (arith, x))

sys__exit-orphan_overflow_example :
    (s' : Procs) × (sys__exit 300 (pos 0) [] all_taken ≡ ok ([], s'))
    × (0 < free_pids s'.status)
    × (proc_table_add 400 200 true s' ≡ panic)
sys__exit-orphan_overflow_example =
    sys__exit-orphan_overflow all_taken 300 daughter (pos 0) [] 400 200 true mother new_proc
      all_taken-IsValid none_left (refl, omega arith, omega arith, refl) refl refl
      (λ x. ground (arith, x)) refl refl (λ x. ground (arith, x)) (λ x. ground (arith, x))

-- A fork enters the child at pid 4; a pid that is free is no child; options are refused.
fork_pid :
    (proc_create_fork 200 (some 500) true (done tt) both_run >>= λ r. get_pid 4 r.1) ≡ ok (some 500)
unfolding proc_create_fork proc_table_add add_pid next_ready get_pid ◌-ℤ◌
fork_pid = refl

wait_refused : sys_waitpid 200 (pos 5) (pos 0) none both_run [] ≡ ok (some (fail esrch))
unfolding sys_waitpid wait_check
wait_refused = refl
