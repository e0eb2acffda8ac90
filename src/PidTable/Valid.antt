-- ===== src/PidTable/Valid.antt =====
-- When the table of process ids is consistent.
use linux_like_os.Prelude.{
  ℕ, ◌+◌, ◌≤◌, ◌<◌, ◌≡◌, ◌∙◌, ◌⊎◌, inl, inr, Option, none, some, List, arith, length, set,
  length-set, get_elem?-some, ok,
}
use linux_like_os.Prelude.Int.{ℤ, pos, ◌+ℤ◌, ◌-ℤ◌}
use linux_like_os.PidTable.Slots.{
  Procs, ready, running, pid_min, pid_max, table_size, clear_pid, add_pid,
}
use linux_like_os.PidTable.Ready.{status_of, ready_count, ready_count-pos, find_ready}

-- The pids that processes get are 2 to 31.
abbrev pub free_pids : List ℕ → ℕ
free_pids st = ready_count 30 pid_min st

-- `pid_next` is the least free pid, or PID_MAX + 1.
abbrev pub IsNext : ℕ → List ℕ → Type 0
IsNext next st =
    (((pid_min ≤ next) × (next < 32) × (status_of st next ≡ ready)) ⊎ (next ≡ pid_max + 1))
    × ((j : ℕ) → pid_min ≤ j → j < 32 → status_of st j ≡ ready → next ≤ j)

abbrev pub AreArrays : Procs → Type 0
AreArrays s =
    (length s.proc ≡ table_size) × (length s.status ≡ table_size) × (length s.waitcode ≡ table_size)

-- The arrays have their size, the count of free pids is right, and so is `pid_next`.
pub record IsValid (s : Procs) : Type 0 where
  pub arrays : AreArrays s
  pub count : s.pid_available ≡ pos (free_pids s.status)
  pub next : IsNext s.pid_next s.status

module _ (s : Procs) (valid : IsValid s) where
  pub has_free :
      0 < free_pids s.status
      → (pid_min ≤ s.pid_next) × (s.pid_next < 32) × (status_of s.status s.pid_next ≡ ready)
  has_free some_free =
      let (j, lo, hi, found) = find_ready s.status 30 pid_min some_free in
      let below = valid.next.1 j lo hi found in
      elim (valid.next.0) [ inl h ↦ h | inr full ↦ absurd (omega arith) ]

  pub is_full : free_pids s.status ≡ 0 → s.pid_next ≡ pid_max + 1
  is_full none_free = elim (valid.next.0) [
    | inl (lo, hi, free') ↦
        absurd
          (omega (arith, ready_count-pos s.status 30 pid_min s.pid_next lo (omega arith) free'))
    | inr full ↦ full
  ]

-- What clear_pid does to a state with arrays.
abbrev pub cleared : ℕ → Procs → Procs
cleared pid s = record s {
  proc = set s.proc pid none;
  status = set s.status pid ready;
  waitcode = set s.waitcode pid (pos 0);
  pid_available = s.pid_available +ℤ pos 1;
}

pub clear_pid_lem :
    (pid : ℕ) (s : Procs)
    → AreArrays s
    → pid_min ≤ pid
    → pid < table_size
    → clear_pid pid s ≡ ok (cleared pid s)
unfolding clear_pid
clear_pid_lem pid s (a, b, c) lo hi = ground (
  arith,
  get_elem?-some s.proc pid none (omega arith),
  get_elem?-some s.status pid ready (omega arith),
  get_elem?-some s.waitcode pid (pos 0) (omega arith),
)

abbrev pub added : (pid proc : ℕ) → Procs → Procs
added pid proc s = record s {
  proc = set s.proc pid (some proc);
  status = set s.status pid running;
  waitcode = set s.waitcode pid (pos 0);
  pid_available = s.pid_available -ℤ pos 1;
}

pub add_pid_lem :
    (pid proc : ℕ) (s : Procs)
    → AreArrays s
    → pid < table_size
    → add_pid pid proc s ≡ ok (added pid proc s)
unfolding add_pid
add_pid_lem pid proc s (a, b, c) hi = ground (
  arith,
  get_elem?-some s.proc pid none (omega arith),
  get_elem?-some s.status pid ready (omega arith),
  get_elem?-some s.waitcode pid (pos 0) (omega arith),
)

pub set-AreArrays :
    (s : Procs) (pid : ℕ) (p : Option ℕ) (v : ℕ) (w : ℤ)
    → AreArrays s
    → (length (set s.proc pid p) ≡ table_size)
      × (length (set s.status pid v) ≡ table_size)
      × (length (set s.waitcode pid w) ≡ table_size)
set-AreArrays s pid p v w (a, b, c) =
    (length-set s.proc pid p ∙ a, length-set s.status pid v ∙ b, length-set s.waitcode pid w ∙ c)
