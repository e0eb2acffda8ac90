-- ===== src/PidTable/Exit.antt =====
-- Exit and waitpid.
use linux_like_os.Prelude.{ℕ, ◌<◌, ◌≡◌, ◌≢◌, some, length, get_or, set}
use linux_like_os.Prelude.Int.{ℤ, pos}
use linux_like_os.PidTable.Slots.{Proc, Procs, zombie}
use linux_like_os.PidTable.Ready.{status_of}
use linux_like_os.PidTable.Family.{proc_of, Entry, IsChild, bereaved}
use linux_like_os.PidTable.Children.{kid, Children, Distinct, Childless}

-- The process may exit: it has an entry, and its children are distinct processes other than it.
pub record CanExit (s : Procs) (cur : ℕ) (me : Proc) : Type 0 where
  pub entry : Entry s cur me
  pub children : Children (length me.children) me.children s
  pub distinct : Distinct (length me.children) me.children
  pub not_own : Childless (length me.children) me.children (some cur)

-- What is left of a process that has exited with a code while its parent runs.
abbrev pub Exited : (cur : ℕ) → Proc → ℤ → (s s' : Procs) → Type 0
Exited cur me code s s' =
    (status_of s'.status me.pid ≡ zombie)
    × (get_or s'.waitcode me.pid (pos 0) ≡ code)
    × (proc_of s' me.pid ≡ some cur)
    × ((p : ℕ) → Childless (length me.children) me.children (some p) → s'.heap p ≡ s.heap p)
    × ((k : ℕ) (child : Proc)
        → k < length me.children
        → IsChild s (kid me.children k) child
        → status_of s'.status child.pid ≡ bereaved (status_of s.status child.pid))
    × ((q : ℕ)
        → q ≢ me.pid
        → Childless (length me.children) me.children (proc_of s q)
        → (status_of s'.status q ≡ status_of s.status q) × (proc_of s' q ≡ proc_of s q))
    × (s'.heap cur ≡ some me)

-- The state after the exit of a process with a parent.
abbrev pub left_behind : Procs → Proc → ℤ → Procs
left_behind s me code = record s {
  status = set s.status me.pid zombie;
  waitcode = set s.waitcode me.pid code;
}
