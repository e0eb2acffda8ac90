-- ===== src/ThreadList.antt =====
-- kern/thread/threadlist.c: the doubly linked lists of threads, with a node at each end that
-- belongs to no thread. A node is an address, and a thread is named by the address of its
-- `t_listnode`. DEBUGASSERT is compiled out.
pub mod Links
pub mod Insert
pub mod Remove
pub mod Lists
pub mod Places
pub mod Promise
pub mod Refinement
pub mod Sequences
mod Tests
use linux_like_os.Prelude.{
  ℕ, ◌+◌, ◌-◌, ◌%◌, ◌^◌, Bool, Option, none, some, ◌==◌, if◌then◌else◌, Run, ok, panic, ◌>>=◌, ◌>>◌,
  kassert,
}

-- `struct threadlistnode`, field by field for all addresses; `none` is NULL.
pub record Nodes : Type 0 where
  pub tln_next : ℕ → Option ℕ
  pub tln_prev : ℕ → Option ℕ
  pub tln_self : ℕ → Option ℕ

-- `struct threadlist`; the ends are the addresses of its two nodes.
pub record Threadlist : Type 0 where
  pub tl_head : ℕ
  pub tl_tail : ℕ
  pub tl_count : ℕ

abbrev pub write : (ℕ → Option ℕ) → ℕ → Option ℕ → ℕ → Option ℕ
write f a v x = if a == x then v else f x

-- A pointer that is followed: NULL stops the kernel.
abbrev pub pointer : Option ℕ → Run ℕ
pointer none = panic
pointer (some a) = ok a

abbrev pub threadlistnode_init : (tln t : ℕ) → Nodes → Nodes
threadlistnode_init tln t s = record {
  tln_next = write s.tln_next tln none;
  tln_prev = write s.tln_prev tln none;
  tln_self = write s.tln_self tln (some t);
}

unfoldable pub threadlistnode_cleanup : ℕ → Nodes → Run (Unit {0})
threadlistnode_cleanup tln s = elim (s.tln_next tln) [
  | some a ↦ panic
  | none ↦ elim (s.tln_prev tln) [
    | some a ↦ panic
    | none ↦ elim (s.tln_self tln) [ none ↦ panic | some t ↦ ok tt ]
  ]
]

unfoldable pub threadlist_init : (head tail : ℕ) → Nodes → Threadlist × Nodes
threadlist_init head tail s = (
  record { tl_head = head; tl_tail = tail; tl_count = 0 },
  record {
    tln_next = write (write s.tln_next head (some tail)) tail none;
    tln_prev = write (write s.tln_prev head none) tail (some head);
    tln_self = write (write s.tln_self head none) tail none;
  },
)

unfoldable pub threadlist_isempty : Threadlist → Bool
threadlist_isempty tl = tl.tl_count == 0

unfoldable pub threadlist_cleanup : Threadlist → Run (Unit {0})
unfolding threadlist_isempty
threadlist_cleanup tl = do kassert (threadlist_isempty tl); kassert (tl.tl_count == 0)

unfoldable pub threadlist_insertafternode : (onlist addee : ℕ) → Nodes → Run Nodes
threadlist_insertafternode onlist addee s = do
  let prev1 = write s.tln_prev addee (some onlist)
  let next1 = write s.tln_next addee (s.tln_next onlist)
  before ← pointer (prev1 addee)
  let next2 = write next1 before (some addee)
  after ← pointer (next2 addee)
  ok (record s { tln_next = next2; tln_prev = write prev1 after (some addee) })

unfoldable pub threadlist_insertbeforenode : (addee onlist : ℕ) → Nodes → Run Nodes
threadlist_insertbeforenode addee onlist s = do
  let prev1 = write s.tln_prev addee (s.tln_prev onlist)
  let next1 = write s.tln_next addee (some onlist)
  before ← pointer (prev1 addee)
  let next2 = write next1 before (some addee)
  after ← pointer (next2 addee)
  ok (record s { tln_next = next2; tln_prev = write prev1 after (some addee) })

unfoldable pub threadlist_removenode : ℕ → Nodes → Run Nodes
threadlist_removenode tln s = do
  before ← pointer (s.tln_prev tln)
  let next1 = write s.tln_next before (s.tln_next tln)
  after ← pointer (next1 tln)
  let prev1 = write s.tln_prev after (s.tln_prev tln)
  ok (record s { tln_next = write next1 tln none; tln_prev = write prev1 tln none })

-- `tl_count++` and `tl_count--` of an unsigned int
abbrev pub counted_up : Threadlist → Threadlist
counted_up tl = record tl { tl_count = (tl.tl_count + 1) % 2 ^ 32 }

abbrev pub counted_down : Threadlist → Threadlist
counted_down tl = record tl { tl_count = (tl.tl_count + 2 ^ 32 - 1) % 2 ^ 32 }

unfoldable pub threadlist_addhead : (t : ℕ) → Threadlist → Nodes → Run (Threadlist × Nodes)
threadlist_addhead t tl s = do
  s' ← threadlist_insertafternode tl.tl_head t s
  ok (counted_up tl, s')

unfoldable pub threadlist_addtail : (t : ℕ) → Threadlist → Nodes → Run (Threadlist × Nodes)
threadlist_addtail t tl s = do
  s' ← threadlist_insertbeforenode t tl.tl_tail s
  ok (counted_up tl, s')

-- The thread that is taken, `none` from an empty list.
unfoldable pub threadlist_remhead : Threadlist → Nodes → Run (Option ℕ × Threadlist × Nodes)
threadlist_remhead tl s = do
  tln ← pointer (s.tln_next tl.tl_head)
  elim (s.tln_next tln) [
    | none ↦ ok (none, tl, s)
    | some a ↦ do s' ← threadlist_removenode tln s; ok (s'.tln_self tln, counted_down tl, s')
  ]

unfoldable pub threadlist_remtail : Threadlist → Nodes → Run (Option ℕ × Threadlist × Nodes)
threadlist_remtail tl s = do
  tln ← pointer (s.tln_prev tl.tl_tail)
  elim (s.tln_prev tln) [
    | none ↦ ok (none, tl, s)
    | some a ↦ do s' ← threadlist_removenode tln s; ok (s'.tln_self tln, counted_down tl, s')
  ]

unfoldable pub threadlist_insertafter :
    (onlist addee : ℕ) → Threadlist → Nodes → Run (Threadlist × Nodes)
threadlist_insertafter onlist addee tl s = do
  s' ← threadlist_insertafternode onlist addee s
  ok (counted_up tl, s')

unfoldable pub threadlist_insertbefore :
    (addee onlist : ℕ) → Threadlist → Nodes → Run (Threadlist × Nodes)
threadlist_insertbefore addee onlist tl s = do
  s' ← threadlist_insertbeforenode addee onlist s
  ok (counted_up tl, s')

unfoldable pub threadlist_remove : (t : ℕ) → Threadlist → Nodes → Run (Threadlist × Nodes)
threadlist_remove t tl s = do s' ← threadlist_removenode t s; ok (counted_down tl, s')
