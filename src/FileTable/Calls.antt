-- ===== src/FileTable/Calls.antt =====
-- The system calls on open files. Each returns its error code or value, and the new state.
use linux_like_os.Prelude.{
  ℕ, zero, suc, ◌+◌, ◌-◌, bit_and, Bool, true, false, not, ◌&&◌, ◌||◌, Option, none, some, List, [],
  ◌∷◌, leb, ◌==◌, if◌then◌else◌, Run, ok, panic, ◌>>=◌, fetch, store, enomem, einval, emfile, ebadf,
  espipe, Reply, done, fail,
}
use linux_like_os.Prelude.Int.{ℤ, pos, negsuc, pos_part, neg_part, ◌+ℤ◌, ◌-ℤ◌, ltb_ℤ}
use linux_like_os.FileTable.Defs.{
  FileHandler, Files, open_max, o_rdonly, o_wronly, o_accmode, o_append, as_int32, Vfs, update,
  deref, lookup_fd, add_off,
}

-- while (i < OPEN_MAX && file_table[i] != NULL) i++, with the rounds left
unfoldable pub free_slot : ℕ → ℕ → List (Option ℕ) → Run ℕ
free_slot zero i t = ok i
free_slot (suc n) i t =
    let rest = free_slot n (i + 1) t in do p ← fetch t i; elim p [ none ↦ ok i | some q ↦ rest ]

-- `flags & O_APPEND` moves the offset to the end of the file.
abbrev pub start_offset : Vfs → ℕ → ℕ → Reply ℤ
start_offset vfs flags vnode =
    if bit_and flags o_append == 0 then done (pos 0) else vfs.vop_stat vnode

-- From `vfs_open` on, with the handler's memory at `p`; `got_lock` says whether `lock_create`
-- succeeds.
unfoldable pub open_at :
    Vfs → (path flags p i : ℕ) → (got_lock : Bool) → Files → Run (Reply ℕ × Files)
open_at vfs path flags p i got_lock s = elim (vfs.vfs_open path flags) [
  | fail e ↦ ok (fail e, s)
  | done vnode ↦
      let s_closed = record s { closed = vnode ∷ s.closed } in
      elim (start_offset vfs flags vnode) [
        | fail e ↦ ok (fail e, s_closed)
        | done off ↦
            let h : FileHandler = record {
              vnode = vnode;
              d_count = pos 1;
              mode = bit_and flags o_accmode;
              offset = off;
              config = false;
            } in
            if got_lock
            then (do
              t ← store s.table i (some p)
              ok (done i, record s { table = t; handlers = update s.handlers p (some h) }))
            else ok (fail enomem, s_closed)
      ]
]

-- `path` is what `copyinstr` gives, `fresh` what `kmalloc` returns.
unfoldable pub sys_open :
    Vfs
    → (path : Reply ℕ) → (flags : ℕ) → (fresh : Option ℕ) → (got_lock : Bool) → Files
    → Run (Reply ℕ × Files)
unfolding free_slot open_at
sys_open vfs path flags fresh got_lock s = elim path [
  | fail e ↦ ok (fail e, s)
  | done name ↦ do
    i ← free_slot (open_max - 3) 3 s.table
    if i == open_max then ok (fail emfile, s) else elim fresh [
      | none ↦ ok (fail enomem, s)
      | some p ↦ open_at vfs name flags p i got_lock s
    ]
]

-- The transfer of sys_read and sys_write: the number of bytes as an int32_t, and the new offset; `none` is EBADF by the mode.
unfoldable pub transfer :
    (ℕ → ℤ → ℕ → Reply ℤ) → (bad_mode : ℕ) → (fd : ℤ) → (len : ℕ) → Files → Run (Reply ℤ × Files)
unfolding ◌-ℤ◌ as_int32
transfer io bad_mode fd len s = elim (lookup_fd s.table fd) [
  | none ↦ ok (fail ebadf, s)
  | some p ↦ do
    h ← deref s p
    if h.mode == bad_mode then ok (fail ebadf, s) else elim (io h.vnode h.offset len) [
      | fail e ↦ ok (fail e, s)
      | done end ↦
          let h' : FileHandler = record h { offset = end } in
          ok (
            done (as_int32 (end -ℤ h.offset)),
            record s { handlers = update s.handlers p (some h') },
          )
    ]
]

unfoldable pub sys_read : Vfs → (fd : ℤ) → (len : ℕ) → Files → Run (Reply ℤ × Files)
unfolding transfer
sys_read vfs fd len s = transfer vfs.vop_read o_wronly fd len s

unfoldable pub sys_write : Vfs → (fd : ℤ) → (len : ℕ) → Files → Run (Reply ℤ × Files)
unfolding transfer
sys_write vfs fd len s = transfer vfs.vop_write o_rdonly fd len s

-- The last reference is gone: destroy the lock, close the vnode, free the handler.
abbrev pub drop_handler : ℕ → FileHandler → Files → Files
drop_handler p h s = record s { handlers = update s.handlers p none; closed = h.vnode ∷ s.closed }

unfoldable pub sys_close : (fd : ℤ) → Files → Run (Reply (Unit {0}) × Files)
unfolding ◌-ℤ◌
sys_close fd s = elim (lookup_fd s.table fd) [
  | none ↦ ok (fail ebadf, s)
  | some p ↦ do
    h ← deref s p
    let left = h.d_count -ℤ pos 1
    let h' : FileHandler = record h { d_count = left }
    if ltb_ℤ (pos 0) left
        then ok (done tt, record s { handlers = update s.handlers p (some h') })
        else (do
          t ← store s.table (pos_part fd) none
          ok (done tt, record (drop_handler p h s) { table = t }))
]

-- `switch (whence)`: SEEK_SET is 0, SEEK_CUR is 1, SEEK_END is 2.
unfoldable pub seek_target : Vfs → FileHandler → (offset : ℤ) → (whence : ℤ) → Run (Reply ℤ)
unfolding add_off
seek_target vfs h offset (pos zero) = ok (if ltb_ℤ offset (pos 0) then fail einval else done offset)
seek_target vfs h offset (pos (suc zero)) = do
  target ← add_off h.offset offset
  ok (if ltb_ℤ target (pos 0) then fail einval else done target)
seek_target vfs h offset (pos (suc (suc zero))) = elim (vfs.vop_stat h.vnode) [
  | fail e ↦ ok (fail e)
  | done size ↦ do
    target ← add_off size offset
    ok (if ltb_ℤ target (pos 0) then fail einval else done target)
]
seek_target vfs h offset _ = ok (fail einval)

unfoldable pub sys_lseek : Vfs → (fd offset whence : ℤ) → Files → Run (Reply ℤ × Files)
unfolding seek_target
sys_lseek vfs fd offset whence s = elim (lookup_fd s.table fd) [
  | none ↦ ok (fail ebadf, s)
  | some p ↦ do
    h ← deref s p
    if h.config
        then ok (fail espipe, s)
        else if not (vfs.vop_isseekable h.vnode)
        then ok (fail espipe, s)
        else (do
          target ← seek_target vfs h offset whence
          elim target [
            | fail e ↦ ok (fail e, s)
            | done off ↦
                let h' : FileHandler = record h { offset = off } in
                ok (done off, record s { handlers = update s.handlers p (some h') })
          ])
]

-- The handler that `newfd` held loses a reference.
unfoldable pub release_new : Option ℕ → Files → Run Files
unfolding ◌-ℤ◌
release_new none s = ok s
release_new (some q) s = do
  h ← deref s q
  let left = h.d_count -ℤ pos 1
  let h' : FileHandler = record h { d_count = left }
  ok (
      if (pos_part left == 0) && (neg_part left == 0)
      then drop_handler q h s
      else record s { handlers = update s.handlers q (some h') })

-- `newfd` points to the handler of `oldfd`, which gains a reference.
unfoldable pub share : (p newfd : ℕ) → Files → Run Files
unfolding ◌+ℤ◌
share p newfd s = do
  t ← store s.table newfd (some p)
  h ← deref s p
  let h' : FileHandler = record h { d_count = h.d_count +ℤ pos 1 }
  ok (record s { table = t; handlers = update s.handlers p (some h') })

abbrev pub bad_fd : ℤ → Bool
bad_fd (negsuc n) = true
bad_fd (pos n) = leb open_max n

unfoldable pub sys_dup2 : (oldfd newfd : ℤ) → Files → Run (Reply ℤ × Files)
unfolding release_new share
sys_dup2 oldfd newfd s =
    if bad_fd oldfd || bad_fd newfd then ok (fail ebadf, s) else elim (lookup_fd s.table oldfd) [
      | none ↦ ok (fail ebadf, s)
      | some p ↦ if pos_part oldfd == pos_part newfd then ok (done newfd, s) else (do
        s1 ← release_new (lookup_fd s.table newfd) s
        s2 ← share p (pos_part newfd) s1
        ok (done newfd, s2))
    ]

-- proc_create_fork: each open file of the parent is shared with the child, slot by slot; with the
-- slots left, the parent's table from there on, and the child's new table.
unfoldable pub copy_table :
    List (Option ℕ) → (ℕ → Option FileHandler) → Run (List (Option ℕ) × (ℕ → Option FileHandler))
unfolding ◌+ℤ◌
copy_table [] hs = ok ([], hs)
copy_table (none ∷ t) hs = do (t', hs') ← copy_table t hs; ok (none ∷ t', hs')
copy_table (some p ∷ t) hs = elim (hs p) [
  | none ↦ panic
  | some h ↦
      let h' : FileHandler = record h { d_count = h.d_count +ℤ pos 1 } in
      do (t', hs') ← copy_table t (update hs p (some h')); ok (some p ∷ t', hs')
]

-- proc_destroy: `destroy_counter = d_count--` is the count from before the decrement.
unfoldable pub release_slot : Option ℕ → Files → Run Files
unfolding ◌-ℤ◌
release_slot none s = ok s
release_slot (some p) s = do
  h ← deref s p
  let h' : FileHandler = record h { d_count = h.d_count -ℤ pos 1 }
  ok (
      if ltb_ℤ (pos 0) h.d_count
      then record s { handlers = update s.handlers p (some h') }
      else drop_handler p h s)

-- The loop of proc_destroy over the table, which is emptied.
unfoldable pub release_table : List (Option ℕ) → Files → Run Files
unfolding release_slot
release_table [] s = ok s
release_table (p ∷ t) s = do s' ← release_slot p s; release_table t s'
