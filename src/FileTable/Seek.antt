-- ===== src/FileTable/Seek.antt =====
-- sys_lseek, sys_read and sys_write of kern/syscall/file_syscalls.c: the offset of a handler.
use linux_like_os.Prelude.{
  ℕ, zero, suc, ◌≡◌, true, false, some, arith, ◌==◌, if◌then◌else◌, ok, Errno, einval, ebadf, Reply,
  done, fail,
}
use linux_like_os.Prelude.Int.{ℤ, pos, ◌+ℤ◌, ◌-ℤ◌, ◌≤ℤ◌, ltb_ℤ}
use linux_like_os.FileTable.{
  FileHandler, Files, o_wronly, as_int32, Vfs, update, lookup_fd, off_min, off_max, sys_read,
  sys_lseek,
}

-- The state in which the handler `h` at `p` has moved to an offset.
abbrev pub at_offset : Files → ℕ → FileHandler → ℤ → Files
at_offset s p h off = record s { handlers = update s.handlers p (some (record h { offset = off })) }

-- The base that `whence` names: 0, the current offset, or the end of the file.
abbrev pub seek_base : Vfs → FileHandler → (whence : ℕ) → Reply ℤ
seek_base vfs h zero = done (pos 0)
seek_base vfs h (suc zero) = done h.offset
seek_base vfs h (suc (suc zero)) = vfs.vop_stat h.vnode
seek_base vfs h _ = fail einval

-- An offset that fits `off_t`.
abbrev pub InRange : ℤ → Type 0
InRange a = (off_min ≤ℤ a) × (a ≤ℤ off_max)

module _ (vfs : Vfs) (s : Files) (fd : ℤ) (p : ℕ) (h : FileHandler)
    (opened : lookup_fd s.table fd ≡ some p) (there : s.handlers p ≡ some h)
    (file : h.config ≡ false) (seekable : vfs.vop_isseekable h.vnode ≡ true) where
  -- On an open seekable file, with a base that `whence` names and a target in range, `sys_lseek`
  -- moves the offset to base + offset and returns it if that is not negative, and else gives
  -- EINVAL and changes nothing.
  pub sys_lseek-moves :
      (offset : ℤ) (whence : ℕ) (base : ℤ)
      → seek_base vfs h whence ≡ done base
      → InRange (base +ℤ offset)
      → sys_lseek vfs fd offset (pos whence) s ≡ (
          if ltb_ℤ (base +ℤ offset) (pos 0)
          then ok (fail einval, s)
          else ok (done (base +ℤ offset), at_offset s p h (base +ℤ offset)))
  unfolding sys_lseek ◌+ℤ◌
  sys_lseek-moves offset zero base e range = ground arith
  sys_lseek-moves offset (suc zero) base e range = ground arith
  sys_lseek-moves offset (suc (suc zero)) base e range = ground arith
  sys_lseek-moves offset (suc (suc (suc w))) base e range = ground arith

  -- An error of `VOP_STAT` at SEEK_END, and a `whence` that names nothing, come back unchanged.
  pub sys_lseek-fails :
      (offset : ℤ) (whence : ℕ) (e : Errno)
      → seek_base vfs h whence ≡ fail e
      → sys_lseek vfs fd offset (pos whence) s ≡ ok (fail e, s)
  unfolding sys_lseek ◌+ℤ◌
  sys_lseek-fails offset zero e failed = ground arith
  sys_lseek-fails offset (suc zero) e failed = ground arith
  sys_lseek-fails offset (suc (suc zero)) e failed = ground arith
  sys_lseek-fails offset (suc (suc (suc w))) e failed = ground arith

-- `sys_read` of an open descriptor whose handler is not write-only moves the offset to where
-- `VOP_READ` ended and returns the distance; an error of `VOP_READ` changes nothing. A write-only
-- handler gives EBADF.
sys_read_lem :
    (vfs : Vfs) (s : Files) (fd : ℤ) (len p : ℕ) (h : FileHandler)
    → lookup_fd s.table fd ≡ some p
    → s.handlers p ≡ some h
    → sys_read vfs fd len s ≡ (
        if h.mode == o_wronly
        then ok (fail ebadf, s)
        else elim (vfs.vop_read h.vnode h.offset len) [
          | fail e ↦ ok (fail e, s)
          | done end ↦ ok (done (as_int32 (end -ℤ h.offset)), at_offset s p h end)
        ])
unfolding sys_read
sys_read_lem vfs s fd len p h opened there = ground arith
