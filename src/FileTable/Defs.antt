-- ===== src/FileTable/Defs.antt =====
-- The state of the open files, and the calls of the VFS that the system calls make.
use linux_like_os.Prelude.{
  ℕ, ◌+◌, ◌-◌, ◌%◌, ◌^◌, Bool, ◌&&◌, Option, none, some, List, ltb, leb, ◌==◌, if◌then◌else◌,
  get_or, Run, ok, panic, ◌>>◌, kassert, Reply,
}
use linux_like_os.Prelude.Int.{ℤ, pos, negsuc, pos_part, neg_part, ◌+ℤ◌}

-- `struct file_handler`
pub record FileHandler : Type 0 where
  pub vnode : ℕ
  pub d_count : ℤ
  pub mode : ℕ
  pub offset : ℤ
  pub config : Bool

-- The file table of the current process, the handlers by address, and the vnodes that
-- `vfs_close` was called on, the latest first.
pub record Files : Type 0 where
  pub table : List (Option ℕ)
  pub handlers : ℕ → Option FileHandler
  pub closed : List ℕ

abbrev pub open_max : ℕ
open_max = 32

abbrev pub o_rdonly : ℕ
o_rdonly = 0

abbrev pub o_wronly : ℕ
o_wronly = 1

abbrev pub o_accmode : ℕ
o_accmode = 3

abbrev pub o_append : ℕ
o_append = 32

-- `(int32_t)` of an offset: the low 32 bits, as a signed number.
unfoldable pub as_int32 : ℤ → ℤ
as_int32 a =
    let low = (pos_part a % 2 ^ 32 + 2 ^ 32 - neg_part a % 2 ^ 32) % 2 ^ 32 in
    if ltb low (2 ^ 31) then pos low else negsuc (2 ^ 32 - 1 - low)

-- What the system calls ask of the VFS: the vnode of a path, a file's size, the offset that a
-- transfer of `len` bytes from an offset ends at, and whether a vnode is seekable.
pub record Vfs : Type 0 where
  pub vfs_open : (path flags : ℕ) → Reply ℕ
  pub vop_stat : ℕ → Reply ℤ
  pub vop_read : (vnode : ℕ) → (offset : ℤ) → (len : ℕ) → Reply ℤ
  pub vop_write : (vnode : ℕ) → (offset : ℤ) → (len : ℕ) → Reply ℤ
  pub vop_isseekable : ℕ → Bool

-- The heap of handlers with one address written.
abbrev pub update : (ℕ → Option FileHandler) → ℕ → Option FileHandler → ℕ → Option FileHandler
update f p h q = if p == q then h else f q

-- The handler at an address: a freed one is undefined behaviour.
abbrev pub deref : Files → ℕ → Run FileHandler
deref s p = elim (s.handlers p) [ none ↦ panic | some h ↦ ok h ]

abbrev pub slot : List (Option ℕ) → ℕ → Option ℕ
slot t i = get_or t i none

-- `fd < 0 || fd >= OPEN_MAX || file_table[fd] == NULL` is `none`.
abbrev pub lookup_fd : List (Option ℕ) → ℤ → Option ℕ
lookup_fd t (negsuc n) = none
lookup_fd t (pos n) = if ltb n open_max then slot t n else none

-- Addition of two `off_t`: signed overflow is undefined behaviour.
abbrev pub off_min : ℤ
off_min = negsuc (2 ^ 63 - 1)

abbrev pub off_max : ℤ
off_max = pos (2 ^ 63 - 1)

abbrev pub leb_ℤ : ℤ → ℤ → Bool
leb_ℤ a b = leb (pos_part a + neg_part b) (pos_part b + neg_part a)

unfoldable pub add_off : ℤ → ℤ → Run ℤ
unfolding ◌+ℤ◌
add_off a b = do let sum = a +ℤ b; kassert (leb_ℤ off_min sum && leb_ℤ sum off_max); ok sum
