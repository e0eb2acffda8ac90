-- ===== src/FileTable/Tests.antt =====
-- The theorems of the open files at a process whose descriptor 3 is open.
use linux_like_os.Prelude.{
  ℕ, ◌+◌, ◌≡◌, refl, ◌≢◌, inl, true, false, Option, none, some, [], ◌∷◌, arith, ◌==◌, if◌then◌else◌,
  replicate, ok, einval, ebadf, Reply, done, fail,
}
use linux_like_os.Prelude.Int.{pos, negsuc, ◌+ℤ◌, ◌-ℤ◌, ltb_ℤ}
use linux_like_os.FileTable.{
  FileHandler, Files, as_int32, Vfs, update, slot, sys_open, sys_read, sys_close, sys_lseek,
  sys_dup2, copy_table, release_table,
}
use linux_like_os.FileTable.Counted.{refs, IsCounted}
use linux_like_os.FileTable.Seek.{at_offset, sys_lseek-moves, sys_lseek-fails}
use linux_like_os.FileTable.Sharing.{sys_dup2-IsCounted, sys_dup2-unchanged}
use linux_like_os.FileTable.Closing.{sys_close-last, sys_close_twice-dangling}
use linux_like_os.FileTable.Opening.{Opened, sys_open-Opened}
use linux_like_os.FileTable.Forking.{copy_table-IsCounted, release_table-leaks}

abbrev file : ℕ → FileHandler
file n = record { vnode = 90; d_count = pos n; mode = 0; offset = pos 4; config = false }

-- Descriptor 3 holds the handler at 7, which counts `n` references.
abbrev files : ℕ → Files
files n = record {
  table = none ∷ none ∷ none ∷ some 7 ∷ replicate 28 none;
  handlers = update (λ p. none) 7 (some (file n));
  closed = [];
}

-- The other processes hold the handler at 7 `n` times.
abbrev elsewhere : ℕ → ℕ → ℕ
elsewhere n p = if p == 7 then n else 0

files-IsCounted : (n : ℕ) → IsCounted (elsewhere n) (files (n + 1))
unfolding refs
files-IsCounted n = record {
  size = refl;
  counted = λ p. ground arith;
  live = λ p h e. ground arith;
}

-- A file of 10 bytes, at whose end a read stops.
abbrev disk : Vfs
disk = record {
  vfs_open = λ path flags. done 91;
  vop_stat = λ v. done (pos 10);
  vop_read = λ v off len. done (if ltb_ℤ (pos 10) (off +ℤ pos len) then pos 10 else off +ℤ pos len);
  vop_write = λ v off len. done (off +ℤ pos len);
  vop_isseekable = λ v. true;
}

sys_dup2-IsCounted_example :
    (s' : Files) × (sys_dup2 (pos 3) (pos 5) (files 2) ≡ ok (done (pos 5), s'))
    × IsCounted (elsewhere 1) s'
    × ((k : ℕ) → slot s'.table k ≡ (if 5 == k then some 7 else slot (files 2).table k))
sys_dup2-IsCounted_example =
    sys_dup2-IsCounted 3 5 7 (files-IsCounted 1) (omega arith) (omega arith) (omega arith) refl

sys_dup2-unchanged_example : sys_dup2 (pos 4) (pos 40) (files 1) ≡ ok (fail ebadf, files 1)
sys_dup2-unchanged_example = sys_dup2-unchanged (files 1) (pos 4) (pos 40) (inl refl)

sys_close-last_example :
    (s' : Files) × (sys_close (pos 3) (files 1) ≡ ok (done tt, s'))
    × IsCounted (elsewhere 0) s'
    × ((k : ℕ) → slot s'.table k ≡ (if 3 == k then none else slot (files 1).table k))
    × (s'.handlers 7 ≡ none)
    × ((q : ℕ) → q ≢ 7 → s'.handlers q ≡ (files 1).handlers q)
    × ((h : FileHandler) → (files 1).handlers 7 ≡ some h → s'.closed ≡ h.vnode ∷ [])
unfolding refs
sys_close-last_example = sys_close-last 3 7 (files-IsCounted 0) (omega arith) refl refl

sys_close_twice-dangling_example :
    (s' s'' : Files) × (sys_close (pos 3) (files 2) ≡ ok (done tt, s'))
    × (sys_close (pos 3) s' ≡ ok (done tt, s''))
    × (s''.handlers 7 ≡ none)
    × (s''.closed ≡ 90 ∷ [])
unfolding refs
sys_close_twice-dangling_example =
    sys_close_twice-dangling 3 7 (file 2) (files-IsCounted 1) (omega arith) refl refl refl refl

sys_open-Opened_example :
    (r : Reply ℕ × Files) × (sys_open disk (done 1) 2 (some 8) true (files 1) ≡ ok r)
    × Opened disk (done 1) 2 (some 8) true (elsewhere 0) (files 1) r
sys_open-Opened_example =
    sys_open-Opened disk 2 true (done 1) (some 8) (files-IsCounted 0) (λ p e. ground arith)

-- The lowest free descriptor is 4.
open_at_four : (f : Files) × (sys_open disk (done 1) 34 (some 8) true (files 1) ≡ ok (done 4, f))
unfolding sys_open
open_at_four = (_, refl)

copy_table-IsCounted_example :
    (hs : ℕ → Option FileHandler) × (copy_table (files 1).table (files 1).handlers
      ≡ ok ((files 1).table, hs))
    × IsCounted (λ p. refs p (files 1).table + elsewhere 0 p) (record (files 1) { handlers = hs })
copy_table-IsCounted_example = copy_table-IsCounted (files-IsCounted 0)

release_table-leaks_example :
    (s' : Files) × (release_table (files 1).table (files 1) ≡ ok s')
    × (s'.closed ≡ [])
    × ((p : ℕ) (h : FileHandler)
        → (files 1).handlers p ≡ some h
        → s'.handlers p ≡ some (record h { d_count = pos (elsewhere 0 p) }))
release_table-leaks_example = release_table-leaks (files-IsCounted 0)

sys_lseek-moves_example :
    sys_lseek disk (pos 3) (negsuc 1) (pos 2) (files 1)
    ≡ ok (done (pos 8), at_offset (files 1) 7 (file 1) (pos 8))
unfolding ◌+ℤ◌
sys_lseek-moves_example =
    sys_lseek-moves disk (files 1) (pos 3) 7 (file 1) refl refl refl refl (negsuc 1) 2 (pos 10) refl
      (omega arith)

sys_lseek-fails_example :
    sys_lseek disk (pos 3) (pos 1) (pos 9) (files 1) ≡ ok (fail einval, files 1)
sys_lseek-fails_example =
    sys_lseek-fails disk (files 1) (pos 3) 7 (file 1) refl refl refl refl (pos 1) 9 einval refl

-- A read of three bytes from offset 4 on.
read_three :
    sys_read disk (pos 3) 3 (files 1) ≡ ok (done (pos 3), at_offset (files 1) 7 (file 1) (pos 7))
unfolding sys_read as_int32 ◌-ℤ◌ ◌+ℤ◌
read_three = refl
