-- ===== src/FileTable/Closing.antt =====
-- sys_open and sys_close of kern/syscall/file_syscalls.c.
use linux_like_os.Prelude.{
  ℕ, ◌+◌, ◌-◌, ◌<◌, ◌≡◌, refl, ◌∙◌, ◌≢◌, none, some, ◌∷◌, arith, ◌==◌, if◌then◌else◌, length, set,
  length-set, get_or-set, get_elem?-some, ok, done,
}
use linux_like_os.Prelude.Int.{pos, ◌-ℤ◌}
use linux_like_os.FileTable.{FileHandler, Files, open_max, update, slot, drop_handler, sys_close}
use linux_like_os.FileTable.Counted.{refs, count_of, IsCounted, refs-set, handler_of_slot}

module _ {others : ℕ → ℕ} {s : Files} (i p : ℕ) (c : IsCounted others s) (hi : i < open_max)
    (held : slot s.table i ≡ some p) where
  -- `sys_close` of the last reference to a handler empties the slot, closes the vnode and frees
  -- the handler; every other slot and handler is as before, and all counts are right again.
  pub sys_close-last :
      refs p s.table + others p ≡ 1
      → (s' : Files) × (sys_close (pos i) s ≡ ok (done tt, s'))
        × IsCounted others s'
        × ((k : ℕ) → slot s'.table k ≡ (if i == k then none else slot s.table k))
        × (s'.handlers p ≡ none)
        × ((q : ℕ) → q ≢ p → s'.handlers q ≡ s.handlers q)
        × ((h : FileHandler) → s.handlers p ≡ some h → s'.closed ≡ h.vnode ∷ s.closed)
  unfolding sys_close ◌-ℤ◌
  sys_close-last last =
      let (h, there, count, used) = handler_of_slot i p c held in
      let inside : i < length s.table = omega (arith, c.size) in
      (
        record (drop_handler p h s) { table = set s.table i none },
        ground (arith, there, count, get_elem?-some s.table i none inside),
        record {
          size = length-set s.table i none ∙ c.size;
          counted = λ q. ground (arith, refs-set q s.table i none inside, c.counted q);
          live = λ q h' e. ground (arith, refs-set q s.table i none inside, c.live q h');
        },
        λ k. get_or-set s.table i k none none inside,
        ground arith,
        λ q ne. ground arith,
        λ h' e. ground arith,
      )

  -- `sys_close` of a handler with more references takes one off its count and leaves the
  -- descriptor in the table.
  pub sys_close-shared :
      1 < refs p s.table + others p
      → (s' : Files) × (sys_close (pos i) s ≡ ok (done tt, s'))
        × (s'.table ≡ s.table)
        × (s'.closed ≡ s.closed)
        × (count_of (s'.handlers p) ≡ pos (refs p s.table + others p - 1))
        × ((q : ℕ) → q ≢ p → s'.handlers q ≡ s.handlers q)
  unfolding sys_close ◌-ℤ◌
  sys_close-shared more =
      let (h, there, count, used) = handler_of_slot i p c held in
      let h' : FileHandler = record h { d_count = h.d_count -ℤ pos 1 } in
      (
        record s { handlers = update s.handlers p (some h') },
        ground (arith, there, count),
        refl,
        refl,
        ground (arith, count),
        λ q ne. ground arith,
      )

-- Two processes have one handler open, each once. The first closes its descriptor twice, both
-- times with success: the handler is freed and the vnode closed under the second process.
pub sys_close_twice-dangling :
    {others : ℕ → ℕ} {s : Files} (i p : ℕ) (h : FileHandler)
    → IsCounted others s
    → i < open_max
    → slot s.table i ≡ some p
    → s.handlers p ≡ some h
    → refs p s.table ≡ 1
    → others p ≡ 1
    → (s' s'' : Files) × (sys_close (pos i) s ≡ ok (done tt, s'))
      × (sys_close (pos i) s' ≡ ok (done tt, s''))
      × (s''.handlers p ≡ none)
      × (s''.closed ≡ h.vnode ∷ s.closed)
unfolding sys_close ◌-ℤ◌
sys_close_twice-dangling {others} {s} i p h c hi held there once also =
    let inside : i < length s.table = omega (arith, c.size) in
    let h' : FileHandler = record h { d_count = h.d_count -ℤ pos 1 } in
    let s' : Files = record s { handlers = update s.handlers p (some h') } in
    (
      s',
      record (drop_handler p h' s') { table = set s.table i none },
      ground (arith, c.counted p),
      ground (arith, c.counted p, get_elem?-some s.table i none inside),
      ground arith,
      refl,
    )
