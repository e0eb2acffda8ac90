-- ===== src/FileTable/Opening.antt =====
-- sys_open of kern/syscall/file_syscalls.c.
use linux_like_os.Prelude.{
  ℕ, zero, suc, ◌+◌, ◌≤◌, ◌<◌, bit_and, ◌≡◌, refl, sym, ◌∙◌, ◌≢◌, ◌⊎◌, inl, inr, Bool, false,
  Option, none, some, List, ◌∷◌, arith, ℕ_discrete, Bool-cases, Option-cases, length, set,
  length-set, get_elem?-some, ok, Errno, enomem, emfile, Reply, done, fail, Reply-cases,
}
use linux_like_os.Prelude.Int.{pos}
use linux_like_os.FileTable.{
  FileHandler, Files, open_max, o_accmode, o_append, Vfs, update, slot, free_slot, start_offset,
  open_at, sys_open,
}
use linux_like_os.FileTable.Counted.{IsCounted, refs-set}

-- The search stops at the first empty slot at or after `i`, or at the end of the table.
free_slot_lem :
    (n i : ℕ) (t : List (Option ℕ))
    → i + n ≡ length t
    → (j : ℕ) × (free_slot n i t ≡ ok j)
      × (i ≤ j)
      × (j ≤ length t)
      × (j < length t → slot t j ≡ none)
      × ((k : ℕ) → i ≤ k → k < j → slot t k ≢ none)
unfolding free_slot
free_slot_lem zero i t e =
    (i, refl, omega arith, omega arith, λ h. absurd (omega arith), λ k a b. absurd (omega arith))
free_slot_lem (suc n) i t e = elim (Option-cases (slot t i)) [
  | inl empty ↦ (
    i,
    ground (arith, get_elem?-some t i none),
    omega arith,
    omega arith,
    λ h. empty,
    λ k a b. absurd (omega arith),
  )
  | inr (p, used) ↦
      let (j, run, low, high, found, before) = free_slot_lem n (i + 1) t (omega arith) in
      (
        j,
        ground (arith, run, get_elem?-some t i none),
        omega arith,
        high,
        found,
        λ k a b. elim (ℕ_discrete k i) [
          | yes same ↦ λ none'. ground arith
          | no later ↦ before k (omega arith) b
        ],
      )
]

-- The handler of the file that `path` names, opened with `flags`: it has one reference, the mode of
-- the flags, and stands at the start of the file, or at its end with O_APPEND.
pub record IsFresh (vfs : Vfs) (path : Reply ℕ) (flags : ℕ) (h : FileHandler) : Type 0 where
  pub file : (name : ℕ) × (path ≡ done name) × (vfs.vfs_open name flags ≡ done h.vnode)
  pub once : h.d_count ≡ pos 1
  pub mode_of : h.mode ≡ bit_and flags o_accmode
  pub seekable : h.config ≡ false
  pub at_start : bit_and flags o_append ≡ 0 → h.offset ≡ pos 0
  pub at_end : bit_and flags o_append ≢ 0 → vfs.vop_stat h.vnode ≡ done (h.offset)

-- The errors of `sys_open` before the file is opened.
abbrev pub NotOpened : Vfs → Reply ℕ → ℕ → Option ℕ → Files → Errno → Type 0
NotOpened vfs path flags fresh s e =
    (path ≡ fail e)
    ⊎ ((e ≡ emfile) × ((k : ℕ) → 3 ≤ k → k < open_max → slot s.table k ≢ none))
    ⊎ ((e ≡ enomem) × (fresh ≡ none))
    ⊎ ((name : ℕ) × (path ≡ done name) × (vfs.vfs_open name flags ≡ fail e))

-- The errors of `sys_open` once the file is opened as `v`.
abbrev pub OpenedInVain : Vfs → Reply ℕ → ℕ → Bool → Errno → ℕ → Type 0
OpenedInVain vfs path flags got_lock e v =
    ((name : ℕ) × (path ≡ done name) × (vfs.vfs_open name flags ≡ done v))
    × (((bit_and flags o_append ≢ 0) × (vfs.vop_stat v ≡ fail e))
        ⊎ ((e ≡ enomem) × (got_lock ≡ false)))

-- What `sys_open` promises of its result: the lowest free descriptor from 3 on, whose slot now
-- holds a new handler of the file, and nothing else changed; or an error for a reason, with the
-- table and the handlers as they were and the vnode closed that was opened. The counts are right
-- in both cases.
abbrev pub Opened : Vfs → Reply ℕ → ℕ → Option ℕ → Bool → (ℕ → ℕ) → Files → Reply ℕ × Files → Type 0
Opened vfs path flags fresh got_lock others s (fail e, s') =
    (((s'.closed ≡ s.closed) × NotOpened vfs path flags fresh s e)
      ⊎ ((v : ℕ) × (s'.closed ≡ v ∷ s.closed) × OpenedInVain vfs path flags got_lock e v))
    × (s'.table ≡ s.table)
    × (s'.handlers ≡ s.handlers)
    × IsCounted others s'
Opened vfs path flags fresh got_lock others s (done i, s') =
    (3 ≤ i)
    × (i < open_max)
    × (slot s.table i ≡ none)
    × ((k : ℕ) → 3 ≤ k → k < i → slot s.table k ≢ none)
    × (s'.table ≡ set s.table i fresh)
    × (s'.closed ≡ s.closed)
    × ((p : ℕ) × (h : FileHandler) × (fresh ≡ some p)
        × (s'.handlers ≡ update s.handlers p (some h))
        × IsFresh vfs path flags h)
    × IsCounted others s'

module _ (vfs : Vfs) (flags : ℕ) (got_lock : Bool) {others : ℕ → ℕ} {s : Files}
    (c : IsCounted others s) where
  closed-IsCounted : (v : ℕ) → IsCounted others (record s { closed = v ∷ s.closed })
  closed-IsCounted v = record { size = c.size; counted = c.counted; live = c.live }

  opened-IsCounted :
      (i p : ℕ) (h : FileHandler)
      → i < open_max
      → slot s.table i ≡ none
      → s.handlers p ≡ none
      → h.d_count ≡ pos 1
      → IsCounted others
          (record s { table = set s.table i (some p); handlers = update s.handlers p (some h) })
  opened-IsCounted i p h hi empty unused once =
      let inside : i < length s.table = omega (arith, c.size) in
      record {
        size = length-set s.table i (some p) ∙ c.size;
        counted = λ q. ground (arith, refs-set q s.table i (some p) inside, c.counted q);
        live = λ q h' e.
            ground (arith, refs-set q s.table i (some p) inside, c.live q h', c.counted p);
      }

  open_at-Opened :
      (path i p : ℕ)
      → 3 ≤ i
      → i < open_max
      → slot s.table i ≡ none
      → ((k : ℕ) → 3 ≤ k → k < i → slot s.table k ≢ none)
      → s.handlers p ≡ none
      → (r : Reply ℕ × Files) × (open_at vfs path flags p i got_lock s ≡ ok r)
        × Opened vfs (done path) flags (some p) got_lock others s r
  unfolding open_at
  open_at-Opened path i p low hi empty before unused =
      elim (Reply-cases (vfs.vfs_open path flags)) [
        | inr (e, failed) ↦ (
          (fail e, s),
          ground (arith, failed),
          (inl (refl, inr (inr (inr (path, refl, failed)))), refl, refl, c),
        )
        | inl (v, opened) ↦ elim (Reply-cases (start_offset vfs flags v)) [
          | inr (e, failed) ↦ (
            (fail e, record s { closed = v ∷ s.closed }),
            rw (open_at, opened, failed),
            (
              inr (
                v,
                refl,
                ((path, refl, opened), inl (ground (arith, failed), ground (arith, failed))),
              ),
              refl,
              refl,
              closed-IsCounted v,
            ),
          )
          | inl (off, found) ↦ elim (Bool-cases got_lock) [
            | inr no_lock ↦ (
              (fail enomem, record s { closed = v ∷ s.closed }),
              ground (arith, opened, found, no_lock),
              (
                inr (v, refl, ((path, refl, opened), inr (refl, no_lock))),
                refl,
                refl,
                closed-IsCounted v,
              ),
            )
            | inl locked ↦
                let h : FileHandler = record {
                  vnode = v;
                  d_count = pos 1;
                  mode = bit_and flags o_accmode;
                  offset = off;
                  config = false;
                } in
                let inside : i < length s.table = omega (arith, c.size) in
                (
                  (
                    done i,
                    record s {
                      table = set s.table i (some p);
                      handlers = update s.handlers p (some h);
                    },
                  ),
                  ground (arith, opened, found, locked, get_elem?-some s.table i none inside),
                  (
                    low,
                    hi,
                    empty,
                    before,
                    refl,
                    refl,
                    (
                      p,
                      h,
                      refl,
                      refl,
                      record {
                        file = (path, refl, opened);
                        once = refl;
                        mode_of = refl;
                        seekable = refl;
                        at_start = λ flat. ground (arith, found, flat);
                        at_end = λ append. ground (arith, found, append);
                      },
                    ),
                    opened-IsCounted i p h hi empty unused refl,
                  ),
                )
          ]
        ]
      ]

-- `sys_open`, where the reference counts are right and kmalloc gives unused memory, never stops the
-- kernel. It opens the file that the path names, and puts it at the lowest free descriptor from 3
-- on, with a new handler of one reference that stands at the start of the file, or at its end with
-- O_APPEND; or it fails with the error of the call that failed, with EMFILE if no slot is free or
-- with ENOMEM if memory is missing, leaves the open files as they were, and closes what it opened.
-- The reference counts stay right.
pub sys_open-Opened :
    (vfs : Vfs) (flags : ℕ) (got_lock : Bool) (path : Reply ℕ) (fresh : Option ℕ) {others : ℕ → ℕ}
    {s : Files}
    → IsCounted others s
    → ((p : ℕ) → fresh ≡ some p → s.handlers p ≡ none)
    → (r : Reply ℕ × Files) × (sys_open vfs path flags fresh got_lock s ≡ ok r)
      × Opened vfs path flags fresh got_lock others s r
unfolding sys_open
sys_open-Opened vfs flags got_lock (fail e) fresh {s} c unused =
    ((fail e, s), refl, (inl (refl, inl refl), refl, refl, c))
sys_open-Opened vfs flags got_lock (done name) none {s} c unused =
    let (j, run, low, high, found, before) = free_slot_lem 29 3 s.table (sym c.size) in
    elim (ℕ_discrete j open_max) [
      | yes full ↦ (
        (fail emfile, s),
        ground (arith, run),
        (inl (refl, inr (inl (refl, λ k a b. before k a (omega arith)))), refl, refl, c),
      )
      | no room ↦ (
        (fail enomem, s),
        ground (arith, run),
        (inl (refl, inr (inr (inl (refl, refl)))), refl, refl, c),
      )
    ]
sys_open-Opened vfs flags got_lock (done name) (some p) {s} c unused =
    let (j, run, low, high, found, before) = free_slot_lem 29 3 s.table (sym c.size) in
    elim (ℕ_discrete j open_max) [
      | yes full ↦ (
        (fail emfile, s),
        ground (arith, run),
        (inl (refl, inr (inl (refl, λ k a b. before k a (omega arith)))), refl, refl, c),
      )
      | no room ↦
          let hi : j < open_max = omega (arith, c.size) in
          let empty = found (rw c.size hi) in
          let (r, run', post) =
            open_at-Opened vfs flags got_lock c name j p low hi empty before (unused p refl) in
          (r, ground (arith, run, run'), post)
    ]
