-- ===== src/FileTable/Forking.antt =====
-- What a fork and the end of a process do to the open files: the loops of proc_create_fork and of
-- proc_destroy in kern/proc/proc.c.
use linux_like_os.Prelude.{
  ℕ, ◌+◌, ◌<◌, ◌≡◌, refl, ap, ◌∙◌, ◌≢◌, inl, inr, Option, none, some, List, [], ◌∷◌, arith, ◌==◌,
  Bool-cases, Option-cases, ok,
}
use linux_like_os.Prelude.Int.{ℤ, pos, ◌+ℤ◌, ◌-ℤ◌, ◌≤ℤ◌}
use linux_like_os.FileTable.{FileHandler, Files, update, copy_table, release_slot, release_table}
use linux_like_os.FileTable.Counted.{refs, IsCounted}

-- A handler with `n` references more.
abbrev pub add_refs : Option FileHandler → ℕ → Option FileHandler
add_refs none n = none
add_refs (some h) n = some (record h { d_count = h.d_count +ℤ pos n })

-- A handler with `n` references less.
abbrev pub sub_refs : Option FileHandler → ℕ → Option FileHandler
sub_refs none n = none
sub_refs (some h) n = some (record h { d_count = h.d_count -ℤ pos n })

add-zero : (a : ℤ) → a +ℤ pos 0 ≡ a
unfolding ◌+ℤ◌
add-zero a = ground arith

sub-zero : (a : ℤ) → a -ℤ pos 0 ≡ a
unfolding ◌-ℤ◌
sub-zero a = ground arith

add-suc : (a : ℤ) (n : ℕ) → a +ℤ pos 1 +ℤ pos n ≡ a +ℤ pos (1 + n)
unfolding ◌+ℤ◌
add-suc a n = ground arith

sub-suc : (a : ℤ) (n : ℕ) → a -ℤ pos 1 -ℤ pos n ≡ a -ℤ pos (1 + n)
unfolding ◌-ℤ◌
sub-suc a n = ground arith

-- Every address that a table holds has a handler.
abbrev Held : List (Option ℕ) → (ℕ → Option FileHandler) → Type 0
Held t hs = (p : ℕ) → 0 < refs p t → hs p ≢ none

copy_table_lem :
    (t : List (Option ℕ)) (hs : ℕ → Option FileHandler)
    → Held t hs
    → (hs' : ℕ → Option FileHandler) × (copy_table t hs ≡ ok (t, hs'))
      × ((p : ℕ) → hs' p ≡ add_refs (hs p) (refs p t))
unfolding copy_table refs
copy_table_lem [] hs held = (
  hs,
  refl,
  λ p. elim (Option-cases (hs p)) [ inl e ↦ rw e | inr (h, e) ↦ rw (e, add-zero) refl ],
)
copy_table_lem (none ∷ t) hs held =
    let (hs', run, post) = copy_table_lem t hs (λ p h. held p (omega arith)) in
    (hs', rw run, λ p. post p ∙ ap (add_refs (hs p)) (omega arith))
copy_table_lem (some q ∷ t) hs held = elim (Option-cases (hs q)) [
  | inl gone ↦ absurd (held q (ground arith) gone)
  | inr (h, there) ↦
      let h' : FileHandler = record h { d_count = h.d_count +ℤ pos 1 } in
      let (hs', run, post) =
        copy_table_lem t (update hs q (some h')) (λ p e n. held p (omega arith) (ground arith)) in
      (
        hs',
        ground (arith, there, run),
        λ p. ground (arith, there, post p, add-suc h.d_count (refs p t)),
      )
]

-- Every address that a table holds has a handler that counts at least its slots.
abbrev Backed : List (Option ℕ) → (ℕ → Option FileHandler) → Type 0
Backed t hs =
    (p : ℕ) → 0 < refs p t → (h : FileHandler) × (hs p ≡ some h) × (pos (refs p t) ≤ℤ h.d_count)

Backed-none :
    (t : List (Option ℕ)) (hs : ℕ → Option FileHandler) → Backed (none ∷ t) hs → Backed t hs
unfolding refs
Backed-none t hs b p e = let (h, there, enough) = b p (omega arith) in (h, there, omega arith)

Backed-some :
    (q : ℕ) (t : List (Option ℕ)) (hs : ℕ → Option FileHandler) (h : FileHandler)
    → Backed (some q ∷ t) hs
    → hs q ≡ some h
    → Backed t (update hs q (some (record h { d_count = h.d_count -ℤ pos 1 })))
unfolding refs ◌-ℤ◌
Backed-some q t hs h b there p e = elim (Bool-cases (q == p)) [
  | inl same ↦
      let (g, there', enough) = b p (ground arith) in
      (record h { d_count = h.d_count -ℤ pos 1 }, ground arith, ground arith)
  | inr other ↦ let (g, there', enough) = b p (ground arith) in (g, ground arith, ground arith)
]

release_table_lem :
    (t : List (Option ℕ)) (s : Files)
    → Backed t s.handlers
    → (s' : Files) × (release_table t s ≡ ok s')
      × (s'.closed ≡ s.closed)
      × ((p : ℕ) → s'.handlers p ≡ sub_refs (s.handlers p) (refs p t))
unfolding release_table release_slot refs
release_table_lem [] s b = (
  s,
  refl,
  refl,
  λ p. elim (Option-cases (s.handlers p)) [ inl e ↦ rw e | inr (h, e) ↦ rw (e, sub-zero) refl ],
)
release_table_lem (none ∷ t) s b =
    let (s', run, kept, post) = release_table_lem t s (Backed-none t s.handlers b) in
    (s', run, kept, λ p. post p ∙ ap (sub_refs (s.handlers p)) (omega arith))
release_table_lem (some q ∷ t) s b =
    let (h, there, enough) = b q (ground arith) in
    let h' : FileHandler = record h { d_count = h.d_count -ℤ pos 1 } in
    let s1 : Files = record s { handlers = update s.handlers q (some h') } in
    let (s', run, kept, post) = release_table_lem t s1 (Backed-some q t s.handlers h b there) in
    (
      s',
      ground (arith, there, run, enough),
      kept,
      λ p. ground (arith, there, post p, sub-suc h.d_count (refs p t)),
    )

module _ {others : ℕ → ℕ} {s : Files} (c : IsCounted others s) where
  Held-of_counted : Held s.table s.handlers
  Held-of_counted p h gone = ground (arith, c.counted p)

  Backed-of_counted : Backed s.table s.handlers
  Backed-of_counted p h = elim (Option-cases (s.handlers p)) [
    | inl gone ↦ absurd (Held-of_counted p h gone)
    | inr (g, there) ↦ (g, there, ground (arith, c.counted p))
  ]

-- A fork gives the child the parent's file table, and all reference counts are right again with
-- the child's table among those of the other processes.
pub copy_table-IsCounted :
    {others : ℕ → ℕ} {s : Files}
    → IsCounted others s
    → (hs : ℕ → Option FileHandler) × (copy_table s.table s.handlers ≡ ok (s.table, hs))
      × IsCounted (λ p. refs p s.table + others p) (record s { handlers = hs })
unfolding ◌+ℤ◌
copy_table-IsCounted {others} {s} c =
    let (hs, run, post) = copy_table_lem s.table s.handlers (Held-of_counted c) in
    (
      hs,
      run,
      record {
        size = c.size;
        counted = λ p. ground (arith, post p, c.counted p);
        live = λ p h e. elim (Option-cases (s.handlers p)) [
          | inl gone ↦ absurd (ground (arith, post p))
          | inr (g, there) ↦ omega (arith, c.live p g there)
        ];
      },
    )

-- Where all reference counts are right, the loop of `proc_destroy` over the file table of a
-- process that ends frees no handler and closes no vnode: it only takes the process's references
-- off the counts, also off those of the files that no other process has open.
pub release_table-leaks :
    {others : ℕ → ℕ} {s : Files}
    → IsCounted others s
    → (s' : Files) × (release_table s.table s ≡ ok s')
      × (s'.closed ≡ s.closed)
      × ((p : ℕ) (h : FileHandler)
          → s.handlers p ≡ some h
          → s'.handlers p ≡ some (record h { d_count = pos (others p) }))
unfolding ◌-ℤ◌
release_table-leaks {others} {s} c =
    let (s', run, kept, post) = release_table_lem s.table s (Backed-of_counted c) in
    (s', run, kept, λ p h e. ground (arith, post p, c.counted p))
