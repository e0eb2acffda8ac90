-- ===== src/FileTable/Sharing.antt =====
-- dup2: what its two steps, the release of the new descriptor and the sharing of the old one's
-- handler, do to the reference counts.
use linux_like_os.Prelude.{
  ℕ, ◌+◌, ◌<◌, ◌≡◌, refl, sym, ◌∙◌, ◌≢◌, ◌⊎◌, inl, inr, true, Option, none, some, List, arith, ◌==◌,
  if◌then◌else◌, Bool-cases, length, set, length-set, get_or-set, get_elem?-some, set_twice,
  get_or-set_self, ok, ebadf, done, fail,
}
use linux_like_os.Prelude.Int.{ℤ, pos, ◌+ℤ◌, ◌-ℤ◌}
use linux_like_os.FileTable.{
  FileHandler, Files, open_max, update, slot, lookup_fd, drop_handler, release_new, share, bad_fd,
  sys_dup2,
}
use linux_like_os.FileTable.Counted.{refs, IsCounted, refs-set, one-le-refs, handler_of_slot}

-- The state with another table.
abbrev pub with_table : Files → List (Option ℕ) → Files
with_table s t = record s { table = t }

module _ {others : ℕ → ℕ} {s : Files} (c : IsCounted others s) (j : ℕ) (inside : j < open_max) where
  in_table : j < length s.table
  in_table = omega (arith, c.size)

  abbrev without : List (Option ℕ)
  without = set s.table j none

  -- Dropping the reference of slot `j` leaves the counts right for the table without it.
  pub release_new-IsCounted :
      (o : Option ℕ)
      → slot s.table j ≡ o
      → (s1 : Files) × (release_new o s ≡ ok s1)
        × (s1.table ≡ s.table)
        × IsCounted others (with_table s1 (set s.table j none))
  unfolding release_new ◌-ℤ◌
  release_new-IsCounted none e = (
    s,
    refl,
    refl,
    record {
      size = length-set s.table j none ∙ c.size;
      counted = λ p. ground (arith, refs-set p s.table j none in_table, c.counted p);
      live = λ p h e'. ground (arith, refs-set p s.table j none in_table, c.live p h e');
    },
  )
  release_new-IsCounted (some q) e =
      let (h, there, count, held) = handler_of_slot j q c e in
      elim (Bool-cases (refs q s.table + others q == 1)) [
        | inl last ↦ (
          drop_handler q h s,
          ground (arith, there, count),
          refl,
          record {
            size = length-set s.table j none ∙ c.size;
            counted = λ p. ground (arith, refs-set p s.table j none in_table, c.counted p);
            live = λ p h e'. ground (arith, refs-set p s.table j none in_table, c.live p h);
          },
        )
        | inr more ↦
            let h' : FileHandler = record h { d_count = h.d_count -ℤ pos 1 } in
            (
              record s { handlers = update s.handlers q (some h') },
              ground (arith, there, count),
              refl,
              record {
                size = length-set s.table j none ∙ c.size;
                counted = λ p. ground (arith, refs-set p s.table j none in_table, c.counted p);
                live = λ p h'' e'. ground (arith, refs-set p s.table j none in_table, c.live p h'');
              },
            )
      ]

  -- Sharing the handler `p` of some slot makes the counts right for the table with `p` at slot `j`.
  pub share-IsCounted :
      (p : ℕ)
      → slot s.table j ≡ none
      → 0 < refs p s.table
      → (s1 : Files) × (share p j s ≡ ok s1)
        × (s1.table ≡ set s.table j (some p))
        × IsCounted others s1
  unfolding share ◌+ℤ◌
  share-IsCounted p e held = go (s.handlers p) refl
    where
      go :
          (o : Option FileHandler)
          → s.handlers p ≡ o
          → (s1 : Files) × (share p j s ≡ ok s1)
            × (s1.table ≡ set s.table j (some p))
            × IsCounted others s1
      go none there = absurd (ground (arith, there, held, c.counted p))
      go (some h) there =
          let h' : FileHandler = record h { d_count = h.d_count +ℤ pos 1 } in
          (
            record s { table = set s.table j (some p); handlers = update s.handlers p (some h') },
            ground (arith, there, get_elem?-some s.table j none in_table),
            refl,
            record {
              size = length-set s.table j (some p) ∙ c.size;
              counted = λ q. ground (
                arith,
                there,
                e,
                refs-set q s.table j (some p) in_table,
                c.counted q,
                c.counted p,
              );
              live = λ q h'' e'.
                  ground (arith, there, e, refs-set q s.table j (some p) in_table, c.live q h'');
            },
          )

  -- Another slot keeps its reference when slot `j` loses its own.
  held_elsewhere : (i p : ℕ) → i ≢ j → slot s.table i ≡ some p → 0 < refs p (set s.table j none)
  held_elsewhere i p ne e =
      ground
        (arith, get_or-set s.table j i none none in_table, one-le-refs p (set s.table j none) i)

-- The reference of slot `j` that was just dropped does not show in what `share` writes there.
share-with_table :
    (s : Files) (j p : ℕ)
    → j < length s.table
    → share p j (with_table s (set s.table j none)) ≡ share p j s
unfolding share
share-with_table s j p h =
    let there = get_elem?-some s.table j none h in
    let there' =
      get_elem?-some (set s.table j none) j none (omega (arith, length-set s.table j none)) in
    ground (arith, there, there', set_twice s.table j none (some p))

-- `sys_dup2` of two different descriptors in range, the old one open, succeeds and returns the
-- new descriptor: this now holds the old one's handler, every other slot is as before, and all
-- reference counts are right again, a handler being freed exactly if the new descriptor held its
-- last reference.
pub sys_dup2-IsCounted :
    {others : ℕ → ℕ} {s : Files} (i j p : ℕ)
    → IsCounted others s
    → i < open_max
    → j < open_max
    → i ≢ j
    → slot s.table i ≡ some p
    → (s' : Files) × (sys_dup2 (pos i) (pos j) s ≡ ok (done (pos j), s'))
      × IsCounted others s'
      × ((k : ℕ) → slot s'.table k ≡ (if j == k then some p else slot s.table k))
unfolding sys_dup2
sys_dup2-IsCounted {others} {s} i j p c hi hj ne old =
    let inside : j < length s.table = omega (arith, c.size) in
    let (s1, run1, same, c1) = release_new-IsCounted c j hj (slot s.table j) refl in
    let empty = get_or-set_self s.table j none none inside in
    let (s2, run2, table2, c2) =
      share-IsCounted c1 j hj p empty (held_elsewhere c j hj i p ne old) in
    let inside1 : j < length s1.table = rw same inside in
    let direct : share p j s1 ≡ ok s2 = sym (share-with_table s1 j p inside1) ∙ rw same run2 in
    let result : s2.table ≡ set s.table j (some p) = table2 ∙ set_twice s.table j none (some p) in
    (
      s2,
      ground (arith, run1, direct, old),
      c2,
      λ k. rw (result, get_or-set s.table j k (some p) none inside),
    )

-- On the other inputs `sys_dup2` changes nothing: it gives EBADF for a descriptor out of range or
-- an old one that is not open, and the descriptor itself where both are the same.
pub sys_dup2-unchanged :
    (s : Files) (old new : ℤ)
    → (lookup_fd s.table old ≡ none) ⊎ (bad_fd new ≡ true) ⊎ (old ≡ new)
    → sys_dup2 old new s
      ≡ ok (
        if bad_fd new
            then fail ebadf
            else elim (lookup_fd s.table old) [ none ↦ fail ebadf | some p ↦ done new ],
        s,
      )
unfolding sys_dup2
sys_dup2-unchanged s old new h = ground arith
