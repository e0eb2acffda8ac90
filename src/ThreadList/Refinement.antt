-- ===== src/ThreadList/Refinement.antt =====
-- The threadlist implements the sequence of threads: every operation, in any order.
use linux_like_os.ThreadList.Links.{last_of, first_of}
use linux_like_os.Prelude.{
  ℕ, ◌+◌, ◌^◌, ◌<◌, ◌≡◌, refl, sym, ap, ◌∙◌, subst, inl, inr, true, Option, none, some, List, [],
  ◌∷◌, ◌++◌, arith, Option-cases, length, Run, ok,
}
use linux_like_os.ThreadList.{
  Nodes, Threadlist, counted_up, counted_down, threadlist_addhead, threadlist_addtail,
  threadlist_remhead, threadlist_remtail, threadlist_insertafter, threadlist_insertbefore,
  threadlist_remove,
}
use linux_like_os.ThreadList.Lists.{IsThreadlist, place, node_place}
use linux_like_os.ThreadList.Places.{insert_lem, departed, remove_lem}
use linux_like_os.ThreadList.Insert.{between}
use linux_like_os.ThreadList.Promise.{
  Op, addhead, addtail, remhead, remtail, insertafter, insertbefore, remove, perform, split_at,
  split_last, is_new, add, promise, split_at_lem, split_last-none, split_last_lem, is_new-Absent,
}

-- The code returns `r`, and then the list stands for `xs`, between the same ends.
abbrev pub Keeps :
    Threadlist → Nodes → Run (Option ℕ × Threadlist × Nodes) → Option ℕ → List ℕ → Type 0
Keeps tl s run r xs =
    (tl' : Threadlist) × (s' : Nodes) × (run ≡ ok (r, tl', s'))
    × IsThreadlist tl' s' xs
    × (tl'.tl_head ≡ tl.tl_head)
    × (tl'.tl_tail ≡ tl.tl_tail)
    × (s'.tln_self ≡ s.tln_self)

last-snoc : (h x : ℕ) (us : List ℕ) → last_of h (us ++ x ∷ []) ≡ x
last-snoc h x [] = refl
last-snoc h x (u ∷ us) = last-snoc u x us

append-snoc : (x : ℕ) (us vs : List ℕ) → us ++ x ∷ [] ++ vs ≡ us ++ x ∷ vs
append-snoc x [] vs = refl
append-snoc x (u ∷ us) vs = ap (λ r. u ∷ r) (append-snoc x us vs)

module _ (tl : Threadlist) (s : Nodes) where
  -- A new thread enters between `us` and `vs`, from either side.
  module _ (t : ℕ) (us vs : List ℕ) (is : IsThreadlist tl s (us ++ vs))
      (own : s.tln_self t ≡ some t)
      (new : is_new t (tl.tl_head ∷ us ++ vs ++ tl.tl_tail ∷ []) ≡ true)
      (small : length (us ++ vs) + 1 < 2 ^ 32) where
    after_last-Keeps :
        Keeps tl s (perform (insertafter (last_of tl.tl_head us) t) tl s) none (us ++ t ∷ vs)
    unfolding perform threadlist_insertafter
    after_last-Keeps =
        let absent = is_new-Absent t (tl.tl_head ∷ us ++ vs ++ tl.tl_tail ∷ []) new in
        let (after, before, is') = insert_lem tl s t us vs is absent own small in
        (
          counted_up tl,
          between (last_of tl.tl_head us) t (first_of vs tl.tl_tail) s,
          rw after refl,
          is',
          refl,
          refl,
          refl,
        )

    before_first-Keeps :
        Keeps tl s (perform (insertbefore t (first_of vs tl.tl_tail)) tl s) none (us ++ t ∷ vs)
    unfolding perform threadlist_insertbefore
    before_first-Keeps =
        let absent = is_new-Absent t (tl.tl_head ∷ us ++ vs ++ tl.tl_tail ∷ []) new in
        let (after, before, is') = insert_lem tl s t us vs is absent own small in
        (
          counted_up tl,
          between (last_of tl.tl_head us) t (first_of vs tl.tl_tail) s,
          rw before refl,
          is',
          refl,
          refl,
          refl,
        )

  -- The thread between `us` and `vs` leaves.
  module _ (t : ℕ) (us vs : List ℕ) (is : IsThreadlist tl s (us ++ t ∷ vs)) where
    remove-Keeps : Keeps tl s (perform (remove t) tl s) none (us ++ vs)
    unfolding perform threadlist_remove
    remove-Keeps =
        let (run, is', own, off, off') = remove_lem tl s t us vs is in
        (counted_down tl, departed tl s t us vs is, rw run refl, is', refl, refl, refl)

    remhead-Keeps : us ≡ [] → Keeps tl s (perform remhead tl s) (some t) (us ++ vs)
    unfolding perform threadlist_remhead
    remhead-Keeps none_before =
        let (run, is', own, off, off') = remove_lem tl s t us vs is in
        let (fwd, back) = place s tl.tl_head tl.tl_tail us (t ∷ vs) is.chain in
        let (back', fwd', behind) = node_place s tl.tl_head t tl.tl_tail us vs is.chain in
        let head : s.tln_next tl.tl_head ≡ some t =
          subst (λ ys. s.tln_next (last_of tl.tl_head ys) ≡ some t) none_before fwd in
        (
          counted_down tl,
          departed tl s t us vs is,
          rw (head, fwd', run, own) refl,
          is',
          refl,
          refl,
          refl,
        )

    remtail-Keeps : vs ≡ [] → Keeps tl s (perform remtail tl s) (some t) (us ++ vs)
    unfolding perform threadlist_remtail
    remtail-Keeps none_behind =
        let (run, is', own, off, off') = remove_lem tl s t us vs is in
        let (back', fwd', behind) = node_place s tl.tl_head t tl.tl_tail us vs is.chain in
        let tail : s.tln_prev tl.tl_tail ≡ some t =
          subst (λ ys. s.tln_prev (first_of ys tl.tl_tail) ≡ some t) none_behind behind in
        (
          counted_down tl,
          departed tl s t us vs is,
          rw (tail, back', run, own) refl,
          is',
          refl,
          refl,
          refl,
        )

  -- An empty list gives no thread.
  empty-Keeps :
      (is : IsThreadlist tl s [])
      → Keeps tl s (perform remhead tl s) none [] × Keeps tl s (perform remtail tl s) none []
  unfolding perform threadlist_remhead threadlist_remtail
  empty-Keeps is =
      let (fwd, back) = place s tl.tl_head tl.tl_tail [] [] is.chain in
      (
        (tl, s, rw (fwd, is.tail_end) refl, is, refl, refl, refl),
        (tl, s, rw (back, is.head_end) refl, is, refl, refl, refl),
      )

-- The thread that an operation adds, if any.
abbrev pub adds : Op → Option ℕ
adds (addhead t) = some t
adds (addtail t) = some t
adds remhead = none
adds remtail = none
adds (insertafter onlist t) = some t
adds (insertbefore t onlist) = some t
adds (remove t) = none

abbrev pub Owned : Nodes → Option ℕ → Type 0
Owned s none = Unit
Owned s (some t) = s.tln_self t ≡ some t

abbrev pub OwnsNode : Nodes → Op → Type 0
OwnsNode s op = Owned s (adds op)

module _ (h e t : ℕ) (xs ys : List ℕ) {r : Option ℕ} {zs : List ℕ} where
  added :
      add h e t xs ys ≡ some (r, zs)
      → (r ≡ none) × (zs ≡ ys) × (is_new t (h ∷ xs ++ e ∷ []) ≡ true) × (length xs + 1 < 2 ^ 32)
  added promised = ground (arith, promised)

-- The same for a list that is given in two parts.
module _ (tl : Threadlist) (s : Nodes) (t : ℕ) (xs us vs : List ℕ) (parts : xs ≡ us ++ vs)
    (is : IsThreadlist tl s xs) (own : s.tln_self t ≡ some t)
    (new : is_new t (tl.tl_head ∷ xs ++ tl.tl_tail ∷ []) ≡ true)
    (small : length xs + 1 < 2 ^ 32) where
  enters-Keeps :
      Keeps tl s (perform (insertafter (last_of tl.tl_head us) t) tl s) none (us ++ t ∷ vs)
      × Keeps tl s (perform (insertbefore t (first_of vs tl.tl_tail)) tl s) none (us ++ t ∷ vs)
  enters-Keeps =
      let is' = subst (λ ys. IsThreadlist tl s ys) parts is in
      let new' = subst (λ ys. is_new t (tl.tl_head ∷ ys ++ tl.tl_tail ∷ []) ≡ true) parts new in
      let small' = subst (λ ys. length ys + 1 < 2 ^ 32) parts small in
      (
        after_last-Keeps tl s t us vs is' own new' small',
        before_first-Keeps tl s t us vs is' own new' small',
      )

append-nil : (xs : List ℕ) → xs ++ [] ≡ xs
append-nil [] = refl
append-nil (x ∷ xs) = ap (λ r. x ∷ r) (append-nil xs)

removed-Keeps :
    (tl : Threadlist) (s : Nodes) (t : ℕ) (xs us vs : List ℕ)
    → xs ≡ us ++ t ∷ vs
    → IsThreadlist tl s xs
    → Keeps tl s (perform (remove t) tl s) none (us ++ vs)
      × (us ≡ [] → Keeps tl s (perform remhead tl s) (some t) (us ++ vs))
      × (vs ≡ [] → Keeps tl s (perform remtail tl s) (some t) (us ++ vs))
removed-Keeps tl s t xs us vs parts is =
    let is' = subst (λ ys. IsThreadlist tl s ys) parts is in
    (remove-Keeps tl s t us vs is', remhead-Keeps tl s t us vs is', remtail-Keeps tl s t us vs is')

insertafter-Keeps :
    (tl : Threadlist) (s : Nodes) (onlist t : ℕ) (xs us vs : List ℕ)
    → xs ≡ us ++ onlist ∷ vs
    → IsThreadlist tl s xs
    → s.tln_self t ≡ some t
    → is_new t (tl.tl_head ∷ xs ++ tl.tl_tail ∷ []) ≡ true
    → length xs + 1 < 2 ^ 32
    → Keeps tl s (perform (insertafter onlist t) tl s) none (us ++ onlist ∷ t ∷ vs)
insertafter-Keeps tl s onlist t xs us vs parts is own new small =
    let us' = us ++ onlist ∷ [] in
    let both =
      enters-Keeps tl s t xs us' vs (parts ∙ sym (append-snoc onlist us vs)) is own new small in
    subst (λ ys. Keeps tl s (perform (insertafter onlist t) tl s) none ys)
      (append-snoc onlist us (t ∷ vs))
      (subst (λ a. Keeps tl s (perform (insertafter a t) tl s) none (us' ++ t ∷ vs))
        (last-snoc tl.tl_head onlist us) (both.0))

-- Every operation that promises something keeps it.
pub perform-Keeps :
    (tl : Threadlist) (s : Nodes) (op : Op) (xs : List ℕ) {r : Option ℕ} {zs : List ℕ}
    → IsThreadlist tl s xs
    → OwnsNode s op
    → promise tl.tl_head tl.tl_tail op xs ≡ some (r, zs)
    → Keeps tl s (perform op tl s) r zs
unfolding promise perform threadlist_addhead threadlist_addtail threadlist_insertafter
    threadlist_insertbefore
perform-Keeps tl s (addhead t) xs is own kept =
    let (r_is, zs_is, new, small) = added tl.tl_head tl.tl_tail t xs (t ∷ xs) kept in
    rw (r_is, zs_is) (enters-Keeps tl s t xs [] xs refl is own new small).0
perform-Keeps tl s (addtail t) xs is own kept =
    let (r_is, zs_is, new, small) = added tl.tl_head tl.tl_tail t xs (xs ++ t ∷ []) kept in
    rw (r_is, zs_is) (enters-Keeps tl s t xs xs [] (sym (append-nil xs)) is own new small).1
perform-Keeps tl s remhead [] {r} {zs} is own kept =
    let r_is : r ≡ none = ground (arith, kept) in
    let zs_is : zs ≡ [] = ground (arith, kept) in rw (r_is, zs_is) (empty-Keeps tl s is).0
perform-Keeps tl s remhead (x ∷ xs) {r} {zs} is own kept =
    let r_is : r ≡ some x = ground (arith, kept) in
    let zs_is : zs ≡ xs = ground (arith, kept) in
    rw (r_is, zs_is) ((removed-Keeps tl s x (x ∷ xs) [] xs refl is).1 refl)
perform-Keeps tl s remtail xs {r} {zs} is own kept = elim (Option-cases (split_last xs)) [
  | inl nothing ↦
      let r_is : r ≡ none = ground (arith, kept, nothing) in
      let zs_is : zs ≡ [] = ground (arith, kept, nothing) in
      rw (r_is, zs_is)
        (empty-Keeps tl s (subst (λ ys. IsThreadlist tl s ys) (split_last-none xs nothing) is)).1
  | inr ((us, t), found) ↦
      let r_is : r ≡ some t = ground (arith, kept, found) in
      let zs_is : zs ≡ us = ground (arith, kept, found) in
      rw (r_is, zs_is)
        (subst (λ ys. Keeps tl s (perform remtail tl s) (some t) ys) (append-nil us)
          ((removed-Keeps tl s t xs us [] (split_last_lem xs found) is).2 refl))
]
perform-Keeps tl s (insertafter onlist t) xs {r} {zs} is own kept =
    elim (Option-cases (split_at onlist xs)) [
      | inl nowhere ↦ absurd (ground (arith, kept, nowhere))
      | inr ((us, vs), found) ↦
          let promised : add tl.tl_head tl.tl_tail t xs (us ++ onlist ∷ t ∷ vs) ≡ some (r, zs) =
            ground (arith, kept, found) in
          let (r_is, zs_is, new, small) =
            added tl.tl_head tl.tl_tail t xs (us ++ onlist ∷ t ∷ vs) promised in
          rw (r_is, zs_is)
            (insertafter-Keeps tl s onlist t xs us vs (split_at_lem onlist xs found) is own new
              small)
    ]
perform-Keeps tl s (insertbefore t onlist) xs {r} {zs} is own kept =
    elim (Option-cases (split_at onlist xs)) [
      | inl nowhere ↦ absurd (ground (arith, kept, nowhere))
      | inr ((us, vs), found) ↦
          let promised : add tl.tl_head tl.tl_tail t xs (us ++ t ∷ onlist ∷ vs) ≡ some (r, zs) =
            ground (arith, kept, found) in
          let (r_is, zs_is, new, small) =
            added tl.tl_head tl.tl_tail t xs (us ++ t ∷ onlist ∷ vs) promised in
          rw (r_is, zs_is)
            (enters-Keeps tl s t xs us (onlist ∷ vs) (split_at_lem onlist xs found) is own new
              small).1
    ]
perform-Keeps tl s (remove t) xs {r} {zs} is own kept = elim (Option-cases (split_at t xs)) [
  | inl nowhere ↦ absurd (ground (arith, kept, nowhere))
  | inr ((us, vs), found) ↦
      let r_is : r ≡ none = ground (arith, kept, found) in
      let zs_is : zs ≡ us ++ vs = ground (arith, kept, found) in
      rw (r_is, zs_is) (removed-Keeps tl s t xs us vs (split_at_lem t xs found) is).0
]
