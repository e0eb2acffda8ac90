-- ===== src/ThreadList/Sequences.antt =====
-- Sequences of operations on a threadlist, from its initialisation on.
use linux_like_os.Prelude.{
  ℕ, ◌≡◌, refl, sym, ap, ◌∙◌, ◌≢◌, inl, inr, Option, none, some, List, [], ◌∷◌, arith, Option-cases,
  Run, ok, ◌>>=◌,
}
use linux_like_os.ThreadList.{Nodes, Threadlist, threadlist_init}
use linux_like_os.ThreadList.Lists.{IsThreadlist}
use linux_like_os.ThreadList.Promise.{Op, perform, promise}
use linux_like_os.ThreadList.Refinement.{adds, Owned, OwnsNode, perform-Keeps}

-- The results, in order, and the list at the end.
unfoldable pub perform_all :
    List Op → Threadlist → Nodes → Run (List (Option ℕ) × Threadlist × Nodes)
perform_all [] tl s = ok ([], tl, s)
perform_all (op ∷ ops) tl s = do
  (r, tl', s') ← perform op tl s
  (rs, tl'', s'') ← perform_all ops tl' s'
  ok (r ∷ rs, tl'', s'')

unfoldable pub promise_all : (head tail : ℕ) → List Op → List ℕ → Option (List (Option ℕ) × List ℕ)
promise_all head tail [] xs = some ([], xs)
promise_all head tail (op ∷ ops) xs = elim (promise head tail op xs) [
  | none ↦ none
  | some (r, ys) ↦ elim (promise_all head tail ops ys) [
    | none ↦ none
    | some (rs, zs) ↦ some (r ∷ rs, zs)
  ]
]

abbrev pub OwnNodes : Nodes → List Op → Type 0
OwnNodes s [] = Unit
OwnNodes s (op ∷ ops) = OwnsNode s op × OwnNodes s ops

Owned-same : (s s' : Nodes) (a : Option ℕ) → s'.tln_self ≡ s.tln_self → Owned s a → Owned s' a
Owned-same s s' none same own = tt
Owned-same s s' (some t) same own = ap (λ f. f t) same ∙ own

OwnNodes-same :
    (s s' : Nodes) (ops : List Op) → s'.tln_self ≡ s.tln_self → OwnNodes s ops → OwnNodes s' ops
OwnNodes-same s s' [] same all = tt
OwnNodes-same s s' (op ∷ ops) same (own, all) =
    (Owned-same s s' (adds op) same own, OwnNodes-same s s' ops same all)

-- The first operation and the others keep their promises.
promise_all-cons :
    (head tail : ℕ) (op : Op) (ops : List Op) (xs : List ℕ) {rs : List (Option ℕ)} {zs : List ℕ}
    → promise_all head tail (op ∷ ops) xs ≡ some (rs, zs)
    → (r : Option ℕ) × (ys : List ℕ) × (rest : List (Option ℕ)) × (promise head tail op xs
        ≡ some (r, ys))
      × (promise_all head tail ops ys ≡ some (rest, zs))
      × (rs ≡ r ∷ rest)
unfolding promise_all
promise_all-cons head tail op ops xs h = elim (Option-cases (promise head tail op xs)) [
  | inl nothing ↦ absurd (ground (arith, h, nothing))
  | inr ((r, ys), first) ↦ elim (Option-cases (promise_all head tail ops ys)) [
    | inl nothing ↦ absurd (ground (arith, h, first, nothing))
    | inr ((rest, zs'), others) ↦
        (r, ys, rest, first, ground (arith, h, first, others), ground (arith, h, first, others))
  ]
]

promise_all-nil :
    (head tail : ℕ) (xs : List ℕ) {rs : List (Option ℕ)} {zs : List ℕ}
    → promise_all head tail [] xs ≡ some (rs, zs)
    → (rs ≡ []) × (zs ≡ xs)
unfolding promise_all
promise_all-nil head tail xs h = (ground (arith, h), ground (arith, h))

perform_all-IsThreadlist :
    (ops : List Op) (tl : Threadlist) (s : Nodes) (xs : List ℕ) {rs : List (Option ℕ)} {zs : List ℕ}
    → IsThreadlist tl s xs
    → OwnNodes s ops
    → promise_all tl.tl_head tl.tl_tail ops xs ≡ some (rs, zs)
    → (tl' : Threadlist) × (s' : Nodes) × (perform_all ops tl s ≡ ok (rs, tl', s'))
      × IsThreadlist tl' s' zs
unfolding perform_all
perform_all-IsThreadlist [] tl s xs is own h =
    let (rs_is, zs_is) = promise_all-nil tl.tl_head tl.tl_tail xs h in
    (tl, s, rw rs_is refl, rw zs_is is)
perform_all-IsThreadlist (op ∷ ops) tl s xs {rs} {zs} is (own, owns) h =
    let (r, ys, rest, first, others, rs_is) = promise_all-cons tl.tl_head tl.tl_tail op ops xs h in
    let (tl', s', run, is', head_same, tail_same, self_same) =
      perform-Keeps tl s op xs is own first in
    let others' : promise_all tl'.tl_head tl'.tl_tail ops ys ≡ some (rest, zs) =
      rw (head_same, tail_same) others in
    let (tl'', s'', run', is'') =
      perform_all-IsThreadlist ops tl' s' ys is' (OwnNodes-same s s' ops self_same owns) others' in
    let all : perform_all (op ∷ ops) tl s ≡ ok (r ∷ rest, tl'', s'') = rw (run, run') refl in
    (tl'', s'', all ∙ ap (λ q. ok (q, tl'', s'')) (sym rs_is), is'')

init-IsThreadlist :
    (head tail : ℕ) (s : Nodes)
    → head ≢ tail
    → IsThreadlist (threadlist_init head tail s).0 (threadlist_init head tail s).1 []
unfolding threadlist_init
init-IsThreadlist head tail s ne = record {
  chain = (ground arith, ground arith, tt);
  nodup = ((ne, tt), (tt, tt));
  head_end = ground arith;
  tail_end = ground arith;
  selves = tt;
  count = refl;
  few = omega arith;
}

-- From `threadlist_init` on with two different ends, any sequence of additions and removals that
-- keeps to the rules (a thread that is added has its node set up and is not on the list, a thread
-- that is removed or named as a neighbour is on it, and the count stays below 2 ^ 32) runs without a
-- panic, returns the threads that the same operations on a plain sequence of threads return, in the
-- same order, and leaves a well-formed list of exactly the threads that the sequence then holds.
pub perform_all-refines :
    (head tail : ℕ) (s : Nodes) (ops : List Op) {rs : List (Option ℕ)} {zs : List ℕ}
    → head ≢ tail
    → OwnNodes (threadlist_init head tail s).1 ops
    → promise_all head tail ops [] ≡ some (rs, zs)
    → (tl' : Threadlist) × (s' : Nodes) × (perform_all ops
          (threadlist_init head tail s).0
          (threadlist_init head tail s).1
        ≡ ok (rs, tl', s'))
      × IsThreadlist tl' s' zs
unfolding threadlist_init
perform_all-refines head tail s ops ne own kept =
    perform_all-IsThreadlist ops _ _ [] (init-IsThreadlist head tail s ne) own kept
