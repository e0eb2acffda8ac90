-- ===== src/ThreadList/Lists.antt =====
-- Which list of threads a threadlist stands for, and what inserting and removing a node does to it.
use linux_like_os.Prelude.{
  ℕ, ◌^◌, ◌<◌, ◌≡◌, ◌≢◌, none, some, List, [], ◌∷◌, ◌++◌, arith, length, ok,
}
use linux_like_os.ThreadList.{
  Nodes, Threadlist, threadlist_insertafternode, threadlist_insertbeforenode, threadlist_removenode,
}
use linux_like_os.ThreadList.Links.{Nodup, Chain, last_of, first_of, Absent-back}
use linux_like_os.ThreadList.Insert.{between}
use linux_like_os.ThreadList.Remove.{joined}

-- Each thread's node knows its thread.
abbrev pub Selves : Nodes → List ℕ → Type 0
Selves s [] = Unit
Selves s (x ∷ xs) = (s.tln_self x ≡ some x) × Selves s xs

-- The chain from end to end, the null pointers at the ends, and the count.
pub record IsThreadlist (tl : Threadlist) (s : Nodes) (xs : List ℕ) : Type 0 where
  pub chain : Chain s (tl.tl_head ∷ xs ++ tl.tl_tail ∷ [])
  pub nodup : Nodup (tl.tl_head ∷ xs ++ tl.tl_tail ∷ [])
  pub head_end : s.tln_prev tl.tl_head ≡ none
  pub tail_end : s.tln_next tl.tl_tail ≡ none
  pub selves : Selves s xs
  pub count : tl.tl_count ≡ length xs
  pub few : length xs < 2 ^ 32

-- The links at a place, and those of a node.
pub place :
    (s : Nodes) (h t : ℕ) (us vs : List ℕ)
    → Chain s (h ∷ us ++ vs ++ t ∷ [])
    → (s.tln_next (last_of h us) ≡ some (first_of vs t))
      × (s.tln_prev (first_of vs t) ≡ some (last_of h us))
place s h t [] [] (fwd, back, c) = (fwd, back)
place s h t [] (v ∷ vs) (fwd, back, c) = (fwd, back)
place s h t (u ∷ us) vs (fwd, back, c) = place s u t us vs c

pub node_place :
    (s : Nodes) (h n t : ℕ) (us vs : List ℕ)
    → Chain s (h ∷ us ++ n ∷ vs ++ t ∷ [])
    → (s.tln_prev n ≡ some (last_of h us))
      × (s.tln_next n ≡ some (first_of vs t))
      × (s.tln_prev (first_of vs t) ≡ some n)
node_place s h n t [] [] (fwd, back, (fwd', back', c)) = (back, fwd', back')
node_place s h n t [] (v ∷ vs) (fwd, back, (fwd', back', c)) = (back, fwd', back')
node_place s h n t (u ∷ us) vs (fwd, back, c) = node_place s u n t us vs c

pub last-ne-tail : (h t : ℕ) (us vs : List ℕ) → Nodup (h ∷ us ++ vs ++ t ∷ []) → last_of h us ≢ t
last-ne-tail h t [] vs (out, d) = (Absent-back h vs (t ∷ []) out).0
last-ne-tail h t (u ∷ us) vs (out, d) = last-ne-tail u t us vs d

pub insertafternode-between :
    (s : Nodes) (a n b : ℕ)
    → s.tln_next a ≡ some b
    → a ≢ n
    → threadlist_insertafternode a n s ≡ ok (between a n b s)
unfolding threadlist_insertafternode
insertafternode-between s a n b fwd ne = ground (arith, fwd)

pub insertbeforenode-between :
    (s : Nodes) (a n b : ℕ)
    → s.tln_prev b ≡ some a
    → a ≢ n
    → threadlist_insertbeforenode n b s ≡ ok (between a n b s)
unfolding threadlist_insertbeforenode
insertbeforenode-between s a n b back ne = ground (arith, back)

pub removenode-joined :
    (s : Nodes) (a n b : ℕ)
    → s.tln_prev n ≡ some a
    → s.tln_next n ≡ some b
    → a ≢ n
    → threadlist_removenode n s ≡ ok (joined a n b s)
unfolding threadlist_removenode
removenode-joined s a n b back fwd ne = ground (arith, back, fwd)
