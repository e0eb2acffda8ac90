-- ===== src/ThreadList/Places.antt =====
-- A thread enters or leaves the list that a threadlist stands for, at any place.
use linux_like_os.Prelude.{
  ℕ, ◌+◌, ◌^◌, ◌<◌, ◌≡◌, sym, none, some, List, [], ◌∷◌, ◌++◌, arith, length, length-append, ok,
}
use linux_like_os.ThreadList.{
  Nodes, Threadlist, threadlist_insertafternode, threadlist_insertbeforenode, threadlist_removenode,
  counted_up, counted_down,
}
use linux_like_os.ThreadList.Links.{
  Absent, last_of, first_of, Absent-last, Absent-first, Absent-front, Absent-back,
}
use linux_like_os.ThreadList.Insert.{between, insert-Chain, insert-Nodup}
use linux_like_os.ThreadList.Remove.{joined, remove-Nodup, remove-Chain}
use linux_like_os.ThreadList.Lists.{
  Selves, IsThreadlist, place, node_place, last-ne-tail, insertafternode-between,
  insertbeforenode-between, removenode-joined,
}

Selves-insert :
    (s : Nodes) (n : ℕ) (us vs : List ℕ)
    → s.tln_self n ≡ some n
    → Selves s (us ++ vs)
    → Selves s (us ++ n ∷ vs)
Selves-insert s n [] vs own all = (own, all)
Selves-insert s n (u ∷ us) vs own (first, all) = (first, Selves-insert s n us vs own all)

Selves-remove :
    (s : Nodes) (n : ℕ) (us vs : List ℕ)
    → Selves s (us ++ n ∷ vs)
    → Selves s (us ++ vs) × (s.tln_self n ≡ some n)
Selves-remove s n [] vs (own, all) = (all, own)
Selves-remove s n (u ∷ us) vs (first, all) =
    let (rest, own) = Selves-remove s n us vs all in ((first, rest), own)

-- A thread that is on no list comes between `us` and `vs`.
module _ (tl : Threadlist) (s : Nodes) (n : ℕ) (us vs : List ℕ) (is : IsThreadlist tl s (us ++ vs))
    (new : Absent n (tl.tl_head ∷ us ++ vs ++ tl.tl_tail ∷ [])) (own : s.tln_self n ≡ some n)
    (small : length (us ++ vs) + 1 < 2 ^ 32) where
  abbrev pub entered : Nodes
  entered = between (last_of tl.tl_head us) n (first_of vs tl.tl_tail) s

  entered-IsThreadlist : IsThreadlist (counted_up tl) entered (us ++ n ∷ vs)
  entered-IsThreadlist =
      let (out, d) = is.nodup in
      let (nh, o) = new in
      let lengths = length-append us vs in
      let lengths' = length-append us (n ∷ vs) in
      record {
        chain = insert-Chain s n tl.tl_tail tl.tl_head us vs is.chain is.nodup new;
        nodup = insert-Nodup n tl.tl_tail (tl.tl_head ∷ us) vs new is.nodup;
        head_end = ground (arith, is.head_end, nh, Absent-first tl.tl_head tl.tl_tail us vs out);
        tail_end = ground (
          arith,
          is.tail_end,
          Absent-back n (us ++ vs) (tl.tl_tail ∷ []) o,
          last-ne-tail tl.tl_head tl.tl_tail us vs is.nodup,
        );
        selves = Selves-insert s n us vs own is.selves;
        count = omega (arith, is.count, lengths, lengths');
        few = omega (arith, lengths, lengths');
      }

  -- Both ways of inserting give these nodes.
  pub insert_lem :
      (threadlist_insertafternode (last_of tl.tl_head us) n s ≡ ok entered)
      × (threadlist_insertbeforenode n (first_of vs tl.tl_tail) s ≡ ok entered)
      × IsThreadlist (counted_up tl) entered (us ++ n ∷ vs)
  insert_lem =
      let (fwd, back) = place s tl.tl_head tl.tl_tail us vs is.chain in
      let apart =
        Absent-last n tl.tl_head us vs
          (Absent-front n (tl.tl_head ∷ us ++ vs) (tl.tl_tail ∷ []) new) in
      (
        insertafternode-between s (last_of tl.tl_head us) n (first_of vs tl.tl_tail) fwd
            (λ x. apart (sym x)),
        insertbeforenode-between s (last_of tl.tl_head us) n (first_of vs tl.tl_tail) back
            (λ x. apart (sym x)),
        entered-IsThreadlist,
      )

-- A thread leaves the place between `us` and `vs`.
module _ (tl : Threadlist) (s : Nodes) (n : ℕ) (us vs : List ℕ)
    (is : IsThreadlist tl s (us ++ n ∷ vs)) where
  abbrev pub departed : Nodes
  departed = joined (last_of tl.tl_head us) n (first_of vs tl.tl_tail) s

  departed-IsThreadlist : IsThreadlist (counted_down tl) departed (us ++ vs)
  departed-IsThreadlist =
      let (nodup', off) = remove-Nodup n tl.tl_tail (tl.tl_head ∷ us) vs is.nodup in
      let (nh, o) = off in
      let lengths = length-append us vs in
      let lengths' = length-append us (n ∷ vs) in
      record {
        chain = remove-Chain s n tl.tl_tail tl.tl_head us vs is.chain is.nodup;
        nodup = nodup';
        head_end = ground (arith, is.head_end, Absent-first tl.tl_head tl.tl_tail us vs nodup'.0);
        tail_end = ground (arith, is.tail_end, last-ne-tail tl.tl_head tl.tl_tail us vs nodup');
        selves = (Selves-remove s n us vs is.selves).0;
        count = omega (arith, is.count, is.few, lengths, lengths');
        few = omega (arith, is.few, lengths, lengths');
      }

  pub remove_lem :
      (threadlist_removenode n s ≡ ok departed)
      × IsThreadlist (counted_down tl) departed (us ++ vs)
      × (s.tln_self n ≡ some n)
      × (departed.tln_next n ≡ none)
      × (departed.tln_prev n ≡ none)
  remove_lem =
      let (nodup', off) = remove-Nodup n tl.tl_tail (tl.tl_head ∷ us) vs is.nodup in
      let (back, fwd, behind) = node_place s tl.tl_head n tl.tl_tail us vs is.chain in
      let apart =
        Absent-last n tl.tl_head us vs
          (Absent-front n (tl.tl_head ∷ us ++ vs) (tl.tl_tail ∷ []) off) in
      (
        removenode-joined s (last_of tl.tl_head us) n (first_of vs tl.tl_tail) back fwd
            (λ x. apart (sym x)),
        departed-IsThreadlist,
        (Selves-remove s n us vs is.selves).1,
        ground arith,
        ground arith,
      )
