-- ===== src/ThreadList/Tests.antt =====
-- The theorems on threadlists at concrete lists.
use linux_like_os.Prelude.{◌≡◌, refl, none, some, List, [], ◌∷◌, arith, ◌==◌, if◌then◌else◌, ok}
use linux_like_os.ThreadList.{Nodes, Threadlist, threadlist_init}
use linux_like_os.ThreadList.Promise.{
  Op, addhead, addtail, remhead, remtail, insertafter, insertbefore, split_at, split_last, promise,
}
use linux_like_os.ThreadList.Sequences.{perform_all, promise_all, perform_all-refines}
use linux_like_os.ThreadList.Lists.{IsThreadlist}

abbrev blank : Nodes
blank = record {
  tln_next = λ a. none;
  tln_prev = λ a. none;
  tln_self = λ a. if a == 10 then none else some a;
}

-- Nodes 10 and 11 are the ends.
abbrev some_ops : List Op
some_ops = addhead 5 ∷ addtail 6 ∷ insertafter 5 7 ∷ remhead ∷ insertbefore 8 6 ∷ remtail ∷ []

perform_all-refines_example :
    (tl' : Threadlist) × (s' : Nodes) × (perform_all some_ops
        (threadlist_init 10 11 blank).0
        (threadlist_init 10 11 blank).1
      ≡ ok (none ∷ none ∷ none ∷ some 5 ∷ none ∷ some 6 ∷ [], tl', s'))
    × IsThreadlist tl' s' (7 ∷ 8 ∷ [])
unfolding promise_all promise split_at split_last threadlist_init
perform_all-refines_example =
    perform_all-refines 10 11 blank some_ops (ground arith)
      (refl, (refl, (refl, (tt, (refl, (tt, tt)))))) refl
