-- ===== src/ThreadList/Promise.antt =====
-- What a threadlist promises: the operations on sequences of threads.
use linux_like_os.Prelude.{
  ℕ, ◌+◌, ◌^◌, ◌≡◌, refl, inl, inr, Bool, true, not, ◌&&◌, Option, none, some, List, [], ◌∷◌, ◌++◌,
  arith, ℕ_discrete, ltb, ◌==◌, if◌then◌else◌, Option-cases, length, Run, ok, ◌>>=◌,
}
use linux_like_os.ThreadList.Links.{Absent}
use linux_like_os.ThreadList.{
  Nodes, Threadlist, threadlist_addhead, threadlist_addtail, threadlist_remhead, threadlist_remtail,
  threadlist_insertafter, threadlist_insertbefore, threadlist_remove,
}

pub data Op : Type 0 where
  addhead addtail : ℕ → Op
  remhead remtail : Op
  insertafter : (onlist addee : ℕ) → Op
  insertbefore : (addee onlist : ℕ) → Op
  remove : ℕ → Op

abbrev no_thread : Run (Threadlist × Nodes) → Run (Option ℕ × Threadlist × Nodes)
no_thread r = do (tl, s) ← r; ok (none, tl, s)

-- The code, and the thread that it returns.
unfoldable pub perform : Op → Threadlist → Nodes → Run (Option ℕ × Threadlist × Nodes)
perform (addhead t) tl s = no_thread (threadlist_addhead t tl s)
perform (addtail t) tl s = no_thread (threadlist_addtail t tl s)
perform remhead tl s = threadlist_remhead tl s
perform remtail tl s = threadlist_remtail tl s
perform (insertafter onlist addee) tl s = no_thread (threadlist_insertafter onlist addee tl s)
perform (insertbefore addee onlist) tl s = no_thread (threadlist_insertbefore addee onlist tl s)
perform (remove t) tl s = no_thread (threadlist_remove t tl s)

-- The sequence before a thread and that behind it, if it is there.
unfoldable pub split_at : ℕ → List ℕ → Option (List ℕ × List ℕ)
split_at t [] = none
split_at t (x ∷ xs) =
    let rest = split_at t xs in
    if x == t then some ([], xs) else elim rest [ none ↦ none | some (us, vs) ↦ some (x ∷ us, vs) ]

unfoldable pub split_last : List ℕ → Option (List ℕ × ℕ)
split_last [] = none
split_last (x ∷ xs) = elim (split_last xs) [ none ↦ some ([], x) | some (us, t) ↦ some (x ∷ us, t) ]

abbrev pub is_new : ℕ → List ℕ → Bool
is_new t [] = true
is_new t (x ∷ xs) = not (t == x) && is_new t xs

-- Thread `t` is added, which makes `xs` into `ys`. There is no promise where it is one of the ends or
-- on the list already, or where the count would wrap.
abbrev pub add : (head tail t : ℕ) → (xs ys : List ℕ) → Option (Option ℕ × List ℕ)
add head tail t xs ys =
    if is_new t (head ∷ xs ++ tail ∷ []) && ltb (length xs + 1) (2 ^ 32)
    then some (none, ys)
    else none

-- What the operations promise; nothing where the thread they name is not there.
unfoldable pub promise : (head tail : ℕ) → Op → List ℕ → Option (Option ℕ × List ℕ)
promise head tail (addhead t) xs = add head tail t xs (t ∷ xs)
promise head tail (addtail t) xs = add head tail t xs (xs ++ t ∷ [])
promise head tail remhead [] = some (none, [])
promise head tail remhead (x ∷ xs) = some (some x, xs)
promise head tail remtail xs = elim (split_last xs) [
  | none ↦ some (none, [])
  | some (us, t) ↦ some (some t, us)
]
promise head tail (insertafter onlist t) xs = elim (split_at onlist xs) [
  | none ↦ none
  | some (us, vs) ↦ add head tail t xs (us ++ onlist ∷ t ∷ vs)
]
promise head tail (insertbefore t onlist) xs = elim (split_at onlist xs) [
  | none ↦ none
  | some (us, vs) ↦ add head tail t xs (us ++ t ∷ onlist ∷ vs)
]
promise head tail (remove t) xs = elim (split_at t xs) [
  | none ↦ none
  | some (us, vs) ↦ some (none, us ++ vs)
]

pub split_at_lem :
    (t : ℕ) (xs : List ℕ) {us vs : List ℕ} → split_at t xs ≡ some (us, vs) → xs ≡ us ++ t ∷ vs
unfolding split_at
split_at_lem t [] h = ground (arith, h)
split_at_lem t (x ∷ xs) {us} {vs} h = elim (ℕ_discrete x t) [
  | yes here ↦ ground (arith, h, here)
  | no ne ↦ elim (Option-cases (split_at t xs)) [
    | inl nowhere ↦ ground (arith, h, nowhere)
    | inr ((us', vs'), found) ↦ let rest = split_at_lem t xs found in ground (arith, h, found, rest)
  ]
]

pub split_last-none : (xs : List ℕ) → split_last xs ≡ none → xs ≡ []
unfolding split_last
split_last-none [] h = refl
split_last-none (x ∷ xs) h = elim (Option-cases (split_last xs)) [
  | inl nothing ↦ ground (arith, h, nothing)
  | inr ((us, t), found) ↦ ground (arith, h, found)
]

pub split_last_lem :
    (xs : List ℕ) {us : List ℕ} {t : ℕ} → split_last xs ≡ some (us, t) → xs ≡ us ++ t ∷ []
unfolding split_last
split_last_lem [] h = ground (arith, h)
split_last_lem (x ∷ xs) {us} {t} h = elim (Option-cases (split_last xs)) [
  | inl nothing ↦ ground (arith, h, nothing, split_last-none xs nothing)
  | inr ((us', t'), found) ↦ ground (arith, h, found, split_last_lem xs found)
]

pub is_new-Absent : (t : ℕ) (xs : List ℕ) → is_new t xs ≡ true → Absent t xs
is_new-Absent t [] h = tt
is_new-Absent t (x ∷ xs) h = (ground (arith, h), is_new-Absent t xs (ground (arith, h)))
