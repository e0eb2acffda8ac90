-- ===== src/PidTable/Children.antt =====
-- The loop over the children of an exiting process.
use linux_like_os.Prelude.{
  ℕ, zero, suc, ◌≤◌, ◌<◌, ◌≡◌, refl, sym, ap, ◌∙◌, subst, ◌≢◌, inl, inr, Option, some, List, arith,
  ℕ_discrete, length, get_or, get_elem?-some, ok,
}
use linux_like_os.PidTable.Slots.{Proc, Procs}
use linux_like_os.PidTable.Ready.{status_of}
use linux_like_os.PidTable.Valid.{IsValid}
use linux_like_os.PidTable.Family.{proc_of, IsChild, bereaved, Updated, update_child_lem}
use linux_like_os.PidTable.{update_loop, is_child}

abbrev pub kid : List ℕ → ℕ → ℕ
kid cs k = get_or cs k 0

-- The first `n` of the children are processes in the table, and no two are the same.
abbrev pub Children : ℕ → List ℕ → Procs → Type 0
Children n cs s = (k : ℕ) → k < n → (child : Proc) × IsChild s (kid cs k) child

abbrev pub Distinct : ℕ → List ℕ → Type 0
Distinct n cs = (k l : ℕ) → k < n → l < n → kid cs k ≡ kid cs l → k ≡ l

-- No child stands at a pid, or at an address.
abbrev pub Childless : ℕ → List ℕ → Option ℕ → Type 0
Childless n cs p = (k : ℕ) → k < n → p ≢ some (kid cs k)

-- The first `n` children are updated, and nothing else.
abbrev pub AllUpdated : ℕ → List ℕ → (s s' : Procs) → Type 0
AllUpdated n cs s s' =
    ((k : ℕ) (child : Proc)
      → k < n
      → IsChild s (kid cs k) child
      → status_of s'.status child.pid ≡ bereaved (status_of s.status child.pid))
    × ((q : ℕ) → Childless n cs (proc_of s q) → status_of s'.status q ≡ status_of s.status q)
    × ((q : ℕ) → Childless n cs (proc_of s q) → proc_of s' q ≡ proc_of s q)
    × ((p : ℕ) → Childless n cs (some p) → s'.heap p ≡ s.heap p)
    × (s'.kproc ≡ s.kproc)

module _ (cs : List ℕ) where
  -- Another child is still there after one was updated.
  still-IsChild :
      (s s' : Procs) (c d : ℕ) (child other : Proc)
      → c ≢ d
      → IsChild s c child
      → IsChild s d other
      → Updated c child.pid s s'
      → (other.pid ≢ child.pid) × IsChild s' d other
  still-IsChild s s' c d child other ne (entry, nk, st) (entry', nk', st')
        (own, st_same, proc_same, heap_same, gone, k_same) =
      let (h, lo, hi, e) = entry in
      let (h', lo', hi', e') = entry' in
      let apart : other.pid ≢ child.pid = λ same. ne (ground (arith, e, e', ap (proc_of s) same)) in
      (
        apart,
        (
          (heap_same d (λ x. ne (sym x)) ∙ h', lo', hi', proc_same other.pid apart ∙ e'),
          λ x. nk' (x ∙ k_same),
          ground (arith, st_same other.pid apart, st'),
        ),
      )

  module _ (n : ℕ) (s s1 s' : Procs) (child : Proc) where
    chain :
        Distinct (suc n) cs
        → IsChild s (kid cs n) child
        → Updated (kid cs n) child.pid s s1
        → AllUpdated n cs s1 s'
        → AllUpdated (suc n) cs s s'
    chain dist is_child (own, st_same, proc_same, heap_same, gone, k_same)
          (own', st_same', proc_same', heap_same', k_same') =
        let ((h, lo, hi, e), nk, st) = is_child in
        let not_mine : (q : ℕ) → Childless (suc n) cs (proc_of s q) → q ≢ child.pid =
          λ q o x. o n (omega arith) (ap (proc_of s) x ∙ e) in
        let fewer : (q : ℕ) → Childless (suc n) cs (proc_of s q) → Childless n cs (proc_of s1 q) =
          λ q o k lt x. o k (omega arith) (sym (proc_same q (not_mine q o)) ∙ x) in
        let settled : Childless n cs (proc_of s1 child.pid) = λ k lt x. elim gone [
          | inl mine ↦
              absurd (omega (arith, dist n k (omega arith) (omega arith) (ground (arith, mine, x))))
          | inr none' ↦ ground (arith, none', x)
        ] in
        (
          λ k other lt is_other. elim (ℕ_discrete n k) [
            | yes here ↦
                let same : child.pid ≡ other.pid =
                  ground (arith, h, is_other.0.0, ap (λ i. s.heap (kid cs i)) here) in
                subst (λ i. status_of s'.status i ≡ bereaved (status_of s.status i)) same
                  (st_same' child.pid settled ∙ own)
            | no ne ↦
                let apart_c : kid cs n ≢ kid cs k = λ x. ne (dist n k (omega arith) lt x) in
                let (apart, there) =
                  still-IsChild s s1 (kid cs n) (kid cs k) child other apart_c is_child is_other
                    (own, st_same, proc_same, heap_same, gone, k_same) in
                own' k other (omega arith) there ∙ ap bereaved (st_same other.pid apart)
          ],
          λ q o. st_same' q (fewer q o) ∙ st_same q (not_mine q o),
          λ q o. proc_same' q (fewer q o) ∙ proc_same q (not_mine q o),
          λ p o.
              heap_same' p (λ k lt x. o k (omega arith) x)
              ∙ heap_same p (λ x. o n (omega arith) (ap some x)),
          k_same' ∙ k_same,
        )

  pub update_loop_lem :
      (n : ℕ) (s : Procs)
      → n ≤ length cs
      → IsValid s
      → Distinct n cs
      → Children n cs s
      → (s' : Procs) × (update_loop n cs s ≡ ok s') × IsValid s' × AllUpdated n cs s s'
  unfolding update_loop
  update_loop_lem zero s h valid dist fam = (
    s,
    refl,
    valid,
    ((λ k child lt c. absurd (omega arith)), (λ q o. refl), (λ q o. refl), (λ p o. refl), refl),
  )
  update_loop_lem (suc n) s h valid dist fam =
      let (child, is_child) = fam n (omega arith) in
      let (s1, run, valid1, up) = update_child_lem s (kid cs n) child valid is_child in
      let rest : Children n cs s1 = λ k lt.
        let (other, is_other) = fam k (omega arith) in
        let ne : kid cs n ≢ kid cs k =
          λ x. absurd (omega (arith, dist n k (omega arith) (omega arith) x)) in
        (other, (still-IsChild s s1 (kid cs n) (kid cs k) child other ne is_child is_other up).1) in
      let (s', run', valid', all) =
        update_loop_lem n s1 (omega arith) valid1 (λ k l a b. dist k l (omega arith) (omega arith))
          rest in
      (
        s',
        ground (arith, get_elem?-some cs n 0 (omega arith), run, run'),
        valid',
        chain n s s1 s' child dist is_child up all,
      )
