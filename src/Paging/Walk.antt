-- ===== src/Paging/Walk.antt =====
-- The entries that walks along a page table find.
use linux_like_os.Prelude.{
  ℕ, suc, ◌+◌, ◌≡◌, refl, inl, inr, true, none, some, List, [], ◌∷◌, arith, ℕ_discrete, Bool-cases,
  length, set, ok, Run-cases,
}
use linux_like_os.AddrSpace.{PageTableEntry}
use linux_like_os.Paging.{TlbEntry, tlb_invalidate_from, tlb_invalidate_entry}
use linux_like_os.Paging.Faults.{find_entry}

-- The walk stops at an entry of the page that may be read, and after a write of that entry it stops
-- at what was written.
pub find_entry_lem :
    (vpage k : ℕ) (ptes : List PageTableEntry) (pte new : PageTableEntry)
    → find_entry vpage ptes ≡ ok (some (k, pte))
    → new.live ≡ true
    → new.as_vpage ≡ vpage
    → (pte.live ≡ true)
      × (pte.as_vpage ≡ vpage)
      × (find_entry vpage (set ptes k new) ≡ ok (some (k, new)))
unfolding find_entry
find_entry_lem vpage k [] pte new h live at = absurd (ground (arith, h))
find_entry_lem vpage k (p ∷ ps) pte new h live at = elim (Bool-cases p.live) [
  | inr freed ↦ absurd (ground (arith, h, freed))
  | inl readable ↦ elim (ℕ_discrete p.as_vpage vpage) [
    | yes here ↦
        let first : k ≡ 0 = ground (arith, h, readable, here) in
        let which : pte ≡ p = ground (arith, h, readable, here) in
        rw (first, which) (readable, here, ground (arith, live, at))
    | no ne ↦ elim (Run-cases (find_entry vpage ps)) [
      | inr stopped ↦ absurd (ground (arith, h, readable, ne, stopped))
      | inl (none, missing) ↦ absurd (ground (arith, h, readable, ne, missing))
      | inl (some (i, other), found) ↦
          let later : k ≡ suc i = ground (arith, h, readable, ne, found) in
          let which : pte ≡ other = ground (arith, h, readable, ne, found) in
          let (live', at', written) = find_entry_lem vpage i ps other new found live at in
          rw (later, which) (live', at', ground (arith, readable, ne, written))
    ]
  ]
]

pub length-tlb_invalidate_entry :
    (vaddr : ℕ) (tlb : List TlbEntry) → length (tlb_invalidate_entry vaddr tlb) ≡ length tlb
unfolding tlb_invalidate_entry
length-tlb_invalidate_entry vaddr tlb = from 0 tlb
  where
    from : (i : ℕ) (es : List TlbEntry) → length (tlb_invalidate_from i vaddr es) ≡ length es
    from i [] = refl
    from i (e ∷ es) = ground (arith, from (i + 1) es)
