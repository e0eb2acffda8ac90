-- ===== src/Paging/TlbUser.antt =====
-- What tlb_invalidate_entry keeps.
use linux_like_os.Prelude.{ℕ, ◌+◌, ◌^◌, ◌<◌, ◌≡◌, subst, List, [], ◌∷◌, arith, ℕ_discrete}
use linux_like_os.Paging.{TlbEntry, invalid_entry, tlb_invalidate_from, tlb_invalidate_entry}
use linux_like_os.Paging.TlbMaps.{Absent, Unmapped, Absent-Unmapped}

-- No two slots have the same page number of user space.
abbrev pub UserEach : List TlbEntry → Type 0
UserEach [] = Unit
UserEach (e ∷ es) = (e.vpage < 2 ^ 31 → Absent e.vpage es) × UserEach es

module _ (v : ℕ) where
  Absent-kept :
      (w i : ℕ) (es : List TlbEntry)
      → w < 2 ^ 31
      → Absent w es
      → Absent w (tlb_invalidate_from i v es)
  unfolding tlb_invalidate_from
  Absent-kept w i [] user h = tt
  Absent-kept w i (e ∷ es) user (ne, h) =
      let rest = Absent-kept w (i + 1) es user h in ground (arith, rest, h, ne)

  UserEach-kept : (i : ℕ) (es : List TlbEntry) → UserEach es → UserEach (tlb_invalidate_from i v es)
  unfolding tlb_invalidate_from
  UserEach-kept i [] h = tt
  UserEach-kept i (e ∷ es) (single, h) = elim (ℕ_discrete e.vpage v) [
    | yes here ↦
        let gone : tlb_invalidate_from i v (e ∷ es) ≡ invalid_entry i ∷ es = ground (arith, here) in
        rw gone ((λ user. absurd (omega (arith, user))), h)
    | no ne ↦
        let kept : tlb_invalidate_from i v (e ∷ es) ≡ e ∷ tlb_invalidate_from (i + 1) v es =
          ground (arith, ne) in
        rw kept
          ((λ user. Absent-kept e.vpage (i + 1) es user (single user)), UserEach-kept (i + 1) es h)
  ]

  Unmapped-kept :
      (w i : ℕ) (es : List TlbEntry) → Unmapped w es → Unmapped w (tlb_invalidate_from i v es)
  unfolding tlb_invalidate_from
  Unmapped-kept w i [] h = tt
  Unmapped-kept w i (e ∷ es) (ne, h) = elim (ℕ_discrete e.vpage v) [
    | yes here ↦
        let gone : tlb_invalidate_from i v (e ∷ es) ≡ invalid_entry i ∷ es = ground (arith, here) in
        rw gone ((λ valid. absurd (ground (arith, valid))), h)
    | no off ↦
        let kept : tlb_invalidate_from i v (e ∷ es) ≡ e ∷ tlb_invalidate_from (i + 1) v es =
          ground (arith, off) in
        rw kept (ne, Unmapped-kept w (i + 1) es h)
  ]

  user_invalidated :
      (i : ℕ) (es : List TlbEntry)
      → v < 2 ^ 31
      → UserEach es
      → Unmapped v (tlb_invalidate_from i v es)
  unfolding tlb_invalidate_from
  user_invalidated i [] user h = tt
  user_invalidated i (e ∷ es) user (single, h) = elim (ℕ_discrete e.vpage v) [
    | yes here ↦
        let gone : tlb_invalidate_from i v (e ∷ es) ≡ invalid_entry i ∷ es = ground (arith, here) in
        let user' : e.vpage < 2 ^ 31 = omega (arith, user, here) in
        rw gone (
          (λ valid. absurd (ground (arith, valid))),
          Absent-Unmapped v es (subst (λ w. Absent w es) here (single user')),
        )
    | no ne ↦
        let kept : tlb_invalidate_from i v (e ∷ es) ≡ e ∷ tlb_invalidate_from (i + 1) v es =
          ground (arith, ne) in
        rw kept ((λ valid. ne), user_invalidated (i + 1) es user h)
  ]

-- A page of user space is unmapped, nothing else is mapped anew, and no page gets a second slot.
pub tlb_invalidate_entry-UserEach :
    (v : ℕ) (tlb : List TlbEntry)
    → v < 2 ^ 31
    → UserEach tlb
    → UserEach (tlb_invalidate_entry v tlb)
      × Unmapped v (tlb_invalidate_entry v tlb)
      × ((w : ℕ) → Unmapped w tlb → Unmapped w (tlb_invalidate_entry v tlb))
unfolding tlb_invalidate_entry
tlb_invalidate_entry-UserEach v tlb user h = (
  UserEach-kept v 0 tlb h,
  user_invalidated v 0 tlb user h,
  λ w bare. Unmapped-kept v w 0 tlb bare,
)
