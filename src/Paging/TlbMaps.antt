-- ===== src/Paging/TlbMaps.antt =====
-- The pages that the TLB maps, through tlb_invalidate_entry and the end of vm_fault.
use linux_like_os.Prelude.{
  ℕ, zero, suc, ◌+◌, ◌≡◌, refl, subst, ◌≢◌, inl, inr, true, some, List, [], ◌∷◌, arith, ℕ_discrete,
  Bool-cases, Option-cases, set,
}
use linux_like_os.Paging.{
  TlbEntry, invalid_entry, tlb_invalidate_from, tlb_invalidate_entry, tlb_first, tlb_insert,
}

-- No slot has the page number of a page.
abbrev pub Absent : ℕ → List TlbEntry → Type 0
Absent v [] = Unit
Absent v (e ∷ es) = (e.vpage ≢ v) × Absent v es

-- No two slots have the same page number, as the hardware demands.
abbrev pub OneEach : List TlbEntry → Type 0
OneEach [] = Unit
OneEach (e ∷ es) = Absent e.vpage es × OneEach es

-- The TLB does not map a page.
abbrev pub Unmapped : ℕ → List TlbEntry → Type 0
Unmapped v [] = Unit
Unmapped v (e ∷ es) = (e.valid ≡ true → e.vpage ≢ v) × Unmapped v es

-- Every slot that maps a page maps it to the same place.
abbrev pub OnlyMaps : (v ppage : ℕ) → List TlbEntry → Type 0
OnlyMaps v ppage [] = Unit
OnlyMaps v ppage (e ∷ es) = (e.valid ≡ true → e.vpage ≡ v → e.ppage ≡ ppage) × OnlyMaps v ppage es

module _ (v : ℕ) where
  pub Absent-Unmapped : (es : List TlbEntry) → Absent v es → Unmapped v es
  Absent-Unmapped [] h = tt
  Absent-Unmapped (e ∷ es) (ne, h) = (λ valid. ne, Absent-Unmapped es h)

  tlb_invalidate_from-Unmapped :
      (i : ℕ) (es : List TlbEntry) → OneEach es → Unmapped v (tlb_invalidate_from i v es)
  unfolding tlb_invalidate_from
  tlb_invalidate_from-Unmapped i [] h = tt
  tlb_invalidate_from-Unmapped i (e ∷ es) (single, h) = elim (ℕ_discrete e.vpage v) [
    | yes here ↦
        let gone : tlb_invalidate_from i v (e ∷ es) ≡ invalid_entry i ∷ es = ground (arith, here) in
        rw gone (
          (λ valid. absurd (ground (arith, valid))),
          Absent-Unmapped es (subst (λ w. Absent w es) here single),
        )
    | no ne ↦
        let kept : tlb_invalidate_from i v (e ∷ es) ≡ e ∷ tlb_invalidate_from (i + 1) v es =
          ground (arith, ne) in
        rw kept ((λ valid. ne), tlb_invalidate_from-Unmapped (i + 1) es h)
  ]

  -- The page that is invalidated is no longer mapped.
  pub tlb_invalidate_entry-Unmapped :
      (tlb : List TlbEntry) → OneEach tlb → Unmapped v (tlb_invalidate_entry v tlb)
  unfolding tlb_invalidate_entry
  tlb_invalidate_entry-Unmapped tlb h = tlb_invalidate_from-Unmapped 0 tlb h

  module _ (ppage : ℕ) where
    abbrev put : TlbEntry
    put = record { vpage = v; ppage = ppage; dirty = true; valid = true }

    Unmapped-OnlyMaps : (es : List TlbEntry) → Unmapped v es → OnlyMaps v ppage es
    Unmapped-OnlyMaps [] h = tt
    Unmapped-OnlyMaps (e ∷ es) (ne, h) = (λ valid at. absurd (ne valid at), Unmapped-OnlyMaps es h)

    set-OnlyMaps : (es : List TlbEntry) (k : ℕ) → Unmapped v es → OnlyMaps v ppage (set es k put)
    set-OnlyMaps [] k h = tt
    set-OnlyMaps (e ∷ es) zero (ne, h) = (λ valid at. refl, Unmapped-OnlyMaps es h)
    set-OnlyMaps (e ∷ es) (suc k) (ne, h) = (λ valid at. absurd (ne valid at), set-OnlyMaps es k h)

    tlb_first-OnlyMaps :
        (es : List TlbEntry) {es' : List TlbEntry}
        → Unmapped v es
        → tlb_first put es ≡ some es'
        → OnlyMaps v ppage es'
    unfolding tlb_first
    tlb_first-OnlyMaps [] h run = absurd (ground (arith, run))
    tlb_first-OnlyMaps (e ∷ es) {es'} (ne, h) run = elim (Bool-cases e.valid) [
      | inr unused ↦
          let same : es' ≡ put ∷ es = ground (arith, run, unused) in
          rw same (λ valid at. refl, Unmapped-OnlyMaps es h)
      | inl taken ↦ elim (Option-cases (tlb_first put es)) [
        | inl full ↦ absurd (ground (arith, run, taken, full))
        | inr (rest, found) ↦
            let same : es' ≡ e ∷ rest = ground (arith, run, taken, found) in
            rw same (λ valid at. absurd (ne valid at), tlb_first-OnlyMaps es h found)
      ]
    ]

    -- A page that was not mapped is mapped to one place.
    pub tlb_insert-OnlyMaps :
        (random : ℕ) (tlb : List TlbEntry)
        → Unmapped v tlb
        → OnlyMaps v ppage (tlb_insert v ppage random tlb)
    unfolding tlb_insert
    tlb_insert-OnlyMaps random tlb h = elim (Option-cases (tlb_first put tlb)) [
      | inl full ↦
          let same : tlb_insert v ppage random tlb ≡ set tlb random put = ground (arith, full) in
          rw same (set-OnlyMaps tlb random h)
      | inr (tlb', found) ↦
          let same : tlb_insert v ppage random tlb ≡ tlb' = ground (arith, found) in
          rw same (tlb_first-OnlyMaps tlb h found)
    ]
