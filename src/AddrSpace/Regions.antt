-- ===== src/AddrSpace/Regions.antt =====
-- Regions and the start of the heap: as_define_region and as_prepare_load.
use linux_like_os.Prelude.{
  ℕ, zero, suc, ◌+◌, ◌-◌, ◌*◌, ◌%◌, ◌^◌, ◌≤◌, ◌<◌, ◌≡◌, refl, ◌∙◌, ◌⊎◌, inl, inr, true, false, List,
  [], ◌∷◌, ◌++◌, arith, dec_lt, ltb, if◌then◌else◌, length, get_or, ok, enomem, done, fail,
}
use linux_like_os.Coremap.{page_size}
use linux_like_os.AddrSpace.{
  Region, Addrspace, page_frame, new_region, as_define_region, largest_end, as_prepare_load,
}

abbrev pub no_region : Region
no_region = record { start = 0; size = 0; npages = 0; read = false; write = false; execute = false }

abbrev pub region : List Region → ℕ → Region
region rs k = get_or rs k no_region

abbrev pub region_end : Region → ℕ
region_end r = r.start + r.size

-- Each region ends at least a page before the end of the 32-bit addresses.
abbrev pub EndInside : List Region → Type 0
EndInside rs = (k : ℕ) → k < length rs → region_end (region rs k) + page_size ≤ 2 ^ 32

-- What the loop over the regions finds, from a first bound on.
abbrev Largest : List Region → (bound top : ℕ) → Type 0
Largest rs bound top =
    (bound ≤ top)
    × ((k : ℕ) → k < length rs → region_end (region rs k) ≤ top)
    × ((top ≡ bound) ⊎ ((k : ℕ) × (k < length rs) × (top ≡ region_end (region rs k))))

each_end :
    (r : Region) (rs : List Region) (P : ℕ → Type 0)
    → P (region_end r)
    → ((k : ℕ) → k < length rs → P (region_end (region rs k)))
    → (k : ℕ) → k < length (r ∷ rs)
    → P (region_end (region (r ∷ rs) k))
each_end r rs P first rest zero lt = first
each_end r rs P first rest (suc k) lt = rest k (omega arith)

largest_end-Largest :
    (rs : List Region) (bound : ℕ) → EndInside rs → Largest rs bound (largest_end rs bound)
unfolding largest_end
largest_end-Largest [] bound inside = (omega arith, (λ k lt. absurd (omega arith)), inl refl)
largest_end-Largest (r ∷ rs) bound inside =
    let first = inside 0 (omega arith) in
    let next = if ltb bound (region_end r % 2 ^ 32) then region_end r % 2 ^ 32 else bound in
    let (lo, all, which) = largest_end-Largest rs next (λ k lt. inside (suc k) (omega arith)) in
    let step : (bound ≤ next) × (region_end r ≤ next) × ((next ≡ bound) ⊎ (next ≡ region_end r)) =
      elim (dec_lt bound (region_end r)) [
        | yes lt ↦ (ground arith, ground arith, inr (ground arith))
        | no ge ↦ (ground arith, ground arith, inl (ground arith))
      ] in
    (
      omega (arith, step),
      each_end r rs (λ e. e ≤ largest_end rs next) (omega (arith, step)) all,
      elim which [
        | inr (k, lt, found) ↦ inr (suc k, omega arith, found)
        | inl same ↦ elim (step.2) [
          | inl kept ↦ inl (same ∙ kept)
          | inr risen ↦ inr (0, omega arith, same ∙ risen)
        ]
      ],
    )

-- When every region ends inside the 32-bit addresses, as_prepare_load returns, and puts the empty
-- heap at the least page-aligned address that is not below the end of any region; the regions and
-- the page table stay.
pub as_prepare_load_lem :
    (as_ : Addrspace)
    → EndInside as_.regions
    → (heap : ℕ) × (as_prepare_load as_ ≡ ok (record as_ { heap_start = heap; heap_end = heap }))
      × (heap % page_size ≡ 0)
      × ((k : ℕ) → k < length as_.regions → region_end (region as_.regions k) ≤ heap)
      × ((a : ℕ)
          → a % page_size ≡ 0
          → ((k : ℕ) → k < length as_.regions → region_end (region as_.regions k) ≤ a)
          → heap ≤ a)
unfolding as_prepare_load
as_prepare_load_lem as_ inside =
    let top = largest_end as_.regions 0 in
    let heap = page_frame ((top + page_size - 1) % 2 ^ 32) in
    let (lo, all, which) = largest_end-Largest as_.regions 0 inside in
    let bound : top + page_size ≤ 2 ^ 32 = elim which [
      | inl zero_top ↦ omega arith
      | inr (k, lt, same) ↦ omega (arith, inside k lt)
    ] in
    let aligned : heap % page_size ≡ 0 = omega arith in
    (
      heap,
      ground (arith, aligned),
      aligned,
      λ k lt. omega (arith, all k lt),
      λ a a_aligned above. elim which [
        | inl zero_top ↦ omega arith
        | inr (k, lt, same) ↦ omega (arith, above k lt)
      ],
    )

-- as_define_region of a segment that starts on a page and ends inside the 32-bit addresses
-- appends, when there is memory, a region that starts where the segment starts, covers it and ends
-- less than a page behind it; without memory it changes nothing.
as_define_region_lem :
    (as_ : Addrspace) (vaddr memsize readable writeable executable : ℕ)
    → vaddr % page_size ≡ 0
    → vaddr + memsize + page_size ≤ 2 ^ 32
    → ((r : Region) × (as_define_region as_ vaddr memsize readable writeable executable true
          ≡ (done tt, record as_ { regions = as_.regions ++ r ∷ [] }))
        × (r.start ≡ vaddr)
        × (vaddr + memsize ≤ region_end r)
        × (region_end r < vaddr + memsize + page_size)
        × (r.size ≡ r.npages * page_size))
      × (as_define_region as_ vaddr memsize readable writeable executable false
          ≡ (fail enomem, as_))
unfolding as_define_region
as_define_region_lem as_ vaddr memsize readable writeable executable aligned inside = (
  (
    new_region vaddr memsize readable writeable executable,
    refl,
    omega arith,
    omega arith,
    omega arith,
    omega arith,
  ),
  refl,
)

-- A segment of whole pages that does not start on a page is not covered by its region: the offset
-- in the page is computed after the address has been aligned, so it is always 0.
as_define_region-short :
    (as_ : Addrspace) (vaddr memsize readable writeable executable : ℕ)
    → 0 < vaddr % page_size
    → memsize % page_size ≡ 0
    → vaddr + memsize + page_size ≤ 2 ^ 32
    → (r : Region) × (as_define_region as_ vaddr memsize readable writeable executable true
        ≡ (done tt, record as_ { regions = as_.regions ++ r ∷ [] }))
      × (region_end r < vaddr + memsize)
unfolding as_define_region
as_define_region-short as_ vaddr memsize readable writeable executable offset whole inside =
    (new_region vaddr memsize readable writeable executable, refl, omega arith)
