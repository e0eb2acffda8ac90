-- ===== src/Paging/NewPage.antt =====
-- vm_fault at a page that has no entry in the page table.
use linux_like_os.Coremap.{page_size, Coremap, user_page}
use linux_like_os.Coremap.Pages.{Page, is_free, no_page, page}
use linux_like_os.Coremap.Valid.{IsValid}
use linux_like_os.Coremap.User.{allocate_user_page-first}
use linux_like_os.Prelude.{
  ℕ, zero, suc, ◌+◌, ◌-◌, ◌*◌, ◌/◌, ◌^◌, ◌≤◌, ◌<◌, ◌≡◌, refl, sym, ap, ◌∙◌, ◌≢◌, ◌⊎◌, inl, inr,
  Bool, true, false, none, some, List, [], ◌∷◌, ◌++◌, arith, Bool-cases, Option-cases, length,
  get_elem?, set, length-set, get_elem?-set, get_elem?-some, set-get_or, get_or-set_self, ok, fetch,
  done,
}
use linux_like_os.AddrSpace.{mapped, PageTableEntry, Region, Addrspace, page_frame}
use linux_like_os.Paging.{Services, TlbEntry, Memory, tlb_first, tlb_insert}
use linux_like_os.Paging.Faults.{
  find_entry, in_region, valid_address, put_table, new_page, referenced, install, vm_fault,
}

abbrev pub ValidCoremap : Coremap → Type 0
ValidCoremap c = IsValid c

-- Every entry may be read, and none is that of the page.
abbrev pub Lacks : ℕ → List PageTableEntry → Type 0
Lacks vpage [] = Unit
Lacks vpage (pte ∷ ptes) = (pte.live ≡ true) × (pte.as_vpage ≢ vpage) × Lacks vpage ptes

pub find_entry-Lacks :
    (vpage : ℕ) (ptes : List PageTableEntry) → Lacks vpage ptes → find_entry vpage ptes ≡ ok none
unfolding find_entry
find_entry-Lacks vpage [] lacks = refl
find_entry-Lacks vpage (pte ∷ ptes) (alive, ne, lacks) =
    ground (arith, alive, ne, find_entry-Lacks vpage ptes lacks)

-- The TLB maps a page.
abbrev pub Maps : ℕ → ℕ → List TlbEntry → Type 0
Maps vpage ppage tlb =
    (i : ℕ) × (get_elem? tlb i
      ≡ some (record { vpage = vpage; ppage = ppage; dirty = true; valid = true }))

abbrev mapping : (vpage ppage : ℕ) → TlbEntry
mapping vpage ppage = record { vpage = vpage; ppage = ppage; dirty = true; valid = true }

tlb_first-Maps :
    (vpage ppage : ℕ) (tlb : List TlbEntry) {tlb' : List TlbEntry}
    → tlb_first (mapping vpage ppage) tlb ≡ some tlb'
    → Maps vpage ppage tlb'
unfolding tlb_first
tlb_first-Maps vpage ppage [] h = absurd (ground (arith, h))
tlb_first-Maps vpage ppage (old ∷ es) {tlb'} h = elim (Bool-cases old.valid) [
  | inr free_slot ↦ (0, ground (arith, h, free_slot))
  | inl taken ↦ elim (Option-cases (tlb_first (mapping vpage ppage) es)) [
    | inl full ↦ absurd (ground (arith, h, taken, full))
    | inr (es', found) ↦
        let (i, at) = tlb_first-Maps vpage ppage es found in
        let same : tlb' ≡ old ∷ es' = ground (arith, h, taken, found) in (suc i, rw same at)
  ]
]

pub tlb_insert-Maps :
    (vpage ppage random : ℕ) (tlb : List TlbEntry)
    → random < length tlb
    → Maps vpage ppage (tlb_insert vpage ppage random tlb)
unfolding tlb_insert
tlb_insert-Maps vpage ppage random tlb lt =
    elim (Option-cases (tlb_first (mapping vpage ppage) tlb)) [
      | inl full ↦
          let same : tlb_insert vpage ppage random tlb ≡ set tlb random (mapping vpage ppage) =
            ground (arith, full) in
          (
            random,
            rw same (ground (arith, get_elem?-set tlb random random (mapping vpage ppage) lt)),
          )
      | inr (tlb', found) ↦
          let (i, at) = tlb_first-Maps vpage ppage tlb found in
          let same : tlb_insert vpage ppage random tlb ≡ tlb' = ground (arith, found) in
          (i, rw same at)
    ]

-- A page that counts as referenced already.
pub install-referenced :
    {D : Type 0} (m : Memory D) (random vpage b : ℕ)
    → b < length m.coremap.pages
    → (page m.coremap.pages b).ref_bit ≡ true
    → install random vpage (b * page_size) m
      ≡ ok (record m { tlb = tlb_insert vpage (b * page_size) random m.tlb })
unfolding install
install-referenced {D} m random vpage b lt ref =
    let p = page m.coremap.pages b in
    let index : b * page_size / page_size ≡ b = omega arith in
    let there = get_elem?-some m.coremap.pages b no_page lt in
    let same : referenced p ≡ p = ap (λ (r : Bool). record p { ref_bit = r }) (sym ref) in
    let kept : set m.coremap.pages b (referenced p) ≡ m.coremap.pages =
      rw same (set-get_or m.coremap.pages b no_page) in
    let fetched : fetch m.coremap.pages b ≡ ok p = ground (arith, there) in
    rw (index, fetched, kept) refl

pub free_in_range : (ps : List Page) (b : ℕ) → is_free (page ps b).state ≡ true → b < length ps
free_in_range [] b h = absurd (ground (arith, h))
free_in_range (p ∷ ps) zero h = omega arith
free_in_range (p ∷ ps) (suc b) h = omega (arith, free_in_range ps b h)

-- The entry that vm_fault makes.
abbrev pub new_entry : PageTableEntry → (vpage ppage : ℕ) → PageTableEntry
new_entry junk vpage ppage = record junk {
  live = true;
  as_vpage = vpage;
  as_ppage = ppage;
  state = mapped;
}

-- The address lies in the stack, in the heap or in a region that ends below 4 GB.
abbrev pub InSpace : ℕ → Addrspace → Type 0
InSpace a space =
    ((2 ^ 31 - 128 * 4096 ≤ a) × (a < 2 ^ 31))
    ⊎ ((space.heap_start ≤ a) × (a < space.heap_end))
    ⊎ ((k : ℕ) × (r : Region) × (get_elem? space.regions k ≡ some r)
        × (r.start + r.size < 2 ^ 32)
        × (r.start ≤ a)
        × (a < r.start + r.size))

in_region-get_elem? :
    (a k : ℕ) (r : Region) (rs : List Region)
    → get_elem? rs k ≡ some r
    → r.start + r.size < 2 ^ 32
    → r.start ≤ a
    → a < r.start + r.size
    → in_region a rs ≡ true
in_region-get_elem? a k r [] there small lo hi = absurd (ground (arith, there))
in_region-get_elem? a zero r (x ∷ rs) there small lo hi =
    let same : x ≡ r = ground (arith, there) in rw same (ground arith)
in_region-get_elem? a (suc k) r (x ∷ rs) there small lo hi =
    ground (arith, in_region-get_elem? a k r rs there small lo hi)

valid_address-InSpace : (a : ℕ) (space : Addrspace) → InSpace a space → valid_address a space ≡ true
unfolding valid_address
valid_address-InSpace a space (inl stack) = ground (arith, stack)
valid_address-InSpace a space (inr (inl heap)) = ground (arith, heap)
valid_address-InSpace a space (inr (inr (k, r, there, small, lo, hi))) =
    ground (arith, in_region-get_elem? a k r space.regions there small lo hi)

-- The first touch of a page: where the page of `addr` lies in the stack, the heap or a region of the
-- address space that ends below 4 GB, has no entry, all entries may be read, kmalloc and
-- lock_create give memory and leave the coremap valid and with a free page, and the slot that
-- tlb_random would take is one of the TLB, vm_fault returns 0. It takes a free page for the address
-- space, zeroes it, appends an entry that maps the page to it and puts the mapping into the TLB;
-- the coremap is valid, and its other pages are as kmalloc left them; no other address space
-- changes.
pub vm_fault-new :
    {D : Type 0} (vn : Services D) (m : Memory D) (owner addr random j : ℕ) (space : Addrspace)
    (junk : PageTableEntry)
    → IsValid (vn.kmalloc_entry m.coremap)
    → m.spaces owner ≡ some space
    → InSpace (page_frame addr) space
    → Lacks (page_frame addr) space.page_table
    → random < length m.tlb
    → (vn.kmalloc_entry m.coremap).memory_start / page_size ≤ j
    → j < (vn.kmalloc_entry m.coremap).memory_end / page_size
    → is_free (page (vn.kmalloc_entry m.coremap).pages j).state ≡ true
    → (b : ℕ) × (m' : Memory D) × (vm_fault vn (some owner) addr random (some junk) true m
        ≡ ok (done tt, m'))
      × (is_free (page (vn.kmalloc_entry m.coremap).pages b).state ≡ true)
      × IsValid m'.coremap
      × (m'.coremap.pages
          ≡ set (vn.kmalloc_entry m.coremap).pages b (user_page owner (page_frame addr) false))
      × ((i : ℕ) → i < page_size → m'.coremap.ram (b * page_size + i) ≡ 0)
      × Maps (page_frame addr) (b * page_size) m'.tlb
      × (m'.spaces owner
          ≡ some (record space {
            page_table = space.page_table ++ new_entry junk (page_frame addr) (b * page_size) ∷ [];
          }))
      × ((other : ℕ) → other ≢ owner → m'.spaces other ≡ m.spaces other)
unfolding vm_fault new_page
vm_fault-new {D} vn m owner addr random j space junk valid is_space in_space lacks slot lo hi
      free_j =
    let c0 = vn.kmalloc_entry m.coremap in
    let inside = valid_address-InSpace (page_frame addr) space in_space in
    let vpage = page_frame addr in
    let missing = find_entry-Lacks vpage space.page_table lacks in
    elim (allocate_user_page-first c0 owner vpage false valid) [
      | inl (run, all) ↦ absurd (ground (arith, all j lo hi, free_j))
      | inr (b, c', run, valid', lo', free_b, before, pages', ram') ↦
          let ppage = b * page_size in
          let m1 : Memory D = record m { coremap = c' } in
          let m2 = put_table owner space (space.page_table ++ new_entry junk vpage ppage ∷ []) m1 in
          let lt = free_in_range c0.pages b free_b in
          let new = user_page owner vpage false in
          let here : page c'.pages b ≡ new =
            ap (λ ps. page ps b) pages' ∙ get_or-set_self c0.pages b new no_page lt in
          let made : new_page vn owner vpage space (some junk) true m ≡ ok (done ppage, m2) =
            ground (arith, run, lo', valid.above_zero) in
          let installed =
            install-referenced m2 random vpage b
              (omega (arith, ap length pages', length-set c0.pages b new, lt))
              (ap (λ (p : Page). p.ref_bit) here) in
          (
            b,
            record m2 { tlb = tlb_insert vpage ppage random m.tlb },
            ground (arith, is_space, inside, missing, made, installed),
            free_b,
            valid',
            pages',
            λ i below. ground (arith, ram' (ppage + i)),
            tlb_insert-Maps vpage ppage random m.tlb slot,
            ground arith,
            λ other ne. ground (arith, ne),
          )
    ]
